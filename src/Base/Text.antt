-- ===== src/Base/Text.antt =====
-- The string tests of the source. `str.strip` removes the white space of Python's `str.isspace`.
use Prim.Native.Nat.{ℕ, zero, suc, ◌/◌, ◌%◌}
use Prim.Native.Char.{code}
use Prim.Native.String.{String}
use mathlib.Core.Path.{◌≡◌, refl}
use mathlib.Core.List.{List, [], ◌∷◌}
use mathlib.Core.Bool.{Bool, true, false, ◌&&◌, ◌||◌}
use tagro_echo_os.Base.Tests.{leb, nat_eq, if◌then◌else◌}

-- Python's `str.isspace` of one code point.
unfoldable pub is_space : ℕ → Bool
is_space c =
    (leb 9 c && leb c 13)
    || (leb 28 c && leb c 32)
    || nat_eq c 133
    || nat_eq c 160
    || nat_eq c 5760
    || (leb 8192 c && leb c 8202)
    || nat_eq c 8232
    || nat_eq c 8233
    || nat_eq c 8239
    || nat_eq c 8287
    || nat_eq c 12288

-- `not s.strip()`: nothing is left of the text.
unfoldable pub is_blank : String → Bool
unfolding is_space
is_blank String.[] = true
is_blank (String.◌∷◌ c s) = is_space (code c) && is_blank s

-- `not s`
unfoldable pub is_empty : String → Bool
is_empty String.[] = true
is_empty (String.◌∷◌ c s) = false

lstrip : String → String
unfolding is_space
lstrip String.[] = String.[]
lstrip (String.◌∷◌ c s) = let rest = lstrip s in if is_space (code c) then rest else String.◌∷◌ c s

rstrip : String → String
unfolding is_space is_empty
rstrip String.[] = String.[]
rstrip (String.◌∷◌ c s) =
    let rest = rstrip s in
    if is_space (code c) && is_empty rest then String.[] else String.◌∷◌ c rest

-- `s.strip()`
unfoldable pub strip : String → String
unfolding lstrip rstrip
strip s = rstrip (lstrip s)

-- `s + t`
unfoldable pub append : String → String → String
append String.[] t = t
append (String.◌∷◌ c s) t = String.◌∷◌ c (append s t)

digit : ℕ → String
digit d =
    if nat_eq d 0
    then "0"
    else if nat_eq d 1
    then "1"
    else if nat_eq d 2
    then "2"
    else if nat_eq d 3
    then "3"
    else if nat_eq d 4
    then "4"
    else if nat_eq d 5
    then "5"
    else if nat_eq d 6
    then "6"
    else if nat_eq d 7
    then "7"
    else if nat_eq d 8
    then "8"
    else "9"

digits : ℕ → ℕ → String
unfolding digit append
digits zero n = digit n
digits (suc fuel) n = elim (leb 10 n) [
  | true ↦ append (digits fuel (n / 10)) (digit (n % 10))
  | false ↦ digit n
]

-- `str(n)`. There are at most `n` digits after the first.
unfoldable pub show : ℕ → String
unfolding digits
show n = digits n n

-- `str(n)[-2:]`
unfoldable pub last_two_digits : ℕ → String
unfolding digit append
last_two_digits n = if leb 10 n then append (digit (n / 10 % 10)) (digit (n % 10)) else digit n

-- `sep.join(parts)`
unfoldable pub join : String → List String → String
unfolding append
join sep [] = ""
join sep (s ∷ []) = s
join sep (s ∷ t ∷ rest) = append s (append sep (join sep (t ∷ rest)))

show_examples :
    (show 0 ≡ "0")
    × (show 2026 ≡ "2026")
    × (last_two_digits 2026 ≡ "26")
    × (join "; " ("a" ∷ "b" ∷ []) ≡ "a; b")
unfolding show last_two_digits join
show_examples = (refl, refl, refl, refl)

strip_example : strip "  a b " ≡ "a b"
unfolding strip
strip_example = refl
