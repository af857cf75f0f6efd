-- ===== src/Money.antt =====
-- Python's `decimal.Decimal` as the program uses it, and the rounding `money` of src/cash/engine.py,
-- src/billing/engine.py, src/business/models.py, src/purchase/orders.py and src/financial/health.py.
pub mod Rounding
pub mod Ratio
pub mod Show
pub mod Signs
mod Scaling
pub mod Order
pub mod Parts
mod Examples
use tagro_echo_os.Base.{
  ℤ, pos, ◌+ℤ◌, ◌-ℤ◌, ◌*ℤ◌, with_sign, magnitude, scale, ltb_ℤ, leb_ℤ, ℕ, ◌+◌, ◌-◌, ◌*◌, ◌/◌, ◌^◌,
  max, List, Bool, ◌&&◌, ◌≡◌, refl, negsuc, [], ◌∷◌,
}

-- coeff / 10 ^ places
pub record Decimal : Type 0 where
  pub coeff : ℤ
  pub places : ℕ

-- `Decimal(n)` of an integer.
abbrev pub integer : ℤ → Decimal
integer n = record { coeff = n; places = 0 }

-- `Decimal("0")`
abbrev pub zero_dec : Decimal
zero_dec = integer (pos 0)

-- A decimal with two places, from its number of hundredths.
abbrev pub hundredths : ℤ → Decimal
hundredths n = record { coeff = n; places = 2 }

-- The coefficient of `d` at `p` places, for `p` at least its own.
abbrev pub rescaled : Decimal → ℕ → ℤ
rescaled d p = scale d.coeff (10 ^ (p - d.places))

unfoldable pub plus : Decimal → Decimal → Decimal
plus a b =
    let p = max a.places b.places in record { coeff = rescaled a p +ℤ rescaled b p; places = p }

unfoldable pub minus : Decimal → Decimal → Decimal
minus a b =
    let p = max a.places b.places in record { coeff = rescaled a p -ℤ rescaled b p; places = p }

-- `-d`
unfoldable pub negate : Decimal → Decimal
negate d = record d { coeff = pos 0 -ℤ d.coeff }

unfoldable pub times : Decimal → Decimal → Decimal
times a b = record { coeff = a.coeff *ℤ b.coeff; places = a.places + b.places }

-- `d / Decimal("100")`
unfoldable pub percent : Decimal → Decimal
percent d = record d { places = d.places + 2 }

-- `abs(d)`
unfoldable pub abs : Decimal → Decimal
abs d = record d { coeff = pos (magnitude d.coeff) }

-- `a < b`, by value.
unfoldable pub lt_dec : Decimal → Decimal → Bool
lt_dec a b = ltb_ℤ (scale a.coeff (10 ^ b.places)) (scale b.coeff (10 ^ a.places))

-- `a <= b`, by value.
unfoldable pub le_dec : Decimal → Decimal → Bool
le_dec a b = leb_ℤ (scale a.coeff (10 ^ b.places)) (scale b.coeff (10 ^ a.places))

-- `a == b`, by value.
unfoldable pub eq_dec : Decimal → Decimal → Bool
unfolding le_dec
eq_dec a b = le_dec a b && le_dec b a

-- `n / d` rounded to the nearest integer, a tie upwards.
unfoldable pub div_half_up : ℕ → ℕ → ℕ
div_half_up n d = (2 * n + d) / (2 * d)

-- The number of hundredths of `d` under `ROUND_HALF_UP`: nearest, and a tie away from zero.
unfoldable pub cents : Decimal → ℤ
unfolding div_half_up
cents d = with_sign d.coeff (div_half_up (magnitude d.coeff * 100) (10 ^ d.places))

-- `Decimal(x).quantize(Decimal("0.01"), rounding=ROUND_HALF_UP)`
unfoldable pub money : Decimal → Decimal
unfolding cents
money d = hundredths (cents d)

unfoldable pub sum_from : Decimal → List Decimal → Decimal
sum_from acc [] = acc
sum_from acc (x ∷ xs) = sum_from (plus acc x) xs

-- `sum(xs, Decimal("0"))`, from the left.
unfoldable pub sum_dec : List Decimal → Decimal
unfolding sum_from
sum_dec = sum_from zero_dec

-- 2.345 is rounded up and -2.345 down; 2.344 is rounded down.
money_examples :
    (money (record { coeff = pos 2345; places = 3 }) ≡ hundredths (pos 235))
    × (money (record { coeff = negsuc 2344; places = 3 }) ≡ hundredths (negsuc 234))
    × (money (record { coeff = pos 2344; places = 3 }) ≡ hundredths (pos 234))
unfolding money
money_examples = (refl, refl, refl)

sum_dec_example : sum_dec (hundredths (pos 150) ∷ integer (pos 2) ∷ []) ≡ hundredths (pos 350)
unfolding sum_dec plus ◌+ℤ◌ scale
sum_dec_example = refl
