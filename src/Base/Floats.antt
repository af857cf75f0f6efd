-- ===== src/Base/Floats.antt =====
-- Python's floats as the prism uses them: finite doubles, each a whole number of units of 2 ^ -1074.
-- Comparisons are exact; a difference is rounded to 53 bits, a tie to even.
use Prim.Native.Nat.{ℕ, zero, suc, ◌+◌, ◌-◌, ◌*◌, ◌/◌, ◌%◌, ◌^◌}
use mathlib.Core.Path.{◌≡◌, refl}
use mathlib.Core.Bool.{Bool, true, false, ◌&&◌}
use native.Mathlib.Omega.{arith}
use tagro_echo_os.Base.Tests.{ltb, if◌then◌else◌}
use tagro_echo_os.Base.Int.{ℤ, pos, ◌-ℤ◌, magnitude, ltb_ℤ, leb_ℤ}

pub record Float : Type 0 where
  pub units : ℤ

-- The double m / 2 ^ k.
abbrev pub double : ℕ → ℕ → Float
double m k = record { units = pos (m * 2 ^ (1074 - k)) }

unfoldable pub le_float : Float → Float → Bool
le_float a b = leb_ℤ a.units b.units

unfoldable pub lt_float : Float → Float → Bool
lt_float a b = ltb_ℤ a.units b.units

-- The number of bits of `n` beyond 53. A finite double has at most 2098 bits in units.
extra_bits : ℕ → ℕ → ℕ
extra_bits zero n = 0
extra_bits (suc fuel) n = elim (ltb n (2 ^ 53)) [ true ↦ 0 | false ↦ suc (extra_bits fuel (n / 2)) ]

half_even : ℕ → ℕ → ℕ
half_even n d =
    let q = n / d in
    let r = n % d in if ltb (2 * r) d then q else if ltb d (2 * r) then q + 1 else q + q % 2

-- The double nearest to a number of units.
round_bits : ℕ → ℕ
unfolding extra_bits half_even
round_bits n = let e = extra_bits 2099 n in half_even n (2 ^ e) * 2 ^ e

-- `abs(a - b)`
unfoldable pub abs_difference : Float → Float → Float
unfolding round_bits ◌-ℤ◌
abs_difference a b = record { units = pos (round_bits (magnitude (a.units -ℤ b.units))) }

abbrev pub one_float : Float
one_float = double 1 0

abbrev pub zero_float : Float
zero_float = record { units = pos 0 }

-- `0.0 <= x <= 1.0`
unfoldable pub in_unit : Float → Bool
unfolding le_float
in_unit x = le_float zero_float x && le_float x one_float

-- 0.97 - 0.85 rounds to 0.12, the double.
abs_difference_example :
    lt_float
      (abs_difference (double 4368491638549381 52) (double 7656119366529843 53))
      (double 1080863910568919 53)
    ≡ false
unfolding lt_float abs_difference
abs_difference_example = refl

pub le_float_trans :
    (a b c : Float) → le_float a b ≡ true → le_float b c ≡ true → le_float a c ≡ true
unfolding le_float
le_float_trans a b c h k = ground arith

pub le_float_total : (a b : Float) → le_float a b ≡ false → le_float b a ≡ true
unfolding le_float
le_float_total a b h = ground arith
