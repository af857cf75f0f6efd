-- ===== src/Base/Dates.antt =====
-- Python's `date` as the financial code uses it: the order of dates, and their ordinals in the proleptic
-- Gregorian calendar, whose differences are the days of a `timedelta`.
use Prim.Native.Nat.{ℕ, ◌+◌, ◌-◌, ◌*◌, ◌/◌, ◌%◌}
use mathlib.Core.Path.{◌≡◌, refl}
use mathlib.Core.Bool.{Bool, true, false, not, ◌&&◌, ◌||◌}
use native.Mathlib.Omega.{arith}
use tagro_echo_os.Base.Tests.{ltb, leb, nat_eq, if◌then◌else◌}
use tagro_echo_os.Base.Int.{ℤ, sub_ℕ, pos}

pub record Date : Type 0 where
  pub year : ℕ
  pub month : ℕ
  pub day : ℕ

-- `a <= b`
unfoldable pub le_date : Date → Date → Bool
le_date a b =
    ltb a.year b.year
    || (nat_eq a.year b.year
        && (ltb a.month b.month || (nat_eq a.month b.month && leb a.day b.day)))

-- `a == b`
unfoldable pub eq_date : Date → Date → Bool
unfolding le_date
eq_date a b = le_date a b && le_date b a

unfoldable pub is_leap : ℕ → Bool
is_leap y = nat_eq (y % 4) 0 && (not (nat_eq (y % 100) 0) || nat_eq (y % 400) 0)

unfoldable pub days_before_month : ℕ → ℕ → ℕ
unfolding is_leap
days_before_month y m =
    (if nat_eq m 1
      then 0
      else if nat_eq m 2
      then 31
      else if nat_eq m 3
      then 59
      else if nat_eq m 4
      then 90
      else if nat_eq m 5
      then 120
      else if nat_eq m 6
      then 151
      else if nat_eq m 7
      then 181
      else if nat_eq m 8
      then 212
      else if nat_eq m 9
      then 243
      else if nat_eq m 10
      then 273
      else if nat_eq m 11
      then 304
      else 334)
    + (if ltb 2 m && is_leap y then 1 else 0)

-- `d.toordinal()`
unfoldable pub ordinal : Date → ℕ
unfolding days_before_month
ordinal d =
    let y = d.year - 1 in
    y * 365 + y / 4 - y / 100 + y / 400 + days_before_month d.year d.month + d.day

-- `(a - b).days`
unfoldable pub days_between : Date → Date → ℤ
unfolding ordinal
days_between a b = sub_ℕ (ordinal a) (ordinal b)

ordinal_examples :
    (ordinal (record { year = 1; month = 1; day = 1 }) ≡ 1)
    × (ordinal (record { year = 2026; month = 7; day = 4 }) ≡ 739801)
    × (days_between
          (record { year = 2024; month = 3; day = 1 })
          (record { year = 2024; month = 2; day = 28 })
        ≡ pos 2)
unfolding days_between
ordinal_examples = (refl, refl, refl)

pub le_date_trans : (a b c : Date) → le_date a b ≡ true → le_date b c ≡ true → le_date a c ≡ true
unfolding le_date
le_date_trans a b c h k = ground arith

pub le_date_total : (a b : Date) → le_date a b ≡ false → le_date b a ≡ true
unfolding le_date
le_date_total a b h = ground arith
