-- ===== src/Money/Ratio.antt =====
-- `(a / b * Decimal("100")).quantize(Decimal("0.01"))` of src/financial: the quotient is rounded to the
-- 28 digits of the default context, a tie to even, and the percentage to two places.
use tagro_echo_os.Base.{
  pos, ◌*ℤ◌, with_sign, magnitude, ℕ, zero, suc, ◌+◌, ◌*◌, ◌/◌, ◌%◌, ◌^◌, ◌≤◌, ◌<◌, ltb, leb,
  if◌then◌else◌, ◌≡◌, refl, ap, arith, div-add-mod, mod-lt, true, false, Bool-cases, inl, inr,
}
use native.Mathlib.Nat.{le_of_mul-le-mul_right, mul-le-mul_right, mul-one, mul_comm}
use tagro_echo_os.Money.{Decimal, hundredths, integer, div_half_up}

-- `n / d` rounded to the nearest integer, a tie to the even one.
unfoldable pub div_half_even : ℕ → ℕ → ℕ
div_half_even n d =
    let q = n / d in
    let r = n % d in if ltb (2 * r) d then q else if ltb d (2 * r) then q + 1 else q + q % 2

-- The number of decimal places at which `n / d` has 28 digits before the point.
unfoldable pub places_for : ℕ → ℕ → ℕ → ℕ
places_for zero n d = 0
places_for (suc fuel) n d = elim (leb (10 ^ 27 * d) n) [
  | true ↦ 0
  | false ↦ suc (places_for fuel (10 * n) d)
]

-- The number of digits that `n / d` has before the point beyond 28.
unfoldable pub excess_for : ℕ → ℕ → ℕ → ℕ
excess_for zero n d = 0
excess_for (suc fuel) n d = elim (ltb n (10 ^ 28 * d)) [
  | true ↦ 0
  | false ↦ suc (excess_for fuel n (10 * d))
]

-- Numerator and denominator of the quotient as the context keeps it.
unfoldable pub rounded_quotient : ℕ → ℕ → ℕ × ℕ
unfolding div_half_even places_for excess_for
rounded_quotient zero d = (0, 1)
rounded_quotient (suc m) d =
    let k = places_for (d + 27) (suc m) d in
    let j = excess_for (suc m) (suc m) d in
    (div_half_even (suc m * 10 ^ k) (d * 10 ^ j) * 10 ^ j, 10 ^ k)

unfoldable pub percent_by : (ℕ → ℕ → ℕ) → Decimal → Decimal → Decimal
unfolding rounded_quotient
percent_by round a b =
    let (c, q) =
      rounded_quotient (magnitude a.coeff * 10 ^ b.places) (magnitude b.coeff * 10 ^ a.places) in
    hundredths (with_sign (a.coeff *ℤ b.coeff) (round (c * 10000) q))

-- `(a / b * Decimal("100")).quantize(Decimal("0.01"))`, by the default ROUND_HALF_EVEN.
unfoldable pub ratio_pct : Decimal → Decimal → Decimal
unfolding percent_by div_half_even
ratio_pct = percent_by div_half_even

-- The same under ROUND_HALF_UP.
unfoldable pub ratio_pct_half_up : Decimal → Decimal → Decimal
unfolding percent_by div_half_up
ratio_pct_half_up = percent_by div_half_up

ratio_pct_examples :
    (ratio_pct (hundredths (pos 100)) (hundredths (pos 300)) ≡ hundredths (pos 3333))
    × (ratio_pct (hundredths (pos 100)) (integer (pos 32)) ≡ hundredths (pos 312))
    × (ratio_pct_half_up (hundredths (pos 100)) (integer (pos 32)) ≡ hundredths (pos 313))
unfolding ratio_pct ratio_pct_half_up ◌*ℤ◌
ratio_pct_examples = (refl, refl, refl)

pub div_half_even-at_most : (n d m : ℕ) → 0 < d → n ≤ m * d → div_half_even n d ≤ m
unfolding div_half_even
div_half_even-at_most n d m h le =
    let below : n / d ≤ m =
      le_of_mul-le-mul_right (omega (arith, div-add-mod n d, mod-lt n {m = d} h)) h in
    let parity : n / d % 2 < 2 = mod-lt (n / d) {m = 2} (omega arith) in
    elim (Bool-cases (ltb (n / d) m)) [
      | inl less ↦ ground (arith, less, parity)
      | inr equal ↦
          let exact : n / d ≡ m = ground (arith, equal, below) in
          let none_left : n % d ≡ 0 = omega (arith, div-add-mod n d, ap (λ q. q * d) exact, le) in
          ground (arith, exact, none_left)
    ]

excess-none : (n d : ℕ) → 0 < d → n ≤ d → excess_for n n d ≡ 0
unfolding excess_for
excess-none zero d h le = refl
excess-none (suc n) d h le = ground arith

pub rounded_quotient-at_most :
    (n d : ℕ) → 0 < d → n ≤ d → (rounded_quotient n d).0 ≤ (rounded_quotient n d).1
unfolding rounded_quotient
rounded_quotient-at_most zero d h le = omega arith
rounded_quotient-at_most (suc m) d h le =
    let k = places_for (d + 27) (suc m) d in
    let one : 10 ^ excess_for (suc m) (suc m) d ≡ 1 =
      ap (λ j. 10 ^ j) (excess-none (suc m) d h le) in
    rw (one, mul-one d, mul-one _)
      (div_half_even-at_most (suc m * 10 ^ k) d (10 ^ k) h
        (rw (mul_comm (10 ^ k) d) (mul-le-mul_right (10 ^ k) le)))
