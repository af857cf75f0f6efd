-- ===== src/Money/Order.antt =====
-- The order of decimals by their values, as the guards of src/billing/engine.py, src/payments/payments.py
-- and src/financial/expense_reconciliation.py compare sums and differences.
use tagro_echo_os.Base.{
  ℤ, pos, pos_part, neg_part, ◌+ℤ◌, +ℤ_parts, -ℤ_parts, scale_parts, eq_of_parts, int_laws, scale,
  ltb_ℤ, ℕ, suc, ◌+◌, ◌-◌, ◌^◌, ◌≤◌, max, Bool, true, false, ◌≡◌, refl, sym, ap, arith, ◌↔◌, ◌≤ℤ◌,
}
use mathlib.Core.Path.{subst}
use tagro_echo_os.Money.{Decimal, rescaled, zero_dec, lt_dec, plus, minus}
use tagro_echo_os.Money.Scaling.{scale-mono, scale-cancel, rescale, rescaled-plus, rescaled-minus}
use tagro_echo_os.Money.Rounding.{pow10_pos}

-- `a` has a greater value than `b`: at the same number of places its coefficient is greater.
abbrev pub IsMore : Decimal → Decimal → Type 0
IsMore a b =
    (n : ℕ) × (scale a.coeff (10 ^ b.places) ≡ scale b.coeff (10 ^ a.places) +ℤ pos (suc n))

above : (a b : ℤ) → ltb_ℤ b a ≡ true → (n : ℕ) × (a ≡ b +ℤ pos (suc n))
unfolding ◌+ℤ◌
above a b h = (pos_part a + neg_part b - (pos_part b + neg_part a) - 1, ground arith)

above_of : (a b : ℤ) (n : ℕ) → a ≡ b +ℤ pos (suc n) → ltb_ℤ b a ≡ true
above_of a b n e =
    let parts : pos_part a + neg_part b ≡ neg_part a + pos_part b + suc n = rw e (omega int_laws) in
    ground (arith, parts)

pub lt_dec-IsMore : (a b : Decimal) → (lt_dec b a ≡ true) ↔ IsMore a b
unfolding lt_dec
lt_dec-IsMore a b = (
  λ h. above (scale a.coeff (10 ^ b.places)) (scale b.coeff (10 ^ a.places)) h,
  λ (n, e). above_of (scale a.coeff (10 ^ b.places)) (scale b.coeff (10 ^ a.places)) n e,
)

-- An order at one number of places is the order at another.
le_at :
    (a b : Decimal) (m n : ℕ)
    → max a.places b.places ≤ m
    → max a.places b.places ≤ n
    → rescaled b m ≤ℤ rescaled a m
    → rescaled b n ≤ℤ rescaled a n
le_at a b m n at_m at_n h =
    let k = m + n in
    let up =
      λ (d : Decimal) (j : ℕ) (le : d.places ≤ j) (l : j ≤ k). rescale d.coeff d.places j k le l in
    let b_m : b.places ≤ m = ground arith in
    let a_m : a.places ≤ m = ground arith in
    let b_n : b.places ≤ n = ground arith in
    let a_n : a.places ≤ n = ground arith in
    let m_k : m ≤ k = omega arith in
    let n_k : n ≤ k = omega arith in
    let wide : rescaled b k ≤ℤ rescaled a k =
      subst (λ z. z ≤ℤ rescaled a k) (up b m b_m m_k)
        (subst (λ z. scale (rescaled b m) (10 ^ (k - m)) ≤ℤ z) (up a m a_m m_k)
          (scale-mono (rescaled b m) (rescaled a m) (10 ^ (k - m)) h)) in
    scale-cancel (rescaled b n) (rescaled a n) (10 ^ (k - n)) (pow10_pos (k - n)) (
      subst (λ z. z ≤ℤ scale (rescaled a n) (10 ^ (k - n))) (sym (up b n b_n n_k))
        (subst (λ z. rescaled b k ≤ℤ z) (sym (up a n a_n n_k)) wide))

sum_gaps : (a b : ℕ) → (a + b - a ≡ b) × (a + b - b ≡ a)
sum_gaps a b = (omega arith, omega arith)

-- What `not (a < b)` says at any number of places that is enough.
pub not_lt :
    (a b : Decimal) (n : ℕ)
    → max a.places b.places ≤ n
    → (lt_dec a b ≡ false) ↔ (rescaled b n ≤ℤ rescaled a n)
unfolding lt_dec
not_lt a b n h =
    let m = a.places + b.places in
    let (of_b, of_a) = sum_gaps a.places b.places in
    let at_m : max a.places b.places ≤ m = ground arith in
    (
      λ no. le_at a b m n at_m h (rw (of_b, of_a) (ground (arith, no))),
      λ le.
          let back : rescaled b m ≤ℤ rescaled a m = le_at a b n m h at_m le in
          let flat : scale b.coeff (10 ^ a.places) ≤ℤ scale a.coeff (10 ^ b.places) =
            subst (λ i. scale b.coeff (10 ^ i) ≤ℤ scale a.coeff (10 ^ b.places)) of_a
              (subst (λ i. scale b.coeff (10 ^ (m - b.places)) ≤ℤ scale a.coeff (10 ^ i)) of_b
                back) in
          ground (arith, flat),
    )

same_test : (b c : Bool) → (b ≡ false → c ≡ false) → (c ≡ false → b ≡ false) → b ≡ c
same_test true true f g = refl
same_test true false f g = g refl
same_test false true f g = sym (f refl)
same_test false false f g = refl

no_value : (n : ℕ) → rescaled zero_dec n ≡ pos 0
no_value n = omega (arith, eq_of_parts, scale_parts (pos 0) (10 ^ (n - 0)))

-- A difference has the sign that the comparison gives it.
pub lt_dec-minus : (a b : Decimal) → lt_dec zero_dec (minus a b) ≡ lt_dec b a
unfolding minus
lt_dec-minus a b =
    let n = max a.places b.places in
    let a_n : a.places ≤ n = ground arith in
    let b_n : b.places ≤ n = ground arith in
    let value = rescaled-minus a b n a_n b_n in
    let left = not_lt zero_dec (minus a b) n (ground arith) in
    let right = not_lt b a n (ground arith) in
    let parts = -ℤ_parts (rescaled a n) (rescaled b n) in
    let zero_n = no_value n in
    same_test (lt_dec zero_dec (minus a b)) (lt_dec b a)
      (λ h.
        let le = left.0 h in
        right.1 (
          omega (
            arith,
            le,
            ap pos_part value,
            ap neg_part value,
            ap pos_part zero_n,
            ap neg_part zero_n,
            parts,
          )))
      (λ h.
        let le = right.0 h in
        left.1 (
          omega (
            arith,
            le,
            ap pos_part value,
            ap neg_part value,
            ap pos_part zero_n,
            ap neg_part zero_n,
            parts,
          )))

pub minus-lt_dec : (a b : Decimal) → lt_dec (minus a b) zero_dec ≡ lt_dec a b
unfolding minus
minus-lt_dec a b =
    let n = max a.places b.places in
    let a_n : a.places ≤ n = ground arith in
    let b_n : b.places ≤ n = ground arith in
    let value = rescaled-minus a b n a_n b_n in
    let left = not_lt (minus a b) zero_dec n (ground arith) in
    let right = not_lt a b n (ground arith) in
    let parts = -ℤ_parts (rescaled a n) (rescaled b n) in
    let zero_n = no_value n in
    same_test (lt_dec (minus a b) zero_dec) (lt_dec a b)
      (λ h.
        let le = left.0 h in
        right.1 (
          omega (
            arith,
            le,
            ap pos_part value,
            ap neg_part value,
            ap pos_part zero_n,
            ap neg_part zero_n,
            parts,
          )))
      (λ h.
        let le = right.0 h in
        left.1 (
          omega (
            arith,
            le,
            ap pos_part value,
            ap neg_part value,
            ap pos_part zero_n,
            ap neg_part zero_n,
            parts,
          )))

-- What is at most the rest of an amount may be taken in addition.
pub plus_within : (p a x : Decimal) → lt_dec (minus p a) x ≡ false → lt_dec p (plus a x) ≡ false
unfolding minus plus
plus_within p a x h =
    let n = p.places + a.places + x.places in
    let p_n : p.places ≤ n = omega arith in
    let a_n : a.places ≤ n = omega arith in
    let x_n : x.places ≤ n = omega arith in
    let rest = rescaled-minus p a n p_n a_n in
    let both = rescaled-plus a x n a_n x_n in
    let le = (not_lt (minus p a) x n (ground arith)).0 h in
    (not_lt p (plus a x) n (ground arith)).1 (
      omega (
        arith,
        le,
        ap pos_part rest,
        ap neg_part rest,
        ap pos_part both,
        ap neg_part both,
        -ℤ_parts (rescaled p n) (rescaled a n),
        +ℤ_parts (rescaled a n) (rescaled x n),
      ))

pub lt_dec-asym : (a b : Decimal) → lt_dec a b ≡ true → lt_dec b a ≡ false
unfolding lt_dec
lt_dec-asym a b h = ground arith
