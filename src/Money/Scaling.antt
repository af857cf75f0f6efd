-- ===== src/Money/Scaling.antt =====
-- Coefficients at a greater number of places, for the sums and the differences of decimals that the program
-- takes (src/payments/payments.py, src/financial/expense_reconciliation.py).
use tagro_echo_os.Base.{
  ℤ, pos_part, neg_part, ◌+ℤ◌, ◌-ℤ◌, +ℤ_parts, -ℤ_parts, scale_parts, eq_of_parts, scale, ℕ, ◌+◌,
  ◌-◌, ◌*◌, ◌^◌, ◌≤◌, ◌<◌, max, ◌≡◌, sym, ap, ◌∙◌, arith, ◌≤ℤ◌,
}
use mathlib.Core.Path.{subst, ap₂}
use native.Mathlib.Nat.{add-mul, mul_assoc, mul-le-mul_right, le_of_mul-le-mul_right}
use tagro_echo_os.Money.{Decimal, rescaled, plus, minus}
use tagro_echo_os.Money.Signs.{pow_split}

mul_three : (a b c m : ℕ) → (a + b + c) * m ≡ a * m + b * m + c * m
mul_three a b c m = add-mul (a + b) c m ∙ ap (λ n. n + c * m) (add-mul a b m)

scale-plus : (a b : ℤ) (m : ℕ) → scale (a +ℤ b) m ≡ scale a m +ℤ scale b m
scale-plus a b m =
    let times =
      sym (mul_three (pos_part (a +ℤ b)) (neg_part a) (neg_part b) m)
      ∙ ap (λ n. n * m) (+ℤ_parts a b)
      ∙ mul_three (neg_part (a +ℤ b)) (pos_part a) (pos_part b) m in
    omega (
      arith,
      eq_of_parts,
      times,
      scale_parts (a +ℤ b) m,
      scale_parts a m,
      scale_parts b m,
      +ℤ_parts (scale a m) (scale b m),
    )

scale-minus : (a b : ℤ) (m : ℕ) → scale (a -ℤ b) m ≡ scale a m -ℤ scale b m
scale-minus a b m =
    let times =
      sym (mul_three (pos_part (a -ℤ b)) (neg_part a) (pos_part b) m)
      ∙ ap (λ n. n * m) (-ℤ_parts a b)
      ∙ mul_three (neg_part (a -ℤ b)) (pos_part a) (neg_part b) m in
    omega (
      arith,
      eq_of_parts,
      times,
      scale_parts (a -ℤ b) m,
      scale_parts a m,
      scale_parts b m,
      -ℤ_parts (scale a m) (scale b m),
    )

scale-scale : (a : ℤ) (m n : ℕ) → scale (scale a m) n ≡ scale a (m * n)
scale-scale a m n =
    let times =
      sym (add-mul (pos_part (scale a m)) (neg_part a * m) n)
      ∙ ap (λ k. k * n) (scale_parts a m)
      ∙ add-mul (neg_part (scale a m)) (pos_part a * m) n in
    omega (
      arith,
      eq_of_parts,
      times,
      scale_parts (scale a m) n,
      scale_parts a (m * n),
      mul_assoc (pos_part a) m n,
      mul_assoc (neg_part a) m n,
    )

pub scale-mono : (a b : ℤ) (m : ℕ) → a ≤ℤ b → scale a m ≤ℤ scale b m
scale-mono a b m h =
    let times : pos_part a * m + neg_part b * m ≤ pos_part b * m + neg_part a * m =
      subst (λ n. n ≤ pos_part b * m + neg_part a * m) (add-mul (pos_part a) (neg_part b) m)
        (subst (λ n. (pos_part a + neg_part b) * m ≤ n) (add-mul (pos_part b) (neg_part a) m)
          (mul-le-mul_right m h)) in
    omega (arith, times, scale_parts a m, scale_parts b m)

pub scale-cancel : (a b : ℤ) (m : ℕ) → 0 < m → scale a m ≤ℤ scale b m → a ≤ℤ b
scale-cancel a b m some h =
    let times : pos_part a * m + neg_part b * m ≤ pos_part b * m + neg_part a * m =
      omega (arith, h, scale_parts a m, scale_parts b m) in
    le_of_mul-le-mul_right
      (subst (λ n. n ≤ (pos_part b + neg_part a) * m) (sym (add-mul (pos_part a) (neg_part b) m))
        (subst (λ n. pos_part a * m + neg_part b * m ≤ n)
          (sym (add-mul (pos_part b) (neg_part a) m)) times))
      some

-- A change of the number of places in two steps.
pub rescale :
    (z : ℤ) (i j k : ℕ)
    → i ≤ j
    → j ≤ k
    → scale (scale z (10 ^ (j - i))) (10 ^ (k - j)) ≡ scale z (10 ^ (k - i))
rescale z i j k h l =
    let gap : j - i + (k - j) ≡ k - i = omega (arith, h, l) in
    scale-scale z (10 ^ (j - i)) (10 ^ (k - j))
    ∙ ap (scale z) (sym (pow_split (j - i) (k - j)) ∙ ap (λ n. 10 ^ n) gap)

pub rescaled-plus :
    (a b : Decimal) (n : ℕ)
    → a.places ≤ n
    → b.places ≤ n
    → rescaled (plus a b) n ≡ rescaled a n +ℤ rescaled b n
unfolding plus
rescaled-plus a b n h k =
    let p = max a.places b.places in
    let top : p ≤ n = ground (arith, h, k) in
    scale-plus (rescaled a p) (rescaled b p) (10 ^ (n - p))
    ∙ ap₂ ◌+ℤ◌ (rescale a.coeff a.places p n (ground arith) top)
        (rescale b.coeff b.places p n (ground arith) top)

pub rescaled-minus :
    (a b : Decimal) (n : ℕ)
    → a.places ≤ n
    → b.places ≤ n
    → rescaled (minus a b) n ≡ rescaled a n -ℤ rescaled b n
unfolding minus
rescaled-minus a b n h k =
    let p = max a.places b.places in
    let top : p ≤ n = ground (arith, h, k) in
    scale-minus (rescaled a p) (rescaled b p) (10 ^ (n - p))
    ∙ ap₂ ◌-ℤ◌ (rescale a.coeff a.places p n (ground arith) top)
        (rescale b.coeff b.places p n (ground arith) top)
