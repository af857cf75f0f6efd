-- ===== src/Money/Signs.antt =====
-- Signs of sums and differences of decimals, as the guards of src/business/store.py test them.
use tagro_echo_os.Base.{
  ℤ, pos, negsuc, ◌+ℤ◌, ◌-ℤ◌, scale, neg_part, pos_part, leb, ℕ, zero, suc, ◌+◌, ◌-◌, ◌*◌, ◌^◌, ◌≤◌,
  max, false, ◌≡◌, refl, sym, ap, ◌∙◌, arith, inl, inr, Bool-cases,
}
use mathlib.Core.Path.{subst}
use native.Mathlib.Nat.{
  pow-suc, zero-add, suc-add, one-mul, mul-one, mul_comm, mul_assoc, mul_right_comm,
  le_of_mul-le-mul_right,
}
use tagro_echo_os.Money.{Decimal, zero_dec, lt_dec, le_dec, plus, negate}
use tagro_echo_os.Money.Rounding.{pow10_pos}

sign : (z : ℤ) → neg_part z ≡ 0 → (m : ℕ) × (z ≡ pos m)
sign (pos m) h = (m, refl)
sign (negsuc m) h = ground arith

pub pow_split : (a b : ℕ) → 10 ^ (a + b) ≡ 10 ^ a * 10 ^ b
pow_split zero b = ap (λ n. 10 ^ n) (zero-add b) ∙ sym (one-mul (10 ^ b))
pow_split (suc a) b =
    ap (λ n. 10 ^ n) (suc-add a b)
    ∙ pow-suc 10 (a + b)
    ∙ ap (λ n. n * 10) (pow_split a b)
    ∙ mul_right_comm (10 ^ a) (10 ^ b) 10
    ∙ ap (λ n. n * 10 ^ b) (sym (pow-suc 10 a))

-- A comparison at the smaller number of places.
narrow : (m k p d : ℕ) → k * 10 ^ p ≤ m * 10 ^ (p + d) → k ≤ m * 10 ^ d
narrow m k p d h =
    le_of_mul-le-mul_right
      (subst (λ n. k * 10 ^ p ≤ n)
        (ap (λ n. m * n) (pow_split p d)
          ∙ ap (λ n. m * n) (mul_comm (10 ^ p) (10 ^ d))
          ∙ sym (mul_assoc m (10 ^ d) (10 ^ p)))
        h)
      (pow10_pos p)

widen : (m k p d : ℕ) → k * 10 ^ (p + d) ≤ m * 10 ^ p → k * 10 ^ d ≤ m
widen m k p d h =
    le_of_mul-le-mul_right
      (subst (λ n. n ≤ m * 10 ^ p)
        (ap (λ n. k * n) (pow_split p d)
          ∙ ap (λ n. k * n) (mul_comm (10 ^ p) (10 ^ d))
          ∙ sym (mul_assoc k (10 ^ d) (10 ^ p)))
        h)
      (pow10_pos p)

scaled_le :
    (m k pa pq : ℕ)
    → k * 10 ^ pa ≤ m * 10 ^ pq
    → k * 10 ^ (max pa pq - pq) ≤ m * 10 ^ (max pa pq - pa)
scaled_le m k pa pq h = elim (Bool-cases (leb pa pq)) [
  | inl less ↦
      let split : pq ≡ pa + (pq - pa) = ground arith in
      let same : max pa pq - pq ≡ 0 = ground arith in
      let gap : max pa pq - pa ≡ pq - pa = ground arith in
      rw (same, gap)
        (subst (λ n. n ≤ m * 10 ^ (pq - pa)) (sym (mul-one k))
          (narrow m k pa (pq - pa) (subst (λ n. k * 10 ^ pa ≤ m * 10 ^ n) split h)))
  | inr other ↦
      let split : pa ≡ pq + (pa - pq) = ground arith in
      let same : max pa pq - pa ≡ 0 = ground arith in
      let gap : max pa pq - pq ≡ pa - pq = ground arith in
      rw (same, gap)
        (subst (λ n. k * 10 ^ (pa - pq) ≤ n) (sym (mul-one m))
          (widen m k pq (pa - pq) (subst (λ n. k * 10 ^ n ≤ m * 10 ^ pq) split h)))
]

not_below : (d : Decimal) → lt_dec d zero_dec ≡ false → (m : ℕ) × (d.coeff ≡ pos m)
unfolding lt_dec scale
not_below d h = sign d.coeff (ground arith)

above_zero : (d : Decimal) (m : ℕ) → d.coeff ≡ pos m → lt_dec d zero_dec ≡ false
unfolding lt_dec scale
above_zero d m e = ground (arith, e)

positive : (d : Decimal) → le_dec d zero_dec ≡ false → (m : ℕ) × (d.coeff ≡ pos m)
unfolding le_dec scale
positive d h = sign d.coeff (ground arith)

add_pos :
    (a b : ℤ) (m n x y : ℕ) → a ≡ pos m → b ≡ pos n → scale a x +ℤ scale b y ≡ pos (m * x + n * y)
unfolding scale ◌+ℤ◌
add_pos a b m n x y h k = ground (arith, h, k)

negated_parts :
    (n y : ℕ)
    → (pos_part (scale (pos 0 -ℤ pos n) y) ≡ 0) × (neg_part (scale (pos 0 -ℤ pos n) y) ≡ n * y)
unfolding scale ◌-ℤ◌
negated_parts zero y = (ground arith, ground arith)
negated_parts (suc n) y = (ground arith, ground arith)

scaled_parts : (m x : ℕ) → scale (pos m) x ≡ pos (m * x)
unfolding scale
scaled_parts m x = ground arith

sub_pos :
    (a b : ℤ) (m n x y : ℕ)
    → a ≡ pos m
    → b ≡ pos n
    → n * y ≤ m * x
    → scale a x +ℤ scale (pos 0 -ℤ b) y ≡ pos (m * x - n * y)
unfolding ◌+ℤ◌
sub_pos a b m n x y h k le =
    ap (λ z. scale z x +ℤ scale (pos 0 -ℤ b) y) h
    ∙ ap (λ z. scale (pos m) x +ℤ scale (pos 0 -ℤ z) y) k
    ∙ ap (λ z. z +ℤ scale (pos 0 -ℤ pos n) y) (scaled_parts m x)
    ∙ ground (arith, negated_parts n y)

covered_scaled :
    (a q : Decimal) (m n : ℕ)
    → a.coeff ≡ pos m
    → q.coeff ≡ pos n
    → lt_dec a q ≡ false
    → n * 10 ^ a.places ≤ m * 10 ^ q.places
unfolding lt_dec scale
covered_scaled a q m n h k l = ground (arith, h, k)

-- A sum of two amounts whose coefficients are not negative.
pub plus_positive :
    (a q : Decimal)
    → lt_dec a zero_dec ≡ false
    → le_dec q zero_dec ≡ false
    → lt_dec (plus a q) zero_dec ≡ false
unfolding plus
plus_positive a q h k =
    let (m, is_m) = not_below a h in
    let (n, is_n) = positive q k in
    above_zero (plus a q)
      (m * 10 ^ (max a.places q.places - a.places) + n * 10 ^ (max a.places q.places - q.places))
      (add_pos a.coeff q.coeff m n (10 ^ (max a.places q.places - a.places))
        (10 ^ (max a.places q.places - q.places)) is_m is_n)

pub minus_covered :
    (a q : Decimal)
    → lt_dec a zero_dec ≡ false
    → lt_dec a q ≡ false
    → le_dec q zero_dec ≡ false
    → lt_dec (plus a (negate q)) zero_dec ≡ false
unfolding plus negate
minus_covered a q h covered k =
    let (m, is_m) = not_below a h in
    let (n, is_n) = positive q k in
    let x = 10 ^ (max a.places q.places - a.places) in
    let y = 10 ^ (max a.places q.places - q.places) in
    above_zero (plus a (negate q)) (m * x - n * y) (
      sub_pos a.coeff q.coeff m n x y is_m is_n
        (scaled_le m n a.places q.places (covered_scaled a q m n is_m is_n covered)))
