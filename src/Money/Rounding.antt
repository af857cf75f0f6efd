-- ===== src/Money/Rounding.antt =====
-- What `money` does: it moves a value by at most half a hundredth, and keeps one that has two places.
use tagro_echo_os.Base.{
  ℤ, pos, magnitude, with_sign, negsuc, ◌+ℤ◌, ◌-ℤ◌, scale, scale-one, sum_ℤ, zero_+ℤ, +ℤ_zero,
  -ℤ_zero, +ℤ_assoc, ℕ, zero, suc, ◌+◌, ◌*◌, ◌^◌, ◌≤◌, ◌<◌, List, [], ◌∷◌, map, ◌≡◌, refl, sym, ap,
  ◌∙◌, arith,
}
use native.Mathlib.Nat.{pow-suc, div-add-mod, mod-lt}
use tagro_echo_os.Money.{
  Decimal, zero_dec, hundredths, plus, minus, cents, money, sum_dec, sum_from, div_half_up,
}

pub pow10_pos : (k : ℕ) → 0 < 10 ^ k
pow10_pos zero = omega arith
pow10_pos (suc k) = rw (pow-suc 10 k) (omega (arith, pow10_pos k))

pub cents-hundredths : (n : ℤ) → cents (hundredths n) ≡ n
unfolding cents
cents-hundredths (pos n) = ground arith
cents-hundredths (negsuc n) = ground arith

pub money-eq : (d : Decimal) → money d ≡ hundredths (cents d)
unfolding money
money-eq d = refl

-- Rounding twice is rounding once.
pub money-money : (d : Decimal) → money (money d) ≡ money d
unfolding money
money-money d = ap hundredths (cents-hundredths (cents d))

pub money-hundredths : (n : ℤ) → money (hundredths n) ≡ hundredths n
unfolding money
money-hundredths n = ap hundredths (cents-hundredths n)

-- The nearest integer to a quotient is within one half of it, and a tie goes up.
div_half_up_bounds :
    (n d : ℕ)
    → 0 < d
    → (2 * n < 2 * (div_half_up n d * d) + d) × (2 * (div_half_up n d * d) ≤ 2 * n + d)
unfolding div_half_up
div_half_up_bounds n d h =
    omega (arith, div-add-mod (2 * n + d) (2 * d), mod-lt (2 * n + d) {m = 2 * d} (omega arith))

-- Sums of amounts that have two places.
pub plus-hundredths : (m n : ℤ) → plus (hundredths m) (hundredths n) ≡ hundredths (m +ℤ n)
unfolding plus
plus-hundredths m n = simp scale-one

pub minus-hundredths : (m n : ℤ) → minus (hundredths m) (hundredths n) ≡ hundredths (m -ℤ n)
unfolding minus
minus-hundredths m n = simp scale-one

sum_from-hundredths :
    (m : ℤ) (ns : List ℤ) → sum_from (hundredths m) (map hundredths ns) ≡ hundredths (m +ℤ sum_ℤ ns)
unfolding sum_ℤ sum_from
sum_from-hundredths m [] = ap hundredths (sym (+ℤ_zero m))
sum_from-hundredths m (n ∷ ns) =
    ap (λ t. sum_from t (map hundredths ns)) (plus-hundredths m n)
    ∙ sum_from-hundredths (m +ℤ n) ns
    ∙ ap hundredths (+ℤ_assoc m n (sum_ℤ ns))

zero_plus : (n : ℤ) → plus zero_dec (hundredths n) ≡ hundredths n
unfolding plus scale
zero_plus n = ap hundredths (ap (λ t. pos 0 +ℤ t) (scale-one n) ∙ zero_+ℤ n)

plus_zero : (n : ℤ) → plus (hundredths n) zero_dec ≡ hundredths n
unfolding plus scale
plus_zero n = ap hundredths (ap (λ t. t +ℤ pos 0) (scale-one n) ∙ +ℤ_zero n)

minus_zero : (n : ℤ) → minus (hundredths n) zero_dec ≡ hundredths n
unfolding minus scale
minus_zero n = ap hundredths (ap (λ t. t -ℤ pos 0) (scale-one n) ∙ -ℤ_zero n)

sum_dec-hundredths :
    (n : ℤ) (ns : List ℤ) → sum_dec (map hundredths (n ∷ ns)) ≡ hundredths (sum_ℤ (n ∷ ns))
unfolding sum_dec sum_ℤ
sum_dec-hundredths n ns =
    ap (λ t. sum_from t (map hundredths ns)) (zero_plus n) ∙ sum_from-hundredths n ns

-- A sum of rounded amounts, added to a rounded amount.
pub plus-sum_dec :
    (m : ℤ) (ns : List ℤ)
    → plus (hundredths m) (sum_dec (map hundredths ns)) ≡ hundredths (m +ℤ sum_ℤ ns)
plus-sum_dec m [] = unfold sum_dec sum_ℤ in (plus_zero m ∙ ap hundredths (sym (+ℤ_zero m)))
plus-sum_dec m (n ∷ ns) =
    ap (plus (hundredths m)) (sum_dec-hundredths n ns) ∙ plus-hundredths m (sum_ℤ (n ∷ ns))

pub minus-sum_dec :
    (m : ℤ) (ns : List ℤ)
    → minus (hundredths m) (sum_dec (map hundredths ns)) ≡ hundredths (m -ℤ sum_ℤ ns)
minus-sum_dec m [] = unfold sum_dec sum_ℤ in (minus_zero m ∙ ap hundredths (sym (-ℤ_zero m)))
minus-sum_dec m (n ∷ ns) =
    ap (minus (hundredths m)) (sum_dec-hundredths n ns) ∙ minus-hundredths m (sum_ℤ (n ∷ ns))

-- Rounding the sum of amounts with two places is exact.
pub money-sum_dec : (ns : List ℤ) → money (sum_dec (map hundredths ns)) ≡ hundredths (sum_ℤ ns)
money-sum_dec [] = unfold money sum_dec sum_ℤ in refl
money-sum_dec (n ∷ ns) = ap money (sum_dec-hundredths n ns) ∙ money-hundredths (sum_ℤ (n ∷ ns))

magnitude-with_sign : (z : ℤ) (k : ℕ) → magnitude (with_sign z k) ≡ k
magnitude-with_sign (pos n) k = ground arith
magnitude-with_sign (negsuc n) k = ground arith

magnitude-cents :
    (d : Decimal) → magnitude (cents d) ≡ div_half_up (magnitude d.coeff * 100) (10 ^ d.places)
unfolding cents
magnitude-cents d =
    magnitude-with_sign d.coeff (div_half_up (magnitude d.coeff * 100) (10 ^ d.places))

cents_sign : (d : Decimal) → cents d ≡ with_sign d.coeff (magnitude (cents d))
unfolding cents
cents_sign d = rw (magnitude-with_sign d.coeff _)

-- `money` moves a value by at most half a hundredth, and a tie goes away from zero: in units of
-- 1 / (200 * 10 ^ places) the rounded magnitude is above the true one by at most 10 ^ places, and
-- below it by less. The sign of a value that is not zero is kept.
pub money-nearest :
    (d : Decimal)
    → let q = 10 ^ d.places in
      let true_value = magnitude d.coeff * 100 in
      let rounded = magnitude (money d).coeff in
      (2 * true_value < 2 * (rounded * q) + q)
      × (2 * (rounded * q) ≤ 2 * true_value + q)
      × ((money d).coeff ≡ with_sign d.coeff rounded)
unfolding money
money-nearest d =
    let bounds =
      div_half_up_bounds (magnitude d.coeff * 100) (10 ^ d.places) (pow10_pos d.places) in
    (rw (magnitude-cents d) bounds.0, rw (magnitude-cents d) bounds.1, cents_sign d)
