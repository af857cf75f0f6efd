-- ===== src/Money/Parts.antt =====
-- An amount that is a part of another: a total, and the total of some of its terms.
use mathlib.Core.Path.{subst}
use native.Mathlib.Nat.{mul-le-mul_right, mul_assoc, add-mul}
use tagro_echo_os.Base.{
  pos, ◌+ℤ◌, ◌*ℤ◌, with_sign, scale, ℕ, zero, suc, ◌+◌, ◌-◌, ◌*◌, ◌^◌, ◌≤◌, ◌<◌, max, false, ◌≡◌,
  refl, sym, ap, ◌∙◌, arith,
}
use tagro_echo_os.Money.{Decimal, zero_dec, hundredths, plus, eq_dec, le_dec}
use tagro_echo_os.Money.Rounding.{pow10_pos}
use tagro_echo_os.Money.Signs.{pow_split}
use tagro_echo_os.Money.Ratio.{
  ratio_pct, percent_by, rounded_quotient, rounded_quotient-at_most, places_for, div_half_even,
  div_half_even-at_most,
}

-- Neither amount is negative, the part has no more places, and it is at most the whole.
pub record IsPart (part whole : Decimal) : Type 0 where
  pub m : ℕ
  pub n : ℕ
  pub of_part : part.coeff ≡ pos m
  pub of_whole : whole.coeff ≡ pos n
  pub places : part.places ≤ whole.places
  pub below : m * 10 ^ (whole.places - part.places) ≤ n

pub zero-IsPart : IsPart zero_dec zero_dec
zero-IsPart = record {
  m = 0;
  n = 0;
  of_part = refl;
  of_whole = refl;
  places = omega arith;
  below = omega arith;
}

scaled_sum : (m n x y : ℕ) → scale (pos m) x +ℤ scale (pos n) y ≡ pos (m * x + n * y)
unfolding scale ◌+ℤ◌
scaled_sum m n x y = ground arith

-- A coefficient scaled in two steps.
two_steps : (m a b c : ℕ) → c ≡ a + b → m * 10 ^ a * 10 ^ b ≡ m * 10 ^ c
two_steps m a b c e =
    mul_assoc m (10 ^ a) (10 ^ b) ∙ ap (λ z. m * z) (sym (pow_split a b) ∙ ap (λ z. 10 ^ z) (sym e))

module _ (r t a : Decimal) (k : ℕ) (is_k : a.coeff ≡ pos k) (h : IsPart r t) where
  sum_coeff :
      (x : Decimal) (j : ℕ)
      → x.coeff ≡ pos j
      → (plus x a).coeff
        ≡ pos (
            j * 10 ^ (max x.places a.places - x.places)
            + k * 10 ^ (max x.places a.places - a.places))
  unfolding plus
  sum_coeff x j e =
      let p = max x.places a.places in
      ap (λ z. scale z (10 ^ (p - x.places)) +ℤ scale a.coeff (10 ^ (p - a.places))) e
      ∙ ap (λ z. scale (pos j) (10 ^ (p - x.places)) +ℤ scale z (10 ^ (p - a.places))) is_k
      ∙ scaled_sum j k (10 ^ (p - x.places)) (10 ^ (p - a.places))

  -- The coefficient of the part at the places of a sum is at most that of the whole.
  below_at : (p : ℕ) → t.places ≤ p → h.m * 10 ^ (p - r.places) ≤ h.n * 10 ^ (p - t.places)
  below_at p le =
      subst (λ z. z ≤ h.n * 10 ^ (p - t.places))
        (two_steps h.m (t.places - r.places) (p - t.places) (p - r.places)
          (omega (arith, h.places, le)))
        (mul-le-mul_right (10 ^ (p - t.places)) h.below)

  -- A term of the whole alone.
  pub plus-IsPart_whole : IsPart r (plus t a)
  unfolding plus
  plus-IsPart_whole =
      let p = max t.places a.places in
      record {
        m = h.m;
        n = h.n * 10 ^ (p - t.places) + k * 10 ^ (p - a.places);
        of_part = h.of_part;
        of_whole = sum_coeff t h.n h.of_whole;
        places = ground (arith, h.places);
        below = omega (arith, below_at p (ground arith));
      }

  -- A term of both.
  pub plus-IsPart : IsPart (plus r a) (plus t a)
  unfolding plus
  plus-IsPart =
      let p = max t.places a.places in
      let q = max r.places a.places in
      let shorter : q ≤ p = ground (arith, h.places) in
      let part = two_steps h.m (q - r.places) (p - q) (p - r.places) (ground (arith, h.places)) in
      let term = two_steps k (q - a.places) (p - q) (p - a.places) (ground (arith, h.places)) in
      record {
        m = h.m * 10 ^ (q - r.places) + k * 10 ^ (q - a.places);
        n = h.n * 10 ^ (p - t.places) + k * 10 ^ (p - a.places);
        of_part = sum_coeff r h.m h.of_part;
        of_whole = sum_coeff t h.n h.of_whole;
        places = shorter;
        below =
            subst (λ z. z ≤ h.n * 10 ^ (p - t.places) + k * 10 ^ (p - a.places))
              (sym (
                add-mul (h.m * 10 ^ (q - r.places)) (k * 10 ^ (q - a.places)) (10 ^ (p - q))
                ∙ ap (λ z. z + k * 10 ^ (q - a.places) * 10 ^ (p - q)) part
                ∙ ap (λ z. h.m * 10 ^ (p - r.places) + z) term))
              (omega (arith, below_at p (ground arith)));
      }

plus_nothing : (m : ℕ) → m + 0 ≡ m
plus_nothing m = omega arith

with_sign-pos : (m n x : ℕ) → with_sign (pos m *ℤ pos n) x ≡ pos x
unfolding ◌*ℤ◌
with_sign-pos m n x = ground arith

rounded_quotient-pos : (n d : ℕ) → 0 < (rounded_quotient n d).1
unfolding rounded_quotient
rounded_quotient-pos zero d = omega arith
rounded_quotient-pos (suc n) d = pow10_pos (places_for (d + 27) (suc n) d)

pct_of_positive :
    (m n p q : ℕ)
    → 0 < n
    → p ≤ q
    → m * 10 ^ (q - p) ≤ n
    → (x : ℕ) × (ratio_pct
          (record { coeff = pos m; places = p })
          (record { coeff = pos n; places = q })
        ≡ hundredths (pos x))
      × (x ≤ 10000)
unfolding ratio_pct percent_by
pct_of_positive m n p q n_pos le below =
    let a = (m + 0) * 10 ^ q in
    let b = (n + 0) * 10 ^ p in
    let same : a ≡ m * 10 ^ (q - p) * 10 ^ p =
      ap (λ z. z * 10 ^ q) (plus_nothing m) ∙ sym (two_steps m (q - p) p q (omega (arith, le))) in
    let same' : b ≡ n * 10 ^ p = ap (λ z. z * 10 ^ p) (plus_nothing n) in
    let a≤b : a ≤ b =
      subst (λ z. z ≤ b) (sym same)
        (subst (λ z. m * 10 ^ (q - p) * 10 ^ p ≤ z) (sym same')
          (mul-le-mul_right (10 ^ p) below)) in
    let b_pos : 0 < b =
      subst (λ z. 0 < z) (sym same')
        (omega (arith, pow10_pos p, mul-le-mul_right (10 ^ p) n_pos)) in
    let quotient = rounded_quotient a b in
    let at_most = rounded_quotient-at_most a b b_pos a≤b in
    (
      div_half_even (quotient.0 * 10000) quotient.1,
      ap hundredths (with_sign-pos m n _),
      div_half_even-at_most (quotient.0 * 10000) quotient.1 10000 (rounded_quotient-pos a b)
          (omega (arith, at_most)),
    )

whole_pos : (t : Decimal) (n : ℕ) → t.coeff ≡ pos n → eq_dec t zero_dec ≡ false → 0 < n
unfolding eq_dec le_dec scale
whole_pos t n e h = ground (arith, e)

-- The percentage of a part lies between 0 and 100.00.
pub ratio_pct-bounds :
    (r t : Decimal)
    → IsPart r t
    → eq_dec t zero_dec ≡ false
    → (x : ℕ) × (ratio_pct r t ≡ hundredths (pos x)) × (x ≤ 10000)
ratio_pct-bounds r t h nonzero =
    let (x, e, le) =
      pct_of_positive h.m h.n r.places t.places (whole_pos t h.n h.of_whole nonzero) h.places
        h.below in
    (
      x,
      ap (λ z. ratio_pct (record { coeff = z; places = r.places }) t) h.of_part
          ∙ ap
              (λ z.
                ratio_pct (record { coeff = pos h.m; places = r.places })
                  (record { coeff = z; places = t.places }))
              h.of_whole
          ∙ e,
      le,
    )
