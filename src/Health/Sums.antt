-- ===== src/Health/Sums.antt =====
-- Sums of the rounded values of rows: by a test, by tiers, and of differences.
use tagro_echo_os.Base.{
  ℤ, ◌+ℤ◌, ◌-ℤ◌, sum_ℤ, int_laws, +ℤ_assoc, ◌+◌, Bool, true, false, not, List, [], ◌∷◌, map, filter,
  length, ◌≡◌, refl, sym, ap, ◌∙◌, arith, Bool-cases, inl, inr,
}
use tagro_echo_os.Money.{Decimal, hundredths, cents, money, plus, sum_dec}
use tagro_echo_os.Money.Rounding.{plus-hundredths, money-sum_dec}
use tagro_echo_os.Health.{exact, strong, weak, unknown, same_confidence}
use tagro_echo_os.Health.Project.{SaleProfitProjection, has_confidence}

pub not-true : (b : Bool) → not b ≡ true → b ≡ false
not-true true h = sym h
not-true false h = refl

pub filter-true : {A : Type 0} (xs : List A) → filter (λ _. true) xs ≡ xs
unfolding filter
filter-true [] = refl
filter-true (x ∷ xs) = ap (λ l. x ∷ l) (filter-true xs)

module _ {A B : Type 0} (g : A → B) (f : B → Decimal) (q : B → Bool)
    (rounded : (x : A) → q (g x) ≡ true → f (g x) ≡ hundredths (cents (f (g x)))) where
  exact_rows :
      (xs : List A)
      → map f (filter q (map g xs)) ≡ map hundredths (map (λ y. cents (f y)) (filter q (map g xs)))
  unfolding filter
  exact_rows [] = refl
  exact_rows (x ∷ xs) = elim (Bool-cases (q (g x))) [
    | inl h ↦ ground (arith, h, exact_rows xs, rounded x h)
    | inr h ↦ ground (arith, h, exact_rows xs)
  ]

  -- The total of amounts that have two places is exact.
  pub exact_total :
      (xs : List A)
      → money (sum_dec (map f (filter q (map g xs))))
        ≡ hundredths (sum_ℤ (map (λ y. cents (f y)) (filter q (map g xs))))
  exact_total xs =
      ap (λ l. money (sum_dec l)) (exact_rows xs)
      ∙ money-sum_dec (map (λ y. cents (f y)) (filter q (map g xs)))

pub +ℤ_comm : (a b : ℤ) → a +ℤ b ≡ b +ℤ a
+ℤ_comm a b = omega int_laws

pub plus_four :
    {x y z w : Decimal} {a b c d : ℤ}
    → x ≡ hundredths a
    → y ≡ hundredths b
    → z ≡ hundredths c
    → w ≡ hundredths d
    → plus (plus (plus x y) z) w ≡ hundredths (a +ℤ b +ℤ c +ℤ d)
plus_four {a} {b} {c} {d} is_a is_b is_c is_d =
    ground (arith, plus-hundredths a b, plus-hundredths (a +ℤ b) c, plus-hundredths (a +ℤ b +ℤ c) d)

+ℤ_swap : (x a b : ℤ) → a +ℤ (x +ℤ b) ≡ x +ℤ (a +ℤ b)
+ℤ_swap x a b = omega int_laws

-ℤ_step : (x y a b : ℤ) → x -ℤ y +ℤ (a -ℤ b) ≡ x +ℤ a -ℤ (y +ℤ b)
-ℤ_step x y a b = omega int_laws

+ℤ_first : (x a b c d : ℤ) → x +ℤ a +ℤ b +ℤ c +ℤ d ≡ x +ℤ (a +ℤ b +ℤ c +ℤ d)
+ℤ_first x a b c d = omega int_laws

+ℤ_second : (x a b c d : ℤ) → a +ℤ (x +ℤ b) +ℤ c +ℤ d ≡ x +ℤ (a +ℤ b +ℤ c +ℤ d)
+ℤ_second x a b c d = omega int_laws

+ℤ_third : (x a b c d : ℤ) → a +ℤ b +ℤ (x +ℤ c) +ℤ d ≡ x +ℤ (a +ℤ b +ℤ c +ℤ d)
+ℤ_third x a b c d = omega int_laws

-- The sums over the rows that pass a test and over the others.
pub sum-parts :
    {A : Type 0} (f : A → ℤ) (q : A → Bool) (xs : List A)
    → sum_ℤ (map f (filter q xs)) +ℤ sum_ℤ (map f (filter (λ x. not (q x)) xs)) ≡ sum_ℤ (map f xs)
unfolding sum_ℤ filter
sum-parts f q [] = omega int_laws
sum-parts f q (x ∷ xs) =
    let a = sum_ℤ (map f (filter q xs)) in
    let b = sum_ℤ (map f (filter (λ z. not (q z)) xs)) in
    ground (arith, +ℤ_assoc (f x) a b, +ℤ_swap (f x) a b, sum-parts f q xs)

pub sum-difference :
    {A B : Type 0} (g : A → B) (q : B → Bool) (f h k : B → ℤ) (xs : List A)
    → ((x : A) → q (g x) ≡ true → f (g x) ≡ h (g x) -ℤ k (g x))
    → sum_ℤ (map f (filter q (map g xs)))
      ≡ sum_ℤ (map h (filter q (map g xs))) -ℤ sum_ℤ (map k (filter q (map g xs)))
unfolding sum_ℤ filter
sum-difference g q f h k [] e = omega int_laws
sum-difference g q f h k (x ∷ xs) e =
    let rest = filter q (map g xs) in
    elim (Bool-cases (q (g x))) [
      | inl pass ↦ ground (
        arith,
        pass,
        e x pass,
        sum-difference g q f h k xs e,
        -ℤ_step (h (g x)) (k (g x)) (sum_ℤ (map h rest)) (sum_ℤ (map k rest)),
      )
      | inr fail ↦ ground (arith, fail, sum-difference g q f h k xs e)
    ]

-- Each row is of one tier.
pub sum-tiers :
    (f : SaleProfitProjection → ℤ) (ps : List SaleProfitProjection)
    → sum_ℤ (map f (filter (has_confidence exact) ps))
        +ℤ sum_ℤ (map f (filter (has_confidence strong) ps))
        +ℤ sum_ℤ (map f (filter (has_confidence weak) ps))
        +ℤ sum_ℤ (map f (filter (has_confidence unknown) ps))
      ≡ sum_ℤ (map f ps)
unfolding sum_ℤ filter has_confidence same_confidence
sum-tiers f [] = omega int_laws
sum-tiers f (p ∷ ps) =
    let a = sum_ℤ (map f (filter (has_confidence exact) ps)) in
    let b = sum_ℤ (map f (filter (has_confidence strong) ps)) in
    let c = sum_ℤ (map f (filter (has_confidence weak) ps)) in
    let d = sum_ℤ (map f (filter (has_confidence unknown) ps)) in
    ground (
      arith,
      sum-tiers f ps,
      +ℤ_first (f p) a b c d,
      +ℤ_second (f p) a b c d,
      +ℤ_third (f p) a b c d,
      +ℤ_swap (f p) (a +ℤ b +ℤ c) d,
    )

pub count-tiers :
    (ps : List SaleProfitProjection)
    → length (filter (has_confidence exact) ps)
        + length (filter (has_confidence strong) ps)
        + length (filter (has_confidence weak) ps)
        + length (filter (has_confidence unknown) ps)
      ≡ length ps
unfolding filter has_confidence same_confidence
count-tiers [] = refl
count-tiers (p ∷ ps) = ground (arith, count-tiers ps)

count-parts :
    {A : Type 0} (q : A → Bool) (xs : List A)
    → length (filter q xs) + length (filter (λ x. not (q x)) xs) ≡ length xs
unfolding filter
count-parts q [] = refl
count-parts q (x ∷ xs) = ground (arith, count-parts q xs)
