-- ===== src/Expense/Partition.antt =====
-- How `reconcile_expense_evidence` (src/financial/expense_reconciliation.py) divides its rows.
use mathlib.Core.List.{Memᴰ, append-nil}
use mathlib.Core.Path.{subst, ap₂}
use tagro_echo_os.Base.{
  String, Bool, true, false, not, List, [], ◌∷◌, ◌++◌, map, filter, filter-append, mem-filter,
  any-mem, ◌≡◌, refl, sym, ap, ◌∙◌, arith, if◌then◌else◌,
}
use tagro_echo_os.Money.{Decimal, abs, minus, lt_dec}
use tagro_echo_os.Expense.Slices.{
  is_of, represented, same_key-eq, same_key_refl, entry_totals-represented,
}
use tagro_echo_os.Expense.Aggregates.{
  rest_of, excess_of, residuals-add_aggregates, inconsistencies-add_aggregates,
}
use tagro_echo_os.Expense.{
  same_key, ExpenseEvidence, SliceKey, Progress, entry_totals, add_aggregate, add_aggregates,
  is_covered, slice_key, total_of_key, residual_row, split_accounting, reconcile_expense_evidence,
}

append_one :
    (xs : List ExpenseEvidence) (x : ExpenseEvidence) (ys : List ExpenseEvidence)
    → (xs ++ x ∷ []) ++ ys ≡ xs ++ x ∷ ys
append_one [] x ys = refl
append_one (z ∷ xs) x ys = ap (λ us. z ∷ us) (append_one xs x ys)

append_none : (xs : List ExpenseEvidence) → xs ++ [] ≡ xs
append_none [] = refl
append_none (x ∷ xs) = ap (λ us. x ∷ us) (append_none xs)

split_filters :
    (upper : String → String) (aggregates rows admitted excluded : List ExpenseEvidence)
    → split_accounting upper aggregates rows admitted excluded ≡ (
      admitted ++ filter (λ r. not (is_covered upper aggregates r)) rows,
      excluded ++ filter (is_covered upper aggregates) rows,
    )
unfolding split_accounting filter
split_filters upper aggregates [] admitted excluded =
    ground (arith, append_none admitted, append_none excluded)
split_filters upper aggregates (row ∷ rows) admitted excluded = ground (
  arith,
  split_filters upper aggregates rows admitted (excluded ++ row ∷ []),
  split_filters upper aggregates rows (admitted ++ row ∷ []) excluded,
  append_one admitted row (filter (λ r. not (is_covered upper aggregates r)) rows),
  append_one excluded row (filter (is_covered upper aggregates) rows),
)

append_assoc : (xs ys zs : List ExpenseEvidence) → (xs ++ ys) ++ zs ≡ xs ++ (ys ++ zs)
append_assoc [] ys zs = refl
append_assoc (x ∷ xs) ys zs = ap (λ us. x ∷ us) (append_assoc xs ys zs)

one_aggregate :
    (key : SliceKey) (represented : Decimal) (a : ExpenseEvidence) (entries : List ExpenseEvidence)
    (p : Progress)
    → p.admitted ≡ entries ++ p.residuals
    → (add_aggregate key represented a p).admitted
      ≡ entries ++ (add_aggregate key represented a p).residuals
unfolding add_aggregate
one_aggregate key represented a entries p h = ground (
  arith,
  append_assoc entries p.residuals (residual_row a (minus (abs a.amount) represented) ∷ []),
)

-- What the loop over the aggregates admits is what it lists as residuals.
residuals_admitted :
    (upper : String → String) (totals : List (SliceKey × Decimal))
    (aggregates entries : List ExpenseEvidence) (p : Progress)
    → p.admitted ≡ entries ++ p.residuals
    → (add_aggregates upper totals aggregates p).admitted
      ≡ entries ++ (add_aggregates upper totals aggregates p).residuals
unfolding add_aggregates
residuals_admitted upper totals [] entries p h = h
residuals_admitted upper totals (a ∷ rest) entries p h =
    residuals_admitted upper totals rest entries
      (add_aggregate (slice_key upper a) (total_of_key (slice_key upper a) totals) a p)
      (one_aggregate (slice_key upper a) (total_of_key (slice_key upper a) totals) a entries p h)

module _ {A : Type 0} (p q : A → Bool) where
  filter_swap : (xs : List A) → filter q (filter p xs) ≡ filter p (filter q xs)
  unfolding filter
  filter_swap [] = refl
  filter_swap (x ∷ xs) = ground (arith, filter_swap xs)

  filter_nothing :
      (xs : List A) → ((x : A) → q x ≡ true → p x ≡ false) → filter q (filter p xs) ≡ []
  unfolding filter
  filter_nothing [] h = refl
  filter_nothing (x ∷ xs) h = ground (arith, h x, filter_nothing xs h)

filter-map :
    {A B : Type 0} (f : A → B) (p : A → Bool) (q : B → Bool) (xs : List A)
    → ((x : A) → q (f x) ≡ p x)
    → filter q (map f xs) ≡ map f (filter p xs)
unfolding filter
filter-map f p q [] h = refl
filter-map f p q (x ∷ xs) h = ground (arith, h x, filter-map f p q xs h)

-- A row of the slice of an aggregate is covered.
covers :
    (upper : String → String) (aggregates : List ExpenseEvidence) (a row : ExpenseEvidence)
    → filter (is_of upper (slice_key upper a)) aggregates ≡ a ∷ []
    → is_of upper (slice_key upper a) row ≡ true
    → is_covered upper aggregates row ≡ true
unfolding is_of is_covered
covers upper aggregates a row only h =
    let key = slice_key upper a in
    let listed =
      mem-filter (is_of upper key) a aggregates (subst (Memᴰ a) (sym only) (Memᴰ.head refl)) in
    let same : slice_key upper row ≡ key = same_key-eq (slice_key upper row) key h in
    any-mem (λ (x : ExpenseEvidence). same_key (slice_key upper x) (slice_key upper row)) a
      aggregates listed.0 (subst (λ k. same_key key k ≡ true) (sym same) (same_key_refl key))

is_of-rest_of :
    (upper : String → String) (key : SliceKey) (a : ExpenseEvidence) (t : Decimal)
    → is_of upper key (rest_of a t) ≡ is_of upper key a
unfolding is_of slice_key
is_of-rest_of upper key a t = refl

one_row :
    {A B : Type 0} (f : A → B) (p : A → Bool) (a : A)
    → map f (filter p (a ∷ [])) ≡ (if p a then f a ∷ [] else [])
unfolding filter
one_row f p a = ground arith

-- What is admitted in the slice of an aggregate that is alone in it.
slice_admitted :
    (upper : String → String) (entries accounting aggregates : List ExpenseEvidence)
    (a : ExpenseEvidence)
    → let key = slice_key upper a in
      let f = λ (x : ExpenseEvidence). rest_of x (represented upper entries (slice_key upper x)) in
      let above = λ (x : ExpenseEvidence).
        lt_dec (represented upper entries (slice_key upper x)) (abs x.amount) in
      filter (is_of upper key) aggregates ≡ a ∷ []
      → filter (is_of upper key) (
          (entries ++ map f (filter above aggregates))
          ++ filter (λ x. not (is_covered upper aggregates x)) accounting)
        ≡ filter (is_of upper key) entries ++ (if above a then f a ∷ [] else [])
slice_admitted upper entries accounting aggregates a only =
    let q = is_of upper (slice_key upper a) in
    let f = λ (x : ExpenseEvidence). rest_of x (represented upper entries (slice_key upper x)) in
    let above = λ (x : ExpenseEvidence).
      lt_dec (represented upper entries (slice_key upper x)) (abs x.amount) in
    let free = λ (x : ExpenseEvidence). not (is_covered upper aggregates x) in
    let none_free : filter q (filter free accounting) ≡ [] =
      filter_nothing free q accounting (λ x h. ap not (covers upper aggregates a x only h)) in
    let rests : filter q (map f (filter above aggregates)) ≡ (if above a then f a ∷ [] else []) =
      filter-map f q q (filter above aggregates) (λ x.
        is_of-rest_of upper (slice_key upper a) x (represented upper entries (slice_key upper x)))
      ∙ ap (map f) (filter_swap above q aggregates)
      ∙ ap (λ l. map f (filter above l)) only
      ∙ one_row f above a in
    filter-append q (entries ++ map f (filter above aggregates)) (filter free accounting)
    ∙ ap₂ ◌++◌ (filter-append q entries (map f (filter above aggregates))) none_free
    ∙ append-nil (filter q entries ++ filter q (map f (filter above aggregates)))
    ∙ ap (λ l. filter q entries ++ l) rests

-- The admitted rows are the entries, then the residuals of the aggregates, then the accounting observations
-- of the slices that no aggregate covers; the excluded rows are the other accounting observations. There is
-- one residual for each aggregate of a greater magnitude than the entries of its slice have together, of the
-- rounded difference; and one inconsistency for each aggregate of a lesser one, with the rounded excess; both
-- in the order of the aggregates. In the slice of an aggregate that is alone in it, the admitted rows are the
-- entries and that residual, if any.
pub reconcile_expense_evidence_lem :
    (upper : String → String) (entries accounting aggregates : List ExpenseEvidence)
    → let r = reconcile_expense_evidence upper entries accounting aggregates in
      let entered = λ (a : ExpenseEvidence). represented upper entries (slice_key upper a) in
      (r.admitted
        ≡ (entries ++ r.aggregate_residuals)
          ++ filter (λ x. not (is_covered upper aggregates x)) accounting)
      × (r.excluded_supporting ≡ filter (is_covered upper aggregates) accounting)
      × (r.aggregate_residuals
          ≡ map
              (λ a. rest_of a (entered a))
              (filter (λ a. lt_dec (entered a) (abs a.amount)) aggregates))
      × (r.inconsistencies
          ≡ map
              (λ a. excess_of (slice_key upper a) a (entered a))
              (filter (λ a. lt_dec (abs a.amount) (entered a)) aggregates))
      × ((a : ExpenseEvidence)
          → filter (is_of upper (slice_key upper a)) aggregates ≡ a ∷ []
          → filter (is_of upper (slice_key upper a)) r.admitted
            ≡ filter (is_of upper (slice_key upper a)) entries
              ++ (if lt_dec (entered a) (abs a.amount) then rest_of a (entered a) ∷ [] else []))
unfolding reconcile_expense_evidence
reconcile_expense_evidence_lem upper entries accounting aggregates =
    let totals = entry_totals upper entries [] in
    let start : Progress = record { admitted = entries; residuals = []; inconsistencies = [] } in
    let p = add_aggregates upper totals aggregates start in
    let same = entry_totals-represented upper entries in
    let free = filter (λ x. not (is_covered upper aggregates x)) accounting in
    let split = split_filters upper aggregates accounting p.admitted [] in
    let admitted =
      ap (λ z. z.0) split
      ∙ ap (λ xs. xs ++ free)
          (residuals_admitted upper totals aggregates entries start (sym (append_none entries))) in
    let residuals =
      residuals-add_aggregates upper totals (represented upper entries) same aggregates start in
    (
      admitted,
      ap (λ z. z.1) split,
      residuals,
      inconsistencies-add_aggregates upper totals (represented upper entries) same aggregates start,
      λ a only.
          ap (filter (is_of upper (slice_key upper a)))
            (admitted ∙ ap (λ l. (entries ++ l) ++ free) residuals)
          ∙ slice_admitted upper entries accounting aggregates a only,
    )
