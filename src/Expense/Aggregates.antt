-- ===== src/Expense/Aggregates.antt =====
-- The loop over the aggregates in `reconcile_expense_evidence` (src/financial/expense_reconciliation.py).
use tagro_echo_os.Base.{
  String, Bool, List, [], ◌∷◌, ◌++◌, filter, map, append, none, ◌≡◌, sym, ap, ◌∙◌, arith, inl, inr,
  Bool-cases, if◌then◌else◌,
}
use mathlib.Core.List.{append-nil, append_assoc}
use tagro_echo_os.Money.{Decimal, money, abs, minus, lt_dec}
use tagro_echo_os.Money.Order.{lt_dec-minus, minus-lt_dec, lt_dec-asym}
use tagro_echo_os.Expense.{
  ExpenseEvidence, Inconsistency, SliceKey, unknown_role, Progress, slice_key, total_of_key,
  residual_row, inconsistency_of, add_aggregate, add_aggregates,
}

-- The row for what an aggregate has above the entries of its slice.
abbrev pub rest_of : ExpenseEvidence → Decimal → ExpenseEvidence
rest_of a entered = record {
  expense_id = append a.expense_id ":residual";
  expense_date = a.expense_date;
  amount = money (minus (abs a.amount) entered);
  branch = a.branch;
  category = none;
  source_ref = a.source_ref;
  classification_confidence = "unknown";
  role = unknown_role;
}

-- The report of entries that have more than their aggregate.
abbrev pub excess_of : SliceKey → ExpenseEvidence → Decimal → Inconsistency
excess_of key a entered = record {
  branch = key.0;
  business_date = key.1;
  aggregate_expense = money (abs a.amount);
  entry_expense = money entered;
  difference = money (minus entered (abs a.amount));
  source_ref = a.source_ref;
}

one_residual :
    (key : SliceKey) (t : Decimal) (a : ExpenseEvidence) (p : Progress)
    → (add_aggregate key t a p).residuals
      ≡ p.residuals ++ (if lt_dec t (abs a.amount) then rest_of a t ∷ [] else [])
unfolding add_aggregate residual_row
one_residual key t a p =
    let above = lt_dec-minus (abs a.amount) t in ground (arith, above, append-nil p.residuals)

one_excess :
    (key : SliceKey) (t : Decimal) (a : ExpenseEvidence) (p : Progress)
    → (add_aggregate key t a p).inconsistencies
      ≡ p.inconsistencies ++ (if lt_dec (abs a.amount) t then excess_of key a t ∷ [] else [])
unfolding add_aggregate inconsistency_of
one_excess key t a p =
    let above = lt_dec-minus (abs a.amount) t in
    let below = minus-lt_dec (abs a.amount) t in
    ground (arith, above, below, lt_dec-asym t (abs a.amount), append-nil p.inconsistencies)

-- A round that appends what a row gives, before the rounds of the other rows.
add_row :
    {A B : Type 0} (p : A → Bool) (f : A → B) (a : A) (rows : List A) (done : List B)
    → (done ++ (if p a then f a ∷ [] else [])) ++ map f (filter p rows)
      ≡ done ++ map f (filter p (a ∷ rows))
unfolding filter
add_row p f a rows done = elim (Bool-cases (p a)) [
  | inl takes ↦ simp takes (append_assoc done (f a ∷ []) (map f (filter p rows)))
  | inr skips ↦ simp skips (ap (λ l. l ++ map f (filter p rows)) (append-nil done))
]

module _ (upper : String → String) (totals : List (SliceKey × Decimal))
    (entered : SliceKey → Decimal) (same : (k : SliceKey) → total_of_key k totals ≡ entered k) where
  pub residuals-add_aggregates :
      (aggregates : List ExpenseEvidence) (p : Progress)
      → (add_aggregates upper totals aggregates p).residuals
        ≡ p.residuals
          ++ map
              (λ a. rest_of a (entered (slice_key upper a)))
              (filter (λ a. lt_dec (entered (slice_key upper a)) (abs a.amount)) aggregates)
  unfolding add_aggregates filter
  residuals-add_aggregates [] p = sym (append-nil p.residuals)
  residuals-add_aggregates (a ∷ rest) p =
      let k = slice_key upper a in
      let f = λ (x : ExpenseEvidence). rest_of x (entered (slice_key upper x)) in
      let above = λ (x : ExpenseEvidence). lt_dec (entered (slice_key upper x)) (abs x.amount) in
      residuals-add_aggregates rest (add_aggregate k (total_of_key k totals) a p)
      ∙ ap (λ l. l ++ map f (filter above rest))
          (one_residual k (total_of_key k totals) a p
            ∙ ap (λ t. p.residuals ++ (if lt_dec t (abs a.amount) then rest_of a t ∷ [] else []))
                (same k))
      ∙ add_row above f a rest p.residuals

  pub inconsistencies-add_aggregates :
      (aggregates : List ExpenseEvidence) (p : Progress)
      → (add_aggregates upper totals aggregates p).inconsistencies
        ≡ p.inconsistencies
          ++ map
              (λ a. excess_of (slice_key upper a) a (entered (slice_key upper a)))
              (filter (λ a. lt_dec (abs a.amount) (entered (slice_key upper a))) aggregates)
  unfolding add_aggregates filter
  inconsistencies-add_aggregates [] p = sym (append-nil p.inconsistencies)
  inconsistencies-add_aggregates (a ∷ rest) p =
      let k = slice_key upper a in
      let f =
        λ (x : ExpenseEvidence). excess_of (slice_key upper x) x (entered (slice_key upper x)) in
      let below = λ (x : ExpenseEvidence). lt_dec (abs x.amount) (entered (slice_key upper x)) in
      inconsistencies-add_aggregates rest (add_aggregate k (total_of_key k totals) a p)
      ∙ ap (λ l. l ++ map f (filter below rest))
          (one_excess k (total_of_key k totals) a p
            ∙ ap
                (λ t.
                  p.inconsistencies
                  ++ (if lt_dec (abs a.amount) t then excess_of k a t ∷ [] else []))
                (same k))
      ∙ add_row below f a rest p.inconsistencies
