-- ===== src/Expense.antt =====
-- src/financial/expense_reconciliation.py, with `ExpenseEvidence` and `ExpenseRole` of src/financial/health.py.
-- `upper` is `str.upper`.
mod Slices
mod Aggregates
mod Partition
mod Examples
use tagro_echo_os.Base.{
  ℕ, String, Bool, true, false, ◌&&◌, Option, none, some, List, [], ◌∷◌, ◌++◌, any, map, ◌==◌,
  nat_eq, is_empty, strip, append, if◌then◌else◌,
}
use tagro_echo_os.Money.{Decimal, zero_dec, money, abs, plus, minus, lt_dec, sum_dec}

-- `class ExpenseRole`
pub data ExpenseRole : Type 0 where
  direct branch_role central finance non_operating capital internal_transfer unknown_role :
      ExpenseRole

pub record ExpenseEvidence : Type 0 where
  pub expense_id : String
  pub expense_date : ℕ
  pub amount : Decimal
  pub branch : Option String
  pub category : Option String
  pub source_ref : Option String
  pub classification_confidence : String
  pub role : ExpenseRole

-- The dict of an inconsistency, whose type is the same for all.
pub record Inconsistency : Type 0 where
  pub branch : Option String
  pub business_date : ℕ
  pub aggregate_expense : Decimal
  pub entry_expense : Decimal
  pub difference : Decimal
  pub source_ref : Option String

pub record ExpenseReconciliationResult : Type 0 where
  pub admitted : List ExpenseEvidence
  pub excluded_supporting : List ExpenseEvidence
  pub aggregate_residuals : List ExpenseEvidence
  pub inconsistencies : List Inconsistency

-- `excluded_supporting_amount`
unfoldable pub excluded_supporting_amount : ExpenseReconciliationResult → Decimal
unfolding sum_dec
excluded_supporting_amount r =
    money (sum_dec (map (λ (x : ExpenseEvidence). abs x.amount) r.excluded_supporting))

abbrev pub SliceKey : Type 0
SliceKey = Option String × ℕ

-- `_slice_key`
unfoldable pub slice_key : (String → String) → ExpenseEvidence → SliceKey
slice_key upper row = (
  elim row.branch [ none ↦ none | some b ↦ if is_empty b then none else some (upper (strip b)) ],
  row.expense_date,
)

abbrev pub same_text : Option String → Option String → Bool
same_text none none = true
same_text (some a) (some b) = a == b
same_text _ _ = false

-- `==` of two keys
unfoldable pub same_key : SliceKey → SliceKey → Bool
same_key (b, d) (c, e) = same_text b c && nat_eq d e

-- `entry_totals.get(key, Decimal("0"))`
unfoldable pub total_of_key : SliceKey → List (SliceKey × Decimal) → Decimal
unfolding same_key
total_of_key key [] = zero_dec
total_of_key key ((k, q) ∷ totals) = if same_key k key then q else total_of_key key totals

-- `entry_totals[key] = q`
unfoldable pub put_total :
    SliceKey → Decimal → List (SliceKey × Decimal) → List (SliceKey × Decimal)
unfolding same_key
put_total key q [] = (key, q) ∷ []
put_total key q ((k, p) ∷ totals) =
    if same_key k key then (k, q) ∷ totals else (k, p) ∷ put_total key q totals

-- The loop over the entries.
unfoldable pub entry_totals :
    (String → String) → List ExpenseEvidence → List (SliceKey × Decimal) → List (SliceKey × Decimal)
unfolding slice_key put_total total_of_key
entry_totals upper [] totals = totals
entry_totals upper (row ∷ rows) totals =
    let key = slice_key upper row in
    entry_totals upper rows (put_total key (plus (total_of_key key totals) (abs row.amount)) totals)

-- The lists that the loop over the aggregates appends to.
pub record Progress : Type 0 where
  pub admitted : List ExpenseEvidence
  pub residuals : List ExpenseEvidence
  pub inconsistencies : List Inconsistency

unfoldable pub residual_row : ExpenseEvidence → Decimal → ExpenseEvidence
unfolding append
residual_row aggregate residual = record {
  expense_id = append aggregate.expense_id ":residual";
  expense_date = aggregate.expense_date;
  amount = money residual;
  branch = aggregate.branch;
  category = none;
  source_ref = aggregate.source_ref;
  classification_confidence = "unknown";
  role = unknown_role;
}

unfoldable pub inconsistency_of : SliceKey → ExpenseEvidence → Decimal → Inconsistency
inconsistency_of (branch, day) aggregate represented = record {
  branch = branch;
  business_date = day;
  aggregate_expense = money (abs aggregate.amount);
  entry_expense = money represented;
  difference = money (minus represented (abs aggregate.amount));
  source_ref = aggregate.source_ref;
}

-- One round of the loop over the aggregates.
unfoldable pub add_aggregate : SliceKey → Decimal → ExpenseEvidence → Progress → Progress
unfolding residual_row inconsistency_of
add_aggregate key represented aggregate p =
    let residual = minus (abs aggregate.amount) represented in
    if lt_dec zero_dec residual
    then record p {
      admitted = p.admitted ++ residual_row aggregate residual ∷ [];
      residuals = p.residuals ++ residual_row aggregate residual ∷ [];
    }
    else if lt_dec residual zero_dec
    then record p {
      inconsistencies = p.inconsistencies ++ inconsistency_of key aggregate represented ∷ [];
    }
    else p

unfoldable pub add_aggregates :
    (String → String) → List (SliceKey × Decimal) → List ExpenseEvidence → Progress → Progress
unfolding add_aggregate slice_key total_of_key
add_aggregates upper totals [] p = p
add_aggregates upper totals (a ∷ rest) p =
    add_aggregates upper totals rest
      (add_aggregate (slice_key upper a) (total_of_key (slice_key upper a) totals) a p)

-- `_slice_key(row) in aggregate_keys`
unfoldable pub is_covered : (String → String) → List ExpenseEvidence → ExpenseEvidence → Bool
unfolding any same_key slice_key
is_covered upper aggregates row =
    any (λ (a : ExpenseEvidence). same_key (slice_key upper a) (slice_key upper row)) aggregates

-- The loop over the accounting observations: the admitted rows and the excluded ones.
unfoldable pub split_accounting :
    (String → String)
    → List ExpenseEvidence
    → List ExpenseEvidence
    → List ExpenseEvidence
    → List ExpenseEvidence
    → List ExpenseEvidence × List ExpenseEvidence
unfolding is_covered
split_accounting upper aggregates [] admitted excluded = (admitted, excluded)
split_accounting upper aggregates (row ∷ rows) admitted excluded =
    if is_covered upper aggregates row
    then split_accounting upper aggregates rows admitted (excluded ++ row ∷ [])
    else split_accounting upper aggregates rows (admitted ++ row ∷ []) excluded

unfoldable pub reconcile_expense_evidence :
    (String → String)
    → (entries accounting aggregates : List ExpenseEvidence) → ExpenseReconciliationResult
unfolding entry_totals add_aggregates split_accounting
reconcile_expense_evidence upper entries accounting aggregates =
    let p =
      add_aggregates upper (entry_totals upper entries []) aggregates
        (record { admitted = entries; residuals = []; inconsistencies = [] }) in
    let (admitted, excluded) = split_accounting upper aggregates accounting p.admitted [] in
    record {
      admitted = admitted;
      excluded_supporting = excluded;
      aggregate_residuals = p.residuals;
      inconsistencies = p.inconsistencies;
    }
