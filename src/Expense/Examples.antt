-- ===== src/Expense/Examples.antt =====
-- An entry of 30 under a closing aggregate of 100 (src/financial/expense_reconciliation.py), with an accounting
-- observation in the same slice and one in another branch.
use tagro_echo_os.Base.{
  pos, String, none, some, List, [], ◌∷◌, ◌++◌, filter, map, not, ◌≡◌, if◌then◌else◌,
}
use tagro_echo_os.Money.{Decimal, integer, abs, lt_dec}
use tagro_echo_os.Expense.{
  ExpenseEvidence, unknown_role, slice_key, is_covered, reconcile_expense_evidence,
}
use tagro_echo_os.Expense.Slices.{is_of, represented}
use tagro_echo_os.Expense.Aggregates.{rest_of, excess_of}
use tagro_echo_os.Expense.Partition.{reconcile_expense_evidence_lem}

abbrev as_is : String → String
as_is s = s

abbrev spent : String → String → Decimal → ExpenseEvidence
spent id branch amount = record {
  expense_id = id;
  expense_date = 20;
  amount = amount;
  branch = some branch;
  category = none;
  source_ref = none;
  classification_confidence = "unknown";
  role = unknown_role;
}

abbrev entries : List ExpenseEvidence
entries = spent "e-1" "KVR" (integer (pos 30)) ∷ []

abbrev observations : List ExpenseEvidence
observations = spent "a-1" "KVR" (integer (pos 70)) ∷ spent "a-2" "ERN" (integer (pos 10)) ∷ []

abbrev closings : List ExpenseEvidence
closings = spent "c-1" "KVR" (integer (pos 100)) ∷ []

reconcile_expense_evidence_lem_example :
    let r = reconcile_expense_evidence as_is entries observations closings in
    let entered = λ (a : ExpenseEvidence). represented as_is entries (slice_key as_is a) in
    (r.admitted
      ≡ (entries ++ r.aggregate_residuals)
        ++ filter (λ x. not (is_covered as_is closings x)) observations)
    × (r.excluded_supporting ≡ filter (is_covered as_is closings) observations)
    × (r.aggregate_residuals
        ≡ map
            (λ a. rest_of a (entered a))
            (filter (λ a. lt_dec (entered a) (abs a.amount)) closings))
    × (r.inconsistencies
        ≡ map
            (λ a. excess_of (slice_key as_is a) a (entered a))
            (filter (λ a. lt_dec (abs a.amount) (entered a)) closings))
    × ((a : ExpenseEvidence)
        → filter (is_of as_is (slice_key as_is a)) closings ≡ a ∷ []
        → filter (is_of as_is (slice_key as_is a)) r.admitted
          ≡ filter (is_of as_is (slice_key as_is a)) entries
            ++ (if lt_dec (entered a) (abs a.amount) then rest_of a (entered a) ∷ [] else []))
reconcile_expense_evidence_lem_example =
    reconcile_expense_evidence_lem as_is entries observations closings
