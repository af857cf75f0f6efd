-- ===== src/Expense/Slices.antt =====
-- The dict `entry_totals` of `reconcile_expense_evidence` (src/financial/expense_reconciliation.py), as sums
-- over the entries.
use tagro_echo_os.Base.{
  String, Bool, true, Option, none, some, List, [], ◌∷◌, filter, map, eq_iff, eq_refl, ◌≡◌, refl,
  ap, ◌∙◌, arith, inl, inr, Bool-cases, if◌then◌else◌,
}
use mathlib.Core.Path.{ap₂}
use tagro_echo_os.Money.{Decimal, abs, plus, sum_dec, sum_from}
use tagro_echo_os.Expense.{
  ExpenseEvidence, SliceKey, slice_key, same_text, same_key, total_of_key, put_total, entry_totals,
}

-- The row is of the slice: the branch without surrounding white space in upper case, and the date.
unfoldable pub is_of : (String → String) → SliceKey → ExpenseEvidence → Bool
unfolding same_key slice_key
is_of upper key row = same_key (slice_key upper row) key

-- The entries of a slice, their magnitudes added up.
unfoldable pub represented : (String → String) → List ExpenseEvidence → SliceKey → Decimal
unfolding is_of filter sum_dec
represented upper entries key =
    sum_dec (map (λ (e : ExpenseEvidence). abs e.amount) (filter (is_of upper key) entries))

same_text-eq : (a b : Option String) → same_text a b ≡ true → a ≡ b
same_text-eq none none h = refl
same_text-eq (some a) (some b) h = ap some ((eq_iff a b).0 h)
same_text-eq none (some b) h = cc
same_text-eq (some a) none h = cc

same_text_refl : (a : Option String) → same_text a a ≡ true
same_text_refl none = refl
same_text_refl (some a) = eq_refl a

pub same_key-eq : (j k : SliceKey) → same_key j k ≡ true → j ≡ k
unfolding same_key
same_key-eq (b, d) (c, e) h = ap₂ (λ x y. (x, y)) (same_text-eq b c (ground arith)) (ground arith)

pub same_key_refl : (k : SliceKey) → same_key k k ≡ true
unfolding same_key
same_key_refl (b, d) = ground (arith, same_text_refl b)

total_of_key-put_total :
    (j k : SliceKey) (q : Decimal) (totals : List (SliceKey × Decimal))
    → total_of_key j (put_total k q totals) ≡ (if same_key k j then q else total_of_key j totals)
unfolding total_of_key put_total
total_of_key-put_total j k q [] = refl
total_of_key-put_total j k q ((i, p) ∷ totals) = ground (
  arith,
  same_key-eq i k,
  same_key-eq i j,
  same_key-eq k j,
  same_key_refl j,
  total_of_key-put_total j k q totals,
)

-- One entry more in the dict: its magnitude is added to the total of its slice.
entry_total :
    (upper : String → String) (key : SliceKey) (row : ExpenseEvidence)
    (totals : List (SliceKey × Decimal))
    → total_of_key key (
        put_total
          (slice_key upper row)
          (plus (total_of_key (slice_key upper row) totals) (abs row.amount))
          totals)
      ≡ (if is_of upper key row
          then plus (total_of_key key totals) (abs row.amount)
          else total_of_key key totals)
unfolding is_of
entry_total upper key row totals =
    let k = slice_key upper row in
    total_of_key-put_total key k (plus (total_of_key k totals) (abs row.amount)) totals
    ∙ elim (Bool-cases (same_key k key)) [
      | inl same ↦
          rw same (ap (λ j. plus (total_of_key j totals) (abs row.amount)) (same_key-eq k key same))
      | inr other ↦ rw other
    ]

entry_totals-from :
    (upper : String → String) (key : SliceKey) (rows : List ExpenseEvidence)
    (totals : List (SliceKey × Decimal))
    → total_of_key key (entry_totals upper rows totals)
      ≡ sum_from
          (total_of_key key totals)
          (map (λ (e : ExpenseEvidence). abs e.amount) (filter (is_of upper key) rows))
unfolding entry_totals filter sum_from
entry_totals-from upper key [] totals = refl
entry_totals-from upper key (row ∷ rows) totals =
    let k = slice_key upper row in
    let put = put_total k (plus (total_of_key k totals) (abs row.amount)) totals in
    let one = entry_total upper key row totals in
    entry_totals-from upper key rows put ∙ elim (Bool-cases (is_of upper key row)) [
      | inl takes ↦ simp takes (
          ap
            (λ d.
              sum_from d
                (map (λ (e : ExpenseEvidence). abs e.amount) (filter (is_of upper key) rows)))
            (ground (arith, one, takes)))
      | inr skips ↦ simp skips (
          ap
            (λ d.
              sum_from d
                (map (λ (e : ExpenseEvidence). abs e.amount) (filter (is_of upper key) rows)))
            (ground (arith, one, skips)))
    ]

-- The total that the dict has for a slice.
pub entry_totals-represented :
    (upper : String → String) (entries : List ExpenseEvidence) (key : SliceKey)
    → total_of_key key (entry_totals upper entries []) ≡ represented upper entries key
unfolding represented sum_dec total_of_key
entry_totals-represented upper entries key = entry_totals-from upper key entries []
