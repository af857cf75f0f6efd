-- ===== src/Health/Years.antt =====
-- The grouping of purchases by financial year in `estimate_cost` (src/financial/health.py).
use mathlib.Core.List.{append-nil, append_assoc}
use tagro_echo_os.Base.{
  ℕ, Bool, true, false, ◌||◌, none, some, List, [], ◌∷◌, ◌++◌, filter, any, leb, nat_eq, ◌≡◌, sym,
  arith, inl, inr, Option-cases, if◌then◌else◌,
}
use tagro_echo_os.Health.{
  PurchasePriceEvidence, financial_year, append_to_year, group_by_year, latest_year,
}

-- The rows of `by_fy[k]`, and the test `k in by_fy`.
unfoldable pub rows_of : ℕ → List (ℕ × List PurchasePriceEvidence) → List PurchasePriceEvidence
rows_of k [] = []
rows_of k ((j, rows) ∷ years) = if nat_eq j k then rows else rows_of k years

unfoldable pub has_year : ℕ → List (ℕ × List PurchasePriceEvidence) → Bool
has_year k [] = false
has_year k ((j, rows) ∷ years) = nat_eq j k || has_year k years

abbrev pub in_year : ℕ → PurchasePriceEvidence → Bool
in_year k p = nat_eq (financial_year p.purchase_date) k

rows_of-append_to_year :
    (k fy : ℕ) (p : PurchasePriceEvidence) (years : List (ℕ × List PurchasePriceEvidence))
    → rows_of k (append_to_year fy p years)
      ≡ rows_of k years ++ (if nat_eq fy k then p ∷ [] else [])
unfolding rows_of append_to_year
rows_of-append_to_year k fy p [] = ground arith
rows_of-append_to_year k fy p ((j, rows) ∷ years) =
    ground
      (arith, rows_of-append_to_year k fy p years, append-nil rows, append-nil (rows_of k years))

has_year-append_to_year :
    (k fy : ℕ) (p : PurchasePriceEvidence) (years : List (ℕ × List PurchasePriceEvidence))
    → has_year k (append_to_year fy p years) ≡ (has_year k years || nat_eq fy k)
unfolding has_year append_to_year
has_year-append_to_year k fy p [] = ground arith
has_year-append_to_year k fy p ((j, rows) ∷ years) =
    ground (arith, has_year-append_to_year k fy p years)

-- Grouping keeps the order of the rows of a year.
pub rows_of-group_by_year :
    (k : ℕ) (ps : List PurchasePriceEvidence) (years : List (ℕ × List PurchasePriceEvidence))
    → rows_of k (group_by_year ps years) ≡ rows_of k years ++ filter (in_year k) ps
unfolding group_by_year filter
rows_of-group_by_year k [] years = sym (append-nil (rows_of k years))
rows_of-group_by_year k (p ∷ ps) years = ground (
  arith,
  rows_of-group_by_year k ps (append_to_year (financial_year p.purchase_date) p years),
  rows_of-append_to_year k (financial_year p.purchase_date) p years,
  append_assoc (rows_of k years) (p ∷ []) (filter (in_year k) ps),
  append-nil (rows_of k years),
)

pub has_year-group_by_year :
    (k : ℕ) (ps : List PurchasePriceEvidence) (years : List (ℕ × List PurchasePriceEvidence))
    → has_year k (group_by_year ps years) ≡ (has_year k years || any (in_year k) ps)
unfolding group_by_year any
has_year-group_by_year k [] years = ground arith
has_year-group_by_year k (p ∷ ps) years = ground (
  arith,
  has_year-group_by_year k ps (append_to_year (financial_year p.purchase_date) p years),
  has_year-append_to_year k (financial_year p.purchase_date) p years,
)

-- The year that is chosen is there, and none that may be chosen is later.
pub latest_year_lem :
    (fy k : ℕ) (rows : List PurchasePriceEvidence) (years : List (ℕ × List PurchasePriceEvidence))
    → latest_year fy years ≡ some (k, rows)
    → (rows_of k years ≡ rows) × (has_year k years ≡ true) × (leb k fy ≡ true)
unfolding latest_year rows_of has_year
latest_year_lem fy k rows [] h = cc
latest_year_lem fy k rows ((j, more) ∷ years) h = elim (Option-cases (latest_year fy years)) [
  | inl e ↦ ground (arith, e)
  | inr ((i, kept), e) ↦ ground (arith, e, latest_year_lem fy i kept years e)
]

pub latest_year-none :
    (fy j : ℕ) (years : List (ℕ × List PurchasePriceEvidence))
    → latest_year fy years ≡ none
    → has_year j years ≡ true
    → leb j fy ≡ false
unfolding latest_year has_year
latest_year-none fy j [] e h = cc
latest_year-none fy j ((i, more) ∷ years) e h = elim (Option-cases (latest_year fy years)) [
  | inl k ↦ ground (arith, k, latest_year-none fy j years k)
  | inr (kept, k) ↦ ground (arith, k)
]

pub latest_year-greatest :
    (fy j k : ℕ) (rows : List PurchasePriceEvidence) (years : List (ℕ × List PurchasePriceEvidence))
    → latest_year fy years ≡ some (k, rows)
    → has_year j years ≡ true
    → leb j fy ≡ true
    → leb j k ≡ true
unfolding latest_year has_year
latest_year-greatest fy j k rows [] e h l = cc
latest_year-greatest fy j k rows ((i, more) ∷ years) e h l =
    elim (Option-cases (latest_year fy years)) [
      | inl n ↦ ground (arith, n, latest_year-none fy j years n)
      | inr ((o, kept), n) ↦ ground (arith, n, latest_year-greatest fy j o kept years n)
    ]
