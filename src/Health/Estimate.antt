-- ===== src/Health/Estimate.antt =====
-- `FinancialHealthEngine.estimate_cost` of src/financial/health.py.
use tagro_echo_os.Base.{
  pos, ℕ, ◌+◌, String, Bool, not, ◌&&◌, Option, none, some, List, [], ◌∷◌, ◌++◌, map, filter,
  length, any, days_between, sort_by, max_from, leb, nat_eq, append, show, last_two_digits, join,
  if◌then◌else◌,
}
use tagro_echo_os.Money.{Decimal, hundredths, money, minus, le_dec, eq_dec, zero_dec}
use tagro_echo_os.Money.Show.{show_decimal}
use tagro_echo_os.Money.Ratio.{ratio_pct}
use tagro_echo_os.Health.{
  strong, weak, PurchasePriceEvidence, SaleLineEvidence, CostEstimate, financial_year, truthy,
  is_branch, sale_linked, no_estimate, is_eligible, group_by_year, latest_year, not_later,
  not_dearer, same_evidence, first_rows,
}

-- `min(values)` and `max(values)`
abbrev least_cost : Decimal → List Decimal → Decimal
least_cost = max_from (λ x y. le_dec y x)

abbrev greatest_cost : Decimal → List Decimal → Decimal
greatest_cost = max_from le_dec

-- The rows of the chosen year that count: those of the branch of the sale, if there are any.
unfoldable pub scoped_rows :
    SaleLineEvidence → List PurchasePriceEvidence → List PurchasePriceEvidence
unfolding filter is_branch
scoped_rows sale year_rows = elim (filter (is_branch sale.branch) year_rows) [
  | [] ↦ year_rows
  | p ∷ ps ↦ p ∷ ps
]

unfoldable pub scope_name : SaleLineEvidence → List PurchasePriceEvidence → String
unfolding filter is_branch
scope_name sale year_rows = elim (filter (is_branch sale.branch) year_rows) [
  | [] ↦ "enterprise_fallback"
  | p ∷ ps ↦ "same_branch"
]

-- `dispersion`, of the latest cost and the recent costs.
unfoldable pub dispersion_of : Decimal → Decimal → List Decimal → Decimal
unfolding max_from
dispersion_of reference cost costs =
    if eq_dec reference zero_dec
    then hundredths (pos 0)
    else ratio_pct (minus (greatest_cost cost costs) (least_cost cost costs)) reference

-- The test for strong evidence: three recent references, the year of the sale, a coherent band.
unfoldable pub is_strong : ℕ → Bool → Decimal → Bool
unfolding le_dec
is_strong recent same_fy dispersion =
    leb 3 recent && same_fy && le_dec dispersion (hundredths (pos 3000))

unfoldable pub reasons : ℕ → Bool → Decimal → List String
unfolding show_decimal
reasons recent same_fy dispersion =
    (if leb 3 recent then [] else "fewer than three recent purchase references" ∷ [])
    ++ (if same_fy then [] else "cost evidence falls back to a prior financial year" ∷ [])
    ++ (if le_dec dispersion (hundredths (pos 3000))
        then []
        else append "recent purchase-price band is volatile ("
            (append (show_decimal dispersion) "%)")
          ∷ [])

unfoldable pub confidence_reason_of : ℕ → Bool → Decimal → String
unfolding is_strong reasons join
confidence_reason_of recent same_fy dispersion =
    if is_strong recent same_fy dispersion
    then "three or more coherent purchase references in the sale financial year"
    else elim (reasons recent same_fy dispersion) [
      | [] ↦ "purchase evidence is supportive but not deterministic"
      | r ∷ rs ↦ join "; " (r ∷ rs)
    ]

unfoldable pub policy_of : ℕ → String → ℕ → Bool → String
unfolding append show last_two_digits
policy_of fy scope recent with_high = append "LIFO-style latest external purchase from FY " (
    append (show fy) (
      append "-" (
        append (last_two_digits (fy + 1)) (
          append "; " (
            append scope (
              append "; comparison uses latest " (
                append (show recent)
                  (append " price(s)" (if with_high then " plus protected high" else "")))))))))

-- `(p.source_ref for p in selected if p.source_ref)`
refs_of : List PurchasePriceEvidence → List String
unfolding truthy
refs_of [] = []
refs_of (p ∷ ps) = truthy p.source_ref ++ refs_of ps

abbrev cost_of : PurchasePriceEvidence → Decimal
cost_of p = p.cost_before_tax

-- The estimate from the latest purchase and the other recent ones, with the year and its scope.
unfoldable pub from_references :
    SaleLineEvidence
    → ℕ
    → String
    → PurchasePriceEvidence
    → List PurchasePriceEvidence
    → PurchasePriceEvidence
    → CostEstimate
unfolding is_strong dispersion_of confidence_reason_of policy_of refs_of max_from any same_evidence
from_references sale selected_fy scope latest others protected_high =
    let recent = latest ∷ others in
    let repeated = any (same_evidence protected_high) recent in
    let selected = if repeated then recent else recent ++ protected_high ∷ [] in
    let more = if repeated then others else others ++ protected_high ∷ [] in
    let reference = money latest.cost_before_tax in
    let dispersion = dispersion_of reference latest.cost_before_tax (map cost_of others) in
    let same_fy = nat_eq selected_fy (financial_year sale.sale_date) in
    record {
      unit_cost = some reference;
      confidence = if is_strong (length recent) same_fy dispersion then strong else weak;
      reference_count = length selected;
      reference_dates = map (λ (p : PurchasePriceEvidence). p.purchase_date) selected;
      source_refs = refs_of selected;
      policy = policy_of selected_fy scope (length recent) (not repeated);
      reference_scope = scope;
      reference_low = some (money (least_cost latest.cost_before_tax (map cost_of more)));
      reference_high = some (money (greatest_cost latest.cost_before_tax (map cost_of more)));
      latest_reference = some reference;
      latest_reference_age_days = some (days_between sale.sale_date latest.purchase_date);
      recent_reference_count = length recent;
      recent_dispersion_pct = some dispersion;
      confidence_reason = confidence_reason_of (length recent) same_fy dispersion;
    }

-- `sorted(scoped_rows, key=..., reverse=True)`
unfoldable pub latest_first : List PurchasePriceEvidence → List PurchasePriceEvidence
unfolding sort_by not_later
latest_first = sort_by (λ p q. not_later q p)

-- `protected_high`
unfoldable pub protected_high_of :
    PurchasePriceEvidence → List PurchasePriceEvidence → PurchasePriceEvidence
unfolding max_from not_dearer
protected_high_of latest [] = latest
protected_high_of latest (p ∷ ps) = max_from not_dearer p ps

-- The estimate from `recent`, with the rows it is taken from; these are never empty.
unfoldable pub from_recent :
    SaleLineEvidence
    → ℕ
    → String
    → List PurchasePriceEvidence
    → List PurchasePriceEvidence
    → CostEstimate
unfolding from_references protected_high_of
from_recent sale selected_fy scope scoped [] =
    no_estimate "no prior purchase evidence" "no purchase-price evidence at or before the sale date"
from_recent sale selected_fy scope scoped (latest ∷ others) =
    from_references sale selected_fy scope latest others (protected_high_of latest scoped)

-- The estimate from the rows of the chosen year, if one is chosen.
unfoldable pub from_year : SaleLineEvidence → Option (ℕ × List PurchasePriceEvidence) → CostEstimate
unfolding from_recent latest_first scoped_rows scope_name first_rows
from_year sale none =
    no_estimate "no prior purchase evidence" "no purchase-price evidence at or before the sale date"
from_year sale (some (selected_fy, year_rows)) =
    let scoped = scoped_rows sale year_rows in
    from_recent sale selected_fy (scope_name sale year_rows) scoped
      (first_rows 4 (latest_first scoped))

unfoldable pub from_eligible : SaleLineEvidence → List PurchasePriceEvidence → CostEstimate
unfolding from_year latest_year group_by_year
from_eligible sale [] =
    no_estimate "no valid purchase evidence" "no qualifying pre-sale purchase-price evidence"
from_eligible sale (p ∷ ps) =
    from_year sale (latest_year (financial_year sale.sale_date) (group_by_year (p ∷ ps) []))

-- The estimate from the purchases, where the sale names no cost.
unfoldable pub from_purchases : SaleLineEvidence → List PurchasePriceEvidence → CostEstimate
unfolding from_eligible filter is_eligible
from_purchases sale purchases = from_eligible sale (filter (is_eligible sale) purchases)

-- The estimate from the cost that the sale names, or else from the purchases.
unfoldable pub estimate_from :
    SaleLineEvidence → List PurchasePriceEvidence → Option Decimal → CostEstimate
unfolding from_purchases sale_linked
estimate_from sale purchases none = from_purchases sale purchases
estimate_from sale purchases (some cost) = sale_linked sale cost

unfoldable pub estimate_cost : SaleLineEvidence → List PurchasePriceEvidence → CostEstimate
unfolding estimate_from
estimate_cost sale purchases = estimate_from sale purchases sale.explicit_cost_before_tax
