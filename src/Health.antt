-- ===== src/Health.antt =====
-- src/financial/health.py: the evidence records and the purchase-cost policy of `class FinancialHealthEngine`.
pub mod Estimate
pub mod Project
pub mod Sums
pub mod Totals
pub mod Years
mod Scopes
pub mod Costs
pub mod Confidence
pub mod Breakdown
pub mod Tiers
mod Examples
use tagro_echo_os.Base.{
  ℤ, pos, ℕ, zero, suc, ◌-◌, String, Bool, true, false, not, ◌&&◌, ◌||◌, Option, none, some, List,
  [], ◌∷◌, ◌++◌, Date, le_date, eq_date, le_text, ltb, leb, nat_eq, ◌==◌, is_empty, if◌then◌else◌,
}
use tagro_echo_os.Money.{Decimal, zero_dec, hundredths, money, lt_dec, le_dec, eq_dec}
use tagro_echo_os.Expense.{same_text}

-- `class CostConfidence`
pub data CostConfidence : Type 0 where
  exact strong weak unknown : CostConfidence

unfoldable pub same_confidence : CostConfidence → CostConfidence → Bool
same_confidence exact exact = true
same_confidence strong strong = true
same_confidence weak weak = true
same_confidence unknown unknown = true
same_confidence _ _ = false

pub record PurchasePriceEvidence : Type 0 where
  pub item_key : String
  pub purchase_date : Date
  pub cost_before_tax : Decimal
  pub branch : Option String
  pub vendor : Option String
  pub source_ref : Option String
  pub is_stock_transfer : Bool

pub record SaleLineEvidence : Type 0 where
  pub sale_id : String
  pub sale_date : Date
  pub branch : String
  pub item_key : String
  pub quantity : Decimal
  pub sale_before_tax : Decimal
  pub explicit_cost_before_tax : Option Decimal
  pub source_ref : Option String

pub record CostEstimate : Type 0 where
  pub unit_cost : Option Decimal
  pub confidence : CostConfidence
  pub reference_count : ℕ
  pub reference_dates : List Date
  pub source_refs : List String
  pub policy : String
  pub reference_scope : String
  pub reference_low : Option Decimal
  pub reference_high : Option Decimal
  pub latest_reference : Option Decimal
  pub latest_reference_age_days : Option ℤ
  pub recent_reference_count : ℕ
  pub recent_dispersion_pct : Option Decimal
  pub confidence_reason : String

-- `financial_year`, its first component; the second is one more.
unfoldable pub financial_year : Date → ℕ
financial_year d = if leb 4 d.month then d.year else d.year - 1

-- `(x,) if x else ()` of an optional text
unfoldable pub truthy : Option String → List String
truthy none = []
truthy (some s) = if is_empty s then [] else s ∷ []

-- `x or ""`
unfoldable pub or_blank : Option String → String
or_blank none = ""
or_blank (some s) = s

-- `p.branch == sale.branch`
unfoldable pub is_branch : String → PurchasePriceEvidence → Bool
is_branch b p = same_text p.branch (some b)

-- The estimate from a cost that the sale itself names.
unfoldable pub sale_linked : SaleLineEvidence → Decimal → CostEstimate
unfolding truthy
sale_linked sale cost = record {
  unit_cost = some (money cost);
  confidence = exact;
  reference_count = 1;
  reference_dates = sale.sale_date ∷ [];
  source_refs = truthy sale.source_ref;
  policy = "explicit sale-linked acquisition cost";
  reference_scope = "sale_linked";
  reference_low = some (money cost);
  reference_high = some (money cost);
  latest_reference = some (money cost);
  latest_reference_age_days = some (pos 0);
  recent_reference_count = 1;
  recent_dispersion_pct = some (hundredths (pos 0));
  confidence_reason = "sale-linked acquisition cost is deterministic";
}

-- An estimate without evidence, by its policy and its reason.
abbrev pub no_estimate : String → String → CostEstimate
no_estimate policy reason = record {
  unit_cost = none;
  confidence = unknown;
  reference_count = 0;
  reference_dates = [];
  source_refs = [];
  policy = policy;
  reference_scope = "unknown";
  reference_low = none;
  reference_high = none;
  latest_reference = none;
  latest_reference_age_days = none;
  recent_reference_count = 0;
  recent_dispersion_pct = none;
  confidence_reason = reason;
}

-- The test of the comprehension `eligible`.
unfoldable pub is_eligible : SaleLineEvidence → PurchasePriceEvidence → Bool
is_eligible sale p =
    p.item_key == sale.item_key
    && le_date p.purchase_date sale.sale_date
    && not p.is_stock_transfer
    && not (le_dec p.cost_before_tax zero_dec)

-- `by_fy.setdefault(fy, []).append(p)`
unfoldable pub append_to_year :
    ℕ
    → PurchasePriceEvidence
    → List (ℕ × List PurchasePriceEvidence)
    → List (ℕ × List PurchasePriceEvidence)
append_to_year fy p [] = (fy, p ∷ []) ∷ []
append_to_year fy p ((k, rows) ∷ years) =
    if nat_eq k fy then (k, rows ++ p ∷ []) ∷ years else (k, rows) ∷ append_to_year fy p years

-- The loop that fills `by_fy`.
unfoldable pub group_by_year :
    List PurchasePriceEvidence
    → List (ℕ × List PurchasePriceEvidence)
    → List (ℕ × List PurchasePriceEvidence)
unfolding append_to_year
group_by_year [] years = years
group_by_year (p ∷ ps) years =
    group_by_year ps (append_to_year (financial_year p.purchase_date) p years)

-- `max((fy for fy in by_fy if fy <= sale_fy), default=None)`, with its rows.
unfoldable pub latest_year :
    ℕ → List (ℕ × List PurchasePriceEvidence) → Option (ℕ × List PurchasePriceEvidence)
latest_year sale_fy [] = none
latest_year sale_fy ((k, rows) ∷ years) =
    let rest = latest_year sale_fy years in
    if leb k sale_fy
    then elim rest [
      | none ↦ some (k, rows)
      | some (j, more) ↦ if ltb k j then some (j, more) else some (k, rows)
    ]
    else rest

-- `key(p) <= key(q)`, for the key `(p.purchase_date, p.source_ref or "")`.
unfoldable pub not_later : PurchasePriceEvidence → PurchasePriceEvidence → Bool
unfolding or_blank
not_later p q =
    not (le_date q.purchase_date p.purchase_date)
    || (le_date p.purchase_date q.purchase_date
        && le_text (or_blank p.source_ref) (or_blank q.source_ref))

-- `key(p) <= key(q)`, for the key `(p.cost_before_tax, p.purchase_date, p.source_ref or "")`.
unfoldable pub not_dearer : PurchasePriceEvidence → PurchasePriceEvidence → Bool
unfolding not_later
not_dearer p q =
    lt_dec p.cost_before_tax q.cost_before_tax
    || (le_dec p.cost_before_tax q.cost_before_tax && not_later p q)

-- `p == q` of two evidence records
unfoldable pub same_evidence : PurchasePriceEvidence → PurchasePriceEvidence → Bool
unfolding eq_date eq_dec
same_evidence p q =
    p.item_key == q.item_key
    && eq_date p.purchase_date q.purchase_date
    && eq_dec p.cost_before_tax q.cost_before_tax
    && same_text p.branch q.branch
    && same_text p.vendor q.vendor
    && same_text p.source_ref q.source_ref
    && (if p.is_stock_transfer then q.is_stock_transfer else not q.is_stock_transfer)

-- `ordered[:n]`
unfoldable pub first_rows : ℕ → List PurchasePriceEvidence → List PurchasePriceEvidence
first_rows zero ps = []
first_rows (suc n) [] = []
first_rows (suc n) (p ∷ ps) = p ∷ first_rows n ps
