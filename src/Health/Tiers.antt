-- ===== src/Health/Tiers.antt =====
-- The tier that `estimate_cost` (src/financial/health.py) gives its evidence.
use tagro_echo_os.Base.{
  ℕ, String, Bool, true, false, Option, none, some, List, [], ◌∷◌, filter, leb, pos, ◌≡◌, refl,
  arith, inl, inr, Bool-cases, ◌≢◌, ◌↔◌, if◌then◌else◌,
}
use tagro_echo_os.Money.{Decimal, hundredths, le_dec}
use tagro_echo_os.Health.{
  exact, strong, weak, unknown, PurchasePriceEvidence, SaleLineEvidence, CostEstimate, sale_linked,
  no_estimate, is_eligible, financial_year, latest_year, group_by_year,
}
use tagro_echo_os.Health.Estimate.{
  from_references, from_recent, from_year, from_eligible, from_purchases, estimate_from,
  estimate_cost, scope_name, scoped_rows, is_strong,
}

-- The percentage of the recent price band, if there is one, is at most 30.00.
unfoldable pub is_coherent : Option Decimal → Bool
unfolding le_dec
is_coherent none = false
is_coherent (some d) = le_dec d (hundredths (pos 3000))

-- What the tier of an estimate says of it.
pub data HasTier (e : CostEstimate) : Type 0 where
  is_exact : e.confidence ≡ exact → e.unit_cost ≢ none → HasTier e
  -- Three recent references, and a coherent band.
  is_strong_tier :
      e.confidence ≡ strong
      → e.unit_cost ≢ none
      → leb 3 e.recent_reference_count ≡ true
      → is_coherent e.recent_dispersion_pct ≡ true
      → HasTier e
  is_weak : e.confidence ≡ weak → e.unit_cost ≢ none → HasTier e
  is_unknown : e.confidence ≡ unknown → e.unit_cost ≡ none → HasTier e

-- The tier of an estimate that the sale does not name.
abbrev Inferred : CostEstimate → Type 0
Inferred e = HasTier e × (e.confidence ≢ exact)

module _ (e : CostEstimate) (n : ℕ) (same_fy : Bool) (d : Decimal) (known : e.unit_cost ≢ none)
    (tier : e.confidence ≡ (if is_strong n same_fy d then strong else weak))
    (counted : e.recent_reference_count ≡ n) (spread : e.recent_dispersion_pct ≡ some d) where
  strong_or_weak : Inferred e
  unfolding is_strong is_coherent
  strong_or_weak = elim (Bool-cases (is_strong n same_fy d)) [
    | inl h ↦ (
      is_strong_tier (ground (arith, h, tier)) known (ground (arith, h, counted))
          (ground (arith, h, spread)),
      λ x. ground (arith, h, tier, x),
    )
    | inr h ↦ (is_weak (ground (arith, h, tier)) known, λ x. ground (arith, h, tier, x))
  ]

from_references-tier :
    (sale : SaleLineEvidence) (fy : ℕ) (scope : String) (l : PurchasePriceEvidence)
    (others : List PurchasePriceEvidence) (high : PurchasePriceEvidence)
    → Inferred (from_references sale fy scope l others high)
unfolding from_references
from_references-tier sale fy scope l others high =
    strong_or_weak (from_references sale fy scope l others high) _ _ _ (λ x. cc) refl refl refl

no_estimate-tier : (policy reason : String) → Inferred (no_estimate policy reason)
no_estimate-tier policy reason = (is_unknown refl refl, λ x. cc)

from_recent-tier :
    (sale : SaleLineEvidence) (fy : ℕ) (scope : String) (scoped recent : List PurchasePriceEvidence)
    → Inferred (from_recent sale fy scope scoped recent)
unfolding from_recent
from_recent-tier sale fy scope scoped [] = no_estimate-tier _ _
from_recent-tier sale fy scope scoped (l ∷ others) = from_references-tier sale fy scope l others _

from_year-tier :
    (sale : SaleLineEvidence) (y : Option (ℕ × List PurchasePriceEvidence))
    → Inferred (from_year sale y)
unfolding from_year
from_year-tier sale none = no_estimate-tier _ _
from_year-tier sale (some (fy, rows)) =
    from_recent-tier sale fy (scope_name sale rows) (scoped_rows sale rows) _

from_eligible-tier :
    (sale : SaleLineEvidence) (ps : List PurchasePriceEvidence) → Inferred (from_eligible sale ps)
unfolding from_eligible
from_eligible-tier sale [] = no_estimate-tier _ _
from_eligible-tier sale (p ∷ ps) =
    from_year-tier sale (latest_year (financial_year sale.sale_date) (group_by_year (p ∷ ps) []))

sale_linked-tier : (sale : SaleLineEvidence) (c : Decimal) → HasTier (sale_linked sale c)
unfolding sale_linked
sale_linked-tier sale c = is_exact refl (λ x. cc)

estimate_from-tier :
    (sale : SaleLineEvidence) (purchases : List PurchasePriceEvidence) (o : Option Decimal)
    → HasTier (estimate_from sale purchases o)
      × (((estimate_from sale purchases o).confidence ≡ exact) ↔ (o ≢ none))
unfolding estimate_from from_purchases
estimate_from-tier sale purchases none =
    let (tier, inferred) = from_eligible-tier sale (filter (is_eligible sale) purchases) in
    (tier, (λ h. absurd (inferred h), λ named. absurd (named refl)))
estimate_from-tier sale purchases (some c) =
    (sale_linked-tier sale c, (λ _ h. cc, λ _. unfold sale_linked in refl))

-- The tier of every estimate is true of it: exact is given just where the sale names its cost; strong
-- evidence has three recent references and a price band of at most 30 per cent; and the cost is missing
-- just where the tier is unknown.
pub estimate_cost-tier :
    (sale : SaleLineEvidence) (purchases : List PurchasePriceEvidence)
    → HasTier (estimate_cost sale purchases)
      × (((estimate_cost sale purchases).confidence ≡ exact)
          ↔ (sale.explicit_cost_before_tax ≢ none))
unfolding estimate_cost
estimate_cost-tier sale purchases = estimate_from-tier sale purchases sale.explicit_cost_before_tax
