-- ===== src/Health/Confidence.antt =====
-- src/financial/cost_confidence.py: `confidence_breakdown`.
use tagro_echo_os.Base.{
  pos, ℕ, ◌+◌, String, Option, none, some, List, [], ◌∷◌, ◌++◌, map, any, ◌==◌, le_text, sort_by,
  if◌then◌else◌,
}
use tagro_echo_os.Money.{Decimal, zero_dec, hundredths, money, plus, minus, eq_dec, sum_dec}
use tagro_echo_os.Money.Ratio.{ratio_pct_half_up}
use tagro_echo_os.Health.{CostConfidence, exact, strong, weak, unknown}
use tagro_echo_os.Health.Project.{SaleProfitProjection, ByConfidence, sales_of}

-- The dict of one tier while the loop runs. `source_refs` is a set: each text stands once.
pub record Bucket : Type 0 where
  pub line_count : ℕ
  pub sales_before_tax : Decimal
  pub estimated_cogs : Decimal
  pub estimated_gross_profit : Decimal
  pub source_refs : List String

abbrev pub empty_bucket : Bucket
empty_bucket = record {
  line_count = 0;
  sales_before_tax = zero_dec;
  estimated_cogs = zero_dec;
  estimated_gross_profit = zero_dec;
  source_refs = [];
}

-- `s.update(refs)`
unfoldable pub update_refs : List String → List String → List String
unfolding any
update_refs known [] = known
update_refs known (r ∷ rs) =
    update_refs (if any (λ k. k == r) known then known else known ++ r ∷ []) rs

-- `if x is not None: total += x`
unfoldable pub add_known : Decimal → Option Decimal → Decimal
unfolding plus
add_known total none = total
add_known total (some d) = plus total d

unfoldable pub add_to_bucket : SaleProfitProjection → Bucket → Bucket
unfolding plus add_known update_refs
add_to_bucket p b = record {
  line_count = b.line_count + 1;
  sales_before_tax = plus b.sales_before_tax p.sales_before_tax;
  estimated_cogs = add_known b.estimated_cogs p.estimated_cogs;
  estimated_gross_profit = add_known b.estimated_gross_profit p.estimated_gross_profit;
  source_refs = update_refs b.source_refs p.cost.source_refs;
}

-- One round of the loop: the bucket of the tier of the row is updated.
unfoldable pub add_to_tier :
    CostConfidence → SaleProfitProjection → ByConfidence Bucket → ByConfidence Bucket
unfolding add_to_bucket
add_to_tier exact p bs = record bs { of_exact = add_to_bucket p bs.of_exact }
add_to_tier strong p bs = record bs { of_strong = add_to_bucket p bs.of_strong }
add_to_tier weak p bs = record bs { of_weak = add_to_bucket p bs.of_weak }
add_to_tier unknown p bs = record bs { of_unknown = add_to_bucket p bs.of_unknown }

unfoldable pub fill_buckets : List SaleProfitProjection → ByConfidence Bucket → ByConfidence Bucket
unfolding add_to_tier
fill_buckets [] bs = bs
fill_buckets (p ∷ ps) bs = fill_buckets ps (add_to_tier p.cost.confidence p bs)

-- `_pct`
unfoldable pub pct : Decimal → Decimal → Decimal
unfolding eq_dec ratio_pct_half_up
pct numerator denominator =
    if eq_dec denominator zero_dec
    then hundredths (pos 0)
    else ratio_pct_half_up numerator denominator

pub record Tier : Type 0 where
  pub line_count : ℕ
  pub sales_before_tax : Decimal
  pub sales_share_pct : Decimal
  pub estimated_cogs : Decimal
  pub estimated_gross_profit : Decimal
  pub source_refs : List String

unfoldable pub tier_of : Decimal → Bucket → Tier
unfolding money pct sort_by le_text
tier_of total b = record {
  line_count = b.line_count;
  sales_before_tax = money b.sales_before_tax;
  sales_share_pct = pct (money b.sales_before_tax) total;
  estimated_cogs = money b.estimated_cogs;
  estimated_gross_profit = money b.estimated_gross_profit;
  source_refs = sort_by le_text b.source_refs;
}

-- The dict that `confidence_breakdown` returns.
pub record Breakdown : Type 0 where
  pub sales_before_tax : Decimal
  pub exact_or_strong_sales_before_tax : Decimal
  pub weak_or_unknown_sales_before_tax : Decimal
  pub exact_or_strong_revenue_coverage_pct : Decimal
  pub weak_or_unknown_revenue_exposure_pct : Decimal
  pub by_confidence : ByConfidence Tier

unfoldable pub breakdown_of : Decimal → ByConfidence Bucket → Breakdown
unfolding tier_of money plus minus pct
breakdown_of total bs =
    let exact_tier = tier_of total bs.of_exact in
    let strong_tier = tier_of total bs.of_strong in
    let supported = money (plus exact_tier.sales_before_tax strong_tier.sales_before_tax) in
    let exposed = money (minus total supported) in
    record {
      sales_before_tax = total;
      exact_or_strong_sales_before_tax = supported;
      weak_or_unknown_sales_before_tax = exposed;
      exact_or_strong_revenue_coverage_pct = pct supported total;
      weak_or_unknown_revenue_exposure_pct = pct exposed total;
      by_confidence = record {
        of_exact = exact_tier;
        of_strong = strong_tier;
        of_weak = tier_of total bs.of_weak;
        of_unknown = tier_of total bs.of_unknown;
      };
    }

unfoldable pub confidence_breakdown : List SaleProfitProjection → Breakdown
unfolding breakdown_of fill_buckets money sum_dec
confidence_breakdown rows = breakdown_of (money (sum_dec (map sales_of rows))) (
    fill_buckets rows (record {
      of_exact = empty_bucket;
      of_strong = empty_bucket;
      of_weak = empty_bucket;
      of_unknown = empty_bucket;
    }))
