-- ===== src/Health/Breakdown.antt =====
-- `confidence_breakdown` (src/financial/cost_confidence.py) against the tiers of `summarize`
-- (src/financial/health.py), which it is used beside in src/financial/on_call.py.
use tagro_echo_os.Base.{
  ℤ, ◌+ℤ◌, ◌-ℤ◌, int_laws, ◌+◌, List, [], ◌∷◌, map, filter, length, ◌≡◌, refl, sym, ap, ◌∙◌, arith,
  Bool-cases, inl, inr, if◌then◌else◌,
}
use tagro_echo_os.Money.{Decimal, hundredths, money, plus, minus, sum_dec, sum_from}
use tagro_echo_os.Money.Rounding.{plus-hundredths, minus-hundredths, money-hundredths}
use tagro_echo_os.Expense.{ExpenseEvidence}
use tagro_echo_os.Health.{
  CostConfidence, exact, strong, weak, unknown, same_confidence, PurchasePriceEvidence,
  SaleLineEvidence,
}
use tagro_echo_os.Health.Project.{
  SaleProfitProjection, ByConfidence, each_confidence, has_confidence, sales_of, sales_total,
  summarize, summary_of,
}
use tagro_echo_os.Health.Confidence.{
  Bucket, empty_bucket, add_to_bucket, add_to_tier, fill_buckets, tier_of, breakdown_of,
  confidence_breakdown,
}
use tagro_echo_os.Health.Totals.{rows, sales_total-cents, of_tiers}
use tagro_echo_os.Health.Sums.{plus_four}

-- The bucket of a tier.
abbrev pub tier : {A : Type 0} → CostConfidence → ByConfidence A → A
tier exact b = b.of_exact
tier strong b = b.of_strong
tier weak b = b.of_weak
tier unknown b = b.of_unknown

tier-add_to_tier :
    (c d : CostConfidence) (p : SaleProfitProjection) (bs : ByConfidence Bucket)
    → tier c (add_to_tier d p bs)
      ≡ (if same_confidence d c then add_to_bucket p (tier c bs) else tier c bs)
unfolding add_to_tier same_confidence
tier-add_to_tier exact exact p bs = refl
tier-add_to_tier exact strong p bs = refl
tier-add_to_tier exact weak p bs = refl
tier-add_to_tier exact unknown p bs = refl
tier-add_to_tier strong exact p bs = refl
tier-add_to_tier strong strong p bs = refl
tier-add_to_tier strong weak p bs = refl
tier-add_to_tier strong unknown p bs = refl
tier-add_to_tier weak exact p bs = refl
tier-add_to_tier weak strong p bs = refl
tier-add_to_tier weak weak p bs = refl
tier-add_to_tier weak unknown p bs = refl
tier-add_to_tier unknown exact p bs = refl
tier-add_to_tier unknown strong p bs = refl
tier-add_to_tier unknown weak p bs = refl
tier-add_to_tier unknown unknown p bs = refl

bucket_sales :
    (p : SaleProfitProjection) (b : Bucket)
    → ((add_to_bucket p b).sales_before_tax ≡ plus b.sales_before_tax p.sales_before_tax)
      × ((add_to_bucket p b).line_count ≡ b.line_count + 1)
unfolding add_to_bucket
bucket_sales p b = (refl, refl)

-- What the loop leaves in the bucket of a tier.
fill_buckets_lem :
    (c : CostConfidence) (ps : List SaleProfitProjection) (bs : ByConfidence Bucket)
    → ((tier c (fill_buckets ps bs)).sales_before_tax
        ≡ sum_from (tier c bs).sales_before_tax (map sales_of (filter (has_confidence c) ps)))
      × ((tier c (fill_buckets ps bs)).line_count
          ≡ (tier c bs).line_count + length (filter (has_confidence c) ps))
unfolding fill_buckets sum_from filter has_confidence same_confidence
fill_buckets_lem c [] bs = (refl, omega arith)
fill_buckets_lem c (p ∷ ps) bs =
    let bs' = add_to_tier p.cost.confidence p bs in
    let after = fill_buckets_lem c ps bs' in
    let step = tier-add_to_tier c p.cost.confidence p bs in
    elim (Bool-cases (same_confidence p.cost.confidence c)) [
      | inl same ↦ ground (arith, after, step, same, bucket_sales p (tier c bs))
      | inr not_it ↦ ground (arith, after, step, not_it)
    ]

tier_each :
    {A : Type 0} (c : CostConfidence) (f : CostConfidence → A) → f c ≡ tier c (each_confidence f)
tier_each exact f = refl
tier_each strong f = refl
tier_each weak f = refl
tier_each unknown f = refl

abbrev no_buckets : ByConfidence Bucket
no_buckets = record {
  of_exact = empty_bucket;
  of_strong = empty_bucket;
  of_weak = empty_bucket;
  of_unknown = empty_bucket;
}

bucket_total :
    (c : CostConfidence) (ps : List SaleProfitProjection)
    → (money (tier c (fill_buckets ps no_buckets)).sales_before_tax
        ≡ sales_total (filter (has_confidence c) ps))
      × ((tier c (fill_buckets ps no_buckets)).line_count ≡ length (filter (has_confidence c) ps))
unfolding sales_total sum_dec
bucket_total c ps =
    let (sales, lines) = fill_buckets_lem c ps no_buckets in
    let rest = filter (has_confidence c) ps in
    let starts = sym (tier_each c (λ _. empty_bucket)) in
    (
      ap money
          (sales ∙ ap (λ (b : Bucket). sum_from b.sales_before_tax (map sales_of rest)) starts),
      lines ∙ ap (λ (b : Bucket). b.line_count + length rest) starts ∙ omega arith,
    )

tier_sales :
    (c : CostConfidence) (total : Decimal) (bs : ByConfidence Bucket)
    → (tier c (breakdown_of total bs).by_confidence).sales_before_tax
      ≡ money (tier c bs).sales_before_tax
unfolding breakdown_of tier_of
tier_sales exact total bs = refl
tier_sales strong total bs = refl
tier_sales weak total bs = refl
tier_sales unknown total bs = refl

tier_lines :
    (c : CostConfidence) (total : Decimal) (bs : ByConfidence Bucket)
    → (tier c (breakdown_of total bs).by_confidence).line_count ≡ (tier c bs).line_count
unfolding breakdown_of tier_of
tier_lines exact total bs = refl
tier_lines strong total bs = refl
tier_lines weak total bs = refl
tier_lines unknown total bs = refl

rest_parts : (e s w u : ℤ) → e +ℤ s +ℤ w +ℤ u -ℤ (e +ℤ s) ≡ w +ℤ u
rest_parts e s w u = omega int_laws

rest_exposed :
    {t a b x y z v : Decimal} {e s w u : ℤ}
    → a ≡ x
    → b ≡ y
    → x ≡ hundredths e
    → y ≡ hundredths s
    → z ≡ hundredths w
    → v ≡ hundredths u
    → t ≡ plus (plus (plus x y) z) v
    → (money (plus a b) ≡ plus x y) × (money (minus t (money (plus a b))) ≡ plus z v)
rest_exposed {e} {s} {w} {u} is_a is_b is_e is_s is_w is_u is_t = ground (
  arith,
  plus_four is_e is_s is_w is_u,
  plus-hundredths e s,
  plus-hundredths w u,
  money-hundredths (e +ℤ s),
  minus-hundredths (e +ℤ s +ℤ w +ℤ u) (e +ℤ s),
  rest_parts e s w u,
  money-hundredths (w +ℤ u),
)

-- The breakdown of the projections of a summary gives each tier the sales and the lines that the summary
-- gives it, and divides the sales into the supported and the exposed part.
pub confidence_breakdown-summarize :
    (sales : List SaleLineEvidence) (purchases : List PurchasePriceEvidence)
    (expenses : List ExpenseEvidence)
    → let s = summarize sales purchases expenses in
      let b = confidence_breakdown s.projections in
      (b.sales_before_tax ≡ s.sales_before_tax)
      × ((c : CostConfidence)
          → ((tier c b.by_confidence).sales_before_tax ≡ tier c s.cost_confidence_revenue)
            × ((tier c b.by_confidence).line_count ≡ tier c s.cost_confidence_counts))
      × (b.exact_or_strong_sales_before_tax
          ≡ plus s.cost_confidence_revenue.of_exact s.cost_confidence_revenue.of_strong)
      × (b.weak_or_unknown_sales_before_tax
          ≡ plus s.cost_confidence_revenue.of_weak s.cost_confidence_revenue.of_unknown)
unfolding confidence_breakdown breakdown_of tier_of summarize summary_of rows sales_total
confidence_breakdown-summarize sales purchases expenses =
    let ps = rows purchases sales in
    let total = λ (c : CostConfidence). sales_total-cents purchases sales (has_confidence c) in
    let at = λ (c : CostConfidence). bucket_total c ps in
    let tier_total = λ (c : CostConfidence). sales_total (filter (has_confidence c) ps) in
    let count = λ (c : CostConfidence). length (filter (has_confidence c) ps) in
    let bs = fill_buckets ps no_buckets in
    let (supported, exposed) =
      rest_exposed (at exact).0 (at strong).0 (total exact) (total strong) (total weak)
        (total unknown) (of_tiers purchases sales) in
    (
      refl,
      λ c. (
        tier_sales c (sales_total ps) bs ∙ (at c).0 ∙ tier_each c tier_total,
        tier_lines c (sales_total ps) bs ∙ (at c).1 ∙ tier_each c count,
      ),
      supported,
      exposed,
    )
