-- ===== src/Health/Examples.antt =====
-- Two purchases of a saw, one in the branch of the sale, and two sales in one financial year.
use tagro_echo_os.Base.{
  pos, String, true, false, Option, none, some, List, [], ◌∷◌, any, length, scale, insert_by,
  le_date, Date, refl, ◌≡◌, ◌+◌, ◌↔◌, ◌≢◌,
}
use tagro_echo_os.Money.{Decimal, integer, le_dec, money, plus, minus}
use tagro_echo_os.Expense.{ExpenseEvidence, branch_role}
use tagro_echo_os.Health.{
  PurchasePriceEvidence, SaleLineEvidence, CostConfidence, exact, is_eligible, financial_year,
}
use tagro_echo_os.Health.Estimate.{estimate_cost}
use tagro_echo_os.Health.Project.{summarize}
use tagro_echo_os.Health.Confidence.{confidence_breakdown}
use tagro_echo_os.Health.Costs.{IsLatest, estimate_cost-IsLatest}
use tagro_echo_os.Health.Tiers.{HasTier, estimate_cost-tier}
use tagro_echo_os.Health.Totals.{summarize_balances}
use tagro_echo_os.Health.Breakdown.{tier, confidence_breakdown-summarize}

abbrev july : Date
july = record { year = 2026; month = 7; day = 4 }

abbrev may : Date
may = record { year = 2026; month = 5; day = 20 }

abbrev bought : String → Date → Decimal → String → PurchasePriceEvidence
bought branch day cost ref = record {
  item_key = "MS 180";
  purchase_date = day;
  cost_before_tax = cost;
  branch = some branch;
  vendor = none;
  source_ref = some ref;
  is_stock_transfer = false;
}

abbrev purchases : List PurchasePriceEvidence
purchases =
    bought "KVR" may (integer (pos 100)) "p-1" ∷ bought "ERN" july (integer (pos 90)) "p-2" ∷ []

abbrev sold : String → Option Decimal → SaleLineEvidence
sold item cost = record {
  sale_id = "s-1";
  sale_date = july;
  branch = "KVR";
  item_key = item;
  quantity = integer (pos 1);
  sale_before_tax = integer (pos 150);
  explicit_cost_before_tax = cost;
  source_ref = none;
}

abbrev sales : List SaleLineEvidence
sales = sold "MS 180" none ∷ sold "FS 55" none ∷ sold "FS 55" (some (integer (pos 80))) ∷ []

abbrev expenses : List ExpenseEvidence
expenses =
    record {
      expense_id = "e-1";
      expense_date = 20;
      amount = integer (pos 12);
      branch = some "KVR";
      category = some "rent";
      source_ref = none;
      classification_confidence = "exact";
      role = branch_role;
    }
    ∷ []

found : any (is_eligible (sold "MS 180" none)) purchases ≡ true
unfolding any is_eligible le_date le_dec scale
found = refl

estimate_cost-IsLatest_example :
    (p : PurchasePriceEvidence) × ((estimate_cost (sold "MS 180" none) purchases).unit_cost
      ≡ some (money p.cost_before_tax))
    × IsLatest (sold "MS 180" none) purchases p
estimate_cost-IsLatest_example = estimate_cost-IsLatest (sold "MS 180" none) purchases refl found

-- The cost is the one of the branch, though the other purchase is later.
own_branch_cost :
    (estimate_cost (sold "MS 180" none) purchases).unit_cost ≡ some (money (integer (pos 100)))
unfolding estimate_cost money scale financial_year insert_by
own_branch_cost = refl

estimate_cost-tier_example :
    HasTier (estimate_cost (sold "FS 55" (some (integer (pos 80)))) purchases)
    × (((estimate_cost (sold "FS 55" (some (integer (pos 80)))) purchases).confidence ≡ exact)
        ↔ (some (integer (pos 80)) ≢ none))
estimate_cost-tier_example = estimate_cost-tier (sold "FS 55" (some (integer (pos 80)))) purchases

summarize_balances_example :
    let s = summarize sales purchases expenses in
    (s.sales_before_tax ≡ plus s.sales_with_known_cost s.sales_without_known_cost)
    × (s.estimated_gross_profit_known ≡ minus s.sales_with_known_cost s.estimated_cogs_known)
    × (s.sales_before_tax
        ≡ plus
            (plus
              (plus s.cost_confidence_revenue.of_exact s.cost_confidence_revenue.of_strong)
              s.cost_confidence_revenue.of_weak)
            s.cost_confidence_revenue.of_unknown)
    × (s.cost_confidence_counts.of_exact + s.cost_confidence_counts.of_strong
          + s.cost_confidence_counts.of_weak + s.cost_confidence_counts.of_unknown
        ≡ s.sale_lines)
    × (s.estimated_profit_after_finance_known
        ≡ minus
            (minus s.estimated_gross_profit_known s.classified_operating_expenses)
            s.classified_finance_costs)
    × (length s.projections ≡ length sales)
summarize_balances_example = summarize_balances sales purchases expenses

confidence_breakdown-summarize_example :
    let s = summarize sales purchases expenses in
    let b = confidence_breakdown s.projections in
    (b.sales_before_tax ≡ s.sales_before_tax)
    × ((c : CostConfidence)
        → ((tier c b.by_confidence).sales_before_tax ≡ tier c s.cost_confidence_revenue)
          × ((tier c b.by_confidence).line_count ≡ tier c s.cost_confidence_counts))
    × (b.exact_or_strong_sales_before_tax
        ≡ plus s.cost_confidence_revenue.of_exact s.cost_confidence_revenue.of_strong)
    × (b.weak_or_unknown_sales_before_tax
        ≡ plus s.cost_confidence_revenue.of_weak s.cost_confidence_revenue.of_unknown)
confidence_breakdown-summarize_example = confidence_breakdown-summarize sales purchases expenses
