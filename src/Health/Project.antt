-- ===== src/Health/Project.antt =====
-- `project_sale`, `_classified` and `summarize` of `class FinancialHealthEngine` (src/financial/health.py).
use tagro_echo_os.Base.{
  pos, ℕ, String, Bool, true, false, not, ◌&&◌, ◌||◌, Option, none, some, List, map, filter, length,
  Date, ◌==◌, is_empty, if◌then◌else◌, nat_eq,
}
use tagro_echo_os.Money.{
  Decimal, zero_dec, hundredths, integer, money, abs, plus, minus, times, eq_dec, sum_dec,
}
use tagro_echo_os.Money.Ratio.{ratio_pct}
use tagro_echo_os.Expense.{
  ExpenseEvidence, ExpenseRole, direct, branch_role, central, finance, non_operating, capital,
  internal_transfer, unknown_role,
}
use tagro_echo_os.Health.{
  CostConfidence, exact, strong, weak, unknown, same_confidence, PurchasePriceEvidence,
  SaleLineEvidence, CostEstimate,
}
use tagro_echo_os.Health.Estimate.{estimate_cost}

pub record SaleProfitProjection : Type 0 where
  pub sale_id : String
  pub branch : String
  pub sale_date : Date
  pub item_key : String
  pub quantity : Decimal
  pub sales_before_tax : Decimal
  pub estimated_cogs : Option Decimal
  pub estimated_gross_profit : Option Decimal
  pub gross_margin_pct : Option Decimal
  pub cost : CostEstimate

-- The last three values, from the cost of the unit and the rounded sale.
unfoldable pub profit_of :
    SaleLineEvidence → Decimal → Option Decimal → Option Decimal × (Option Decimal × Option Decimal)
unfolding money times abs minus eq_dec ratio_pct
profit_of sale sales none = (none, (none, none))
profit_of sale sales (some unit_cost) =
    let cogs = money (times (abs sale.quantity) unit_cost) in
    let gp = money (minus sales cogs) in
    (some cogs, (some gp, if eq_dec sales zero_dec then none else some (ratio_pct gp sales)))

unfoldable pub project_sale : List PurchasePriceEvidence → SaleLineEvidence → SaleProfitProjection
unfolding money profit_of estimate_cost
project_sale purchases sale =
    let cost = estimate_cost sale purchases in
    let sales = money sale.sale_before_tax in
    let profit = profit_of sale sales cost.unit_cost in
    record {
      sale_id = sale.sale_id;
      branch = sale.branch;
      sale_date = sale.sale_date;
      item_key = sale.item_key;
      quantity = sale.quantity;
      sales_before_tax = sales;
      estimated_cogs = profit.0;
      estimated_gross_profit = profit.1.0;
      gross_margin_pct = profit.1.1;
      cost = cost;
    }

-- `a == b` of two roles
unfoldable pub same_role : ExpenseRole → ExpenseRole → Bool
same_role direct direct = true
same_role branch_role branch_role = true
same_role central central = true
same_role finance finance = true
same_role non_operating non_operating = true
same_role capital capital = true
same_role internal_transfer internal_transfer = true
same_role unknown_role unknown_role = true
same_role _ _ = false

-- `bool(x)` of an optional text
unfoldable pub is_given : Option String → Bool
is_given none = false
is_given (some s) = not (is_empty s)

-- `_classified`
unfoldable pub is_classified : ExpenseEvidence → Bool
unfolding is_given same_role
is_classified e =
    is_given e.category
    && not (e.classification_confidence == "unknown")
    && not (same_role e.role unknown_role)

-- `x is None`
unfoldable pub is_none {ℓ} : {A : Type ℓ} → Option A → Bool
is_none none = true
is_none (some _) = false

abbrev pub sales_of : SaleProfitProjection → Decimal
sales_of p = p.sales_before_tax

-- `x or Decimal("0")`
unfoldable pub or_zero : Option Decimal → Decimal
or_zero none = zero_dec
or_zero (some d) = d

-- `money(sum((abs(e.amount) for e in rows), Decimal("0")))`
unfoldable pub amount_total : List ExpenseEvidence → Decimal
unfolding money sum_dec abs
amount_total rows = money (sum_dec (map (λ (e : ExpenseEvidence). abs e.amount) rows))

-- `money(sum((p.sales_before_tax for p in rows), Decimal("0")))`
unfoldable pub sales_total : List SaleProfitProjection → Decimal
unfolding money sum_dec
sales_total rows = money (sum_dec (map sales_of rows))

-- `(a / b * Decimal("100")).quantize(Decimal("0.01"))`, and `Decimal("0.00")` for `b == 0`.
unfoldable pub coverage : Decimal → Decimal → Decimal
unfolding eq_dec ratio_pct
coverage a b = if eq_dec b zero_dec then hundredths (pos 0) else ratio_pct a b

-- Values by the tier of the evidence: the dicts over `CostConfidence`.
pub record ByConfidence (A : Type 0) : Type 0 where
  pub of_exact : A
  pub of_strong : A
  pub of_weak : A
  pub of_unknown : A

abbrev pub each_confidence : {A : Type 0} → (CostConfidence → A) → ByConfidence A
each_confidence f = record {
  of_exact = f exact;
  of_strong = f strong;
  of_weak = f weak;
  of_unknown = f unknown;
}

unfoldable pub has_confidence : CostConfidence → SaleProfitProjection → Bool
unfolding same_confidence
has_confidence c p = same_confidence p.cost.confidence c

-- `expense_role_totals`: one value for each role but UNKNOWN.
pub record ByRole : Type 0 where
  pub of_direct : Decimal
  pub of_branch : Decimal
  pub of_central : Decimal
  pub of_finance : Decimal
  pub of_non_operating : Decimal
  pub of_capital : Decimal
  pub of_internal_transfer : Decimal

-- The dict that `summarize` returns.
pub record Summary : Type 0 where
  pub sales_before_tax : Decimal
  pub sales_with_known_cost : Decimal
  pub sales_without_known_cost : Decimal
  pub estimated_cogs_known : Decimal
  pub estimated_gross_profit_known : Decimal
  pub gross_margin_pct_on_known_cost_sales : Option Decimal
  pub classified_direct_selling_costs : Decimal
  pub classified_branch_operating_expenses : Decimal
  pub classified_central_overhead : Decimal
  pub classified_operating_expenses : Decimal
  pub classified_finance_costs : Decimal
  pub classified_pnl_expenses : Decimal
  pub estimated_contribution_known : Decimal
  pub estimated_branch_contribution_known : Decimal
  pub estimated_operating_profit_known : Decimal
  pub estimated_profit_after_finance_known : Decimal
  pub unclassified_expenses : Decimal
  pub expense_role_totals : ByRole
  pub sale_lines : ℕ
  pub sale_lines_unknown_cost : ℕ
  pub cost_coverage_pct : Decimal
  pub cost_revenue_coverage_pct : Decimal
  pub cost_confidence_counts : ByConfidence ℕ
  pub cost_confidence_revenue : ByConfidence Decimal
  pub projection_complete : Bool
  pub projections : List SaleProfitProjection
  pub unknown_expense_evidence : List ExpenseEvidence

unfoldable pub has_role : ExpenseRole → ExpenseEvidence → Bool
unfolding same_role
has_role r e = same_role e.role r

-- The test of `pnl_expenses`.
unfoldable pub is_pnl : ExpenseEvidence → Bool
unfolding has_role
is_pnl e = has_role direct e || has_role branch_role e || has_role central e || has_role finance e

abbrev pub cost_unknown : SaleProfitProjection → Bool
cost_unknown p = is_none p.estimated_cogs

abbrev pub cost_known : SaleProfitProjection → Bool
cost_known p = not (is_none p.estimated_cogs)

-- `summarize`, of the projected sales and the expenses.
unfoldable pub summary_of : List SaleProfitProjection → List ExpenseEvidence → Summary
unfolding filter is_classified has_role is_pnl amount_total sales_total or_zero coverage
    has_confidence is_none
summary_of projected expense_rows =
    let classified = filter is_classified expense_rows in
    let unknown_expenses = filter (λ e. not (is_classified e)) expense_rows in
    let known_cost = filter cost_known projected in
    let unknown_cost = filter cost_unknown projected in
    let sales = sales_total projected in
    let sales_known_cost = sales_total known_cost in
    let known_gp =
      money (
        sum_dec
          (map (λ (p : SaleProfitProjection). or_zero p.estimated_gross_profit) known_cost)) in
    let role_total = λ (r : ExpenseRole). amount_total (filter (has_role r) classified) in
    let operating =
      money (plus (plus (role_total direct) (role_total branch_role)) (role_total central)) in
    let contribution = money (minus known_gp (role_total direct)) in
    let branch_contribution = money (minus contribution (role_total branch_role)) in
    let operating_profit = money (minus branch_contribution (role_total central)) in
    record {
      sales_before_tax = sales;
      sales_with_known_cost = sales_known_cost;
      sales_without_known_cost = sales_total unknown_cost;
      estimated_cogs_known =
          money (sum_dec (map (λ (p : SaleProfitProjection). or_zero p.estimated_cogs) known_cost));
      estimated_gross_profit_known = known_gp;
      gross_margin_pct_on_known_cost_sales =
          if eq_dec sales_known_cost zero_dec
          then none
          else some (ratio_pct known_gp sales_known_cost);
      classified_direct_selling_costs = role_total direct;
      classified_branch_operating_expenses = role_total branch_role;
      classified_central_overhead = role_total central;
      classified_operating_expenses = operating;
      classified_finance_costs = role_total finance;
      classified_pnl_expenses = amount_total (filter is_pnl classified);
      estimated_contribution_known = contribution;
      estimated_branch_contribution_known = branch_contribution;
      estimated_operating_profit_known = operating_profit;
      estimated_profit_after_finance_known = money (minus operating_profit (role_total finance));
      unclassified_expenses = amount_total unknown_expenses;
      expense_role_totals = record {
        of_direct = role_total direct;
        of_branch = role_total branch_role;
        of_central = role_total central;
        of_finance = role_total finance;
        of_non_operating = role_total non_operating;
        of_capital = role_total capital;
        of_internal_transfer = role_total internal_transfer;
      };
      sale_lines = length projected;
      sale_lines_unknown_cost = length unknown_cost;
      cost_coverage_pct =
          coverage (integer (pos (length known_cost))) (integer (pos (length projected)));
      cost_revenue_coverage_pct = coverage sales_known_cost sales;
      cost_confidence_counts = each_confidence (λ c. length (filter (has_confidence c) projected));
      cost_confidence_revenue =
          each_confidence (λ c. sales_total (filter (has_confidence c) projected));
      projection_complete = nat_eq (length unknown_cost) 0 && nat_eq (length unknown_expenses) 0;
      projections = projected;
      unknown_expense_evidence = unknown_expenses;
    }

unfoldable pub summarize :
    List SaleLineEvidence → List PurchasePriceEvidence → List ExpenseEvidence → Summary
unfolding project_sale summary_of
summarize sales purchases expenses = summary_of (map (project_sale purchases) sales) expenses
