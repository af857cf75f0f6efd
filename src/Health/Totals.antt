-- ===== src/Health/Totals.antt =====
-- What the totals of `summarize` (src/financial/health.py) add up to.
use tagro_echo_os.Base.{
  ℤ, ◌+ℤ◌, ◌-ℤ◌, sum_ℤ, int_laws, suc, ◌+◌, Bool, true, false, Option, none, some, List, [], ◌∷◌,
  map, filter, length, ◌≡◌, refl, sym, ap, ◌∙◌,
}
use mathlib.Core.Path.{subst}
use tagro_echo_os.Money.{Decimal, hundredths, cents, money, plus, minus, times, abs, sum_dec}
use tagro_echo_os.Money.Rounding.{
  cents-hundredths, money-eq, money-hundredths, plus-hundredths, minus-hundredths,
}
use tagro_echo_os.Expense.{ExpenseEvidence, ExpenseRole, direct, branch_role, central, finance}
use tagro_echo_os.Health.Sums.{
  not-true, filter-true, +ℤ_comm, plus_four, sum-parts, sum-difference, sum-tiers, count-tiers,
  exact_total,
}
use tagro_echo_os.Health.{exact, strong, weak, unknown, PurchasePriceEvidence, SaleLineEvidence}
use tagro_echo_os.Health.Estimate.{estimate_cost}
use tagro_echo_os.Health.Project.{
  SaleProfitProjection, profit_of, project_sale, summary_of, summarize, sales_total, amount_total,
  or_zero, has_confidence, cost_known, cost_unknown, is_none, sales_of, has_role, is_classified,
}

project_sale-money :
    (purchases : List PurchasePriceEvidence) (x : SaleLineEvidence)
    → sales_of (project_sale purchases x) ≡ hundredths (cents (sales_of (project_sale purchases x)))
unfolding project_sale money
project_sale-money purchases x = ap hundredths (sym (cents-hundredths (cents x.sale_before_tax)))

difference-money : (m n : ℤ) → money (minus (hundredths m) (hundredths n)) ≡ hundredths (m -ℤ n)
difference-money m n = ap money (minus-hundredths m n) ∙ money-hundredths (m -ℤ n)

profit_cases :
    (sale : SaleLineEvidence) (n : ℤ) (u : Option Decimal)
    → let p = profit_of sale (hundredths n) u in
      is_none p.0 ≡ false
      → (or_zero p.0 ≡ hundredths (cents (or_zero p.0)))
        × (or_zero p.1.0 ≡ hundredths (cents (or_zero p.1.0)))
        × (cents (or_zero p.1.0) ≡ n -ℤ cents (or_zero p.0))
unfolding profit_of is_none or_zero
profit_cases sale n none h = cc
profit_cases sale n (some u) h =
    let cogs = times (abs sale.quantity) u in
    let c = cents cogs in
    let is_c : money cogs ≡ hundredths c = money-eq cogs in
    let gp : money (minus (hundredths n) (money cogs)) ≡ hundredths (n -ℤ c) =
      ap (λ d. money (minus (hundredths n) d)) is_c ∙ difference-money n c in
    let at_gp = ap cents gp ∙ cents-hundredths (n -ℤ c) in
    let at_c = ap cents is_c ∙ cents-hundredths c in
    (
      is_c ∙ ap hundredths (sym at_c),
      gp ∙ ap hundredths (sym at_gp),
      at_gp ∙ ap (λ z. n -ℤ z) (sym at_c),
    )

cogs_of : SaleProfitProjection → Decimal
cogs_of p = or_zero p.estimated_cogs

profit_row_of : SaleProfitProjection → Decimal
profit_row_of p = or_zero p.estimated_gross_profit

project_sale-profit :
    (purchases : List PurchasePriceEvidence) (x : SaleLineEvidence)
    → cost_known (project_sale purchases x) ≡ true
    → (cogs_of (project_sale purchases x) ≡ hundredths (cents (cogs_of (project_sale purchases x))))
      × (profit_row_of (project_sale purchases x)
          ≡ hundredths (cents (profit_row_of (project_sale purchases x))))
      × (cents (profit_row_of (project_sale purchases x))
          ≡ cents (sales_of (project_sale purchases x))
            -ℤ cents (cogs_of (project_sale purchases x)))
unfolding project_sale cogs_of profit_row_of money
project_sale-profit purchases x h =
    let n = cents x.sale_before_tax in
    let (p, q, r) = profit_cases x n (estimate_cost x purchases).unit_cost (not-true _ h) in
    (p, q, r ∙ ap (λ z. z -ℤ cents (cogs_of (project_sale purchases x))) (sym (cents-hundredths n)))

module _ (purchases : List PurchasePriceEvidence) (sales : List SaleLineEvidence) where
  unfoldable pub rows : List SaleProfitProjection
  rows = map (project_sale purchases) sales

  -- The total of the sales that pass a test, in hundredths.
  pub sales_total-cents :
      (q : SaleProfitProjection → Bool)
      → sales_total (filter q rows)
        ≡ hundredths (sum_ℤ (map (λ p. cents (sales_of p)) (filter q rows)))
  unfolding sales_total rows
  sales_total-cents q =
      exact_total (project_sale purchases) sales_of q (λ x _. project_sale-money purchases x) sales

  filter_all : filter (λ (p : SaleProfitProjection). true) rows ≡ rows
  filter_all = filter-true rows

  pub all_sales_total : sales_total rows ≡ hundredths (sum_ℤ (map (λ p. cents (sales_of p)) rows))
  all_sales_total =
      subst (λ l. sales_total l ≡ hundredths (sum_ℤ (map (λ p. cents (sales_of p)) l))) filter_all
        (sales_total-cents (λ _. true))

  known_and_unknown :
      sales_total rows
      ≡ plus (sales_total (filter cost_known rows)) (sales_total (filter cost_unknown rows))
  known_and_unknown =
      let f = λ (p : SaleProfitProjection). cents (sales_of p) in
      let k = sum_ℤ (map f (filter cost_known rows)) in
      let u = sum_ℤ (map f (filter cost_unknown rows)) in
      all_sales_total
      ∙ ap hundredths (sym (sum-parts f cost_unknown rows) ∙ +ℤ_comm u k)
      ∙ sym (plus-hundredths k u)
      ∙ ap (λ d. plus d (hundredths u)) (sym (sales_total-cents cost_known))
      ∙ ap (plus (sales_total (filter cost_known rows))) (sym (sales_total-cents cost_unknown))

  pub of_tiers :
      sales_total rows
      ≡ plus
          (plus
            (plus
              (sales_total (filter (has_confidence exact) rows))
              (sales_total (filter (has_confidence strong) rows)))
            (sales_total (filter (has_confidence weak) rows)))
          (sales_total (filter (has_confidence unknown) rows))
  of_tiers =
      let f = λ (p : SaleProfitProjection). cents (sales_of p) in
      all_sales_total
      ∙ ap hundredths (sym (sum-tiers f rows))
      ∙ sym (
          plus_four (sales_total-cents (has_confidence exact))
            (sales_total-cents (has_confidence strong)) (sales_total-cents (has_confidence weak))
            (sales_total-cents (has_confidence unknown)))

  -- The total of a value of the rows whose cost is known.
  known_total : (SaleProfitProjection → Decimal) → Decimal
  known_total f = money (sum_dec (map f (filter cost_known rows)))

  known_profit : known_total profit_row_of ≡ minus (known_total sales_of) (known_total cogs_of)
  unfolding known_total rows
  known_profit =
      let g = project_sale purchases in
      let total = λ (f : SaleProfitProjection → Decimal).
        sum_ℤ (map (λ p. cents (f p)) (filter cost_known rows)) in
      exact_total g profit_row_of cost_known (λ x h. (project_sale-profit purchases x h).1) sales
      ∙ ap hundredths (
          sum-difference g cost_known (λ p. cents (profit_row_of p)) (λ p. cents (sales_of p))
            (λ p. cents (cogs_of p)) sales (λ x h. (project_sale-profit purchases x h).2))
      ∙ sym (
          ap (λ d. minus d (known_total cogs_of))
            (exact_total g sales_of cost_known (λ x _. project_sale-money purchases x) sales)
          ∙ ap (minus (hundredths (total sales_of))) (
              exact_total g cogs_of cost_known (λ x h. (project_sale-profit purchases x h).0) sales)
          ∙ minus-hundredths (total sales_of) (total cogs_of))

take_three : (g d b c f : ℤ) → g -ℤ d -ℤ b -ℤ c -ℤ f ≡ g -ℤ (d +ℤ b +ℤ c) -ℤ f
take_three g d b c f = omega int_laws

chain-hundredths :
    (g d b c f : ℤ)
    → let m = λ (n : ℤ). hundredths n in
      money (minus (money (minus (money (minus (money (minus (m g) (m d))) (m b))) (m c))) (m f))
      ≡ minus (minus (m g) (money (plus (plus (m d) (m b)) (m c)))) (m f)
chain-hundredths g d b c f =
    let down = difference-money in
    ap
      (λ x.
        money
          (minus (money (minus (money (minus x (hundredths b))) (hundredths c))) (hundredths f)))
      (down g d)
    ∙ ap (λ x. money (minus (money (minus x (hundredths c))) (hundredths f))) (down (g -ℤ d) b)
    ∙ ap (λ x. money (minus x (hundredths f))) (down (g -ℤ d -ℤ b) c)
    ∙ down (g -ℤ d -ℤ b -ℤ c) f
    ∙ ap hundredths (take_three g d b c f)
    ∙ sym (
        ap (λ x. minus (minus (hundredths g) x) (hundredths f))
          (ap (λ x. money (plus x (hundredths c))) (plus-hundredths d b)
            ∙ ap money (plus-hundredths (d +ℤ b) c)
            ∙ money-hundredths (d +ℤ b +ℤ c))
        ∙ ap (λ x. minus x (hundredths f)) (minus-hundredths g (d +ℤ b +ℤ c))
        ∙ minus-hundredths (g -ℤ (d +ℤ b +ℤ c)) f)

role_sum : ExpenseRole → List ExpenseEvidence → Decimal
role_sum r expenses = sum_dec (
    map (λ (e : ExpenseEvidence). abs e.amount)
      (filter (has_role r) (filter is_classified expenses)))

known_profit_sum : List PurchasePriceEvidence → List SaleLineEvidence → Decimal
known_profit_sum purchases sales = sum_dec (
    map (λ (p : SaleProfitProjection). or_zero p.estimated_gross_profit)
      (filter cost_known (map (project_sale purchases) sales)))

chain-money :
    (g d b c f : Decimal)
    → money (
        minus
          (money (minus (money (minus (money (minus (money g) (money d))) (money b))) (money c)))
          (money f))
      ≡ minus (minus (money g) (money (plus (plus (money d) (money b)) (money c)))) (money f)
unfolding money
chain-money g d b c f = chain-hundredths (cents g) (cents d) (cents b) (cents c) (cents f)

length-map : {A B : Type 0} (f : A → B) (xs : List A) → length (map f xs) ≡ length xs
length-map f [] = refl
length-map f (x ∷ xs) = ap suc (length-map f xs)

-- The summary of any sales, purchases and expenses balances exactly.
pub summarize_balances :
    (sales : List SaleLineEvidence) (purchases : List PurchasePriceEvidence)
    (expenses : List ExpenseEvidence)
    → let s = summarize sales purchases expenses in
      (s.sales_before_tax ≡ plus s.sales_with_known_cost s.sales_without_known_cost)
      × (s.estimated_gross_profit_known ≡ minus s.sales_with_known_cost s.estimated_cogs_known)
      × (s.sales_before_tax
          ≡ plus
              (plus
                (plus s.cost_confidence_revenue.of_exact s.cost_confidence_revenue.of_strong)
                s.cost_confidence_revenue.of_weak)
              s.cost_confidence_revenue.of_unknown)
      × (s.cost_confidence_counts.of_exact + s.cost_confidence_counts.of_strong
            + s.cost_confidence_counts.of_weak + s.cost_confidence_counts.of_unknown
          ≡ s.sale_lines)
      × (s.estimated_profit_after_finance_known
          ≡ minus
              (minus s.estimated_gross_profit_known s.classified_operating_expenses)
              s.classified_finance_costs)
      × (length s.projections ≡ length sales)
unfolding summarize summary_of sales_total amount_total known_total rows cogs_of profit_row_of
    role_sum known_profit_sum
summarize_balances sales purchases expenses =
    let of_role = λ (r : ExpenseRole). role_sum r expenses in
    (
      known_and_unknown purchases sales,
      known_profit purchases sales,
      of_tiers purchases sales,
      count-tiers (map (project_sale purchases) sales),
      chain-money (known_profit_sum purchases sales) (of_role direct) (of_role branch_role)
          (of_role central) (of_role finance),
      length-map (project_sale purchases) sales,
    )
