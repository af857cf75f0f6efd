-- ===== src/Health/Costs.antt =====
-- Which purchase `estimate_cost` (src/financial/health.py) takes the cost from.
use mathlib.Core.List.{Memᴰ}
use mathlib.Core.Path.{subst}
use tagro_echo_os.Base.{
  ℕ, true, none, some, List, [], filter, any, any-mem, any-first, mem-filter, mem-filter_intro,
  le_date, leb, ◌≡◌, refl, sym, ap, ◌∙◌, arith, inl, inr, Option-cases,
}
use tagro_echo_os.Money.{money}
use tagro_echo_os.Health.{
  PurchasePriceEvidence, SaleLineEvidence, CostEstimate, financial_year, is_branch, is_eligible,
  group_by_year, latest_year,
}
use tagro_echo_os.Health.Estimate.{
  scoped_rows, from_year, from_eligible, from_purchases, estimate_from, estimate_cost,
}
use tagro_echo_os.Health.Scopes.{IsScope, scoped_rows-IsScope, from_year-latest}
use tagro_echo_os.Health.Years.{
  in_year, rows_of, has_year, rows_of-group_by_year, has_year-group_by_year, latest_year_lem,
  latest_year-none, latest_year-greatest,
}

-- The purchase that a cost is taken from.
pub record IsLatest (sale : SaleLineEvidence) (purchases : List PurchasePriceEvidence)
    (p : PurchasePriceEvidence) : Type 0 where
  pub listed : Memᴰ p purchases
  pub eligible : is_eligible sale p ≡ true
  -- No eligible purchase is of a later financial year.
  pub newest_year :
      (q : PurchasePriceEvidence)
      → Memᴰ q purchases
      → is_eligible sale q ≡ true
      → leb (financial_year q.purchase_date) (financial_year p.purchase_date) ≡ true
  -- In that year a purchase of the branch of the sale is taken before one of another.
  pub own_branch :
      (q : PurchasePriceEvidence)
      → Memᴰ q purchases
      → is_eligible sale q ≡ true
      → financial_year q.purchase_date ≡ financial_year p.purchase_date
      → is_branch sale.branch q ≡ true
      → is_branch sale.branch p ≡ true
  -- Of the purchases that count, none is later.
  pub latest :
      (q : PurchasePriceEvidence)
      → Memᴰ q purchases
      → is_eligible sale q ≡ true
      → financial_year q.purchase_date ≡ financial_year p.purchase_date
      → is_branch sale.branch q ≡ is_branch sale.branch p
      → le_date q.purchase_date p.purchase_date ≡ true

financial_year-monotone :
    (sale : SaleLineEvidence) (q : PurchasePriceEvidence)
    → is_eligible sale q ≡ true
    → leb (financial_year q.purchase_date) (financial_year sale.sale_date) ≡ true
unfolding is_eligible financial_year le_date
financial_year-monotone sale q h = ground arith

module _ (sale : SaleLineEvidence) (purchases : List PurchasePriceEvidence) where
  eligible_rows : List PurchasePriceEvidence
  eligible_rows = filter (is_eligible sale) purchases

  year_of : PurchasePriceEvidence → ℕ
  year_of p = financial_year p.purchase_date

  -- The rows of the year that is chosen.
  chosen_rows :
      (k : ℕ) (rows : List PurchasePriceEvidence)
      → latest_year (financial_year sale.sale_date) (group_by_year eligible_rows [])
        ≡ some (k, rows)
      → (rows ≡ filter (in_year k) eligible_rows) × (any (in_year k) eligible_rows ≡ true)
  unfolding rows_of has_year
  chosen_rows k rows h =
      let (at_k, has_k, _) =
        latest_year_lem (financial_year sale.sale_date) k rows (group_by_year eligible_rows []) h in
      (
        sym at_k ∙ rows_of-group_by_year k eligible_rows [],
        sym (has_year-group_by_year k eligible_rows []) ∙ has_k,
      )

  is_listed :
      (q : PurchasePriceEvidence)
      → Memᴰ q purchases
      → is_eligible sale q ≡ true
      → has_year (year_of q) (group_by_year eligible_rows []) ≡ true
  unfolding has_year eligible_rows year_of
  is_listed q m h =
      has_year-group_by_year (year_of q) eligible_rows []
      ∙ any-mem (in_year (year_of q)) q eligible_rows
          (mem-filter_intro (is_eligible sale) q purchases m h) (ground arith)

  -- A year is chosen where an eligible purchase is listed.
  year_exists :
      any (is_eligible sale) purchases ≡ true
      → (k : ℕ) × (rows : List PurchasePriceEvidence) × (latest_year
            (financial_year sale.sale_date)
            (group_by_year eligible_rows [])
          ≡ some (k, rows))
  unfolding year_of
  year_exists h =
      elim (Option-cases
        (latest_year (financial_year sale.sale_date) (group_by_year eligible_rows []))) [
          | inr ((k, rows), e) ↦ (k, rows, e)
          | inl e ↦
              let (p, ps, f) = any-first (is_eligible sale) purchases h in
              let (m, passes) =
                mem-filter (is_eligible sale) p purchases
                  (subst (Memᴰ p) (sym f) (Memᴰ.head refl)) in
              absurd (
                ground (
                  arith,
                  latest_year-none (financial_year sale.sale_date) (year_of p)
                      (group_by_year eligible_rows []) e (is_listed p m passes),
                  financial_year-monotone sale p passes,
                ))
        ]

  from_purchases-from_year :
      any (is_eligible sale) purchases ≡ true
      → from_purchases sale purchases
        ≡ from_year sale
            (latest_year (financial_year sale.sale_date) (group_by_year eligible_rows []))
  unfolding from_purchases from_eligible eligible_rows
  from_purchases-from_year h =
      let (p, ps, f) = any-first (is_eligible sale) purchases h in
      ap (from_eligible sale) f
      ∙ ap (λ l. from_year sale (latest_year (financial_year sale.sale_date) (group_by_year l [])))
          (sym f)

no_explicit :
    (sale : SaleLineEvidence) (purchases : List PurchasePriceEvidence)
    → sale.explicit_cost_before_tax ≡ none
    → (estimate_cost sale purchases).unit_cost ≡ (from_purchases sale purchases).unit_cost
unfolding estimate_cost estimate_from
no_explicit sale purchases no_cost = ap (λ o. (estimate_from sale purchases o).unit_cost) no_cost

-- A sale that names no cost, with an eligible purchase: the cost of a unit is the rounded cost of the latest.
pub estimate_cost-IsLatest :
    (sale : SaleLineEvidence) (purchases : List PurchasePriceEvidence)
    → sale.explicit_cost_before_tax ≡ none
    → any (is_eligible sale) purchases ≡ true
    → (p : PurchasePriceEvidence) × ((estimate_cost sale purchases).unit_cost
        ≡ some (money p.cost_before_tax))
      × IsLatest sale purchases p
unfolding eligible_rows year_of
estimate_cost-IsLatest sale purchases no_cost h =
    let (k, rows, e) = year_exists sale purchases h in
    let (is_rows, in_k) = chosen_rows sale purchases k rows e in
    let elig = filter (is_eligible sale) purchases in
    let (x, xs, f) = any-first (in_year k) elig in_k in
    let scope : IsScope (is_branch sale.branch) (scoped_rows sale rows) rows =
      subst (λ l. IsScope (is_branch sale.branch) (scoped_rows sale l) l) (sym (is_rows ∙ f))
        (scoped_rows-IsScope sale x xs) in
    let (p, cost, m, later) = from_year-latest sale k rows scope in
    let here = mem-filter (in_year k) p elig (subst (Memᴰ p) is_rows (scope.inside p m)) in
    let listed = mem-filter (is_eligible sale) p purchases here.0 in
    let of_year : financial_year p.purchase_date ≡ k = ground (arith, here.1) in
    let row =
      λ (q : PurchasePriceEvidence) (a : Memᴰ q purchases) (b : is_eligible sale q ≡ true)
          (y : financial_year q.purchase_date ≡ financial_year p.purchase_date).
        subst (Memᴰ q) (sym is_rows) (
          mem-filter_intro (in_year k) q elig (mem-filter_intro (is_eligible sale) q purchases a b)
            (ground (arith, y, of_year))) in
    (
      p,
      no_explicit sale purchases no_cost
          ∙ ap (λ (c : CostEstimate). c.unit_cost)
              (from_purchases-from_year sale purchases h ∙ ap (from_year sale) e)
          ∙ cost,
      record {
        listed = listed.0;
        eligible = listed.1;
        newest_year = λ q a b.
            subst (λ n. leb (financial_year q.purchase_date) n ≡ true) (sym of_year)
              (latest_year-greatest (financial_year sale.sale_date) (financial_year q.purchase_date)
                k rows (group_by_year elig []) e (is_listed sale purchases q a b)
                (financial_year-monotone sale q b));
        own_branch = λ q a b y o. scope.own p q m (row q a b y) o;
        latest = λ q a b y o. later q (scope.cover p q m (row q a b y) o);
      },
    )
