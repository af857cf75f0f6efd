-- ===== src/Health/Scopes.antt =====
-- The purchases of a financial year that count for a sale (`same_branch` and the sort in
-- `estimate_cost`, src/financial/health.py), and the first of them.
use mathlib.Core.List.{Memᴰ}
use mathlib.Core.Path.{subst}
use tagro_echo_os.Base.{
  ℕ, String, Bool, true, some, List, [], ◌∷◌, filter, all-mem, mem-filter, mem-filter_intro,
  le_date, le_date_trans, le_date_total, le_text, lex, lex-IsOrder, le_text_trans, le_text_total,
  IsOrder, sort_by-first, ◌≡◌, refl, sym, ap, ◌∙◌, arith, ◌⊎◌, inl, inr,
}
use tagro_echo_os.Money.{money}
use tagro_echo_os.Health.{
  PurchasePriceEvidence, SaleLineEvidence, is_branch, not_later, or_blank, first_rows,
}
use tagro_echo_os.Health.Estimate.{
  scoped_rows, scope_name, latest_first, from_references, from_recent, from_year,
}

by_date-IsOrder : IsOrder (λ (p q : PurchasePriceEvidence). le_date q.purchase_date p.purchase_date)
by_date-IsOrder = record {
  le-trans = λ p q r h k. le_date_trans r.purchase_date q.purchase_date p.purchase_date k h;
  le-total = λ p q h. le_date_total q.purchase_date p.purchase_date h;
}

by_ref-IsOrder :
    IsOrder
      (λ (p q : PurchasePriceEvidence). le_text (or_blank q.source_ref) (or_blank p.source_ref))
by_ref-IsOrder = record {
  le-trans = λ p q r h k.
      le_text_trans (or_blank r.source_ref) (or_blank q.source_ref) (or_blank p.source_ref) k h;
  le-total = λ p q h. le_text_total (or_blank q.source_ref) (or_blank p.source_ref) h;
}

later_first-IsOrder : IsOrder (λ p q. not_later q p)
unfolding not_later lex
later_first-IsOrder = lex-IsOrder _ _ by_date-IsOrder by_ref-IsOrder

not_later-date :
    (q p : PurchasePriceEvidence)
    → not_later q p ≡ true
    → le_date q.purchase_date p.purchase_date ≡ true
unfolding not_later
not_later-date q p h = ground (arith, le_date_total p.purchase_date q.purchase_date)

List-cases : {A : Type 0} (xs : List A) → (xs ≡ []) ⊎ ((y : A) × (ys : List A) × (xs ≡ y ∷ ys))
List-cases [] = inl refl
List-cases (x ∷ xs) = inr (x, xs, refl)

-- What the rows that count are among the rows of the year.
pub record IsScope (b : PurchasePriceEvidence → Bool) (scoped rows : List PurchasePriceEvidence)
    : Type 0 where
  pub filled : (y : PurchasePriceEvidence) × (ys : List PurchasePriceEvidence) × (scoped ≡ y ∷ ys)
  pub inside : (p : PurchasePriceEvidence) → Memᴰ p scoped → Memᴰ p rows
  pub own : (p q : PurchasePriceEvidence) → Memᴰ p scoped → Memᴰ q rows → b q ≡ true → b p ≡ true
  pub cover :
      (p q : PurchasePriceEvidence) → Memᴰ p scoped → Memᴰ q rows → b q ≡ b p → Memᴰ q scoped

pub scoped_rows-IsScope :
    (sale : SaleLineEvidence) (x : PurchasePriceEvidence) (xs : List PurchasePriceEvidence)
    → IsScope (is_branch sale.branch) (scoped_rows sale (x ∷ xs)) (x ∷ xs)
unfolding scoped_rows
scoped_rows-IsScope sale x xs =
    let b = is_branch sale.branch in
    let rows = x ∷ xs in
    elim (List-cases (filter b rows)) [
      | inl e ↦
          let all_rows : scoped_rows sale rows ≡ rows = ground (arith, e) in
          let nobody = λ (q : PurchasePriceEvidence) (m : Memᴰ q rows) (h : b q ≡ true).
            subst (Memᴰ q) e (mem-filter_intro b q rows m h) in
          record {
            filled = (x, xs, all_rows);
            inside = λ p m. subst (Memᴰ p) all_rows m;
            own = λ p q m k h. elim (nobody q k h) [ ];
            cover = λ p q m k h. subst (Memᴰ q) (sym all_rows) k;
          }
      | inr (y, ys, e) ↦
          let own_rows : scoped_rows sale rows ≡ filter b rows = ground (arith, e) in
          let passes = λ (p : PurchasePriceEvidence) (m : Memᴰ p (scoped_rows sale rows)).
            mem-filter b p rows (subst (Memᴰ p) own_rows m) in
          record {
            filled = (y, ys, own_rows ∙ e);
            inside = λ p m. (passes p m).0;
            own = λ p q m k h. (passes p m).1;
            cover = λ p q m k h.
                subst (Memᴰ q) (sym own_rows) (mem-filter_intro b q rows k (h ∙ (passes p m).1));
          }
    ]

from_recent-cost :
    (sale : SaleLineEvidence) (fy : ℕ) (scope : String) (l : PurchasePriceEvidence)
    (scoped others : List PurchasePriceEvidence)
    → (from_recent sale fy scope scoped (l ∷ others)).unit_cost ≡ some (money l.cost_before_tax)
unfolding from_recent from_references
from_recent-cost sale fy scope l scoped others = refl

-- The estimate from the rows of a year takes the cost of a row that counts, and none is later.
pub from_year-latest :
    (sale : SaleLineEvidence) (fy : ℕ) (rows : List PurchasePriceEvidence)
    → IsScope (is_branch sale.branch) (scoped_rows sale rows) rows
    → (p : PurchasePriceEvidence) × ((from_year sale (some (fy, rows))).unit_cost
        ≡ some (money p.cost_before_tax))
      × Memᴰ p (scoped_rows sale rows)
      × ((q : PurchasePriceEvidence)
          → Memᴰ q (scoped_rows sale rows)
          → le_date q.purchase_date p.purchase_date ≡ true)
unfolding from_year latest_first first_rows
from_year-latest sale fy rows scope =
    let (y, ys, e) = scope.filled in
    let (p, others, s, m, least) = sort_by-first (λ p q. not_later q p) y ys later_first-IsOrder in
    let sorted : latest_first (scoped_rows sale rows) ≡ p ∷ others = ap latest_first e ∙ s in
    (
      p,
      ap
            (λ l.
              (from_recent sale fy (scope_name sale rows) (scoped_rows sale rows)
                (first_rows 4 l)).unit_cost)
            sorted
          ∙ from_recent-cost sale fy (scope_name sale rows) p (scoped_rows sale rows)
              (first_rows 3 others),
      subst (Memᴰ p) (sym e) m,
      λ q k.
          not_later-date q p (all-mem (λ q. not_later q p) q (y ∷ ys) least (subst (Memᴰ q) e k)),
    )
