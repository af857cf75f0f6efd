-- ===== src/Business/Store/Ledger.antt =====
-- What the records of src/business/store.py do to `stock_on_hand`.
use tagro_echo_os.Base.{
  ℕ, suc, String, Bool, false, ◌&&◌, Option, some, List, [], ◌∷◌, ◌++◌, lookup, lookup-insert_self,
  map, filter, filter-append, any, ◌==◌, ◌≡◌, refl, ap, ◌∙◌, arith, ok, inl, inr, outcome_cases,
  if◌then◌else◌,
}
use tagro_echo_os.Money.{Decimal, zero_dec, plus, negate, sum_dec, sum_from}
use tagro_echo_os.Business.{LineItem, StockMovement, Sale, PurchaseRecord, StoreState}
use tagro_echo_os.Business.Store.{
  Ambient, stock_on_hand, is_bad_item, check_items, check_lines, check_branch, movements_of,
  is_short, create_purchase, create_sale,
}

-- The quantities of the items of one product.
unfoldable pub quantities_of : String → List LineItem → List Decimal
unfolding filter
quantities_of product_id items =
    map (λ (i : LineItem). i.quantity) (filter (λ (i : LineItem). i.product_id == product_id) items)

pub map-append :
    {A B : Type 0} (f : A → B) (xs ys : List A) → map f (xs ++ ys) ≡ map f xs ++ map f ys
map-append f [] ys = refl
map-append f (x ∷ xs) ys = ap (λ zs. f x ∷ zs) (map-append f xs ys)

pub sum_from-append :
    (a : Decimal) (xs ys : List Decimal) → sum_from a (xs ++ ys) ≡ sum_from (sum_from a xs) ys
unfolding sum_from
sum_from-append a [] ys = refl
sum_from-append a (x ∷ xs) ys = sum_from-append (plus a x) xs ys

abbrev pub at_place : String → String → StockMovement → Bool
at_place b p m = m.branch_id == b && m.product_id == p

movements_at :
    (v : Ambient) (n : ℕ) (branch_id b p : String) (sign : Decimal → Decimal) (kind ref_id : String)
    (items : List LineItem)
    → map
        (λ (m : StockMovement). m.quantity_delta)
        (filter (at_place b p) (movements_of v n branch_id sign kind ref_id items))
      ≡ (if branch_id == b then map sign (quantities_of p items) else [])
unfolding movements_of quantities_of filter
movements_at v n branch_id b p sign kind ref_id [] = ground arith
movements_at v n branch_id b p sign kind ref_id (i ∷ items) =
    ground (arith, movements_at v (suc n) branch_id b p sign kind ref_id items)

-- The stock after a record's movements.
pub stock_on_hand-movements :
    (v : Ambient) (branch_id b p : String) (sign : Decimal → Decimal) (kind ref_id : String)
    (items : List LineItem) (ms : List StockMovement)
    → stock_on_hand b p (ms ++ movements_of v 0 branch_id sign kind ref_id items)
      ≡ sum_from
          (stock_on_hand b p ms)
          (if branch_id == b then map sign (quantities_of p items) else [])
unfolding stock_on_hand sum_dec
stock_on_hand-movements v branch_id b p sign kind ref_id items ms =
    let moves = movements_of v 0 branch_id sign kind ref_id items in
    ap (λ xs. sum_from zero_dec (map (λ (m : StockMovement). m.quantity_delta) xs))
      (filter-append (at_place b p) ms moves)
    ∙ ap (sum_from zero_dec) (
        map-append (λ (m : StockMovement). m.quantity_delta) (filter (at_place b p) ms)
          (filter (at_place b p) moves))
    ∙ sum_from-append zero_dec
        (map (λ (m : StockMovement). m.quantity_delta) (filter (at_place b p) ms))
        (map (λ (m : StockMovement). m.quantity_delta) (filter (at_place b p) moves))
    ∙ ap
        (sum_from (
          sum_from zero_dec
            (map (λ (m : StockMovement). m.quantity_delta) (filter (at_place b p) ms))))
        (movements_at v 0 branch_id b p sign kind ref_id items)

state-check_items : (items : List LineItem) (s : StoreState) → (check_items items s).1 ≡ s
unfolding check_items
state-check_items [] s = refl
state-check_items (i ∷ items) s = ground (arith, state-check_items items s)

pub state-check_lines : (items : List LineItem) (s : StoreState) → (check_lines items s).1 ≡ s
unfolding check_lines
state-check_lines [] s = refl
state-check_lines (i ∷ items) s = state-check_items (i ∷ items) s

all_items_good :
    (items : List LineItem) (s : StoreState)
    → check_items items s ≡ (ok tt, s)
    → any is_bad_item items ≡ false
unfolding check_items any
all_items_good [] s h = refl
all_items_good (i ∷ items) s h = ground (arith, all_items_good items s)

-- No item that the guards let through is bad.
check_lines_good :
    (items : List LineItem) (s : StoreState)
    → check_lines items s ≡ (ok tt, s)
    → any is_bad_item items ≡ false
unfolding check_lines
check_lines_good [] s h = ground arith
check_lines_good (i ∷ items) s h = all_items_good (i ∷ items) s h

-- What a sale that is accepted has passed and written.
pub record Sold (v : Ambient) (branch_id : String) (items : List LineItem) (s u : StoreState)
    (sale : Sale) : Type 0 where
  pub good : any is_bad_item items ≡ false
  pub covered : is_short branch_id s.stock_movements items ≡ false
  pub movements :
      u.stock_movements
      ≡ s.stock_movements ++ movements_of v 0 branch_id negate "sale" sale.sale_id items
  pub recorded : lookup sale.sale_id u.sales ≡ some sale
  pub sold_items : sale.items ≡ items

pub create_sale-Sold :
    (v : Ambient) (branch_id : String) (customer_id : Option String) (items : List LineItem)
    (quote_id : Option String) (s u : StoreState) (sale : Sale)
    → create_sale v branch_id customer_id items quote_id s ≡ (ok sale, u)
    → Sold v branch_id items s u sale
unfolding create_sale check_branch
create_sale-Sold v branch_id customer_id items quote_id s u sale h =
    elim (outcome_cases (check_lines items s) (state-check_lines items s)) [
      | inr (e, bad) ↦ ground (arith, bad)
      | inl (_, fine) ↦ record {
        good = check_lines_good items s fine;
        covered = ground (arith, fine);
        movements = ground (arith, fine);
        recorded = ground (arith, fine, lookup-insert_self v.new_id sale s.sales);
        sold_items = ground (arith, fine);
      }
    ]

-- What a purchase that is accepted has passed and written.
pub record Bought (v : Ambient) (branch_id : String) (items : List LineItem) (s u : StoreState)
    (p : PurchaseRecord) : Type 0 where
  pub good : any is_bad_item items ≡ false
  pub movements :
      u.stock_movements
      ≡ s.stock_movements ++ movements_of v 0 branch_id (λ q. q) "purchase" p.purchase_id items
  pub recorded : lookup p.purchase_id u.purchases ≡ some p
  pub bought_items : p.items ≡ items

pub create_purchase-Bought :
    (v : Ambient) (branch_id supplier_id : String) (items : List LineItem) (invoice : String)
    (s u : StoreState) (p : PurchaseRecord)
    → create_purchase v branch_id supplier_id items invoice s ≡ (ok p, u)
    → Bought v branch_id items s u p
unfolding create_purchase check_branch
create_purchase-Bought v branch_id supplier_id items invoice s u p h =
    elim (outcome_cases (check_lines items s) (state-check_lines items s)) [
      | inr (e, bad) ↦ ground (arith, bad)
      | inl (_, fine) ↦ record {
        good = check_lines_good items s fine;
        movements = ground (arith, fine);
        recorded = ground (arith, fine, lookup-insert_self v.new_id p s.purchases);
        bought_items = ground (arith, fine);
      }
    ]

-- A sale that is accepted is stored under its identifier, and in its branch the stock of every product is
-- then the stock before it less the quantities of the product's lines, taken off one after the other; the
-- stock of the other branches is the same.
pub create_sale_moves_stock :
    (v : Ambient) (branch_id : String) (customer_id : Option String) (items : List LineItem)
    (quote_id : Option String) (s u : StoreState) (sale : Sale) (b p : String)
    → create_sale v branch_id customer_id items quote_id s ≡ (ok sale, u)
    → (lookup sale.sale_id u.sales ≡ some sale)
      × (stock_on_hand b p u.stock_movements
          ≡ sum_from
              (stock_on_hand b p s.stock_movements)
              (if branch_id == b then map negate (quantities_of p sale.items) else []))
create_sale_moves_stock v branch_id customer_id items quote_id s u sale b p h =
    let r = create_sale-Sold v branch_id customer_id items quote_id s u sale h in
    (
      r.recorded,
      rw (r.movements, r.sold_items)
          (stock_on_hand-movements v branch_id b p negate "sale" sale.sale_id items
            s.stock_movements),
    )

-- A purchase that is accepted is stored under its identifier, and in its branch the stock of every product
-- is then the stock before it with the quantities of the product's lines added one after the other; the
-- stock of the other branches is the same.
pub create_purchase_moves_stock :
    (v : Ambient) (branch_id supplier_id : String) (items : List LineItem) (invoice : String)
    (s u : StoreState) (purchase : PurchaseRecord) (b p : String)
    → create_purchase v branch_id supplier_id items invoice s ≡ (ok purchase, u)
    → (lookup purchase.purchase_id u.purchases ≡ some purchase)
      × (stock_on_hand b p u.stock_movements
          ≡ sum_from
              (stock_on_hand b p s.stock_movements)
              (if branch_id == b then map (λ q. q) (quantities_of p purchase.items) else []))
create_purchase_moves_stock v branch_id supplier_id items invoice s u purchase b p h =
    let r = create_purchase-Bought v branch_id supplier_id items invoice s u purchase h in
    (
      r.recorded,
      rw (r.movements, r.bought_items)
          (stock_on_hand-movements v branch_id b p (λ q. q) "purchase" purchase.purchase_id items
            s.stock_movements),
    )
