-- ===== src/Business/Store.antt =====
-- src/business/store.py: the methods of `class InMemoryBusinessStore`. `lower` is `str.lower`.
pub mod Ledger
pub mod Stock
pub mod History
use tagro_echo_os.Base.{
  ℕ, suc, String, Bool, true, false, ◌||◌, ◌&&◌, not, Option, none, some, List, [], ◌∷◌, ◌++◌, Dict,
  lookup, insert, values, any, filter, map, ◌==◌, is_blank, is_empty, Action, pure, gets, raise,
  raise_if, modify, ◌>>=◌, ◌>>◌,
}
use tagro_echo_os.Money.{Decimal, zero_dec, lt_dec, le_dec, plus, negate, sum_dec}
use tagro_echo_os.Business.{
  UserRecord, Branch, Product, PriceRecord, Customer, Supplier, LineItem, Quote, Sale,
  PurchaseRecord, StockMovement, StoreState, BusinessError, branch_not_unique, no_user_branch,
  product_not_unique, no_price_product, no_customer, no_supplier, items_required, invalid_item,
  no_branch, no_product, insufficient_stock, note_required, negative_stock,
}

abbrev pub Business : Type 0 → Type 0
Business A = Action StoreState BusinessError A

-- What a call takes from outside: the identifier of a new record, the time, and the identifier and the
-- time of its n-th stock movement.
pub record Ambient : Type 0 where
  pub new_id : String
  pub now : ℕ
  pub movement : ℕ → String × ℕ

-- `k in d`
unfoldable pub has_key : {V : Type 0} → String → Dict V → Bool
unfolding lookup
has_key k d = elim (lookup k d) [ none ↦ false | some v ↦ true ]

unfoldable pub add_branch : (String → String) → Branch → Business Branch
unfolding has_key any values insert
add_branch lower x = do
  d ← gets (λ s. s.branches)
  raise_if (has_key x.branch_id d || any (λ (v : Branch). lower v.code == lower x.code) (values d))
      branch_not_unique
  modify (λ s. record s { branches = insert x.branch_id x s.branches })
  pure x

unfoldable pub add_user : UserRecord → Business UserRecord
unfolding has_key insert
add_user x = do
  d ← gets (λ s. s.branches)
  raise_if (elim x.branch_id [ none ↦ false | some b ↦ not (is_empty b) && not (has_key b d) ])
      no_user_branch
  modify (λ s. record s { users = insert x.user_id x s.users })
  pure x

unfoldable pub add_product : (String → String) → Product → Business Product
unfolding has_key any values insert
add_product lower x = do
  d ← gets (λ s. s.products)
  raise_if (has_key x.product_id d || any (λ (v : Product). lower v.sku == lower x.sku) (values d))
      product_not_unique
  modify (λ s. record s { products = insert x.product_id x s.products })
  pure x

unfoldable pub add_price : PriceRecord → Business PriceRecord
unfolding has_key insert
add_price x = do
  d ← gets (λ s. s.products)
  raise_if (not (has_key x.product_id d)) no_price_product
  modify (λ s. record s { prices = insert x.price_id x s.prices })
  pure x

unfoldable pub add_customer : Customer → Business Customer
unfolding insert
add_customer x = do
  modify (λ s. record s { customers = insert x.customer_id x s.customers })
  pure x

unfoldable pub add_supplier : Supplier → Business Supplier
unfolding insert
add_supplier x = do
  modify (λ s. record s { suppliers = insert x.supplier_id x s.suppliers })
  pure x

-- `stock_on_hand`
unfoldable pub stock_on_hand : String → String → List StockMovement → Decimal
unfolding filter sum_dec
stock_on_hand branch_id product_id ms = sum_dec (
    map (λ (m : StockMovement). m.quantity_delta)
      (filter (λ (m : StockMovement). m.branch_id == branch_id && m.product_id == product_id) ms))

-- The guard of `_items` on one item.
unfoldable pub is_bad_item : LineItem → Bool
is_bad_item i =
    le_dec i.quantity zero_dec || lt_dec i.unit_price zero_dec || lt_dec i.discount zero_dec

-- The loop of `_items`.
unfoldable pub check_items : List LineItem → Business Unit
unfolding has_key is_bad_item
check_items [] = pure tt
check_items (i ∷ items) = do
  d ← gets (λ s. s.products)
  raise_if (not (has_key i.product_id d)) no_product
  raise_if (is_bad_item i) invalid_item
  check_items items

-- `_items`
unfoldable pub check_lines : List LineItem → Business Unit
unfolding check_items
check_lines [] = raise items_required
check_lines (i ∷ items) = check_items (i ∷ items)

-- `_branch`
unfoldable pub check_branch : String → Business Unit
unfolding has_key
check_branch b = do d ← gets (λ s. s.branches); raise_if (not (has_key b d)) no_branch

-- The movements that a loop of `_stock` calls appends for the items of a record.
unfoldable pub movements_of :
    Ambient
    → ℕ
    → String
    → (Decimal → Decimal)
    → String
    → String
    → List LineItem
    → List StockMovement
movements_of v n branch_id sign kind ref_id [] = []
movements_of v n branch_id sign kind ref_id (i ∷ items) =
    (record {
      movement_id = (v.movement n).0;
      branch_id = branch_id;
      product_id = i.product_id;
      quantity_delta = sign i.quantity;
      movement_type = kind;
      occurred_at = (v.movement n).1;
      reference_type = kind;
      reference_id = ref_id;
      note = "";
    })
    ∷ movements_of v (suc n) branch_id sign kind ref_id items

abbrev pub put_movements : List StockMovement → StoreState → StoreState
put_movements ms s = record s { stock_movements = s.stock_movements ++ ms }

unfoldable pub create_quote : Ambient → String → String → List LineItem → Business Quote
unfolding check_branch has_key check_lines insert
create_quote v branch_id customer_id items = do
  check_branch branch_id
  d ← gets (λ s. s.customers)
  raise_if (not (has_key customer_id d)) no_customer
  check_lines items
  let q : Quote = record {
    quote_id = v.new_id;
    branch_id = branch_id;
    customer_id = customer_id;
    created_at = v.now;
    items = items;
    status = "draft";
  }
  modify (λ s. record s { quotes = insert q.quote_id q s.quotes })
  pure q

unfoldable pub create_purchase :
    Ambient → String → String → List LineItem → String → Business PurchaseRecord
unfolding check_branch has_key check_lines insert movements_of
create_purchase v branch_id supplier_id items supplier_invoice_no = do
  check_branch branch_id
  d ← gets (λ s. s.suppliers)
  raise_if (not (has_key supplier_id d)) no_supplier
  check_lines items
  let p : PurchaseRecord = record {
    purchase_id = v.new_id;
    branch_id = branch_id;
    supplier_id = supplier_id;
    created_at = v.now;
    items = items;
    supplier_invoice_no = supplier_invoice_no;
  }
  modify (λ s. record s { purchases = insert p.purchase_id p s.purchases })
  modify (put_movements (movements_of v 0 branch_id (λ q. q) "purchase" p.purchase_id items))
  pure p

-- The loop of `create_sale` over the stock: some line asks for more than the stock of its product.
unfoldable pub is_short : String → List StockMovement → List LineItem → Bool
unfolding any stock_on_hand
is_short branch_id ms items =
    any (λ (i : LineItem). lt_dec (stock_on_hand branch_id i.product_id ms) i.quantity) items

unfoldable pub create_sale :
    Ambient → String → Option String → List LineItem → Option String → Business Sale
unfolding check_branch has_key check_lines is_short insert movements_of
create_sale v branch_id customer_id items source_quote_id = do
  check_branch branch_id
  d ← gets (λ s. s.customers)
  raise_if (elim customer_id [ none ↦ false | some c ↦ not (is_empty c) && not (has_key c d) ])
      no_customer
  check_lines items
  ms ← gets (λ s. s.stock_movements)
  raise_if (is_short branch_id ms items) insufficient_stock
  let sale : Sale = record {
    sale_id = v.new_id;
    branch_id = branch_id;
    customer_id = customer_id;
    created_at = v.now;
    items = items;
    payment_status = "unpaid";
    source_quote_id = source_quote_id;
  }
  modify (λ s. record s { sales = insert sale.sale_id sale s.sales })
  modify (put_movements (movements_of v 0 branch_id negate "sale" sale.sale_id items))
  pure sale

unfoldable pub adjust_stock : Ambient → String → String → Decimal → String → Business StockMovement
unfolding check_branch has_key stock_on_hand
adjust_stock v branch_id product_id delta note = do
  check_branch branch_id
  d ← gets (λ s. s.products)
  raise_if (not (has_key product_id d)) no_product
  raise_if (is_blank note) note_required
  ms ← gets (λ s. s.stock_movements)
  raise_if (lt_dec (plus (stock_on_hand branch_id product_id ms) delta) zero_dec) negative_stock
  let m : StockMovement = record {
    movement_id = (v.movement 0).0;
    branch_id = branch_id;
    product_id = product_id;
    quantity_delta = delta;
    movement_type = "adjustment";
    occurred_at = (v.movement 0).1;
    reference_type = "manual_adjustment";
    reference_id = v.new_id;
    note = note;
  }
  modify (put_movements (m ∷ []))
  pure m
