-- ===== src/Business/Store/History.antt =====
-- Runs of the methods of `class InMemoryBusinessStore` (src/business/store.py), and the stock they leave.
use tagro_echo_os.Base.{
  String, false, ◌||◌, not, Option, List, [], ◌∷◌, ◌++◌, map, filter, filter-append, ◌≡◌, refl, ap,
  ◌∙◌, arith, err, scale, ◌⊎◌, inl, inr, Bool-cases, Result-cases, outcome_cases, is_blank,
  if◌then◌else◌, eq_iff,
}
use tagro_echo_os.Money.{Decimal, zero_dec, lt_dec, plus, sum_from, sum_dec}
use tagro_echo_os.Business.{
  UserRecord, Branch, Product, PriceRecord, Customer, Supplier, LineItem, StockMovement, StoreState,
  BusinessError, empty_store,
}
use tagro_echo_os.Business.Store.{
  Ambient, has_key, add_branch, add_user, add_product, add_price, add_customer, add_supplier,
  create_quote, create_purchase, create_sale, adjust_stock, check_branch, check_lines,
  stock_on_hand,
}
use tagro_echo_os.Business.Store.Ledger.{
  create_sale-Sold, create_purchase-Bought, state-check_lines, map-append, sum_from-append,
  at_place,
}
use tagro_echo_os.Business.Store.Stock.{
  IsStocked, NamesOnce, create_purchase-IsStocked, create_sale-IsStocked,
}

-- One call, successful or not; a sale names a product at most once.
pub data Step (lower : String → String) (s u : StoreState) : Type 0 where
  branch_by : (x : Branch) → u ≡ (add_branch lower x s).1 → Step lower s u
  user_by : (x : UserRecord) → u ≡ (add_user x s).1 → Step lower s u
  product_by : (x : Product) → u ≡ (add_product lower x s).1 → Step lower s u
  price_by : (x : PriceRecord) → u ≡ (add_price x s).1 → Step lower s u
  customer_by : (x : Customer) → u ≡ (add_customer x s).1 → Step lower s u
  supplier_by : (x : Supplier) → u ≡ (add_supplier x s).1 → Step lower s u
  quote_by :
      (v : Ambient) (branch_id customer_id : String) (items : List LineItem)
      → u ≡ (create_quote v branch_id customer_id items s).1
      → Step lower s u
  purchase_by :
      (v : Ambient) (branch_id supplier_id : String) (items : List LineItem) (invoice : String)
      → u ≡ (create_purchase v branch_id supplier_id items invoice s).1
      → Step lower s u
  sale_by :
      (v : Ambient) (branch_id : String) (customer_id : Option String) (items : List LineItem)
      (quote_id : Option String)
      → NamesOnce items
      → u ≡ (create_sale v branch_id customer_id items quote_id s).1
      → Step lower s u
  adjustment_by :
      (v : Ambient) (branch_id product_id : String) (delta : Decimal) (note : String)
      → u ≡ (adjust_stock v branch_id product_id delta note s).1
      → Step lower s u

pub data Run (lower : String → String) (s : StoreState) : StoreState → Type 0 where
  here : Run lower s s
  next : (t u : StoreState) → Run lower s t → Step lower t u → Run lower s u

quote_stock :
    (v : Ambient) (branch_id customer_id : String) (items : List LineItem) (s : StoreState)
    → (create_quote v branch_id customer_id items s).1.stock_movements ≡ s.stock_movements
unfolding create_quote check_branch
quote_stock v branch_id customer_id items s = ground (arith, state-check_lines items s)

purchase_raises :
    (v : Ambient) (branch_id supplier_id : String) (items : List LineItem) (invoice : String)
    (s : StoreState) (e : BusinessError)
    → (create_purchase v branch_id supplier_id items invoice s).0 ≡ err e
    → (create_purchase v branch_id supplier_id items invoice s).1 ≡ s
unfolding create_purchase check_branch
purchase_raises v branch_id supplier_id items invoice s e h =
    elim (outcome_cases (check_lines items s) (state-check_lines items s)) [
      | inr (x, bad) ↦ ground (arith, bad)
      | inl (_, fine) ↦ ground (arith, fine)
    ]

sale_raises :
    (v : Ambient) (branch_id : String) (customer_id : Option String) (items : List LineItem)
    (quote_id : Option String) (s : StoreState) (e : BusinessError)
    → (create_sale v branch_id customer_id items quote_id s).0 ≡ err e
    → (create_sale v branch_id customer_id items quote_id s).1 ≡ s
unfolding create_sale check_branch
sale_raises v branch_id customer_id items quote_id s e h =
    elim (outcome_cases (check_lines items s) (state-check_lines items s)) [
      | inr (x, bad) ↦ ground (arith, bad)
      | inl (_, fine) ↦ ground (arith, fine)
    ]

last_movement :
    (a : Decimal) (b p : String) (m : StockMovement)
    → sum_from a (map (λ (x : StockMovement). x.quantity_delta) (filter (at_place b p) (m ∷ [])))
      ≡ (if at_place b p m then plus a m.quantity_delta else a)
unfolding sum_from filter
last_movement a b p m = ground arith

-- One more movement.
stock_on_hand-one :
    (b p : String) (m : StockMovement) (ms : List StockMovement)
    → stock_on_hand b p (ms ++ m ∷ []) ≡ (
        if at_place b p m
        then plus (stock_on_hand b p ms) m.quantity_delta
        else stock_on_hand b p ms)
unfolding stock_on_hand sum_dec
stock_on_hand-one b p m ms =
    ap (λ xs. sum_from zero_dec (map (λ (x : StockMovement). x.quantity_delta) xs))
      (filter-append (at_place b p) ms (m ∷ []))
    ∙ ap (sum_from zero_dec) (
        map-append (λ (x : StockMovement). x.quantity_delta) (filter (at_place b p) ms)
          (filter (at_place b p) (m ∷ [])))
    ∙ sum_from-append zero_dec
        (map (λ (x : StockMovement). x.quantity_delta) (filter (at_place b p) ms))
        (map (λ (x : StockMovement). x.quantity_delta) (filter (at_place b p) (m ∷ [])))
    ∙ last_movement (stock_on_hand b p ms) b p m

-- An adjustment leaves the store alone, or appends a movement that its guard has let through.
adjust_stock_cases :
    (v : Ambient) (branch_id product_id : String) (delta : Decimal) (note : String) (s : StoreState)
    → ((adjust_stock v branch_id product_id delta note s).1 ≡ s)
      ⊎ ((m : StockMovement) × (m.branch_id ≡ branch_id)
          × (m.product_id ≡ product_id)
          × (m.quantity_delta ≡ delta)
          × (lt_dec (plus (stock_on_hand branch_id product_id s.stock_movements) delta) zero_dec
              ≡ false)
          × ((adjust_stock v branch_id product_id delta note s).1.stock_movements
              ≡ s.stock_movements ++ m ∷ []))
unfolding adjust_stock check_branch
adjust_stock_cases v branch_id product_id delta note s =
    elim (Bool-cases (
      not (has_key branch_id s.branches)
      || not (has_key product_id s.products)
      || is_blank note
      || lt_dec (plus (stock_on_hand branch_id product_id s.stock_movements) delta) zero_dec)) [
        | inl bad ↦ inl (ground arith)
        | inr fine ↦ inr (
          record {
            movement_id = (v.movement 0).0;
            branch_id = branch_id;
            product_id = product_id;
            quantity_delta = delta;
            movement_type = "adjustment";
            occurred_at = (v.movement 0).1;
            reference_type = "manual_adjustment";
            reference_id = v.new_id;
            note = note;
          },
          refl,
          refl,
          refl,
          ground arith,
          ground arith,
        )
      ]

adjust_stock-IsStocked :
    (v : Ambient) (branch_id product_id : String) (delta : Decimal) (note : String) (s : StoreState)
    → IsStocked s
    → IsStocked (adjust_stock v branch_id product_id delta note s).1
adjust_stock-IsStocked v branch_id product_id delta note s stocked =
    elim (adjust_stock_cases v branch_id product_id delta note s) [
      | inl same ↦ rw same stocked
      | inr (m, at_b, at_p, is_delta, fine, moved) ↦ λ b p.
          rw (moved, stock_on_hand-one b p m s.stock_movements)
            (ground (
              arith,
              stocked b p,
              fine,
              at_b,
              at_p,
              is_delta,
              eq_iff m.branch_id b,
              eq_iff m.product_id p,
            ))
    ]

Step-IsStocked :
    (lower : String → String) (s u : StoreState) → Step lower s u → IsStocked s → IsStocked u
unfolding add_branch add_user add_product add_price add_customer add_supplier
Step-IsStocked lower s u (branch_by x eq) g = λ b p. ground (arith, eq, g b p)
Step-IsStocked lower s u (user_by x eq) g = λ b p. ground (arith, eq, g b p)
Step-IsStocked lower s u (product_by x eq) g = λ b p. ground (arith, eq, g b p)
Step-IsStocked lower s u (price_by x eq) g = λ b p. ground (arith, eq, g b p)
Step-IsStocked lower s u (customer_by x eq) g = λ b p. ground (arith, eq, g b p)
Step-IsStocked lower s u (supplier_by x eq) g = λ b p. ground (arith, eq, g b p)
Step-IsStocked lower s u (quote_by v branch_id customer_id items eq) g =
    λ b p. rw (eq, quote_stock v branch_id customer_id items s) (g b p)
Step-IsStocked lower s u (purchase_by v branch_id supplier_id items invoice eq) g =
    rw eq (elim (Result-cases (create_purchase v branch_id supplier_id items invoice s).0) [
      | inr (e, bad) ↦ rw (purchase_raises v branch_id supplier_id items invoice s e bad) g
      | inl (x, fine) ↦
          let after = (create_purchase v branch_id supplier_id items invoice s).1 in
          create_purchase-IsStocked v branch_id items s after x
            (create_purchase-Bought v branch_id supplier_id items invoice s after x
              (ap (λ r. (r, after)) fine))
            g
    ])
Step-IsStocked lower s u (sale_by v branch_id customer_id items quote_id once eq) g =
    rw eq (elim (Result-cases (create_sale v branch_id customer_id items quote_id s).0) [
      | inr (e, bad) ↦ rw (sale_raises v branch_id customer_id items quote_id s e bad) g
      | inl (x, fine) ↦
          let after = (create_sale v branch_id customer_id items quote_id s).1 in
          create_sale-IsStocked v branch_id items s after x
            (create_sale-Sold v branch_id customer_id items quote_id s after x
              (ap (λ r. (r, after)) fine))
            once g
    ])
Step-IsStocked lower s u (adjustment_by v branch_id product_id delta note eq) g =
    rw eq (adjust_stock-IsStocked v branch_id product_id delta note s g)

Run-IsStocked :
    (lower : String → String) (s u : StoreState) → Run lower s u → IsStocked s → IsStocked u
Run-IsStocked lower s u here g = g
Run-IsStocked lower s u (next t _ run st) g =
    Step-IsStocked lower t u st (Run-IsStocked lower s t run g)

empty-IsStocked : IsStocked empty_store
unfolding stock_on_hand lt_dec sum_dec sum_from filter scale
empty-IsStocked b p = refl

-- After any calls on an empty store, in any order and with any arguments, where no sale has two lines of one
-- product, no branch has less than nothing of a product on hand.
pub stock_never_negative :
    (lower : String → String) (u : StoreState) (b p : String)
    → Run lower empty_store u
    → lt_dec (stock_on_hand b p u.stock_movements) zero_dec ≡ false
stock_never_negative lower u b p run = Run-IsStocked lower empty_store u run empty-IsStocked b p
