-- ===== src/Business/Store/Stock.antt =====
-- The stock of src/business/store.py never falls below zero while each sale names a product at most once.
use tagro_echo_os.Base.{
  ◌≤◌, String, false, List, [], ◌∷◌, map, filter, any, length, ◌==◌, ◌≡◌, refl, arith, inl, inr,
  Bool-cases, eq_iff,
}
use mathlib.Core.Path.{subst}
use tagro_echo_os.Money.{Decimal, zero_dec, lt_dec, le_dec, plus, negate, sum_from}
use tagro_echo_os.Money.Signs.{plus_positive, minus_covered}
use tagro_echo_os.Business.{LineItem, StockMovement, Sale, PurchaseRecord, StoreState}
use tagro_echo_os.Business.Store.{Ambient, is_bad_item, is_short, stock_on_hand}
use tagro_echo_os.Business.Store.Ledger.{quantities_of, stock_on_hand-movements, Sold, Bought}

-- No branch has less than nothing of a product.
abbrev pub IsStocked : StoreState → Type 0
IsStocked s = (b p : String) → lt_dec (stock_on_hand b p s.stock_movements) zero_dec ≡ false

-- No two items are of one product.
abbrev pub NamesOnce : List LineItem → Type 0
NamesOnce items = (p : String) → length (quantities_of p items) ≤ 1

good_quantities :
    (p : String) (items : List LineItem)
    → any is_bad_item items ≡ false
    → any (λ q. le_dec q zero_dec) (quantities_of p items) ≡ false
unfolding quantities_of any is_bad_item filter
good_quantities p [] h = refl
good_quantities p (i ∷ items) h = ground (arith, good_quantities p items)

covered_quantities :
    (b p : String) (ms : List StockMovement) (items : List LineItem)
    → is_short b ms items ≡ false
    → any (λ q. lt_dec (stock_on_hand b p ms) q) (quantities_of p items) ≡ false
unfolding quantities_of any is_short filter
covered_quantities b p ms [] h = refl
covered_quantities b p ms (i ∷ items) h =
    ground (arith, eq_iff i.product_id p, covered_quantities b p ms items)

-- Adding positive quantities.
added_up :
    (a : Decimal) (qs : List Decimal)
    → lt_dec a zero_dec ≡ false
    → any (λ q. le_dec q zero_dec) qs ≡ false
    → lt_dec (sum_from a (map (λ q. q) qs)) zero_dec ≡ false
unfolding sum_from any
added_up a [] h k = h
added_up a (q ∷ qs) h k = added_up (plus a q) qs (plus_positive a q h (ground arith)) (ground arith)

-- Taking one covered quantity away.
taken_off :
    (a : Decimal) (qs : List Decimal)
    → lt_dec a zero_dec ≡ false
    → any (λ q. le_dec q zero_dec) qs ≡ false
    → any (λ q. lt_dec a q) qs ≡ false
    → length qs ≤ 1
    → lt_dec (sum_from a (map negate qs)) zero_dec ≡ false
unfolding sum_from any
taken_off a [] h k c once = h
taken_off a (q ∷ []) h k c once = minus_covered a q h (ground arith) (ground arith)
taken_off a (q ∷ r ∷ qs) h k c once = ground arith

unchanged : (a : Decimal) → lt_dec a zero_dec ≡ false → lt_dec (sum_from a []) zero_dec ≡ false
unfolding sum_from
unchanged a h = h

pub create_purchase-IsStocked :
    (v : Ambient) (branch_id : String) (items : List LineItem) (s u : StoreState)
    (p : PurchaseRecord)
    → Bought v branch_id items s u p
    → IsStocked s
    → IsStocked u
create_purchase-IsStocked v branch_id items s u purchase r stocked b p =
    let after =
      added_up (stock_on_hand b p s.stock_movements) (quantities_of p items) (stocked b p)
        (good_quantities p items r.good) in
    rw
      (
        r.movements,
        stock_on_hand-movements v branch_id b p (λ q. q) "purchase" purchase.purchase_id items
            s.stock_movements,
      )
      (elim (Bool-cases (branch_id == b)) [
        | inl same ↦ rw same after
        | inr other ↦ rw other (unchanged (stock_on_hand b p s.stock_movements) (stocked b p))
      ])

pub create_sale-IsStocked :
    (v : Ambient) (branch_id : String) (items : List LineItem) (s u : StoreState) (sale : Sale)
    → Sold v branch_id items s u sale
    → NamesOnce items
    → IsStocked s
    → IsStocked u
create_sale-IsStocked v branch_id items s u sale r once stocked b p =
    rw
      (
        r.movements,
        stock_on_hand-movements v branch_id b p negate "sale" sale.sale_id items s.stock_movements,
      )
      (elim (Bool-cases (branch_id == b)) [
        | inl same ↦ rw same (
            taken_off (stock_on_hand b p s.stock_movements) (quantities_of p items) (stocked b p)
              (good_quantities p items r.good)
              (subst
                (λ x.
                  any (λ q. lt_dec (stock_on_hand x p s.stock_movements) q) (quantities_of p items)
                  ≡ false)
                (ground (arith, eq_iff branch_id b))
                (covered_quantities branch_id p s.stock_movements items r.covered))
              (once p))
        | inr other ↦ rw other (unchanged (stock_on_hand b p s.stock_movements) (stocked b p))
      ])
