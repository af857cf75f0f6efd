-- ===== src/Purchase/Store/Delivery.antt =====
-- The method `receive` of `class PurchaseOrderStore` (src/purchase/orders.py) as a whole.
use tagro_echo_os.Base.{
  String, true, some, Dict, lookup, insert, lookup-insert_self, ◌≡◌, refl, arith, ok, inl, inr,
  Bool-cases, Result-cases, if◌then◌else◌,
}
use tagro_echo_os.Money.{Decimal}
use tagro_echo_os.Purchase.{PurchaseOrder, OrderState, Ambient, received, part_received, no_orders}
use tagro_echo_os.Purchase.Quantities.{received_of, known_lines, receive_lines, is_complete}
use tagro_echo_os.Purchase.Store.{receive, get_order, is_receivable}
use tagro_echo_os.Purchase.Store.Calls.{Run}
use tagro_echo_os.Purchase.Store.Receipt.{
  Within, receive_lines-Within, received_of-receive_lines, add_all,
}
use tagro_echo_os.Purchase.Store.Validity.{orders-IsGood}

-- The order after a delivery.
pub record Delivered (old new : PurchaseOrder) (qs : Dict Decimal) : Type 0 where
  pub receivable : is_receivable old.status ≡ true
  pub added :
      (j : String)
      → received_of new.received_quantities j ≡ add_all j qs (received_of old.received_quantities j)
  pub within : Within (known_lines new.lines) new.received_quantities
  pub same_lines : new.lines ≡ old.lines
  pub status_of :
      new.status
      ≡ (if is_complete new.received_quantities new.lines then received else part_received)

receive_inversion :
    (v : Ambient) (id actor : String) (qs : Dict Decimal) (s u : OrderState)
    (old new : PurchaseOrder)
    → lookup id s.orders ≡ some old
    → receive v id actor qs s ≡ (ok new, u)
    → (is_receivable old.status ≡ true)
      × ((got : Dict Decimal) × (receive_lines (known_lines old.lines) qs old.received_quantities
            ≡ ok got)
          × (new ≡ record old {
            status = if is_complete got old.lines then received else part_received;
            received_quantities = got;
          })
          × (u.orders ≡ insert id new s.orders))
unfolding receive get_order
receive_inversion v id actor qs s u old new found h = elim (Bool-cases (is_receivable old.status)) [
  | inr other ↦ ground (arith, found)
  | inl ready ↦
      elim (Result-cases (receive_lines (known_lines old.lines) qs old.received_quantities)) [
        | inr (e, bad) ↦ ground (arith, found, bad)
        | inl (got, fine) ↦
            (ready, (got, fine, ground (arith, found, fine), ground (arith, found, fine)))
      ]
]

-- A delivery that is accepted, to an order that the methods made, adds for each line exactly the
-- quantities that the delivery gives for it, and nothing to other lines; no line exceeds its quantity;
-- the order is then received when every line is complete and partly received when not.
pub receive-Delivered :
    (v : Ambient) (id actor : String) (qs : Dict Decimal) (s u : OrderState)
    (old new : PurchaseOrder)
    → Run no_orders s
    → lookup id s.orders ≡ some old
    → receive v id actor qs s ≡ (ok new, u)
    → Delivered old new qs × (lookup id u.orders ≡ some new)
receive-Delivered v id actor qs s u old new r found h =
    let (ready, (got, fine, eq, at_u)) = receive_inversion v id actor qs s u old new found h in
    let good = orders-IsGood s id old r found in
    (
      rw eq (record {
        receivable = ready;
        added = λ j.
            received_of-receive_lines (known_lines old.lines) qs old.received_quantities got j fine;
        within =
            receive_lines-Within (known_lines old.lines) qs old.received_quantities got fine
              good.within;
        same_lines = refl;
        status_of = refl;
      }),
      ground (arith, at_u, lookup-insert_self id new s.orders),
    )
