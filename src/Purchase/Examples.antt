-- ===== src/Purchase/Examples.antt =====
-- A purchase order (src/purchase/orders.py): created, one line of 10 added, submitted, approved, placed, and
-- 4 of the 10 received.
use tagro_echo_os.Base.{
  pos, ◌+ℤ◌, true, none, some, [], ◌∷◌, lookup, ◌≡◌, refl, ok, err, Dict, is_blank, strip, scale,
  ◌⊎◌,
}
use tagro_echo_os.Money.{Decimal, integer, money, lt_dec, le_dec, eq_dec, plus}
use tagro_echo_os.Purchase.{
  PurchaseOrder, PurchaseOrderLine, OrderError, OrderState, Ambient, no_orders, ordered,
  part_received,
}
use tagro_echo_os.Purchase.Quantities.{
  received_of, known_from, known_lines, receive_line, receive_lines, is_complete,
}
use tagro_echo_os.Purchase.Store.{
  get_order, commit, validate_line, is_editable, editable, new_order, create, add_line, submit,
  is_submitted, decide, is_approved, mark_ordered, is_receivable, receive,
}
use tagro_echo_os.Purchase.Store.Calls.{
  creates, adds_line, submits, decides, orders, receives, Run, here, next, Written, Call-atomic,
}
use tagro_echo_os.Purchase.Store.Validity.{IsGood, orders-IsGood}
use tagro_echo_os.Purchase.Store.Lifecycle.{Keeps, order-Keeps}
use tagro_echo_os.Purchase.Store.Delivery.{Delivered, receive-Delivered}

abbrev at_create : Ambient
at_create = record { new_id = "po-1"; event_id = "evt-1"; now = 1 }

abbrev at_line : Ambient
at_line = record { new_id = "line-1"; event_id = "evt-2"; now = 2 }

abbrev at_submit : Ambient
at_submit = record { new_id = "none"; event_id = "evt-3"; now = 3 }

abbrev at_decision : Ambient
at_decision = record { new_id = "decision-1"; event_id = "evt-4"; now = 4 }

abbrev at_order : Ambient
at_order = record { new_id = "none"; event_id = "evt-5"; now = 5 }

abbrev at_delivery : Ambient
at_delivery = record { new_id = "none"; event_id = "evt-6"; now = 6 }

abbrev four : Dict Decimal
four = ("line-1", integer (pos 4)) ∷ []

opened : OrderState
unfolding create commit is_blank get_order editable validate_line le_dec lt_dec scale money submit
    decide mark_ordered receive receive_lines is_complete strip is_editable is_submitted is_approved
    is_receivable add_line known_from known_lines receive_line received_of plus eq_dec
opened = (create at_create "kvr" "staff-1" none true no_orders).1

listed : OrderState
unfolding opened
listed = (add_line at_line "po-1" "tea" "Tea" (integer (pos 10)) none none opened).1

sent : OrderState
unfolding listed
sent = (submit at_submit "po-1" "staff-1" listed).1

agreed : OrderState
unfolding sent
agreed = (decide at_decision "po-1" true "owner-1" "" sent).1

placed : OrderState
unfolding agreed
placed = (mark_ordered at_order "po-1" "staff-1" "ref-7" agreed).1

delivered : OrderState
unfolding placed
delivered = (receive at_delivery "po-1" "staff-1" four placed).1

listed-Run : Run no_orders listed
unfolding listed
listed-Run =
    next (next here (creates at_create "kvr" "staff-1" none true refl refl) refl)
      (adds_line at_line "po-1" "tea" "Tea" (integer (pos 10)) none none refl) refl

placed_after : Run listed placed
unfolding placed
placed_after =
    next
      (next (next here (submits at_submit "po-1" "staff-1" refl) refl)
        (decides at_decision "po-1" true "owner-1" "" refl) refl)
      (orders at_order "po-1" "staff-1" "ref-7" refl) refl

placed-Run : Run no_orders placed
unfolding placed
placed-Run =
    next
      (next (next listed-Run (submits at_submit "po-1" "staff-1" refl) refl)
        (decides at_decision "po-1" true "owner-1" "" refl) refl)
      (orders at_order "po-1" "staff-1" "ref-7" refl) refl

delivered-Run : Run no_orders delivered
unfolding delivered
delivered-Run = next placed-Run (receives at_delivery "po-1" "staff-1" four refl) refl

abbrev tea : PurchaseOrderLine
tea = record {
  line_id = "line-1";
  item_key = "tea";
  description = "Tea";
  quantity = integer (pos 10);
  expected_unit_cost = none;
  source_ref = none;
}

abbrev listed_order : PurchaseOrder
listed_order = record (new_order at_create "kvr" "staff-1" none true) { lines = tea ∷ [] }

abbrev placed_order : PurchaseOrder
placed_order = record listed_order {
  status = ordered;
  ordered_ref = some "ref-7";
  approval = some (record {
    decision_id = "decision-1";
    order_id = "po-1";
    is_approved = true;
    actor_id = "owner-1";
    decided_at = 4;
    note = "";
  });
}

abbrev delivered_order : PurchaseOrder
delivered_order = record placed_order { status = part_received; received_quantities = four }

orders-IsGood_example : IsGood delivered_order
unfolding delivered ◌+ℤ◌
orders-IsGood_example = orders-IsGood delivered "po-1" delivered_order delivered-Run refl

order-Keeps_example :
    (o : PurchaseOrder) × (lookup "po-1" placed.orders ≡ some o) × Keeps listed_order o
unfolding placed
order-Keeps_example = order-Keeps listed placed "po-1" listed_order placed_after refl

receive-Delivered_example :
    Delivered placed_order delivered_order four
    × (lookup "po-1" delivered.orders ≡ some delivered_order)
unfolding delivered ◌+ℤ◌
receive-Delivered_example =
    receive-Delivered at_delivery "po-1" "staff-1" four placed delivered placed_order
      delivered_order placed-Run refl refl

Call-atomic_example :
    ((e : OrderError) × (submit at_submit "po-1" "staff-1" listed ≡ (err e, listed)))
    ⊎ ((o : PurchaseOrder) × ((submit at_submit "po-1" "staff-1" listed).0 ≡ ok o)
        × Written listed (submit at_submit "po-1" "staff-1" listed).1 o)
Call-atomic_example =
    Call-atomic listed (submit at_submit "po-1" "staff-1" listed)
      (submits at_submit "po-1" "staff-1" refl)
