-- ===== src/Purchase/Quantities.antt =====
-- src/purchase/orders.py: the computations over an order's lines, its expected total and its receipts.
use tagro_echo_os.Base.{
  String, Bool, true, false, ◌&&◌, Option, none, some, List, [], ◌∷◌, Dict, lookup, insert, any,
  all, filter, ◌==◌, Result, ok, err, if◌then◌else◌,
}
use tagro_echo_os.Money.{Decimal, zero_dec, money, lt_dec, eq_dec, plus, times, sum_dec}
use tagro_echo_os.Purchase.{
  OrderError, PurchaseOrderLine, InterBranchStockEvidence, PurchaseOrder, unknown_line,
  negative_received, exceeds_ordered,
}

abbrev pub has_lines : PurchaseOrder → Bool
has_lines o = elim o.lines [ [] ↦ false | line ∷ more ↦ true ]

-- `{line.line_id: line for line in order.lines}`
unfoldable pub known_from : Dict PurchaseOrderLine → List PurchaseOrderLine → Dict PurchaseOrderLine
unfolding insert
known_from d [] = d
known_from d (line ∷ lines) = known_from (insert line.line_id line d) lines

unfoldable pub known_lines : List PurchaseOrderLine → Dict PurchaseOrderLine
unfolding known_from
known_lines = known_from []

-- `received.get(line_id, Decimal("0"))`
unfoldable pub received_of : Dict Decimal → String → Decimal
unfolding lookup
received_of got line_id = elim (lookup line_id got) [ none ↦ zero_dec | some q ↦ q ]

-- One round of the loop of `receive`.
unfoldable pub receive_line :
    Dict PurchaseOrderLine → String → Decimal → Dict Decimal → Result OrderError (Dict Decimal)
unfolding received_of insert lookup
receive_line known line_id quantity got = elim (lookup line_id known) [
  | none ↦ err unknown_line
  | some line ↦
      let next_qty = plus (received_of got line_id) quantity in
      if lt_dec quantity zero_dec
      then err negative_received
      else if lt_dec line.quantity next_qty
      then err exceeds_ordered
      else ok (insert line_id next_qty got)
]

-- The loop of `receive`.
unfoldable pub receive_lines :
    Dict PurchaseOrderLine → Dict Decimal → Dict Decimal → Result OrderError (Dict Decimal)
unfolding receive_line
receive_lines known [] got = ok got
receive_lines known ((line_id, quantity) ∷ more) got =
    elim (receive_line known line_id quantity got) [
      | err e ↦ err e
      | ok got' ↦ receive_lines known more got'
    ]

-- `all(Decimal(received.get(line.line_id, 0)) == line.quantity for line in order.lines)`
unfoldable pub is_complete : Dict Decimal → List PurchaseOrderLine → Bool
unfolding received_of all
is_complete got lines = all (λ line. eq_dec (received_of got line.line_id) line.quantity) lines

unfoldable pub line_costs : List PurchaseOrderLine → Option (List Decimal)
line_costs [] = some []
line_costs (line ∷ lines) = elim line.expected_unit_cost [
  | none ↦ none
  | some c ↦ elim (line_costs lines) [
    | none ↦ none
    | some more ↦ some (times line.quantity c ∷ more)
  ]
]

-- `PurchaseOrder.expected_total`
unfoldable pub expected_total : PurchaseOrder → Option Decimal
unfolding line_costs sum_dec
expected_total o =
    if has_lines o
    then elim (line_costs o.lines) [ none ↦ none | some costs ↦ some (money (sum_dec costs)) ]
    else none

-- `PurchaseOrder.unresolved_interbranch_opportunity`
unfoldable pub unresolved_interbranch_opportunity : PurchaseOrder → List InterBranchStockEvidence
unfolding filter any
unresolved_interbranch_opportunity o =
    filter
      (λ e.
        lt_dec zero_dec e.available_quantity && any (λ line. line.item_key == e.item_key) o.lines)
      o.interbranch_evidence
