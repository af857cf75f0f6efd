-- ===== src/Purchase/Store/Changes.antt =====
-- The permitted changes of an order of src/purchase/orders.py, and how a call of a method may end.
use tagro_echo_os.Base.{
  String, true, false, none, some, List, [], ◌∷◌, ◌++◌, Dict, lookup, filter, ◌≡◌, ok, err, Result,
  ◌⊎◌, is_blank, if◌then◌else◌,
}
use tagro_echo_os.Money.{Decimal, zero_dec, le_dec}
use tagro_echo_os.Purchase.{
  PurchaseOrderLine, InterBranchStockEvidence, ApprovalDecision, PurchaseOrder, OrderError,
  OrderState, Ambient, EventKind, draft, submitted, approved, rejected, ordered, part_received,
  received, cancelled, created,
}
use tagro_echo_os.Purchase.Quantities.{has_lines, known_lines, receive_lines, is_complete}
use tagro_echo_os.Purchase.Store.{
  put_order, put_event, is_editable, is_relevant, is_receivable, is_final,
}

-- A line that its validation accepts.
pub record LineOk (line : PurchaseOrderLine) : Type 0 where
  pub has_key : is_blank line.item_key ≡ false
  pub positive : le_dec line.quantity zero_dec ≡ false

-- The permitted changes of an order.
pub data Change (old new : PurchaseOrder) : Type 0 where
  adds_line :
      (line : PurchaseOrderLine)
      → old.status ≡ draft
      → LineOk line
      → new ≡ record old { lines = old.lines ++ line ∷ [] }
      → Change old new
  attaches :
      (rows : List InterBranchStockEvidence)
      → is_editable true old.status ≡ true
      → new ≡ record old { interbranch_evidence = filter (is_relevant old) rows }
      → Change old new
  submits :
      old.status ≡ draft
      → has_lines old ≡ true
      → new ≡ record old { status = submitted }
      → Change old new
  decides :
      (d : ApprovalDecision)
      → old.status ≡ submitted
      → is_blank d.actor_id ≡ false
      → new
        ≡ record old { status = if d.is_approved then approved else rejected; approval = some d }
      → Change old new
  orders :
      (ref : String)
      → ((old.status ≡ approved)
          ⊎ ((old.status ≡ submitted) × (old.owner_approval_required ≡ false)))
      → new ≡ record old { status = ordered; ordered_ref = some ref }
      → Change old new
  receives :
      (quantities got : Dict Decimal)
      → is_receivable old.status ≡ true
      → receive_lines (known_lines old.lines) quantities old.received_quantities ≡ ok got
      → new ≡ record old {
        status = if is_complete got old.lines then received else part_received;
        received_quantities = got;
      }
      → Change old new
  cancels : is_final old.status ≡ false → new ≡ record old { status = cancelled } → Change old new

-- A new order: a draft with no lines, no approval and no receipts, under an identifier not in use.
pub record IsNew (o : PurchaseOrder) : Type 0 where
  pub starts : o.status ≡ draft
  pub no_lines : o.lines ≡ []
  pub no_approval : o.approval ≡ none
  pub no_receipts : o.received_quantities ≡ []

-- How a call ends.
pub data Effect (s : OrderState) (p : Result OrderError PurchaseOrder × OrderState) : Type 0 where
  refused : (e : OrderError) → p ≡ (err e, s) → Effect s p
  opens :
      (v : Ambient) (actor : String) (o : PurchaseOrder)
      → lookup v.new_id s.orders ≡ none
      → IsNew o
      → p ≡ (ok o, put_event v v.new_id created actor (put_order v.new_id o s))
      → Effect s p
  changes :
      (v : Ambient) (id actor : String) (kind : EventKind) (old new : PurchaseOrder)
      → lookup id s.orders ≡ some old
      → Change old new
      → p ≡ (ok new, put_event v id kind actor (put_order id new s))
      → Effect s p
