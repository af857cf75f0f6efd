-- ===== src/Purchase/Store.antt =====
-- src/purchase/orders.py: the methods of `class PurchaseOrderStore` and the properties of an order. Every
-- method ends with the same two writes, of the order and of its event.
pub mod Changes
pub mod Effects
pub mod Calls
pub mod Validity
pub mod Lifecycle
pub mod Receipt
pub mod Delivery
use tagro_echo_os.Base.{
  String, Bool, true, false, ◌||◌, ◌&&◌, not, Option, none, some, List, [], ◌∷◌, ◌++◌, Dict, lookup,
  insert, any, filter, length, ◌==◌, is_blank, strip, Action, pure, gets, or_raise, raise_if,
  modify, lift, ◌>>=◌, ◌>>◌, if◌then◌else◌,
}
use tagro_echo_os.Money.{Decimal, zero_dec, money, lt_dec, le_dec}
use tagro_echo_os.Purchase.{
  PurchaseOrderStatus, OrderError, PurchaseOrderLine, InterBranchStockEvidence, ApprovalDecision,
  PurchaseOrder, EventKind, OrderState, Ambient, draft, submitted, approved, rejected, ordered,
  part_received, received, cancelled, item_key_required, quantity_not_positive, negative_cost,
  keys_required, negative_available, source_ref_required, branch_and_requester_required, no_order,
  not_editable, lines_required, only_submitted, owner_required, approval_required,
  submission_required, ordered_ref_required, only_ordered, not_cancellable, reason_required,
  created, line_added, evidence_attached, order_submitted, decided, placed, stock_received,
  order_cancelled,
}
use tagro_echo_os.Purchase.Quantities.{has_lines, known_lines, receive_lines, is_complete}

abbrev pub Orders : Type 0 → Type 0
Orders A = Action OrderState OrderError A

-- `self.orders[order_id]`
unfoldable pub get_order : String → Orders PurchaseOrder
get_order order_id = do found ← gets (λ s. lookup order_id s.orders); or_raise found no_order

-- `self.orders[order_id] = updated`
abbrev pub put_order : String → PurchaseOrder → OrderState → OrderState
put_order order_id o s = record s { orders = insert order_id o s.orders }

-- `_event`
abbrev pub put_event : Ambient → String → EventKind → String → OrderState → OrderState
put_event v order_id kind actor_id s = record s {
  events =
      s.events
      ++ (record {
        event_id = v.event_id;
        order_id = order_id;
        kind = kind;
        actor_id = actor_id;
        occurred_at = v.now;
      })
        ∷ [];
}

-- The two writes that end each method.
unfoldable pub commit : Ambient → String → EventKind → String → PurchaseOrder → Orders PurchaseOrder
commit v order_id kind actor_id updated = do
  modify (put_order order_id updated)
  modify (put_event v order_id kind actor_id)
  pure updated

-- `PurchaseOrderLine.validate`
unfoldable pub validate_line : PurchaseOrderLine → Orders Unit
validate_line line = do
  raise_if (is_blank line.item_key) item_key_required
  raise_if (le_dec line.quantity zero_dec) quantity_not_positive
  raise_if (elim line.expected_unit_cost [ none ↦ false | some c ↦ lt_dec c zero_dec ])
      negative_cost

-- `InterBranchStockEvidence.validate`
unfoldable pub validate_evidence : InterBranchStockEvidence → Orders Unit
validate_evidence e = do
  raise_if (is_blank e.item_key || is_blank e.branch_id) keys_required
  raise_if (lt_dec e.available_quantity zero_dec) negative_available
  raise_if (is_blank e.source_ref) source_ref_required

unfoldable pub validate_all : List InterBranchStockEvidence → Orders Unit
unfolding validate_evidence
validate_all [] = pure tt
validate_all (e ∷ es) = do validate_evidence e; validate_all es

-- `order.status not in allowed` of `_editable`
unfoldable pub is_editable : Bool → PurchaseOrderStatus → Bool
is_editable allow_submitted draft = true
is_editable allow_submitted submitted = allow_submitted
is_editable allow_submitted _ = false

-- `_editable`
unfoldable pub editable : String → Bool → Orders PurchaseOrder
unfolding get_order is_editable
editable order_id allow_submitted = do
  order ← get_order order_id
  raise_if (not (is_editable allow_submitted order.status)) not_editable
  pure order

-- A `PurchaseOrder(…)` with the defaults of the class for what is not given.
abbrev pub new_order : Ambient → String → String → Option String → Bool → PurchaseOrder
new_order v branch_id requested_by supplier_id owner_approval_required = record {
  order_id = v.new_id;
  branch_id = branch_id;
  supplier_id = supplier_id;
  requested_by = requested_by;
  created_at = v.now;
  status = draft;
  lines = [];
  owner_approval_required = owner_approval_required;
  approval = none;
  interbranch_evidence = [];
  ordered_ref = none;
  received_quantities = [];
}

unfoldable pub create : Ambient → String → String → Option String → Bool → Orders PurchaseOrder
unfolding commit
create v branch_id requested_by supplier_id owner_approval_required = do
  raise_if (is_blank branch_id || is_blank requested_by) branch_and_requester_required
  commit v v.new_id created requested_by
      (new_order v branch_id requested_by supplier_id owner_approval_required)

-- `None if expected_unit_cost is None else _money(expected_unit_cost)`
abbrev pub rounded_cost : Option Decimal → Option Decimal
rounded_cost none = none
rounded_cost (some c) = some (money c)

unfoldable pub add_line :
    Ambient
    → String
    → String
    → String
    → Decimal
    → Option Decimal
    → Option String
    → Orders PurchaseOrder
unfolding commit
add_line v order_id item_key description quantity expected_unit_cost source_ref = do
  order ← editable order_id false
  let line : PurchaseOrderLine = record {
    line_id = v.new_id;
    item_key = item_key;
    description = strip description;
    quantity = quantity;
    expected_unit_cost = rounded_cost expected_unit_cost;
    source_ref = source_ref;
  }
  validate_line line
  commit v order_id (line_added item_key quantity) order.requested_by
      (record order { lines = order.lines ++ line ∷ [] })

-- `row.item_key in requested_items and row.branch_id != order.branch_id`
unfoldable pub is_relevant : PurchaseOrder → InterBranchStockEvidence → Bool
unfolding any
is_relevant order row =
    any (λ line. line.item_key == row.item_key) order.lines
    && not (row.branch_id == order.branch_id)

unfoldable pub attach_interbranch_evidence :
    Ambient → String → List InterBranchStockEvidence → String → Orders PurchaseOrder
unfolding commit is_relevant filter
attach_interbranch_evidence v order_id rows actor_id = do
  order ← editable order_id true
  validate_all rows
  let relevant = filter (is_relevant order) rows
  commit v order_id (evidence_attached (length relevant)) actor_id
      (record order { interbranch_evidence = relevant })

unfoldable pub submit : Ambient → String → String → Orders PurchaseOrder
unfolding commit
submit v order_id actor_id = do
  order ← editable order_id false
  raise_if (not (has_lines order)) lines_required
  commit v order_id order_submitted actor_id (record order { status = submitted })

unfoldable pub is_submitted : PurchaseOrderStatus → Bool
is_submitted submitted = true
is_submitted _ = false

unfoldable pub decide : Ambient → String → Bool → String → String → Orders PurchaseOrder
unfolding commit get_order is_submitted
decide v order_id approve owner_actor_id note = do
  order ← get_order order_id
  raise_if (not (is_submitted order.status)) only_submitted
  raise_if (is_blank owner_actor_id) owner_required
  let decision : ApprovalDecision = record {
    decision_id = v.new_id;
    order_id = order_id;
    is_approved = approve;
    actor_id = owner_actor_id;
    decided_at = v.now;
    note = strip note;
  }
  commit v order_id (decided approve (strip note)) owner_actor_id
      (record order { status = if approve then approved else rejected; approval = some decision })

unfoldable pub is_approved : PurchaseOrderStatus → Bool
is_approved approved = true
is_approved _ = false

unfoldable pub mark_ordered : Ambient → String → String → String → Orders PurchaseOrder
unfolding commit get_order is_approved is_submitted
mark_ordered v order_id actor_id ordered_ref = do
  order ← get_order order_id
  raise_if (order.owner_approval_required && not (is_approved order.status)) approval_required
  raise_if
      (not order.owner_approval_required
        && not (is_submitted order.status || is_approved order.status))
      submission_required
  raise_if (is_blank ordered_ref) ordered_ref_required
  commit v order_id (placed (strip ordered_ref)) actor_id
      (record order { status = ordered; ordered_ref = some (strip ordered_ref) })

unfoldable pub is_receivable : PurchaseOrderStatus → Bool
is_receivable ordered = true
is_receivable part_received = true
is_receivable _ = false

unfoldable pub receive : Ambient → String → String → Dict Decimal → Orders PurchaseOrder
unfolding commit get_order is_receivable
receive v order_id actor_id quantities_by_line = do
  order ← get_order order_id
  raise_if (not (is_receivable order.status)) only_ordered
  got ← lift (receive_lines (known_lines order.lines) quantities_by_line order.received_quantities)
  let complete = is_complete got order.lines
  commit v order_id (stock_received complete) actor_id (record order {
    status = if complete then received else part_received;
    received_quantities = got;
  })

unfoldable pub is_final : PurchaseOrderStatus → Bool
is_final received = true
is_final cancelled = true
is_final _ = false

unfoldable pub cancel : Ambient → String → String → String → Orders PurchaseOrder
unfolding commit get_order is_final
cancel v order_id actor_id reason = do
  order ← get_order order_id
  raise_if (is_final order.status) not_cancellable
  raise_if (is_blank reason) reason_required
  commit v order_id (order_cancelled (strip reason)) actor_id (record order { status = cancelled })
