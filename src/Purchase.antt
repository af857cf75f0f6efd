-- ===== src/Purchase.antt =====
-- src/purchase/orders.py: the records of the purchase-order life cycle and the methods of
-- `class PurchaseOrderStore`, over the orders and the list of events.
pub mod Quantities
pub mod Store
mod Examples
use tagro_echo_os.Base.{ℕ, String, Bool, Option, List, [], Dict}
use tagro_echo_os.Money.{Decimal}

-- `class PurchaseOrderStatus`
pub data PurchaseOrderStatus : Type 0 where
  draft submitted approved rejected ordered part_received received cancelled : PurchaseOrderStatus

-- What the methods raise: the messages, and `no_order` for the KeyError of `self.orders[order_id]`.
pub data OrderError : Type 0 where
  item_key_required quantity_not_positive negative_cost keys_required negative_available :
      OrderError
  source_ref_required branch_and_requester_required no_order not_editable lines_required :
      OrderError
  only_submitted owner_required approval_required submission_required ordered_ref_required :
      OrderError
  only_ordered unknown_line negative_received exceeds_ordered not_cancellable : OrderError
  reason_required : OrderError

pub record PurchaseOrderLine : Type 0 where
  pub line_id : String
  pub item_key : String
  pub description : String
  pub quantity : Decimal
  pub expected_unit_cost : Option Decimal
  pub source_ref : Option String

pub record InterBranchStockEvidence : Type 0 where
  pub item_key : String
  pub branch_id : String
  pub available_quantity : Decimal
  pub observed_at : ℕ
  pub source_ref : String
  pub freshness_seconds : Option ℕ

pub record ApprovalDecision : Type 0 where
  pub decision_id : String
  pub order_id : String
  pub is_approved : Bool
  pub actor_id : String
  pub decided_at : ℕ
  pub note : String

pub record PurchaseOrder : Type 0 where
  pub order_id : String
  pub branch_id : String
  pub supplier_id : Option String
  pub requested_by : String
  pub created_at : ℕ
  pub status : PurchaseOrderStatus
  pub lines : List PurchaseOrderLine
  pub owner_approval_required : Bool
  pub approval : Option ApprovalDecision
  pub interbranch_evidence : List InterBranchStockEvidence
  pub ordered_ref : Option String
  pub received_quantities : Dict Decimal

-- The payloads of the events.
pub data EventKind : Type 0 where
  created : EventKind
  line_added : String → Decimal → EventKind
  evidence_attached : ℕ → EventKind
  order_submitted : EventKind
  decided : Bool → String → EventKind
  placed : String → EventKind
  stock_received : Bool → EventKind
  order_cancelled : String → EventKind

pub record Event : Type 0 where
  pub event_id : String
  pub order_id : String
  pub kind : EventKind
  pub actor_id : String
  pub occurred_at : ℕ

pub record OrderState : Type 0 where
  pub orders : Dict PurchaseOrder
  pub events : List Event

abbrev pub no_orders : OrderState
no_orders = record { orders = []; events = [] }

-- What a call takes from outside: the identifiers that `uuid4` gives, and the time.
pub record Ambient : Type 0 where
  pub new_id : String
  pub event_id : String
  pub now : ℕ
