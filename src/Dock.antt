-- ===== src/Dock.antt =====
-- src/busy_dock/engine.py: the records of the BUSY dock. `D` stands for the values that JSON parameters and
-- snapshots carry.
pub mod Engine
mod Handoffs
mod Examples
use tagro_echo_os.Base.{String, Bool, Option, Dict}
use tagro_echo_os.Registry.{RegistryError}

-- `class BusyOperation`
pub data BusyOperation : Type 0 where
  masters transactions stock balances ledgers report_catalogue report : BusyOperation

-- `BusyOperation.value`
unfoldable pub value_of : BusyOperation → String
value_of masters = "masters"
value_of transactions = "transactions"
value_of stock = "stock"
value_of balances = "balances"
value_of ledgers = "ledgers"
value_of report_catalogue = "report_catalogue"
value_of report = "report"

-- `_REQUIRED_CAPABILITY`
unfoldable pub required_capability : BusyOperation → String
required_capability masters = "masters_read"
required_capability transactions = "transactions_read"
required_capability stock = "stock_read"
required_capability balances = "balances_read"
required_capability ledgers = "ledgers_read"
required_capability report_catalogue = "reports_read"
required_capability report = "reports_read"

pub record BusyRequest (D : Type 0) : Type 0 where
  pub request_id : String
  pub enterprise_id : String
  pub actor_id : String
  pub operation : BusyOperation
  pub binding_role : String
  pub parameters : Dict D
  pub idempotency_key : String

-- The provenance of a result: the reason `no_snapshot`, or the snapshot with its own provenance.
pub data Provenance (D : Type 0) : Type 0 where
  no_snapshot : Provenance D
  from_snapshot : (snapshot_id captured_at : String) → Dict D → Provenance D

pub record BusyResult (D : Type 0) : Type 0 where
  pub request_id : String
  pub enterprise_id : String
  pub busy_node_id : String
  pub operation : String
  pub status : String
  pub payload : Option D
  pub source : String
  pub source_effective_at : Option String
  pub observed_at : String
  pub provenance : Provenance D
  pub stale : Bool
  pub error : Option String

pub record BusySnapshot (D : Type 0) : Type 0 where
  pub snapshot_id : String
  pub busy_node_id : String
  pub operation : String
  pub payload : D
  pub source_effective_at : String
  pub captured_at : String
  pub provenance : Dict D

-- The payload that `prepare_handoff` hashes.
pub record HandoffRequest (D : Type 0) : Type 0 where
  pub request_id : String
  pub enterprise_id : String
  pub busy_node_id : String
  pub actor_id : String
  pub operation : String
  pub binding_role : String
  pub material_centre_ref : Option String
  pub voucher_series : Dict String
  pub parameters : Dict D
  pub idempotency_key : String

-- An envelope carries the fields of its payload.
pub record BusyHandoffEnvelope (D : Type 0) : Type 0 where
  pub envelope_id : String
  pub payload : HandoffRequest D
  pub payload_hash : String
  pub created_at : String

pub record BusyHandoffResult (D : Type 0) : Type 0 where
  pub envelope_id : String
  pub busy_node_id : String
  pub status : String
  pub completed_at : String
  pub result_ref : Option String
  pub result_hash : Option String
  pub error : Option String
  pub provenance : Dict D

-- The collections SNAPSHOTS, HANDOFFS and HANDOFF_RESULTS.
pub record DockState (D : Type 0) : Type 0 where
  pub snapshots : Dict (BusySnapshot D)
  pub handoffs : Dict (BusyHandoffEnvelope D)
  pub handoff_results : Dict (BusyHandoffResult D)

-- The messages of `BusyDockError`, and the errors that the directory raises through the dock.
pub data DockError : Type 0 where
  registry : RegistryError → DockError
  no_binding no_node unknown_node bad_operation changed_handoff unknown_envelope : DockError
  request_id_required enterprise_id_required actor_id_required key_required no_enterprise :
      DockError
  no_capability : DockError
