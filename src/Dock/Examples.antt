-- ===== src/Dock/Examples.antt =====
-- A handoff (src/busy_dock/engine.py) of a counter whose BUSY node may read stock.
use tagro_echo_os.Base.{
  String, true, none, some, [], ◌∷◌, lookup, insert, values, any, filter, ◌==◌, ◌≡◌, refl, ok, err,
  is_blank, if◌then◌else◌,
}
use tagro_echo_os.Registry.{Enterprise, BusyNode, BusyBinding, Records}
use tagro_echo_os.Registry.Directory.{resolve_busy_binding, busy_bindings_for_enterprise, member}
use tagro_echo_os.Dock.{
  BusyRequest, value_of, required_capability, stock, HandoffRequest, BusyHandoffEnvelope, DockState,
  changed_handoff,
}
use tagro_echo_os.Dock.Engine.{
  Ambient, resolve, validate_request, require_capability, handoff_request, put_handoff,
  prepare_handoff,
}
use tagro_echo_os.Dock.Handoffs.{Prepared, prepare_handoff-Prepared, here, prepare_again}

abbrev counter : Enterprise
counter = record {
  enterprise_id = "ent-kvr";
  code = "KVR";
  name = "Kavaratti";
  enterprise_type = "counter";
  parent_enterprise_id = none;
  legal_identity_ref = none;
  district = none;
  region = none;
  active = true;
  metadata = [];
}

abbrev node : BusyNode
node = record {
  busy_node_id = "busy-1";
  code = "B1";
  name = "Busy";
  company_ref = "comp-1";
  node_type = "company";
  company_data_locator = none;
  active = true;
  capabilities = "stock_read" ∷ [];
  metadata = [];
}

abbrev binding : BusyBinding
binding = record {
  binding_id = "bind-1";
  enterprise_id = "ent-kvr";
  busy_node_id = "busy-1";
  binding_role = "primary_accounts";
  material_centre_ref = some "mc-1";
  voucher_series = [];
  active = true;
}

abbrev directory : Records
directory = record {
  enterprises = ("ent-kvr", counter) ∷ [];
  users = [];
  busy_nodes = ("busy-1", node) ∷ [];
  busy_bindings = ("bind-1", binding) ∷ [];
}

abbrev request : BusyRequest String
request = record {
  request_id = "req-1";
  enterprise_id = "ent-kvr";
  actor_id = "staff-1";
  operation = stock;
  binding_role = "primary_accounts";
  parameters = [];
  idempotency_key = "k-1";
}

abbrev by_actor : HandoffRequest String → String
by_actor p = p.actor_id

abbrev no_handoffs : DockState String
no_handoffs = record { snapshots = []; handoffs = []; handoff_results = [] }

abbrev first_call : Ambient
first_call = record { new_id = "env-1"; now = "2026-08-19" }

abbrev second_call : Ambient
second_call = record { new_id = "env-2"; now = "2026-08-20" }

prepared : DockState String
unfolding prepare_handoff validate_request resolve resolve_busy_binding busy_bindings_for_enterprise
    filter values lookup require_capability member any required_capability handoff_request value_of
    put_handoff insert is_blank
prepared = (prepare_handoff by_actor directory first_call request no_handoffs).1

abbrev envelope : BusyHandoffEnvelope String
envelope = record {
  envelope_id = "env-1";
  payload = handoff_request request node binding;
  payload_hash = "staff-1";
  created_at = "2026-08-19";
}

prepare_handoff-Prepared_example :
    Prepared by_actor directory first_call request no_handoffs prepared envelope
unfolding prepared
prepare_handoff-Prepared_example =
    prepare_handoff-Prepared by_actor directory first_call request no_handoffs prepared envelope
      refl

prepare_again_example : prepare_handoff by_actor directory second_call request prepared ≡ (
  if "staff-1" == by_actor (handoff_request request node binding)
      then ok envelope
      else err changed_handoff,
  prepared,
)
unfolding prepared
prepare_again_example =
    prepare_again by_actor directory directory first_call second_call request request no_handoffs
      prepared prepared envelope node binding refl here refl refl refl refl
