-- ===== src/Dock/Engine.antt =====
-- src/busy_dock/engine.py: `class BusyDock`. `dir` holds the records of the enterprise directory, which the dock
-- reads; `before` is the order of `str`, and `digest` the SHA-256 of the JSON text of a payload.
use tagro_echo_os.Base.{
  String, Bool, true, false, ◌||◌, ◌&&◌, not, Option, none, some, List, [], ◌∷◌, lookup, insert,
  values, any, filter, ◌==◌, append, is_blank, Action, Result, ok, err, pure, gets, lift, raise_if,
  modify, ◌>>=◌, ◌>>◌, if◌then◌else◌,
}
use tagro_echo_os.Registry.{Records, BusyNode, BusyBinding}
use tagro_echo_os.Registry.Directory.{resolve_busy_binding, member}
use tagro_echo_os.Dock.{
  BusyOperation, value_of, required_capability, BusyRequest, no_snapshot, from_snapshot, BusyResult,
  BusySnapshot, HandoffRequest, BusyHandoffEnvelope, BusyHandoffResult, DockState, DockError,
  registry, no_binding, no_node, unknown_node, bad_operation, changed_handoff, unknown_envelope,
  request_id_required, enterprise_id_required, actor_id_required, key_required, no_enterprise,
  no_capability,
}

abbrev pub Dock : Type 0 → Type 0 → Type 0
Dock D A = Action (DockState D) DockError A

pub record Ambient : Type 0 where
  pub new_id : String
  pub now : String

-- `resolve`
unfoldable pub resolve : Records → String → String → Result DockError (BusyNode × BusyBinding)
unfolding resolve_busy_binding lookup
resolve dir enterprise_id binding_role =
    elim (resolve_busy_binding enterprise_id binding_role dir).0 [
      | err e ↦ err (registry e)
      | ok found ↦ elim found [
        | none ↦ err no_binding
        | some binding ↦ elim (lookup binding.busy_node_id dir.busy_nodes) [
          | none ↦ err no_node
          | some node ↦ if node.active then ok (node, binding) else err no_node
        ]
      ]
    ]

-- `{x.value for x in BusyOperation}`
abbrev pub operations : List String
operations =
    "masters" ∷ "transactions" ∷ "stock" ∷ "balances" ∷ "ledgers" ∷ "report_catalogue" ∷ "report"
    ∷ []

-- `_snapshot_key`
unfoldable pub snapshot_key : String → String → String → String
unfolding append
snapshot_key node_id operation snapshot_id =
    append node_id (append ":" (append operation (append ":" snapshot_id)))

module _ {D : Type 0} where
  -- `_validate_request`
  unfoldable pub validate_request : Records → BusyRequest D → Dock D Unit
  unfolding lookup
  validate_request dir r = do
    raise_if (is_blank r.request_id) request_id_required
    raise_if (is_blank r.enterprise_id) enterprise_id_required
    raise_if (is_blank r.actor_id) actor_id_required
    raise_if (is_blank r.idempotency_key) key_required
    raise_if (elim (lookup r.enterprise_id dir.enterprises) [ none ↦ true | some e ↦ false ])
        no_enterprise

  -- `_require_capability`
  unfoldable pub require_capability : BusyNode → BusyOperation → Dock D Unit
  unfolding member required_capability
  require_capability node operation =
      raise_if (not (member (required_capability operation) node.capabilities)) no_capability

  -- The key of `max`: a later effective time, then a later capture, then a greater identifier.
  unfoldable pub is_newer : (String → String → Bool) → BusySnapshot D → BusySnapshot D → Bool
  is_newer before a b =
      before b.source_effective_at a.source_effective_at
      || ((a.source_effective_at == b.source_effective_at)
          && (before b.captured_at a.captured_at
              || ((a.captured_at == b.captured_at) && before b.snapshot_id a.snapshot_id)))

  -- `max` keeps the first of the greatest.
  unfoldable pub newest :
      (String → String → Bool) → BusySnapshot D → List (BusySnapshot D) → BusySnapshot D
  unfolding is_newer
  newest before best [] = best
  newest before best (x ∷ xs) = newest before (if is_newer before x best then x else best) xs

  unfoldable pub newest_of :
      (String → String → Bool) → List (BusySnapshot D) → Option (BusySnapshot D)
  unfolding newest
  newest_of before [] = none
  newest_of before (x ∷ xs) = some (newest before x xs)

  -- `latest_snapshot`
  unfoldable pub latest_snapshot :
      (String → String → Bool) → String → String → DockState D → Option (BusySnapshot D)
  unfolding newest_of filter values
  latest_snapshot before node_id operation s = newest_of before (
      filter (λ (x : BusySnapshot D). x.busy_node_id == node_id && x.operation == operation)
        (values s.snapshots))

  -- `latest_snapshot_for_node`
  unfoldable pub latest_snapshot_for_node :
      (String → String → Bool) → String → DockState D → Option (BusySnapshot D)
  unfolding newest_of filter values
  latest_snapshot_for_node before node_id s =
      newest_of before
        (filter (λ (x : BusySnapshot D). x.busy_node_id == node_id) (values s.snapshots))

  -- The two results of `read_offline`.
  unfoldable pub offline_result :
      Ambient → BusyRequest D → BusyNode → Option (BusySnapshot D) → BusyResult D
  unfolding value_of
  offline_result v r node none = record {
    request_id = r.request_id;
    enterprise_id = r.enterprise_id;
    busy_node_id = node.busy_node_id;
    operation = value_of r.operation;
    status = "unavailable";
    payload = none;
    source = "offline_snapshot";
    source_effective_at = none;
    observed_at = v.now;
    provenance = no_snapshot;
    stale = true;
    error = some "No offline BUSY snapshot is available for this node and operation.";
  }
  offline_result v r node (some x) = record {
    request_id = r.request_id;
    enterprise_id = r.enterprise_id;
    busy_node_id = node.busy_node_id;
    operation = value_of r.operation;
    status = "success";
    payload = some x.payload;
    source = "offline_snapshot";
    source_effective_at = some x.source_effective_at;
    observed_at = v.now;
    provenance = from_snapshot x.snapshot_id x.captured_at x.provenance;
    stale = true;
    error = none;
  }

  unfoldable pub read_offline :
      (String → String → Bool) → Records → Ambient → BusyRequest D → Dock D (BusyResult D)
  unfolding validate_request resolve require_capability latest_snapshot offline_result
  read_offline before dir v r = do
    validate_request dir r
    (node, binding) ← lift (resolve dir r.enterprise_id r.binding_role)
    require_capability node r.operation
    snapshot ← gets (latest_snapshot before node.busy_node_id (value_of r.operation))
    pure (offline_result v r node snapshot)

  unfoldable pub save_snapshot : Records → BusySnapshot D → Dock D Unit
  unfolding lookup member insert snapshot_key
  save_snapshot dir x = do
    raise_if (elim (lookup x.busy_node_id dir.busy_nodes) [ none ↦ true | some n ↦ false ])
        unknown_node
    raise_if (not (member x.operation operations)) bad_operation
    modify (λ s. record s {
      snapshots = insert (snapshot_key x.busy_node_id x.operation x.snapshot_id) x s.snapshots;
    })

  -- The payload of `prepare_handoff`.
  unfoldable pub handoff_request : BusyRequest D → BusyNode → BusyBinding → HandoffRequest D
  unfolding value_of
  handoff_request r node binding = record {
    request_id = r.request_id;
    enterprise_id = r.enterprise_id;
    busy_node_id = node.busy_node_id;
    actor_id = r.actor_id;
    operation = value_of r.operation;
    binding_role = r.binding_role;
    material_centre_ref = binding.material_centre_ref;
    voucher_series = binding.voucher_series;
    parameters = r.parameters;
    idempotency_key = r.idempotency_key;
  }

  -- The end of `prepare_handoff`: a replay, or a new envelope.
  unfoldable pub put_handoff :
      Ambient
      → String
      → HandoffRequest D
      → Option (BusyHandoffEnvelope D)
      → Dock D (BusyHandoffEnvelope D)
  unfolding insert
  put_handoff v hash p (some existing) = do
    raise_if (not (existing.payload_hash == hash)) changed_handoff
    pure existing
  put_handoff v hash p none = do
    let envelope : BusyHandoffEnvelope D = record {
      envelope_id = v.new_id;
      payload = p;
      payload_hash = hash;
      created_at = v.now;
    }
    modify (λ s. record s { handoffs = insert p.idempotency_key envelope s.handoffs })
    pure envelope

  unfoldable pub prepare_handoff :
      (HandoffRequest D → String)
      → Records
      → Ambient
      → BusyRequest D
      → Dock D (BusyHandoffEnvelope D)
  unfolding validate_request resolve require_capability handoff_request put_handoff
  prepare_handoff digest dir v r = do
    validate_request dir r
    (node, binding) ← lift (resolve dir r.enterprise_id r.binding_role)
    require_capability node r.operation
    let p = handoff_request r node binding
    existing ← gets (λ s. lookup r.idempotency_key s.handoffs)
    put_handoff v (digest p) p existing

  unfoldable pub record_handoff_result : BusyHandoffResult D → Dock D Unit
  unfolding any values insert
  record_handoff_result x = do
    rows ← gets (λ s. values s.handoffs)
    raise_if (not (any (λ (e : BusyHandoffEnvelope D). e.envelope_id == x.envelope_id) rows))
        unknown_envelope
    modify (λ s. record s { handoff_results = insert x.envelope_id x s.handoff_results })

  -- `handoff_result`
  unfoldable pub handoff_result : String → DockState D → Option (BusyHandoffResult D)
  unfolding lookup
  handoff_result envelope_id s = lookup envelope_id s.handoff_results
