-- ===== src/Dock/Handoffs.antt =====
-- The handoffs of `class BusyDock` (src/busy_dock/engine.py).
use tagro_echo_os.Base.{
  String, true, false, not, Option, none, some, lookup, insert, lookup-insert, lookup-insert_self,
  ◌==◌, ◌≡◌, refl, ap, arith, ok, err, ◌⊎◌, inl, inr, Bool-cases, Option-cases, Result-cases,
  outcome_cases, eq_iff, if◌then◌else◌,
}
use tagro_echo_os.Registry.{Records, BusyNode, BusyBinding}
use tagro_echo_os.Registry.Directory.{resolve_busy_binding, member}
use tagro_echo_os.Dock.{
  BusyRequest, required_capability, HandoffRequest, BusyHandoffEnvelope, BusySnapshot,
  BusyHandoffResult, DockState, DockError, changed_handoff,
}
use tagro_echo_os.Dock.Engine.{
  Ambient, operations, resolve, validate_request, require_capability, handoff_request, put_handoff,
  prepare_handoff, save_snapshot, record_handoff_result,
}

-- The node and the binding that serve a request.
pub record Resolved (dir : Records) (enterprise_id role : String) (node : BusyNode)
    (binding : BusyBinding) : Type 0 where
  pub bound : (resolve_busy_binding enterprise_id role dir).0 ≡ ok (some binding)
  pub registered : lookup binding.busy_node_id dir.busy_nodes ≡ some node
  pub active : node.active ≡ true

pub resolve-Resolved :
    (dir : Records) (enterprise_id role : String) (node : BusyNode) (binding : BusyBinding)
    → resolve dir enterprise_id role ≡ ok (node, binding)
    → Resolved dir enterprise_id role node binding
unfolding resolve
resolve-Resolved dir enterprise_id role node binding h =
    elim (Result-cases (resolve_busy_binding enterprise_id role dir).0) [
      | inr (e, bad) ↦ ground (arith, bad)
      | inl (found, fine) ↦ elim (Option-cases found) [
        | inl nothing ↦ ground (arith, fine, nothing)
        | inr (b, is_b) ↦ elim (Option-cases (lookup b.busy_node_id dir.busy_nodes)) [
          | inl lost ↦ ground (arith, fine, is_b, lost)
          | inr (n, at_n) ↦ record {
            bound = ground (arith, fine, is_b, at_n);
            registered = ground (arith, fine, is_b, at_n);
            active = ground (arith, fine, is_b, at_n);
          }
        ]
      ]
    ]

module _ {D : Type 0} where
  -- What `prepare_handoff` has passed and done when it returns an envelope.
  pub record Prepared (digest : HandoffRequest D → String) (dir : Records) (v : Ambient)
      (r : BusyRequest D) (s u : DockState D) (e : BusyHandoffEnvelope D) : Type 0 where
    pub node : BusyNode
    pub binding : BusyBinding
    pub resolved : Resolved dir r.enterprise_id r.binding_role node binding
    pub capable : member (required_capability r.operation) node.capabilities ≡ true
    pub way :
        ((u ≡ s)
          × (lookup r.idempotency_key s.handoffs ≡ some e)
          × (e.payload_hash ≡ digest (handoff_request r node binding)))
        ⊎ ((lookup r.idempotency_key s.handoffs ≡ none)
            × (e.payload ≡ handoff_request r node binding)
            × (e.payload_hash ≡ digest (handoff_request r node binding))
            × (u.handoffs ≡ insert r.idempotency_key e s.handoffs))

  state-validate_request :
      (dir : Records) (r : BusyRequest D) (s : DockState D) → (validate_request dir r s).1 ≡ s
  unfolding validate_request
  state-validate_request dir r s = ground arith

  put_way :
      (v : Ambient) (hash : String) (p : HandoffRequest D) (o : Option (BusyHandoffEnvelope D))
      (s u : DockState D) (e : BusyHandoffEnvelope D)
      → put_handoff v hash p o s ≡ (ok e, u)
      → ((u ≡ s) × (o ≡ some e) × (e.payload_hash ≡ hash))
        ⊎ ((o ≡ none)
            × (e.payload ≡ p)
            × (e.payload_hash ≡ hash)
            × (u.handoffs ≡ insert p.idempotency_key e s.handoffs))
  unfolding put_handoff
  put_way v hash p (some x) s u e h =
      inl (ground arith, ground arith, ground (arith, eq_iff x.payload_hash hash))
  put_way v hash p none s u e h = inr (refl, ground arith, ground arith, ground arith)

  -- An envelope is prepared for the node that is bound to the enterprise in the role of the request: the
  -- binding is the one that the directory resolves, the node is registered, active and declares the capability
  -- that the operation needs; and the envelope is the one that stands under the key already, with the same
  -- digest, or a new one with the payload of the request, stored under the key.
  pub prepare_handoff-Prepared :
      (digest : HandoffRequest D → String) (dir : Records) (v : Ambient) (r : BusyRequest D)
      (s u : DockState D) (e : BusyHandoffEnvelope D)
      → prepare_handoff digest dir v r s ≡ (ok e, u)
      → Prepared digest dir v r s u e
  unfolding prepare_handoff require_capability handoff_request
  prepare_handoff-Prepared digest dir v r s u e h =
      elim (outcome_cases (validate_request dir r s) (state-validate_request dir r s)) [
        | inr (x, bad) ↦ ground (arith, bad)
        | inl (_, fine) ↦ elim (Result-cases (resolve dir r.enterprise_id r.binding_role)) [
          | inr (x, bad) ↦ ground (arith, fine, bad)
          | inl ((node, binding), at_node) ↦
              let p = handoff_request r node binding in
              let put : put_handoff v (digest p) p (lookup r.idempotency_key s.handoffs) s
                  ≡ (ok e, u) =
                ground (arith, fine, at_node) in
              record {
                node = node;
                binding = binding;
                resolved = resolve-Resolved dir r.enterprise_id r.binding_role node binding at_node;
                capable = ground (arith, fine, at_node);
                way = put_way v (digest p) p (lookup r.idempotency_key s.handoffs) s u e put;
              }
        ]
      ]

  -- Any calls that may write, with any directory, successful or not.
  pub data Run (digest : HandoffRequest D → String) (s : DockState D) : DockState D → Type 0 where
    here : Run digest s s
    saves :
        (t u : DockState D) (dir : Records) (x : BusySnapshot D)
        → Run digest s t
        → u ≡ (save_snapshot dir x t).1
        → Run digest s u
    prepares :
        (t u : DockState D) (dir : Records) (v : Ambient) (r : BusyRequest D)
        → Run digest s t
        → u ≡ (prepare_handoff digest dir v r t).1
        → Run digest s u
    results :
        (t u : DockState D) (x : BusyHandoffResult D)
        → Run digest s t
        → u ≡ (record_handoff_result x t).1
        → Run digest s u

  put_raises :
      (v : Ambient) (hash : String) (p : HandoffRequest D) (o : Option (BusyHandoffEnvelope D))
      (s : DockState D) (x : DockError)
      → (put_handoff v hash p o s).0 ≡ err x
      → (put_handoff v hash p o s).1 ≡ s
  unfolding put_handoff
  put_raises v hash p (some e) s x h = ground arith
  put_raises v hash p none s x h = ground arith

  prepare_raises :
      (digest : HandoffRequest D → String) (dir : Records) (v : Ambient) (r : BusyRequest D)
      (s : DockState D) (x : DockError)
      → (prepare_handoff digest dir v r s).0 ≡ err x
      → (prepare_handoff digest dir v r s).1 ≡ s
  unfolding prepare_handoff require_capability
  prepare_raises digest dir v r s x h =
      elim (outcome_cases (validate_request dir r s) (state-validate_request dir r s)) [
        | inr (y, bad) ↦ ground (arith, bad)
        | inl (_, fine) ↦ elim (Result-cases (resolve dir r.enterprise_id r.binding_role)) [
          | inr (y, bad) ↦ ground (arith, fine, bad)
          | inl ((node, binding), at_node) ↦
              let put =
                put_raises v (digest (handoff_request r node binding))
                  (handoff_request r node binding) (lookup r.idempotency_key s.handoffs) s x in
              ground (arith, fine, at_node, put)
        ]
      ]

  -- A stored envelope stays.
  prepare_keeps :
      (digest : HandoffRequest D → String) (dir : Records) (v : Ambient) (r : BusyRequest D)
      (s : DockState D) (key : String) (e : BusyHandoffEnvelope D)
      → lookup key s.handoffs ≡ some e
      → lookup key (prepare_handoff digest dir v r s).1.handoffs ≡ some e
  prepare_keeps digest dir v r s key e found =
      elim (Result-cases (prepare_handoff digest dir v r s).0) [
        | inr (x, bad) ↦ rw (prepare_raises digest dir v r s x bad) found
        | inl (x, fine) ↦
            let after = (prepare_handoff digest dir v r s).1 in
            elim (prepare_handoff-Prepared digest dir v r s after x
              (ap (λ z. (z, after)) fine)).way [
                | inl (same, _, _) ↦ rw same found
                | inr (first, _, _, written) ↦ ground (
                  arith,
                  written,
                  found,
                  first,
                  lookup-insert r.idempotency_key key x s.handoffs,
                  eq_iff r.idempotency_key key,
                )
              ]
      ]

  save_handoffs :
      (dir : Records) (x : BusySnapshot D) (s : DockState D)
      → (save_snapshot dir x s).1.handoffs ≡ s.handoffs
  unfolding save_snapshot
  save_handoffs dir x s =
      elim (Bool-cases
        (elim (lookup x.busy_node_id dir.busy_nodes) [ none ↦ true | some n ↦ false ])) [
          | inl unknown ↦ ground (arith, unknown)
          | inr known ↦ elim (Bool-cases (not (member x.operation operations))) [
            | inl bad ↦ ground (arith, known, bad)
            | inr fine ↦ ground (arith, known, fine)
          ]
        ]

  result_handoffs :
      (x : BusyHandoffResult D) (s : DockState D)
      → (record_handoff_result x s).1.handoffs ≡ s.handoffs
  unfolding record_handoff_result
  result_handoffs x s = ground arith

  Run-keeps :
      (digest : HandoffRequest D → String) (s u : DockState D) (key : String)
      (e : BusyHandoffEnvelope D)
      → Run digest s u
      → lookup key s.handoffs ≡ some e
      → lookup key u.handoffs ≡ some e
  Run-keeps digest s u key e here found = found
  Run-keeps digest s u key e (saves t _ dir x run eq) found =
      rw (eq, save_handoffs dir x t) (Run-keeps digest s t key e run found)
  Run-keeps digest s u key e (prepares t _ dir v r run eq) found =
      rw eq (prepare_keeps digest dir v r t key e (Run-keeps digest s t key e run found))
  Run-keeps digest s u key e (results t _ x run eq) found =
      rw (eq, result_handoffs x t) (Run-keeps digest s t key e run found)

  Prepared-stored :
      (digest : HandoffRequest D → String) (dir : Records) (v : Ambient) (r : BusyRequest D)
      (s u : DockState D) (e : BusyHandoffEnvelope D)
      → Prepared digest dir v r s u e
      → lookup r.idempotency_key u.handoffs ≡ some e
  Prepared-stored digest dir v r s u e p = elim p.way [
    | inl (same, at_key, _) ↦ rw same at_key
    | inr (_, _, _, written) ↦ rw written (lookup-insert_self r.idempotency_key e s.handoffs)
  ]

  -- Once an envelope was prepared under a key, a later call with that key, whatever calls come between and
  -- whatever the directory, that passes the guards for a node and a binding writes nothing: it returns the same
  -- envelope when the digest of its payload is that of the envelope, and is refused as a changed replay when not.
  pub prepare_again :
      (digest : HandoffRequest D → String) (dir dir' : Records) (v v' : Ambient)
      (r r' : BusyRequest D) (s t u : DockState D) (e : BusyHandoffEnvelope D) (node : BusyNode)
      (binding : BusyBinding)
      → prepare_handoff digest dir v r s ≡ (ok e, t)
      → Run digest t u
      → r'.idempotency_key ≡ r.idempotency_key
      → validate_request dir' r' u ≡ (ok tt, u)
      → resolve dir' r'.enterprise_id r'.binding_role ≡ ok (node, binding)
      → member (required_capability r'.operation) node.capabilities ≡ true
      → prepare_handoff digest dir' v' r' u ≡ (
        if e.payload_hash == digest (handoff_request r' node binding)
            then ok e
            else err changed_handoff,
        u,
      )
  unfolding prepare_handoff put_handoff require_capability
  prepare_again digest dir dir' v v' r r' s t u e node binding h run same fine at_node able =
      let found =
        Run-keeps digest t u r.idempotency_key e run (
          Prepared-stored digest dir v r s t e (prepare_handoff-Prepared digest dir v r s t e h)) in
      ground (arith, same, fine, at_node, able, found)
