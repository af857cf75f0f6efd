-- ===== src/Sync/Examples.antt =====
-- A queue (src/sync/envelopes.py) with one envelope, acknowledged, and its replay with another payload.
use tagro_echo_os.Base.{
  pos, String, [], ◌∷◌, Dict, lookup, insert, any, is_empty, ◌==◌, ◌≡◌, refl, ok, err,
  if◌then◌else◌,
}
use tagro_echo_os.Sync.{
  SyncEnvelope, QueueState, changed_payload, is_acked, put_envelope, enqueue, acknowledge,
}
use tagro_echo_os.Sync.Queue.{here, acknowledges, enqueue_again}

abbrev by_kind : Dict String → String
by_kind [] = "empty"
by_kind (p ∷ ps) = "full"

abbrev empty_queue : QueueState String
empty_queue = record { items = []; acked = [] }

abbrev first_envelope : SyncEnvelope String
first_envelope = record {
  idempotency_key = "k-1";
  device_id = "d-1";
  counter_id = "kvr";
  sequence = pos 0;
  payload_type = "sale";
  payload = [];
  created_at = 1;
  payload_hash = "empty";
}

queued : QueueState String
unfolding enqueue put_envelope lookup insert is_empty acknowledge is_acked any
queued = (enqueue by_kind 1 "k-1" "d-1" "kvr" (pos 0) "sale" [] empty_queue).1

acknowledged : QueueState String
unfolding queued
acknowledged = (acknowledge "k-1" queued).1

enqueue_again_example :
    enqueue by_kind 2 "k-1" "d-1" "kvr" (pos 0) "sale" (("item", "saw") ∷ []) acknowledged ≡ (
      if "empty" == by_kind (("item", "saw") ∷ []) then ok first_envelope else err changed_payload,
      acknowledged,
    )
unfolding acknowledged
enqueue_again_example =
    enqueue_again by_kind 2 "k-1" "d-1" "kvr" (pos 0) "sale" (("item", "saw") ∷ []) queued
      acknowledged first_envelope refl (acknowledges queued acknowledged "k-1" here refl) refl refl
