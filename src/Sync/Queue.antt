-- ===== src/Sync/Queue.antt =====
-- Replays in the queue of src/sync/envelopes.py.
use tagro_echo_os.Base.{
  ℤ, ℕ, String, false, ◌||◌, Option, none, some, Dict, lookup, lookup-insert, ◌==◌, ◌≡◌, refl,
  arith, ok, err, inl, inr, Bool-cases, Option-cases, eq_iff, is_empty, if◌then◌else◌, ltb_ℤ, pos,
}
use tagro_echo_os.Sync.{
  SyncEnvelope, QueueState, changed_payload, put_envelope, enqueue, acknowledge,
}

module _ {D : Type 0} where
  -- Any calls, successful or not.
  pub data Run (digest : Dict D → String) (s : QueueState D) : QueueState D → Type 0 where
    here : Run digest s s
    queues :
        (t u : QueueState D) (now : ℕ) (key device counter : String) (sequence : ℤ) (kind : String)
        (payload : Dict D)
        → Run digest s t
        → u ≡ (enqueue digest now key device counter sequence kind payload t).1
        → Run digest s u
    acknowledges :
        (t u : QueueState D) (key : String)
        → Run digest s t
        → u ≡ (acknowledge key t).1
        → Run digest s u

  put_keeps :
      (e x : SyncEnvelope D) (o : Option (SyncEnvelope D)) (key : String) (s : QueueState D)
      → lookup e.idempotency_key s.items ≡ o
      → lookup key s.items ≡ some x
      → lookup key (put_envelope e o s).1.items ≡ some x
  unfolding put_envelope
  put_keeps e x (some old) key s at_e found = ground (arith, found)
  put_keeps e x none key s at_e found = ground (
    arith,
    found,
    at_e,
    lookup-insert e.idempotency_key key e s.items,
    eq_iff e.idempotency_key key,
  )

  enqueue_keeps :
      (digest : Dict D → String) (now : ℕ) (key device counter : String) (sequence : ℤ)
      (kind : String) (payload : Dict D) (j : String) (x : SyncEnvelope D) (s : QueueState D)
      → lookup j s.items ≡ some x
      → lookup j (enqueue digest now key device counter sequence kind payload s).1.items ≡ some x
  unfolding enqueue
  enqueue_keeps digest now key device counter sequence kind payload j x s found =
      elim (Bool-cases (is_empty key || is_empty device || is_empty counter)) [
        | inl bad ↦ ground (arith, found)
        | inr named ↦ elim (Bool-cases (ltb_ℤ sequence (pos 0))) [
          | inl bad ↦ ground (arith, found)
          | inr fine ↦
              let e : SyncEnvelope D = record {
                idempotency_key = key;
                device_id = device;
                counter_id = counter;
                sequence = sequence;
                payload_type = kind;
                payload = payload;
                created_at = now;
                payload_hash = digest payload;
              } in
              let kept = put_keeps e x (lookup key s.items) j s refl found in
              ground (arith, named, fine, kept)
        ]
      ]

  acknowledge_keeps : (key : String) (s : QueueState D) → (acknowledge key s).1.items ≡ s.items
  unfolding acknowledge
  acknowledge_keeps key s = elim (Option-cases (lookup key s.items)) [
    | inl lost ↦ ground (arith, lost)
    | inr (e, found) ↦ ground (arith, found)
  ]

  Run-keeps :
      (digest : Dict D → String) (s u : QueueState D) (key : String) (x : SyncEnvelope D)
      → Run digest s u
      → lookup key s.items ≡ some x
      → lookup key u.items ≡ some x
  Run-keeps digest s u key x here found = found
  Run-keeps digest s u key x (queues t _ now j device counter sequence kind payload run eq) found =
      rw eq (
        enqueue_keeps digest now j device counter sequence kind payload key x t
          (Run-keeps digest s t key x run found))
  Run-keeps digest s u key x (acknowledges t _ j run eq) found =
      rw (eq, acknowledge_keeps j t) (Run-keeps digest s t key x run found)

  -- While an envelope stands under a key, and whatever calls follow, a call of `enqueue` with that key that
  -- passes the guards writes nothing: it returns that envelope when the digest of its payload is the envelope's,
  -- and is refused when not.
  pub enqueue_again :
      (digest : Dict D → String) (now : ℕ) (key device counter : String) (sequence : ℤ)
      (kind : String) (payload : Dict D) (s u : QueueState D) (x : SyncEnvelope D)
      → lookup key s.items ≡ some x
      → Run digest s u
      → (is_empty key || is_empty device || is_empty counter) ≡ false
      → ltb_ℤ sequence (pos 0) ≡ false
      → enqueue digest now key device counter sequence kind payload u
        ≡ (if x.payload_hash == digest payload then ok x else err changed_payload, u)
  unfolding enqueue put_envelope
  enqueue_again digest now key device counter sequence kind payload s u x found run named fine =
      let still = Run-keeps digest s u key x run found in ground (arith, still, named, fine)
