-- ===== src/Sync.antt =====
-- src/sync/envelopes.py: `class SyncQueue`. `D` stands for the values of a payload, and `digest` for
-- `canonical_hash`, the SHA-256 of its JSON text.
mod Queue
mod Examples
use tagro_echo_os.Base.{
  ℤ, pos, ltb_ℤ, ℕ, String, Bool, true, false, ◌||◌, not, Option, none, some, List, ◌∷◌, Dict,
  lookup, insert, any, ◌==◌, is_empty, Action, pure, gets, raise_if, modify, ◌>>=◌, ◌>>◌,
  if◌then◌else◌,
}

pub record SyncEnvelope (D : Type 0) : Type 0 where
  pub idempotency_key : String
  pub device_id : String
  pub counter_id : String
  pub sequence : ℤ
  pub payload_type : String
  pub payload : Dict D
  pub created_at : ℕ
  pub payload_hash : String

-- `_items` and `_acked`; the set is a list without repetitions.
pub record QueueState (D : Type 0) : Type 0 where
  pub items : Dict (SyncEnvelope D)
  pub acked : List String

pub data SyncError : Type 0 where
  fields_required negative_sequence changed_payload unknown_envelope : SyncError

abbrev pub Sync : Type 0 → Type 0 → Type 0
Sync D A = Action (QueueState D) SyncError A

-- `k in acked`
unfoldable pub is_acked : String → List String → Bool
unfolding any
is_acked k acked = any (λ x. x == k) acked

module _ {D : Type 0} where
  -- The end of `enqueue`: a replay, or a new envelope.
  unfoldable pub put_envelope : SyncEnvelope D → Option (SyncEnvelope D) → Sync D (SyncEnvelope D)
  unfolding insert
  put_envelope e (some old) = do
    raise_if (not (old.payload_hash == e.payload_hash)) changed_payload
    pure old
  put_envelope e none = do
    modify (λ s. record s { items = insert e.idempotency_key e s.items })
    pure e

  unfoldable pub enqueue :
      (Dict D → String)
      → ℕ
      → (key device counter : String) → ℤ
      → String
      → Dict D
      → Sync D (SyncEnvelope D)
  unfolding put_envelope lookup
  enqueue digest now key device counter sequence payload_type payload = do
    raise_if (is_empty key || is_empty device || is_empty counter) fields_required
    raise_if (ltb_ℤ sequence (pos 0)) negative_sequence
    old ← gets (λ s. lookup key s.items)
    put_envelope
        (record {
          idempotency_key = key;
          device_id = device;
          counter_id = counter;
          sequence = sequence;
          payload_type = payload_type;
          payload = payload;
          created_at = now;
          payload_hash = digest payload;
        })
        old

  unfoldable pub acknowledge : String → Sync D Unit
  unfolding lookup is_acked
  acknowledge key = do
    found ← gets (λ s. lookup key s.items)
    raise_if (elim found [ none ↦ true | some e ↦ false ]) unknown_envelope
    modify (λ s. record s { acked = if is_acked key s.acked then s.acked else key ∷ s.acked })

  -- `is_acknowledged`
  unfoldable pub is_acknowledged : String → QueueState D → Bool
  unfolding is_acked
  is_acknowledged key s = is_acked key s.acked
