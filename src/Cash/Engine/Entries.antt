-- ===== src/Cash/Engine/Entries.antt =====
-- `add_entry` of src/cash/engine.py: idempotent replay, and the entries of a closing that is no draft.
use tagro_echo_os.Base.{
  String, none, some, lookup, lookup-insert, lookup-insert_self, eq_iff, eq_refl, ◌≡◌, ◌≢◌, sym, ap,
  ◌∙◌, arith, ok, err, inl, inr, Option-cases,
}
use tagro_echo_os.Money.{Decimal, money}
use tagro_echo_os.Cash.{
  DailyClosing, CashEntry, CashState, Ambient, IdempotencyRow, changed_replay, entry_from,
}
use tagro_echo_os.Cash.Engine.{add_entry, check_entry, new_entry, EntryOptions, get_closing}
use tagro_echo_os.Cash.Engine.Refinement.{state-check_entry, closings-add_entry}
use tagro_echo_os.Cash.Engine.EntrySteps.{
  EntryStep, quiet, writes, Step-EntryStep, WritesFresh, check_entry_cases,
}
use tagro_echo_os.Cash.Engine.History.{Run, here, next}

-- The engine holds the entry, and its idempotency key with its digest.
pub record Recorded (digest : CashEntry → String) (e : CashEntry) (s : CashState) : Type 0 where
  pub key :
      lookup e.idempotency_key s.idempotency
      ≡ some (record { entry_id = e.entry_id; payload_hash = digest e })
  pub row : lookup e.entry_id s.entries ≡ some e

-- A call with an entry that the engine holds writes nothing, and returns the entry as it is read back.
pub add_entry_replay :
    (digest : CashEntry → String) (v : Ambient) (e : CashEntry) (s : CashState)
    → Recorded digest e s
    → check_entry e s ≡ (ok tt, s)
    → add_entry digest v e s ≡ (ok (entry_from e), s)
unfolding add_entry
add_entry_replay digest v e s r passes = ground (arith, eq_refl (digest e))

-- A call whose key the engine holds with another digest is refused, and writes nothing.
pub add_entry_changed :
    (digest : CashEntry → String) (v : Ambient) (e : CashEntry) (s : CashState)
    (row : IdempotencyRow)
    → lookup e.idempotency_key s.idempotency ≡ some row
    → row.payload_hash ≢ digest e
    → check_entry e s ≡ (ok tt, s)
    → add_entry digest v e s ≡ (err changed_replay, s)
unfolding add_entry
add_entry_changed digest v e s row known other passes =
    ground (arith, eq_iff row.payload_hash (digest e))

-- A successful first call leaves the entry recorded, and returns it as it was given.
pub add_entry-Recorded :
    (digest : CashEntry → String) (v : Ambient) (e r : CashEntry) (s : CashState)
    → lookup e.idempotency_key s.idempotency ≡ none
    → (add_entry digest v e s).0 ≡ ok r
    → Recorded digest e (add_entry digest v e s).1
unfolding add_entry
add_entry-Recorded digest v e r s first done = record {
  key = ground (
    arith,
    state-check_entry e s,
    lookup-insert_self e.idempotency_key (record { entry_id = e.entry_id; payload_hash = digest e })
        s.idempotency,
  );
  row = ground (arith, state-check_entry e s, lookup-insert_self e.entry_id e s.entries);
}

-- What the engine holds it keeps.
Step-Recorded :
    {digest : CashEntry → String} (e : CashEntry) {s u : CashState}
    → EntryStep digest s u
    → Recorded digest e s
    → Recorded digest e u
Step-Recorded e (quiet same) r = record {
  key = ground (arith, same.idempotency, r.key);
  row = ground (arith, same.entries, r.row);
}
Step-Recorded {digest} e {s} {u} (writes e' new_key new_row passes es is) r = record {
  key = ground (
    arith,
    lookup-insert e'.idempotency_key e.idempotency_key
        (record { entry_id = e'.entry_id; payload_hash = digest e' }) s.idempotency,
    eq_iff e'.idempotency_key e.idempotency_key,
  );
  row =
      ground
        (arith, lookup-insert e'.entry_id e.entry_id e' s.entries, eq_iff e'.entry_id e.entry_id);
}

Run-Recorded :
    {digest : CashEntry → String} (e : CashEntry) {s u : CashState}
    → (run : Run digest s u) → WritesFresh run
    → Recorded digest e s
    → Recorded digest e u
unfolding WritesFresh
Run-Recorded e here new r = r
Run-Recorded e (next run st) (before, new) r =
    Step-Recorded e (Step-EntryStep st new) (Run-Recorded e run before r)

-- After a first successful call with an entry, and any calls after it that write no entry under the
-- identifier of another entry (new closings having identifiers not in use), a further call with the same
-- entry that passes the guards writes nothing and returns the entry as it is read back.
pub replay_any_time :
    (digest : CashEntry → String) (v w : Ambient) (e r : CashEntry) (s u : CashState)
    → lookup e.idempotency_key s.idempotency ≡ none
    → (add_entry digest v e s).0 ≡ ok r
    → (run : Run digest (add_entry digest v e s).1 u) → WritesFresh run
    → check_entry e u ≡ (ok tt, u)
    → add_entry digest w e u ≡ (ok (entry_from e), u)
replay_any_time digest v w e r s u first done run new passes =
    add_entry_replay digest w e u
      (Run-Recorded e run new (add_entry-Recorded digest v e r s first done)) passes

-- What the guards of `add_entry` read of an entry.
record SameGuards (e e' : CashEntry) : Type 0 where
  closing : e'.closing_id ≡ e.closing_id
  enterprise : e'.enterprise_id ≡ e.enterprise_id
  date : e'.business_date ≡ e.business_date
  kind : e'.entry_type ≡ e.entry_type
  amount : e'.amount ≡ e.amount
  actor : e'.actor_id ≡ e.actor_id
  key : e'.idempotency_key ≡ e.idempotency_key

check_entry-SameGuards :
    (e e' : CashEntry) (s u : CashState)
    → SameGuards e e'
    → get_closing e.closing_id u ≡ get_closing e.closing_id s
    → check_entry e s ≡ (ok tt, s)
    → check_entry e' u ≡ (ok tt, u)
unfolding check_entry
check_entry-SameGuards e e' s u g same passes = ground arith

get_closing-SameGuards :
    (id : String) (s u : CashState) → u.closings ≡ s.closings → get_closing id u ≡ get_closing id s
unfolding get_closing
get_closing-SameGuards id s u same = ground arith

add_entry_passes :
    (digest : CashEntry → String) (v : Ambient) (e r : CashEntry) (s : CashState)
    → (add_entry digest v e s).0 ≡ ok r
    → check_entry e s ≡ (ok tt, s)
unfolding add_entry
add_entry_passes digest v e r s done = elim (check_entry_cases e s) [
  | inl passes ↦ passes
  | inr (x, refused) ↦ ground (arith, refused)
]

-- What `new_entry` takes from its arguments.
record BuiltFrom (v : Ambient) (id kind : String) (amount : Decimal) (actor key : String)
    (c : DailyClosing) (e : CashEntry) : Type 0 where
  row : e.entry_id ≡ v.new_id
  closing : e.closing_id ≡ id
  enterprise : e.enterprise_id ≡ c.enterprise_id
  date : e.business_date ≡ c.business_date
  kind_same : e.entry_type ≡ kind
  amount_rounded : e.amount ≡ money amount
  actor_same : e.actor_id ≡ actor
  key_same : e.idempotency_key ≡ key

new_entry-BuiltFrom :
    (v : Ambient) (id kind : String) (amount : Decimal) (actor key : String) (o : EntryOptions)
    (c : DailyClosing) (e : CashEntry) (s : CashState)
    → get_closing id s ≡ some c
    → (new_entry v id kind amount actor key o s).0 ≡ ok e
    → BuiltFrom v id kind amount actor key c e
unfolding new_entry
new_entry-BuiltFrom v id kind amount actor key o c e s found built = ground arith

-- A retry through `new_entry` is no replay: the entry it builds has a new identifier, so where the
-- digest tells identifiers apart the second call is refused, though all arguments are the same.
pub retry_refused :
    (digest : CashEntry → String) (v w : Ambient) (id kind : String) (amount : Decimal)
    (actor key : String) (o : EntryOptions) (e e' r : CashEntry) (s : CashState)
    → (digest e ≡ digest e' → e.entry_id ≡ e'.entry_id)
    → v.new_id ≢ w.new_id
    → (new_entry v id kind amount actor key o s).0 ≡ ok e
    → lookup key s.idempotency ≡ none
    → (add_entry digest v e s).0 ≡ ok r
    → (new_entry w id kind amount actor key o (add_entry digest v e s).1).0 ≡ ok e'
    → (add_entry digest w e' (add_entry digest v e s).1).0 ≡ err changed_replay
retry_refused digest v w id kind amount actor key o e e' r s apart ids built first done built' =
    elim (Option-cases (get_closing id s)) [
      | inl missing ↦ unfold new_entry in ground (arith, missing)
      | inr (c, found) ↦
          let u : CashState = (add_entry digest v e s).1 in
          let same : get_closing id u ≡ get_closing id s =
            get_closing-SameGuards id s u (closings-add_entry digest v e s) in
          let b : BuiltFrom v id kind amount actor key c e =
            new_entry-BuiltFrom v id kind amount actor key o c e s found built in
          let b' : BuiltFrom w id kind amount actor key c e' =
            new_entry-BuiltFrom w id kind amount actor key o c e' u (same ∙ found) built' in
          let g : SameGuards e e' = ground (arith, b, b') in
          let passes : check_entry e' u ≡ (ok tt, u) =
            check_entry-SameGuards e e' s u g
              (get_closing-SameGuards e.closing_id s u (closings-add_entry digest v e s))
              (add_entry_passes digest v e r s done) in
          let rec : Recorded digest e u =
            add_entry-Recorded digest v e r s (ap (λ t. lookup t s.idempotency) b.key_same ∙ first)
              done in
          ap (λ p. p.0)
            (add_entry_changed digest w e' u
              (record { entry_id = e.entry_id; payload_hash = digest e })
              (ap (λ t. lookup t u.idempotency) g.key ∙ rec.key)
              (λ h. ids (sym b.row ∙ apart h ∙ b'.row)) passes)
    ]
