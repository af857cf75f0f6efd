-- ===== src/CounterOps/Transfers.antt =====
-- The transfers of src/counter_ops/operations.py: what holds of each.
use tagro_echo_os.Base.{
  ℕ, String, Bool, true, false, not, Option, none, some, [], Dict, lookup, insert, lookup-insert,
  ◌==◌, ◌≡◌, refl, sym, arith, inl, inr, Bool-cases,
}
use mathlib.Core.Path.{subst}
use tagro_echo_os.CounterOps.{
  Transfer, TransferStatus, OpsState, requested, dispatched, arrived, has_no_lines,
}
use tagro_echo_os.CounterOps.Calls.{Run, here, next, Moved, same, asks, sends, takes, Step-Moved}

unfoldable pub is_some : Option ℕ → Bool
is_some none = false
is_some (some n) = true

unfoldable pub was_only_requested : TransferStatus → Bool
was_only_requested requested = true
was_only_requested _ = false

unfoldable pub was_received : TransferStatus → Bool
was_received arrived = true
was_received _ = false

module _ {D : Type 0} where
  -- A transfer between two branches, with lines, that has the times of the steps it has passed and no others.
  pub record IsSound (t : Transfer D) : Type 0 where
    pub two_branches : (t.from_branch_id == t.to_branch_id) ≡ false
    pub has_lines : has_no_lines t.lines ≡ false
    pub sent : is_some t.dispatched_at ≡ not (was_only_requested t.status)
    pub taken : is_some t.received_at ≡ was_received t.status

  abbrev AllSound : Dict (Transfer D) → Type 0
  AllSound d = (k : String) (t : Transfer D) → lookup k d ≡ some t → IsSound t

  insert-AllSound :
      (d : Dict (Transfer D)) (k : String) (t : Transfer D)
      → AllSound d
      → IsSound t
      → AllSound (insert k t d)
  insert-AllSound d k t g good j x found = elim (Bool-cases (k == j)) [
    | inl this ↦
        let it : t ≡ x = ground (arith, found, lookup-insert k j t d) in subst IsSound it good
    | inr other ↦ g j x (ground (arith, found, lookup-insert k j t d))
  ]

  Moved-AllSound : (s u : Dict (Transfer D)) → Moved s u → AllSound s → AllSound u
  unfolding is_some was_only_requested was_received
  Moved-AllSound s u (same eq) g = rw eq g
  Moved-AllSound s u (asks id t st differs lines no_dispatch no_receipt eq) g = rw eq (
      insert-AllSound s id t g (record {
        two_branches = differs;
        has_lines = lines;
        sent = ground (arith, st, no_dispatch);
        taken = ground (arith, st, no_receipt);
      }))
  Moved-AllSound s u (sends id actor at t found st eq) g =
      let old = g id t found in
      rw eq (
        insert-AllSound s id
          (record t { status = dispatched; dispatched_by = actor; dispatched_at = some at }) g
          (record {
            two_branches = old.two_branches;
            has_lines = old.has_lines;
            sent = refl;
            taken = ground (arith, old.taken, st);
          }))
  Moved-AllSound s u (takes id actor at t found st eq) g =
      let old = g id t found in
      rw eq (
        insert-AllSound s id
          (record t { status = arrived; received_by = actor; received_at = some at }) g
          (record {
            two_branches = old.two_branches;
            has_lines = old.has_lines;
            sent = ground (arith, old.sent, st);
            taken = refl;
          }))

  Run-AllSound : (s u : OpsState D) → Run s u → AllSound s.transfers → AllSound u.transfers
  Run-AllSound s u here g = g
  Run-AllSound s u (next t _ run st) g =
      Moved-AllSound t.transfers u.transfers (Step-Moved st) (Run-AllSound s t run g)

  -- After any calls on a store without transfers, every transfer is between two different branches and has
  -- lines; it has a time of dispatch exactly when it was dispatched, and one of receipt exactly when it was
  -- received.
  pub transfers-IsSound :
      (s u : OpsState D) (k : String) (t : Transfer D)
      → s.transfers ≡ []
      → Run s u
      → lookup k u.transfers ≡ some t
      → IsSound t
  unfolding lookup
  transfers-IsSound s u k t none_yet run found =
      Run-AllSound s u run (subst AllSound (sym none_yet) (λ j x h. ground arith)) k t found
