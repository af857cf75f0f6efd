-- ===== src/Cash/Engine/EntrySteps.antt =====
-- What each method of `class ClosingCashEngine` (src/cash/engine.py) does to the entries and the
-- idempotency keys.
use tagro_echo_os.Base.{
  outcome_cases, ℕ, String, Option, none, lookup, insert, ◌≡◌, arith, ok, err, inl, inr, ◌⊎◌,
  Option-cases,
}
use tagro_echo_os.Money.{Decimal}
use tagro_echo_os.Cash.{CashError, CashEntry, CashState, Ambient}
use tagro_echo_os.Cash.Engine.{
  open_day, add_entry, declare_closing, submit, approve, supersede, check_entry, require_draft,
  summary,
}
use tagro_echo_os.Cash.Engine.Refinement.{state-check_entry}
use tagro_echo_os.Cash.Engine.History.{
  Step, opened, entered, declared, submitted_by, approved_by, superseded_by, Run, here, next,
}

-- The calls other than `add_entry` leave the entries and the idempotency keys alone.
pub record SameEntries (s u : CashState) : Type 0 where
  pub entries : u.entries ≡ s.entries
  pub idempotency : u.idempotency ≡ s.idempotency

open_day-SameEntries :
    (v : Ambient) (e : String) (day : ℕ) (cash : Decimal) (actor note : String) (s : CashState)
    → SameEntries s (open_day v e day cash actor note s).1
unfolding open_day
open_day-SameEntries v e day cash actor note s = ground arith

declare_closing-SameEntries :
    (v : Ambient) (id : String) (cash : Decimal) (actor : String) (s : CashState)
    → SameEntries s (declare_closing v id cash actor s).1
unfolding declare_closing require_draft
declare_closing-SameEntries v id cash actor s = ground arith

submit-SameEntries :
    (v : Ambient) (id actor : String) (s : CashState) → SameEntries s (submit v id actor s).1
unfolding submit require_draft summary
submit-SameEntries v id actor s = ground arith

approve-SameEntries :
    (v : Ambient) (id actor : String) (s : CashState) → SameEntries s (approve v id actor s).1
unfolding approve
approve-SameEntries v id actor s = ground arith

supersede-SameEntries :
    (v : Ambient) (id actor : String) (cash : Option Decimal) (note : String) (s : CashState)
    → SameEntries s (supersede v id actor cash note s).1
unfolding supersede
supersede-SameEntries v id actor cash note s = ground arith

-- What a call does to the entries: nothing, or one write of an entry whose key and identifier are new
-- and which passes the guards.
pub data EntryStep (digest : CashEntry → String) (s u : CashState) : Type 0 where
  quiet : SameEntries s u → EntryStep digest s u
  writes :
      (e : CashEntry)
      → lookup e.idempotency_key s.idempotency ≡ none
      → lookup e.entry_id s.entries ≡ none
      → check_entry e s ≡ (ok tt, s)
      → u.entries ≡ insert e.entry_id e s.entries
      → u.idempotency
        ≡ insert e.idempotency_key
            (record { entry_id = e.entry_id; payload_hash = digest e })
            s.idempotency
      → EntryStep digest s u

pub check_entry_cases :
    (e : CashEntry) (s : CashState)
    → (check_entry e s ≡ (ok tt, s)) ⊎ ((x : CashError) × (check_entry e s ≡ (err x, s)))
check_entry_cases e s = elim (outcome_cases (check_entry e s) (state-check_entry e s)) [
  | inl (a, passes) ↦ inl passes
  | inr refused ↦ inr refused
]

pub add_entry-EntryStep :
    (digest : CashEntry → String) (v : Ambient) (e : CashEntry) (s : CashState)
    → (lookup e.idempotency_key s.idempotency ≡ none → lookup e.entry_id s.entries ≡ none)
    → EntryStep digest s (add_entry digest v e s).1
unfolding add_entry
add_entry-EntryStep digest v e s fresh = elim (check_entry_cases e s) [
  | inr (x, refused) ↦ quiet (ground (arith, refused))
  | inl passes ↦ elim (Option-cases (lookup e.idempotency_key s.idempotency)) [
    | inr (row, known) ↦ quiet (ground (arith, passes, known))
    | inl new ↦
        writes e new (fresh new) passes (ground (arith, passes, new)) (ground (arith, passes, new))
  ]
]

-- The identifier of an entry that is written, under an idempotency key that is new, is not in use.
unfoldable pub IsFresh : {digest : CashEntry → String} {s u : CashState} → Step digest s u → Type 0
IsFresh {s = s} (entered v entry eq) =
    lookup entry.idempotency_key s.idempotency ≡ none → lookup entry.entry_id s.entries ≡ none
IsFresh (opened v e day cash actor note fresh eq) = Unit
IsFresh (declared v id cash actor eq) = Unit
IsFresh (submitted_by v id actor eq) = Unit
IsFresh (approved_by v id actor eq) = Unit
IsFresh (superseded_by v id actor cash note fresh eq) = Unit

-- The calls of a run write no entry under an identifier that another entry has.
unfoldable pub WritesFresh :
    {digest : CashEntry → String} {s u : CashState} → Run digest s u → Type 0
unfolding IsFresh
WritesFresh here = Unit
WritesFresh (next r st) = WritesFresh r × IsFresh st

pub Step-EntryStep :
    {digest : CashEntry → String} {s u : CashState}
    → (st : Step digest s u) → IsFresh st
    → EntryStep digest s u
unfolding IsFresh
Step-EntryStep {s = s} (opened v e day cash actor note fresh eq) new =
    rw eq (quiet (open_day-SameEntries v e day cash actor note s))
Step-EntryStep {digest} {s} (entered v entry eq) new =
    rw eq (add_entry-EntryStep digest v entry s new)
Step-EntryStep {s = s} (declared v id cash actor eq) new =
    rw eq (quiet (declare_closing-SameEntries v id cash actor s))
Step-EntryStep {s = s} (submitted_by v id actor eq) new =
    rw eq (quiet (submit-SameEntries v id actor s))
Step-EntryStep {s = s} (approved_by v id actor eq) new =
    rw eq (quiet (approve-SameEntries v id actor s))
Step-EntryStep {s = s} (superseded_by v id actor cash note fresh eq) new =
    rw eq (quiet (supersede-SameEntries v id actor cash note s))
