-- ===== src/Cash/Engine/History.antt =====
-- Runs of the methods of `class ClosingCashEngine` (src/cash/engine.py), in any order, and what they
-- leave of a closing.
use tagro_echo_os.Base.{
  ℕ, ◌≤◌, String, true, false, Option, none, some, Dict, lookup, insert, lookup-insert, eq_iff, ◌≡◌,
  refl, sym, Bool-cases, ◌==◌, ◌∙◌, arith, inl, inr, ap,
}
use mathlib.Core.Path.{subst}
use tagro_echo_os.Money.{Decimal}
use tagro_echo_os.Cash.{
  DailyClosing, CashEntry, CashState, Ambient, no_records, Status, draft, submitted, approved,
  superseded, is_active, is_draft, is_submitted_or_approved, rounded,
}
use tagro_echo_os.Cash.Engine.{open_day, add_entry, declare_closing, submit, approve, supersede}
use tagro_echo_os.Cash.Engine.Lifecycle.{
  Moves, declares, submits, approves, retires, Revision, Transition, stays, opens, revises,
  replaces,
}
use tagro_echo_os.Cash.Engine.Refinement.{
  open_day-Transition, add_entry-Transition, declare_closing-Transition, submit-Transition,
  approve-Transition, supersede-Transition,
}
use tagro_echo_os.Cash.Engine.Validity.{IsValid, Transition-IsValid, IsValid-empty}

-- One call of a method that may write, successful or not. What `uuid4` gives for a closing is not in use;
-- the identifier of an entry is the caller's.
pub data Step (digest : CashEntry → String) (s u : CashState) : Type 0 where
  opened :
      (v : Ambient) (e : String) (day : ℕ) (cash : Decimal) (actor note : String)
      → lookup v.new_id s.closings ≡ none
      → u ≡ (open_day v e day cash actor note s).1
      → Step digest s u
  entered : (v : Ambient) (entry : CashEntry) → u ≡ (add_entry digest v entry s).1 → Step digest s u
  declared :
      (v : Ambient) (id : String) (cash : Decimal) (actor : String)
      → u ≡ (declare_closing v id cash actor s).1
      → Step digest s u
  submitted_by : (v : Ambient) (id actor : String) → u ≡ (submit v id actor s).1 → Step digest s u
  approved_by : (v : Ambient) (id actor : String) → u ≡ (approve v id actor s).1 → Step digest s u
  superseded_by :
      (v : Ambient) (id actor : String) (cash : Option Decimal) (note : String)
      → lookup v.new_id s.closings ≡ none
      → u ≡ (supersede v id actor cash note s).1
      → Step digest s u

pub data Run (digest : CashEntry → String) (s : CashState) : CashState → Type 0 where
  here : Run digest s s
  next : {t u : CashState} → Run digest s t → Step digest t u → Run digest s u

-- Every call refines the lifecycle.
pub Step-Transition :
    {digest : CashEntry → String} {s u : CashState}
    → Step digest s u
    → Transition s.closings u.closings
Step-Transition {s = s} (opened v e day cash actor note fresh eq) =
    rw eq (open_day-Transition v e day cash actor note s fresh)
Step-Transition {digest} {s} (entered v entry eq) = rw eq (add_entry-Transition digest v entry s)
Step-Transition {s = s} (declared v id cash actor eq) =
    rw eq (declare_closing-Transition v id cash actor s)
Step-Transition {s = s} (submitted_by v id actor eq) = rw eq (submit-Transition v id actor s)
Step-Transition {s = s} (approved_by v id actor eq) = rw eq (approve-Transition v id actor s)
Step-Transition {s = s} (superseded_by v id actor cash note fresh eq) =
    rw eq (supersede-Transition v id actor cash note s fresh)

pub Run-IsValid :
    {digest : CashEntry → String} {s u : CashState}
    → Run digest s u
    → IsValid s.closings
    → IsValid u.closings
Run-IsValid here v = v
Run-IsValid (next r st) v = Transition-IsValid (Step-Transition st) (Run-IsValid r v)

-- After any calls on an engine that began empty, whatever their order and their arguments, two
-- closings of one enterprise and date that are draft, submitted or approved are the same closing.
pub one_active_closing :
    (digest : CashEntry → String) (u : CashState) (j k : String) (a b : DailyClosing)
    → Run digest no_records u
    → lookup j u.closings ≡ some a
    → lookup k u.closings ≡ some b
    → is_active a.status ≡ true
    → is_active b.status ≡ true
    → a.enterprise_id ≡ b.enterprise_id
    → a.business_date ≡ b.business_date
    → j ≡ k
one_active_closing digest u j k a b r = (Run-IsValid r IsValid-empty).unique j k a b

-- draft < submitted < approved < superseded
abbrev pub rank : Status → ℕ
rank draft = 0
rank submitted = 1
rank approved = 2
rank superseded = 3

-- What a closing keeps: its identity and its opening cash; its status never goes back; and once it
-- is no draft, the declared amount too.
pub record Keeps (a b : DailyClosing) : Type 0 where
  pub same_id : b.closing_id ≡ a.closing_id
  pub same_enterprise : b.enterprise_id ≡ a.enterprise_id
  pub same_date : b.business_date ≡ a.business_date
  pub same_opening : b.opening_cash ≡ a.opening_cash
  pub forward : rank a.status ≤ rank b.status
  pub same_declared : is_draft a.status ≡ false → b.declared_closing_cash ≡ a.declared_closing_cash

Keeps-refl : (a : DailyClosing) → Keeps a a
Keeps-refl a = record {
  same_id = refl;
  same_enterprise = refl;
  same_date = refl;
  same_opening = refl;
  forward = omega arith;
  same_declared = λ _. refl;
}

pub draft_rank : (a b : Status) → is_draft a ≡ false → rank a ≤ rank b → is_draft b ≡ false
unfolding is_draft
draft_rank a b h r = ground arith

Keeps-trans : {a b c : DailyClosing} → Keeps a b → Keeps b c → Keeps a c
Keeps-trans {a} {b} {c} p q = record {
  same_id = q.same_id ∙ p.same_id;
  same_enterprise = q.same_enterprise ∙ p.same_enterprise;
  same_date = q.same_date ∙ p.same_date;
  same_opening = q.same_opening ∙ p.same_opening;
  forward = omega (arith, p.forward, q.forward);
  same_declared =
      λ h. q.same_declared (draft_rank a.status b.status h p.forward) ∙ p.same_declared h;
}

Moves-forward : {old new : DailyClosing} → Moves old new → rank old.status ≤ rank new.status
unfolding is_submitted_or_approved
Moves-forward (declares a b x) = ground arith
Moves-forward (submits a b x y) = ground arith
Moves-forward (approves a b x) = ground arith
Moves-forward (retires a b x) = ground arith

declared_kept :
    {old new : DailyClosing}
    → Moves old new
    → is_draft old.status ≡ false
    → new.declared_closing_cash ≡ rounded old.declared_closing_cash
unfolding is_draft
declared_kept (declares a b x) h = ground arith
declared_kept (submits a b x y) h = y
declared_kept (approves a b x) h = x
declared_kept (retires a b x) h = x

Revision-Keeps :
    (k : String) (old new : DailyClosing) (d : Dict DailyClosing)
    → IsValid d
    → lookup k d ≡ some old
    → Revision old new
    → Keeps old new
Revision-Keeps k old new d v found r = record {
  same_id = r.same_id;
  same_enterprise = r.same_enterprise;
  same_date = r.same_date;
  same_opening = r.same_opening ∙ v.opening_rounded k old found;
  forward = Moves-forward r.move;
  same_declared = λ h. declared_kept r.move h ∙ v.declared_rounded k old found;
}

-- The closing at a key, after a write under its own identifier of something that keeps it.
found_again :
    (k : String) (a new : DailyClosing) (d : Dict DailyClosing)
    → lookup k d ≡ some a
    → (new.closing_id ≡ k → Keeps a new)
    → (b : DailyClosing) × (lookup k (insert new.closing_id new d) ≡ some b) × Keeps a b
found_again k a new d found keeps = elim (Bool-cases (new.closing_id == k)) [
  | inl e ↦ (
    new,
    ground (arith, lookup-insert new.closing_id k new d),
    keeps ((eq_iff new.closing_id k).0 e),
  )
  | inr e ↦ (a, ground (arith, lookup-insert new.closing_id k new d), Keeps-refl a)
]

same_row :
    (j k : String) (a b : DailyClosing) (d : Dict DailyClosing)
    → lookup j d ≡ some a
    → lookup k d ≡ some b
    → j ≡ k
    → a ≡ b
same_row j k a b d p q e = cc

-- A revision that is written at the key of `a` is a revision of `a`.
kept_at :
    (k j : String) (a old new : DailyClosing) (d : Dict DailyClosing)
    → IsValid d
    → lookup k d ≡ some a
    → lookup j d ≡ some old
    → Revision old new
    → new.closing_id ≡ k
    → Keeps a new
kept_at k j a old new d v found was r same =
    let at_j : k ≡ j = sym same ∙ r.same_id ∙ v.keyed j old was in
    Revision-Keeps k a new d v found
      (subst (λ t. Revision t new) (same_row j k old a d was found (sym at_j)) r)

-- A transition leaves every closing in place, and keeps it.
Transition-Keeps :
    {d d' : Dict DailyClosing} (k : String) (a : DailyClosing)
    → Transition d d'
    → IsValid d
    → lookup k d ≡ some a
    → (b : DailyClosing) × (lookup k d' ≡ some b) × Keeps a b
Transition-Keeps k a (stays e) v found = (a, rw e found, Keeps-refl a)
Transition-Keeps {d} k a (opens c o free e) v found =
    rw e (found_again k a c d found (λ same. cc (o.is_new, ap (λ t. lookup t d) same)))
Transition-Keeps {d} k a (revises j old new was r e) v found =
    rw e (found_again k a new d found (λ same. kept_at k j a old new d v found was r same))
Transition-Keeps {d} k a (replaces j old retired c was r gone o same_e same_d e) v found =
    let (b, found_b, keeps_b) =
      found_again k a retired d found (λ same. kept_at k j a old retired d v found was r same) in
    let (z, found_z, keeps_z) =
      found_again k b c (insert retired.closing_id retired d) found_b
        (λ same. cc (o.is_new, found, ap (λ t. lookup t d) same)) in
    rw e (z, found_z, Keeps-trans keeps_b keeps_z)

-- Whatever calls follow (new closings having identifiers not in use), a closing stays in place: it keeps
-- its enterprise, its date and its opening cash, its status moves only forward through draft, submitted,
-- approved and superseded, and its declared amount does not change any more once it has left the draft status.
pub closing-Keeps :
    (digest : CashEntry → String) (s u : CashState) (k : String) (a : DailyClosing)
    → IsValid s.closings
    → Run digest s u
    → lookup k s.closings ≡ some a
    → (b : DailyClosing) × (lookup k u.closings ≡ some b) × Keeps a b
closing-Keeps digest s u k a v here found = (a, found, Keeps-refl a)
closing-Keeps digest s u k a v (next {t} r st) found =
    let (b, found_b, keeps_b) = closing-Keeps digest s t k a v r found in
    let (c, found_c, keeps_c) =
      Transition-Keeps k b (Step-Transition st) (Run-IsValid r v) found_b in
    (c, found_c, Keeps-trans keeps_b keeps_c)
