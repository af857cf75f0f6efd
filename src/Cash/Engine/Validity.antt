-- ===== src/Cash/Engine/Validity.antt =====
-- The invariant of the closings, kept by every transition of the lifecycle and so by every run of
-- `class ClosingCashEngine` of src/cash/engine.py.
use tagro_echo_os.Base.{
  String, true, false, Option, none, some, Dict, lookup, insert, lookup-insert, values, any,
  any-values-false, eq_iff, ◌≡◌, ◌≢◌, refl, sym, ap, ◌∙◌, arith, [], ◌⊎◌,
}
use tagro_echo_os.Money.{Decimal, money}
use tagro_echo_os.Money.Rounding.{money-money}
use tagro_echo_os.Cash.{DailyClosing, superseded, is_active, is_submitted_or_approved, rounded}
use tagro_echo_os.Cash.Engine.{is_active_on}
use tagro_echo_os.Cash.Engine.Lifecycle.{
  Moves, declares, submits, approves, retires, Revision, Opening, Transition, stays, opens, revises,
  replaces,
}

-- Every closing stands under its own identifier; no two active closings share an enterprise and a
-- date; a submitted or approved closing has a declared amount; amounts
-- are rounded.
pub record IsValid (d : Dict DailyClosing) : Type 0 where
  pub keyed : (k : String) (c : DailyClosing) → lookup k d ≡ some c → c.closing_id ≡ k
  pub unique :
      (j k : String) (a b : DailyClosing)
      → lookup j d ≡ some a
      → lookup k d ≡ some b
      → is_active a.status ≡ true
      → is_active b.status ≡ true
      → a.enterprise_id ≡ b.enterprise_id
      → a.business_date ≡ b.business_date
      → j ≡ k
  pub settled :
      (k : String) (c : DailyClosing)
      → lookup k d ≡ some c
      → is_submitted_or_approved c.status ≡ true
      → c.declared_closing_cash ≢ none
  pub opening_rounded :
      (k : String) (c : DailyClosing) → lookup k d ≡ some c → money c.opening_cash ≡ c.opening_cash
  pub declared_rounded :
      (k : String) (c : DailyClosing)
      → lookup k d ≡ some c
      → rounded c.declared_closing_cash ≡ c.declared_closing_cash

-- A closing may be written if it is settled and rounded, and alone on its day if it is active.
record Fits (c : DailyClosing) (d : Dict DailyClosing) : Type 0 where
  opening_rounded : money c.opening_cash ≡ c.opening_cash
  declared_rounded : rounded c.declared_closing_cash ≡ c.declared_closing_cash
  is_settled : is_submitted_or_approved c.status ≡ true → c.declared_closing_cash ≢ none
  alone :
      (k : String) (x : DailyClosing)
      → lookup k d ≡ some x
      → is_active x.status ≡ true
      → is_active c.status ≡ true
      → x.enterprise_id ≡ c.enterprise_id
      → x.business_date ≡ c.business_date
      → k ≡ c.closing_id

-- What is found after a write: the closing written, or what was there.
found-insert :
    (c x : DailyClosing) (k : String) (d : Dict DailyClosing)
    → lookup k (insert c.closing_id c d) ≡ some x
    → ((c.closing_id ≡ k) × (c ≡ x)) ⊎ (lookup k d ≡ some x)
found-insert c x k d h = ground (arith, lookup-insert c.closing_id k c d, eq_iff c.closing_id k)

insert-IsValid :
    (c : DailyClosing) (d : Dict DailyClosing)
    → IsValid d
    → Fits c d
    → IsValid (insert c.closing_id c d)
insert-IsValid c d v f = record {
  keyed = λ k x h. ground (arith, found-insert c x k d h, v.keyed k x);
  unique = λ j k a b hj hk aa ab e t. ground (
    arith,
    found-insert c a j d hj,
    found-insert c b k d hk,
    v.unique j k a b,
    f.alone j a,
    f.alone k b,
  );
  settled = λ k x h s. ground (arith, found-insert c x k d h, v.settled k x, f.is_settled);
  opening_rounded =
      λ k x h. ground (arith, found-insert c x k d h, v.opening_rounded k x, f.opening_rounded);
  declared_rounded =
      λ k x h. ground (arith, found-insert c x k d h, v.declared_rounded k x, f.declared_rounded);
}

Opening-Fits :
    (c : DailyClosing) (d : Dict DailyClosing)
    → Opening c d
    → any (is_active_on c.enterprise_id c.business_date) (values d) ≡ false
    → Fits c d
unfolding is_active_on is_submitted_or_approved
Opening-Fits c d o free = record {
  opening_rounded = o.opening_rounded;
  declared_rounded = rw o.undeclared;
  is_settled = λ s. ground (arith, o.starts);
  alone = λ k x h ax ac e t. ground (
    arith,
    any-values-false (is_active_on c.enterprise_id c.business_date) k x d free h,
    eq_iff x.enterprise_id c.enterprise_id,
  );
}

-- A revision of an active closing was active before.
active_before :
    {old new : DailyClosing}
    → Moves old new
    → is_active new.status ≡ true
    → is_active old.status ≡ true
unfolding is_active is_submitted_or_approved
active_before (declares a b x) h = ground arith
active_before (submits a b x y) h = ground arith
active_before (approves a b x) h = ground arith
active_before (retires a b x) h = ground arith

settled_after :
    {old new : DailyClosing}
    → Moves old new
    → (is_submitted_or_approved old.status ≡ true → old.declared_closing_cash ≢ none)
    → is_submitted_or_approved new.status ≡ true
    → new.declared_closing_cash ≢ none
unfolding is_submitted_or_approved
settled_after (declares a b x) h s = ground arith
settled_after (submits a b x y) h s = x
settled_after (approves a b x) h s = ground arith
settled_after (retires a b x) h s = ground arith

rounded-rounded : (o : Option Decimal) → rounded (rounded o) ≡ rounded o
rounded-rounded none = refl
rounded-rounded (some d) = ap some (money-money d)

declared_after :
    {old new : DailyClosing}
    → Moves old new
    → rounded new.declared_closing_cash ≡ new.declared_closing_cash
declared_after (declares a b x) = x
declared_after {old} (submits a b x y) = rw y (rounded-rounded old.declared_closing_cash)
declared_after {old} (approves a b x) = rw x (rounded-rounded old.declared_closing_cash)
declared_after {old} (retires a b x) = rw x (rounded-rounded old.declared_closing_cash)

Revision-Fits :
    (k : String) (old new : DailyClosing) (d : Dict DailyClosing)
    → IsValid d
    → lookup k d ≡ some old
    → Revision old new
    → Fits new d
Revision-Fits k old new d v found r = record {
  opening_rounded = rw r.same_opening (money-money old.opening_cash);
  declared_rounded = declared_after r.move;
  is_settled = settled_after r.move (v.settled k old found);
  alone = λ j x h ax an e t.
      v.unique j k x old h found ax (active_before r.move an) (e ∙ r.same_enterprise)
        (t ∙ r.same_date)
      ∙ sym (r.same_id ∙ v.keyed k old found);
}

-- Where an active closing has been retired, its day is free.
Replacement-Fits :
    (k : String) (old retired c : DailyClosing) (d : Dict DailyClosing)
    → IsValid d
    → lookup k d ≡ some old
    → Revision old retired
    → retired.status ≡ superseded
    → is_active old.status ≡ true
    → Opening c d
    → c.enterprise_id ≡ old.enterprise_id
    → c.business_date ≡ old.business_date
    → Fits c (insert retired.closing_id retired d)
unfolding is_active is_submitted_or_approved
Replacement-Fits k old retired c d v found r gone was o e t = record {
  opening_rounded = o.opening_rounded;
  declared_rounded = rw o.undeclared;
  is_settled = λ s. ground (arith, o.starts);
  alone = λ j x h ax ac ex tx. ground (
    arith,
    found-insert retired x j d h,
    lookup-insert retired.closing_id k retired d,
    lookup-insert retired.closing_id j retired d,
    eq_iff retired.closing_id k,
    eq_iff retired.closing_id j,
    r.same_id,
    v.keyed k old found,
    v.unique j k x old,
  );
}

-- What is retired was active.
retired_was_active :
    {old new : DailyClosing} → Moves old new → new.status ≡ superseded → is_active old.status ≡ true
unfolding is_active is_submitted_or_approved
retired_was_active (declares a b x) h = ground arith
retired_was_active (submits a b x y) h = ground arith
retired_was_active (approves a b x) h = ground arith
retired_was_active (retires a b x) h = ground arith

-- Every transition of the closings keeps the invariant.
pub Transition-IsValid : {d d' : Dict DailyClosing} → Transition d d' → IsValid d → IsValid d'
Transition-IsValid (stays e) v = rw e v
Transition-IsValid {d} (opens c o free e) v = rw e (insert-IsValid c d v (Opening-Fits c d o free))
Transition-IsValid {d} (revises k old new found r e) v =
    rw e (insert-IsValid new d v (Revision-Fits k old new d v found r))
Transition-IsValid {d} (replaces k old retired c found r gone o same_e same_d e) v = rw e (
    insert-IsValid c (insert retired.closing_id retired d)
      (insert-IsValid retired d v (Revision-Fits k old retired d v found r))
      (Replacement-Fits k old retired c d v found r gone (retired_was_active r.move gone) o same_e
        same_d))

pub IsValid-empty : IsValid []
unfolding lookup
IsValid-empty = record {
  keyed = λ k c h. cc;
  unique = λ j k a b h. cc;
  settled = λ k c h. cc;
  opening_rounded = λ k c h. cc;
  declared_rounded = λ k c h. cc;
}
