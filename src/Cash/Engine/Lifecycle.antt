-- ===== src/Cash/Engine/Lifecycle.antt =====
-- The life of a closing, as an abstract transition system over the closings alone: what
-- `class ClosingCashEngine` of src/cash/engine.py promises of each method.
use tagro_echo_os.Base.{
  String, true, false, none, some, Dict, lookup, insert, values, any, ◌≡◌, ◌≢◌,
}
use tagro_echo_os.Money.{money}
use tagro_echo_os.Cash.{
  rounded, DailyClosing, draft, submitted, approved, superseded, is_submitted_or_approved,
}
use tagro_echo_os.Cash.Engine.{is_active_on}

-- What may become of one closing.
pub data Moves (old new : DailyClosing) : Type 0 where
  declares :
      old.status ≡ draft
      → new.status ≡ draft
      → rounded new.declared_closing_cash ≡ new.declared_closing_cash
      → Moves old new
  submits :
      old.status ≡ draft
      → new.status ≡ submitted
      → new.declared_closing_cash ≢ none
      → new.declared_closing_cash ≡ rounded old.declared_closing_cash
      → Moves old new
  approves :
      old.status ≡ submitted
      → new.status ≡ approved
      → new.declared_closing_cash ≡ rounded old.declared_closing_cash
      → Moves old new
  retires :
      is_submitted_or_approved old.status ≡ true
      → new.status ≡ superseded
      → new.declared_closing_cash ≡ rounded old.declared_closing_cash
      → Moves old new

-- A closing is revised under its own identity, and its opening cash stays what it was.
pub record Revision (old new : DailyClosing) : Type 0 where
  pub same_id : new.closing_id ≡ old.closing_id
  pub same_enterprise : new.enterprise_id ≡ old.enterprise_id
  pub same_date : new.business_date ≡ old.business_date
  pub same_opening : new.opening_cash ≡ money old.opening_cash
  pub move : Moves old new

-- A new closing starts as a draft with nothing declared, under an identifier not in use.
pub record Opening (c : DailyClosing) (d : Dict DailyClosing) : Type 0 where
  pub is_new : lookup c.closing_id d ≡ none
  pub starts : c.status ≡ draft
  pub opening_rounded : money c.opening_cash ≡ c.opening_cash
  pub undeclared : c.declared_closing_cash ≡ none

-- One transition of the closings.
pub data Transition (d d' : Dict DailyClosing) : Type 0 where
  stays : d' ≡ d → Transition d d'
  opens :
      (c : DailyClosing)
      → Opening c d
      → any (is_active_on c.enterprise_id c.business_date) (values d) ≡ false
      → d' ≡ insert c.closing_id c d
      → Transition d d'
  revises :
      (k : String) (old new : DailyClosing)
      → lookup k d ≡ some old
      → Revision old new
      → d' ≡ insert new.closing_id new d
      → Transition d d'
  replaces :
      (k : String) (old retired c : DailyClosing)
      → lookup k d ≡ some old
      → Revision old retired
      → retired.status ≡ superseded
      → Opening c d
      → c.enterprise_id ≡ old.enterprise_id
      → c.business_date ≡ old.business_date
      → d' ≡ insert c.closing_id c (insert retired.closing_id retired d)
      → Transition d d'
