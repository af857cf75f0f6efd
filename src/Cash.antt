-- ===== src/Cash.antt =====
-- src/cash/engine.py: the records of the closing-cash engine, its repository collections and the
-- conversions between rows and records.
pub mod Engine
mod Examples
use tagro_echo_os.Base.{
  ℕ, String, Bool, true, false, ◌||◌, Option, none, some, List, [], ◌∷◌, Dict, ◌==◌, any,
}
use tagro_echo_os.Money.{Decimal, money}

-- `class CashEngineError`, one constructor for each message that is raised; `no_entry_row` stands for
-- the TypeError of reading an entry row that is missing.
pub data CashError : Type 0 where
  identity_required negative_opening already_open : CashError
  unsupported_type amount_not_positive actor_and_key_required no_closing mismatch not_draft_entry :
      CashError
  changed_replay no_entry_row negative_declared declaration_required must_be_draft : CashError
  only_submitted only_submitted_or_approved : CashError

abbrev pub cash_affecting_in : List String
cash_affecting_in = "cash_sale" ∷ "cash_receipt" ∷ "service_cash_receipt" ∷ "other_cash_in" ∷ []

abbrev pub cash_affecting_out : List String
cash_affecting_out = "expense_cash" ∷ "deposit_cash" ∷ "transfer_cash_out" ∷ "allocation_cash" ∷ []

abbrev pub noncash_in_types : List String
noncash_in_types = "upi_receipt" ∷ "card_receipt" ∷ "bank_receipt" ∷ "service_noncash_receipt" ∷ []

abbrev pub noncash_out_types : List String
noncash_out_types = "expense_noncash" ∷ "bank_transfer_out" ∷ []

-- `x in {…}`
unfoldable pub member : String → List String → Bool
unfolding any
member x xs = any (λ y. y == x) xs

unfoldable pub is_valid_type : String → Bool
unfolding member
is_valid_type t =
    member t cash_affecting_in
    || member t cash_affecting_out
    || member t noncash_in_types
    || member t noncash_out_types

-- Dates are day numbers, and times are numbers of microseconds: they are only stored and compared.
pub record CashEntry : Type 0 where
  pub entry_id : String
  pub closing_id : String
  pub enterprise_id : String
  pub business_date : ℕ
  pub entry_type : String
  pub amount : Decimal
  pub actor_id : String
  pub occurred_at : ℕ
  pub idempotency_key : String
  pub channel : String
  pub reference_type : Option String
  pub reference_id : Option String
  pub evidence_ref : Option String
  pub note : String
  pub metadata : Dict String

-- The values of the field `status`.
pub data Status : Type 0 where
  draft submitted approved superseded : Status

pub record DailyClosing : Type 0 where
  pub closing_id : String
  pub enterprise_id : String
  pub business_date : ℕ
  pub opening_cash : Decimal
  pub declared_closing_cash : Option Decimal
  pub status : Status
  pub created_by : String
  pub created_at : ℕ
  pub submitted_by : Option String
  pub submitted_at : Option ℕ
  pub approved_by : Option String
  pub approved_at : Option ℕ
  pub supersedes_closing_id : Option String
  pub note : String

pub record ClosingSummary : Type 0 where
  pub closing_id : String
  pub enterprise_id : String
  pub business_date : ℕ
  pub status : Status
  pub opening_cash : Decimal
  pub cash_in : Decimal
  pub cash_out : Decimal
  pub noncash_in : Decimal
  pub noncash_out : Decimal
  pub expected_physical_cash : Decimal
  pub declared_closing_cash : Option Decimal
  pub variance : Option Decimal
  pub entries_count : ℕ

pub record IdempotencyRow : Type 0 where
  pub entry_id : String
  pub payload_hash : String

-- The events of the audit trail, with their details.
pub data AuditEvent : Type 0 where
  opened : Decimal → AuditEvent
  entry_added : String → String → Decimal → AuditEvent
  declared : Decimal → AuditEvent
  submission : Option Decimal → AuditEvent
  approval : AuditEvent
  supersession : String → AuditEvent

pub record AuditRow : Type 0 where
  pub audit_id : String
  pub closing_id : String
  pub actor_id : String
  pub event : AuditEvent
  pub at : ℕ

-- The four collections of the engine in its repository.
pub record CashState : Type 0 where
  pub closings : Dict DailyClosing
  pub entries : Dict CashEntry
  pub idempotency : Dict IdempotencyRow
  pub audit : Dict AuditRow

abbrev pub no_records : CashState
no_records = record { closings = []; entries = []; idempotency = []; audit = [] }

-- What a call takes from outside: the identifiers that `uuid4` gives, and the time.
pub record Ambient : Type 0 where
  pub new_id : String
  pub audit_id : String
  pub now : ℕ

-- `row.get("status") in {"draft", "submitted", "approved"}`
unfoldable pub is_active : Status → Bool
is_active draft = true
is_active submitted = true
is_active approved = true
is_active superseded = false

unfoldable pub is_draft : Status → Bool
is_draft draft = true
is_draft _ = false

unfoldable pub is_submitted : Status → Bool
is_submitted submitted = true
is_submitted _ = false

unfoldable pub is_submitted_or_approved : Status → Bool
is_submitted_or_approved submitted = true
is_submitted_or_approved approved = true
is_submitted_or_approved _ = false

-- `money(x) if x is not None else None`
abbrev pub rounded : Option Decimal → Option Decimal
rounded none = none
rounded (some d) = some (money d)

-- `_closing_from`: amounts are rounded as they are read.
unfoldable pub closing_from : DailyClosing → DailyClosing
closing_from row = record row {
  opening_cash = money row.opening_cash;
  declared_closing_cash = rounded row.declared_closing_cash;
}

-- `_entry_from`
unfoldable pub entry_from : CashEntry → CashEntry
entry_from row = record row { amount = money row.amount }
