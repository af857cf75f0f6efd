-- ===== src/Cash/Engine.antt =====
-- src/cash/engine.py: the methods of `class ClosingCashEngine`, over the four collections.
pub mod Lifecycle
pub mod Refinement
pub mod Validity
pub mod History
pub mod Advance
pub mod Completion
pub mod EntrySteps
pub mod Entries
pub mod Summary
pub mod Posting
use tagro_echo_os.Base.{
  ◌>>=◌, ◌>>◌, ℕ, String, Bool, ◌||◌, ◌&&◌, not, Option, none, some, List, Dict, lookup, insert,
  values, any, filter, map, length, ◌==◌, is_blank, nat_eq, Action, pure, gets, or_raise, raise_if,
  modify,
}
use tagro_echo_os.Money.{Decimal, zero_dec, money, lt_dec, le_dec, plus, minus, sum_dec}
use tagro_echo_os.Cash.{
  CashError, identity_required, negative_opening, already_open, unsupported_type,
  amount_not_positive, actor_and_key_required, no_closing, mismatch, not_draft_entry,
  changed_replay, no_entry_row, negative_declared, declaration_required, must_be_draft,
  only_submitted, only_submitted_or_approved, CashEntry, draft, submitted, approved, superseded,
  DailyClosing, ClosingSummary, IdempotencyRow, AuditEvent, AuditRow, CashState, Ambient, is_active,
  is_draft, is_submitted, is_submitted_or_approved, closing_from, entry_from, is_valid_type, member,
  cash_affecting_in, cash_affecting_out, noncash_in_types, noncash_out_types,
}

abbrev pub Cash : Type 0 → Type 0
Cash A = Action CashState CashError A

-- `get_closing`
unfoldable pub get_closing : String → CashState → Option DailyClosing
unfolding closing_from lookup
get_closing id s = elim (lookup id s.closings) [ none ↦ none | some row ↦ some (closing_from row) ]

-- `_put_closing`
abbrev pub put_closing : DailyClosing → CashState → CashState
put_closing c s = record s { closings = insert c.closing_id c s.closings }

-- `_audit`
abbrev pub put_audit : Ambient → String → String → AuditEvent → CashState → CashState
put_audit v closing_id actor_id event s = record s {
  audit =
      insert v.audit_id
        (record {
          audit_id = v.audit_id;
          closing_id = closing_id;
          actor_id = actor_id;
          event = event;
          at = v.now;
        })
        s.audit;
}

-- The test of the loop of `open_day`: an active closing of this enterprise and date.
unfoldable pub is_active_on : String → ℕ → DailyClosing → Bool
unfolding is_active
is_active_on enterprise_id business_date row =
    row.enterprise_id == enterprise_id
    && nat_eq row.business_date business_date
    && is_active row.status

-- A `DailyClosing(…)` with the defaults of the class for what is not given.
abbrev pub new_closing :
    Ambient → String → ℕ → Decimal → String → Option String → String → DailyClosing
new_closing v enterprise_id business_date opening actor_id supersedes note = record {
  closing_id = v.new_id;
  enterprise_id = enterprise_id;
  business_date = business_date;
  opening_cash = opening;
  declared_closing_cash = none;
  status = draft;
  created_by = actor_id;
  created_at = v.now;
  submitted_by = none;
  submitted_at = none;
  approved_by = none;
  approved_at = none;
  supersedes_closing_id = supersedes;
  note = note;
}

unfoldable pub open_day : Ambient → String → ℕ → Decimal → String → String → Cash DailyClosing
unfolding is_active_on
open_day v enterprise_id business_date opening_cash actor_id note = do
  raise_if (is_blank enterprise_id || is_blank actor_id) identity_required
  let opening = money opening_cash
  raise_if (lt_dec opening zero_dec) negative_opening
  rows ← gets (λ s. values s.closings)
  raise_if (any (is_active_on enterprise_id business_date) rows) already_open
  let closing = new_closing v enterprise_id business_date opening actor_id none note
  modify (put_closing closing)
  modify (put_audit v closing.closing_id actor_id (AuditEvent.opened opening))
  pure closing

-- The branch of `add_entry` where the idempotency key is known.
unfoldable pub replay_entry : String → IdempotencyRow → Cash CashEntry
unfolding entry_from lookup
replay_entry payload_hash existing = do
  raise_if (not (existing.payload_hash == payload_hash)) changed_replay
  stored ← gets (λ s. lookup existing.entry_id s.entries)
  row ← or_raise stored no_entry_row
  pure (entry_from row)

-- The branch of `add_entry` that writes.
unfoldable pub write_entry : Ambient → String → CashEntry → Cash CashEntry
write_entry v payload_hash entry = do
  modify (λ s. record s { entries = insert entry.entry_id entry s.entries })
  modify (λ s. record s {
    idempotency =
        insert entry.idempotency_key
          (record { entry_id = entry.entry_id; payload_hash = payload_hash }) s.idempotency;
  })
  modify (
      put_audit v entry.closing_id entry.actor_id
        (AuditEvent.entry_added entry.entry_id entry.entry_type entry.amount))
  pure entry

unfoldable pub write_or_replay :
    Ambient → String → CashEntry → Option IdempotencyRow → Cash CashEntry
unfolding replay_entry write_entry
write_or_replay v payload_hash entry none = write_entry v payload_hash entry
write_or_replay v payload_hash entry (some existing) = replay_entry payload_hash existing

-- The guards of `add_entry`, in their order.
unfoldable pub check_entry : CashEntry → Cash Unit
unfolding is_draft
check_entry entry = do
  raise_if (not (is_valid_type entry.entry_type)) unsupported_type
  raise_if (le_dec entry.amount zero_dec) amount_not_positive
  raise_if (is_blank entry.actor_id || is_blank entry.idempotency_key) actor_and_key_required
  found ← gets (get_closing entry.closing_id)
  closing ← or_raise found no_closing
  raise_if
      (not (closing.enterprise_id == entry.enterprise_id)
        || not (nat_eq closing.business_date entry.business_date))
      mismatch
  raise_if (not (is_draft closing.status)) not_draft_entry

-- `digest` is the SHA-256 of the canonical JSON of an entry.
unfoldable pub add_entry : (CashEntry → String) → Ambient → CashEntry → Cash CashEntry
unfolding write_or_replay
add_entry digest v entry = do
  check_entry entry
  existing ← gets (λ s. lookup entry.idempotency_key s.idempotency)
  write_or_replay v (digest entry) entry existing

-- The optional keyword arguments of `new_entry`.
pub record EntryOptions : Type 0 where
  pub channel : String
  pub reference_type : Option String
  pub reference_id : Option String
  pub evidence_ref : Option String
  pub note : String
  pub metadata : Dict String

unfoldable pub new_entry :
    Ambient → String → String → Decimal → String → String → EntryOptions → Cash CashEntry
new_entry v closing_id entry_type amount actor_id idempotency_key o = do
  found ← gets (get_closing closing_id)
  closing ← or_raise found no_closing
  pure (record {
    entry_id = v.new_id;
    closing_id = closing_id;
    enterprise_id = closing.enterprise_id;
    business_date = closing.business_date;
    entry_type = entry_type;
    amount = money amount;
    actor_id = actor_id;
    occurred_at = v.now;
    idempotency_key = idempotency_key;
    channel = o.channel;
    reference_type = o.reference_type;
    reference_id = o.reference_id;
    evidence_ref = o.evidence_ref;
    note = o.note;
    metadata = o.metadata;
  })

-- `_require_draft`
unfoldable pub require_draft : String → Cash DailyClosing
unfolding is_draft
require_draft closing_id = do
  found ← gets (get_closing closing_id)
  closing ← or_raise found must_be_draft
  raise_if (not (is_draft closing.status)) must_be_draft
  pure closing

unfoldable pub declare_closing : Ambient → String → Decimal → String → Cash DailyClosing
declare_closing v closing_id declared_cash actor_id = do
  closing ← require_draft closing_id
  let amount = money declared_cash
  raise_if (lt_dec amount zero_dec) negative_declared
  let updated = record closing { declared_closing_cash = some amount }
  modify (put_closing updated)
  modify (put_audit v closing_id actor_id (AuditEvent.declared amount))
  pure updated

-- `entries`
unfoldable pub entries_of : String → CashState → List CashEntry
unfolding entry_from filter values
entries_of closing_id s =
    map entry_from (filter (λ r. r.closing_id == closing_id) (values s.entries))

-- `sum((e.amount for e in entries if e.entry_type in types), Decimal("0"))`
unfoldable pub total_of : List String → List CashEntry → Decimal
unfolding sum_dec filter member
total_of types es = sum_dec (map (λ e. e.amount) (filter (λ e. member e.entry_type types) es))

-- `summary`, from the closing and its entries.
unfoldable pub summarize : DailyClosing → List CashEntry → ClosingSummary
unfolding total_of
summarize closing es =
    let cash_in = total_of cash_affecting_in es in
    let cash_out = total_of cash_affecting_out es in
    let expected = money (minus (plus closing.opening_cash cash_in) cash_out) in
    record {
      closing_id = closing.closing_id;
      enterprise_id = closing.enterprise_id;
      business_date = closing.business_date;
      status = closing.status;
      opening_cash = money closing.opening_cash;
      cash_in = money cash_in;
      cash_out = money cash_out;
      noncash_in = money (total_of noncash_in_types es);
      noncash_out = money (total_of noncash_out_types es);
      expected_physical_cash = expected;
      declared_closing_cash = closing.declared_closing_cash;
      variance = elim closing.declared_closing_cash [
        | none ↦ none
        | some d ↦ some (money (minus d expected))
      ];
      entries_count = length es;
    }

unfoldable pub summary : String → Cash ClosingSummary
unfolding entries_of summarize
summary closing_id = do
  found ← gets (get_closing closing_id)
  closing ← or_raise found no_closing
  es ← gets (entries_of closing_id)
  pure (summarize closing es)

unfoldable pub submit : Ambient → String → String → Cash DailyClosing
submit v closing_id actor_id = do
  closing ← require_draft closing_id
  or_raise closing.declared_closing_cash declaration_required
  let updated = record closing {
    status = submitted;
    submitted_by = some actor_id;
    submitted_at = some v.now;
  }
  modify (put_closing updated)
  result ← summary closing_id
  modify (put_audit v closing_id actor_id (AuditEvent.submission result.variance))
  pure updated

unfoldable pub approve : Ambient → String → String → Cash DailyClosing
unfolding is_submitted
approve v closing_id actor_id = do
  found ← gets (get_closing closing_id)
  closing ← or_raise found only_submitted
  raise_if (not (is_submitted closing.status)) only_submitted
  let updated = record closing {
    status = approved;
    approved_by = some actor_id;
    approved_at = some v.now;
  }
  modify (put_closing updated)
  modify (put_audit v closing_id actor_id AuditEvent.approval)
  pure updated

-- `money(opening_cash if opening_cash is not None else old.opening_cash)`
unfoldable pub opening_or : Option Decimal → DailyClosing → Decimal
opening_or none old = money old.opening_cash
opening_or (some cash) old = money cash

unfoldable pub supersede : Ambient → String → String → Option Decimal → String → Cash DailyClosing
unfolding is_submitted_or_approved opening_or
supersede v closing_id actor_id opening_cash note = do
  found ← gets (get_closing closing_id)
  old ← or_raise found only_submitted_or_approved
  raise_if (not (is_submitted_or_approved old.status)) only_submitted_or_approved
  modify (put_closing (record old { status = superseded }))
  let new =
      new_closing v old.enterprise_id old.business_date (opening_or opening_cash old) actor_id
        (some old.closing_id) note
  modify (put_closing new)
  modify (put_audit v old.closing_id actor_id (AuditEvent.supersession new.closing_id))
  pure new

-- `audit`
unfoldable pub audit_of : String → CashState → List AuditRow
unfolding filter values
audit_of closing_id s = filter (λ r. r.closing_id == closing_id) (values s.audit)
