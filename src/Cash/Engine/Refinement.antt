-- ===== src/Cash/Engine/Refinement.antt =====
-- Each method of src/cash/engine.py that changes the state makes one transition of the lifecycle.
use tagro_echo_os.Base.{
  ℕ, String, ◌||◌, Option, none, some, lookup, values, any, ◌≡◌, refl, ap, arith, inl, inr,
  Bool-cases, Option-cases, ok, err, ◌⊎◌, is_blank,
}
use tagro_echo_os.Money.Rounding.{money-money}
use tagro_echo_os.Money.{Decimal, money, zero_dec, lt_dec}
use tagro_echo_os.Cash.{
  must_be_draft, DailyClosing, CashEntry, CashState, Ambient, draft, submitted, approved,
  superseded, is_submitted, is_submitted_or_approved, closing_from, is_draft,
}
use tagro_echo_os.Cash.Engine.{
  open_day, add_entry, declare_closing, is_active_on, new_closing, get_closing, summary,
  put_closing, submit, approve, supersede, require_draft, check_entry, opening_or,
}
use tagro_echo_os.Cash.Engine.Lifecycle.{
  Transition, stays, opens, revises, replaces, submits, approves, retires, declares,
}

pub open_day-Transition :
    (v : Ambient) (e : String) (day : ℕ) (cash : Decimal) (actor note : String) (s : CashState)
    → lookup v.new_id s.closings ≡ none
    → Transition s.closings (open_day v e day cash actor note s).1.closings
unfolding open_day
open_day-Transition v e day cash actor note s fresh =
    elim (Bool-cases (is_blank e || is_blank actor)) [
      | inl blank ↦ rw blank (stays refl)
      | inr named ↦ rw named (elim (Bool-cases (lt_dec (money cash) zero_dec)) [
        | inl below ↦ rw below (stays refl)
        | inr above ↦ rw above (elim (Bool-cases (any (is_active_on e day) (values s.closings))) [
          | inl taken ↦ rw taken (stays refl)
          | inr free ↦ rw free (
              opens (new_closing v e day (money cash) actor none note)
                (record {
                  is_new = fresh;
                  starts = refl;
                  opening_rounded = money-money cash;
                  undeclared = refl;
                })
                free refl)
        ])
      ])
    ]

-- What the look-up of a draft closing gives: an error, or the row as it is read back.
require_draft_cases :
    (id : String) (s : CashState)
    → (require_draft id s ≡ (err must_be_draft, s))
      ⊎ ((row : DailyClosing) × (lookup id s.closings ≡ some row)
          × (row.status ≡ draft)
          × (require_draft id s ≡ (ok (closing_from row), s)))
unfolding require_draft get_closing
require_draft_cases id s = elim (Option-cases (lookup id s.closings)) [
  | inl missing ↦ inl (ground arith)
  | inr (row, found) ↦ elim (Bool-cases (is_draft row.status)) [
    | inl yes_draft ↦ inr (row, found, ground arith, ground arith)
    | inr not_draft ↦ inl (ground arith)
  ]
]

-- What the look-up of any closing gives.
get_closing_cases :
    (id : String) (s : CashState)
    → (get_closing id s ≡ none)
      ⊎ ((row : DailyClosing) × (lookup id s.closings ≡ some row)
          × (get_closing id s ≡ some (closing_from row)))
unfolding get_closing
get_closing_cases id s = elim (Option-cases (lookup id s.closings)) [
  | inl missing ↦ inl (ground arith)
  | inr (row, found) ↦ inr (row, found, ground arith)
]

-- A summary changes nothing.
pub state-summary : (id : String) (s : CashState) → (summary id s).1 ≡ s
unfolding summary
state-summary id s = ground arith

-- The guards of `add_entry` change nothing.
pub state-check_entry : (entry : CashEntry) (s : CashState) → (check_entry entry s).1 ≡ s
unfolding check_entry
state-check_entry entry s = ground arith

pub closings-add_entry :
    (digest : CashEntry → String) (v : Ambient) (entry : CashEntry) (s : CashState)
    → (add_entry digest v entry s).1.closings ≡ s.closings
unfolding add_entry
closings-add_entry digest v entry s = ground (arith, state-check_entry entry s)

pub add_entry-Transition :
    (digest : CashEntry → String) (v : Ambient) (entry : CashEntry) (s : CashState)
    → Transition s.closings (add_entry digest v entry s).1.closings
add_entry-Transition digest v entry s = stays (closings-add_entry digest v entry s)

pub declare_closing-Transition :
    (v : Ambient) (id : String) (cash : Decimal) (actor : String) (s : CashState)
    → Transition s.closings (declare_closing v id cash actor s).1.closings
unfolding declare_closing
declare_closing-Transition v id cash actor s = elim (require_draft_cases id s) [
  | inl refused ↦ stays (ground (arith, refused))
  | inr (row, found, starts, read) ↦ elim (Bool-cases (lt_dec (money cash) zero_dec)) [
    | inl below ↦ stays (ground (arith, read))
    | inr above ↦
        revises id row (record (closing_from row) { declared_closing_cash = some (money cash) })
          found
          (unfold closing_from in
            record {
              same_id = refl;
              same_enterprise = refl;
              same_date = refl;
              same_opening = refl;
              move = declares starts starts (ap some (money-money cash));
            })
          (ground (arith, read))
  ]
]

pub submit-Transition :
    (v : Ambient) (id actor : String) (s : CashState)
    → Transition s.closings (submit v id actor s).1.closings
unfolding submit
submit-Transition v id actor s = elim (require_draft_cases id s) [
  | inl refused ↦ stays (ground (arith, refused))
  | inr (row, found, starts, read) ↦ elim (Option-cases (closing_from row).declared_closing_cash) [
    | inl undeclared ↦ stays (ground (arith, read))
    | inr (amount, declared) ↦
        let new : DailyClosing = record (closing_from row) {
          status = submitted;
          submitted_by = some actor;
          submitted_at = some v.now;
        } in
        revises id row new found
          (unfold closing_from in
            record {
              same_id = refl;
              same_enterprise = refl;
              same_date = refl;
              same_opening = refl;
              move = submits starts refl (cc) refl;
            })
          (ground (arith, read, state-summary id (put_closing new s)))
  ]
]

pub approve-Transition :
    (v : Ambient) (id actor : String) (s : CashState)
    → Transition s.closings (approve v id actor s).1.closings
unfolding approve
approve-Transition v id actor s = elim (get_closing_cases id s) [
  | inl missing ↦ stays (ground (arith, missing))
  | inr (row, found, read) ↦ elim (Bool-cases (is_submitted row.status)) [
    | inr other ↦ stays (unfold closing_from in ground (arith, read))
    | inl ready ↦
        revises id row
          (record (closing_from row) {
            status = approved;
            approved_by = some actor;
            approved_at = some v.now;
          })
          found
          (unfold closing_from is_submitted in
            record {
              same_id = refl;
              same_enterprise = refl;
              same_date = refl;
              same_opening = refl;
              move = approves (ground arith) refl refl;
            })
          (unfold closing_from in ground (arith, read))
  ]
]

money-opening_or :
    (cash : Option Decimal) (old : DailyClosing) → money (opening_or cash old) ≡ opening_or cash old
unfolding opening_or
money-opening_or none old = money-money old.opening_cash
money-opening_or (some cash) old = money-money cash

pub supersede-Transition :
    (v : Ambient) (id actor : String) (cash : Option Decimal) (note : String) (s : CashState)
    → lookup v.new_id s.closings ≡ none
    → Transition s.closings (supersede v id actor cash note s).1.closings
unfolding supersede
supersede-Transition v id actor cash note s fresh = elim (get_closing_cases id s) [
  | inl missing ↦ stays (ground (arith, missing))
  | inr (row, found, read) ↦ elim (Bool-cases (is_submitted_or_approved row.status)) [
    | inr other ↦ stays (unfold closing_from in ground (arith, read))
    | inl ready ↦
        replaces id row (record (closing_from row) { status = superseded })
          (new_closing v row.enterprise_id row.business_date (opening_or cash (closing_from row))
            actor (some row.closing_id) note)
          found
          (unfold closing_from is_submitted_or_approved in
            record {
              same_id = refl;
              same_enterprise = refl;
              same_date = refl;
              same_opening = refl;
              move = retires ready refl refl;
            })
          refl
          (record {
            is_new = fresh;
            starts = refl;
            opening_rounded = money-opening_or cash (closing_from row);
            undeclared = refl;
          })
          refl refl (unfold closing_from in ground (arith, read))
  ]
]
