-- ===== src/Cash/Engine/Advance.antt =====
-- `declare_closing`, `submit` and `approve` of src/cash/engine.py, on a closing that is due for them.
use tagro_echo_os.Base.{
  String, true, false, some, lookup, insert, lookup-insert_self, Dict, ◌≡◌, refl, ◌∙◌, ap, arith,
  ok,
}
use mathlib.Core.Path.{subst}
use tagro_echo_os.Money.{Decimal, money, zero_dec, lt_dec}
use tagro_echo_os.Cash.{
  DailyClosing, CashState, Ambient, Status, draft, submitted, approved, is_draft, is_submitted,
  closing_from, rounded,
}
use tagro_echo_os.Cash.Engine.{
  declare_closing, submit, approve, require_draft, get_closing, put_closing,
}
use tagro_echo_os.Cash.Engine.Refinement.{state-summary}

read_draft :
    (id : String) (s : CashState) (row : DailyClosing)
    → lookup id s.closings ≡ some row
    → row.status ≡ draft
    → require_draft id s ≡ (ok (closing_from row), s)
unfolding require_draft get_closing is_draft closing_from
read_draft id s row found starts = ground (arith, found, starts)

read_back :
    (id : String) (s : CashState) (row : DailyClosing)
    → lookup id s.closings ≡ some row
    → get_closing id s ≡ some (closing_from row)
unfolding get_closing
read_back id s row found = ground (arith, found)

-- A state of the engine in which the closing has come to a status, the entries being the same.
pub record Reaches (id : String) (status : Status) (amount : Decimal) (s u : CashState)
    : Type 0 where
  pub row : DailyClosing
  pub found : lookup id u.closings ≡ some row
  pub keyed : row.closing_id ≡ id
  pub at_status : row.status ≡ status
  pub has_amount : row.declared_closing_cash ≡ some amount
  pub same_entries : u.entries ≡ s.entries

found_under :
    (id : String) (new : DailyClosing) (d : Dict DailyClosing)
    → new.closing_id ≡ id
    → lookup id (insert new.closing_id new d) ≡ some new
found_under id new d same =
    subst (λ k. lookup k (insert new.closing_id new d) ≡ some new) same
      (lookup-insert_self new.closing_id new d)

pub declares_draft :
    (v : Ambient) (id actor : String) (cash : Decimal) (s : CashState) (row : DailyClosing)
    → lookup id s.closings ≡ some row
    → row.closing_id ≡ id
    → row.status ≡ draft
    → lt_dec (money cash) zero_dec ≡ false
    → Reaches id draft (money cash) s (declare_closing v id cash actor s).1
unfolding declare_closing
declares_draft v id actor cash s row found keyed starts above =
    let new : DailyClosing = record (closing_from row) {
      declared_closing_cash = some (money cash);
    } in
    let read = read_draft id s row found starts in
    unfold closing_from in
    record {
      row = new;
      found = ground (arith, read, above, found_under id new s.closings keyed);
      keyed = keyed;
      at_status = starts;
      has_amount = refl;
      same_entries = ground (arith, read, above);
    }

pub submits_declared :
    (v : Ambient) (id actor : String) (amount : Decimal) (s t : CashState)
    → money amount ≡ amount
    → Reaches id draft amount s t
    → Reaches id submitted amount s (submit v id actor t).1
unfolding submit
submits_declared v id actor amount s t exact r =
    let new : DailyClosing = record (closing_from r.row) {
      status = submitted;
      submitted_by = some actor;
      submitted_at = some v.now;
    } in
    let read = read_draft id t r.row r.found r.at_status in
    let has : (closing_from r.row).declared_closing_cash ≡ some amount =
      unfold closing_from in ap rounded r.has_amount ∙ ap some exact in
    unfold closing_from in
    record {
      row = new;
      found = ground (
        arith,
        read,
        has,
        state-summary id (put_closing new t),
        found_under id new t.closings r.keyed,
      );
      keyed = r.keyed;
      at_status = refl;
      has_amount = has;
      same_entries =
          ground (arith, read, has, state-summary id (put_closing new t), r.same_entries);
    }

pub approves_submitted :
    (v : Ambient) (id actor : String) (amount : Decimal) (s t : CashState)
    → money amount ≡ amount
    → Reaches id submitted amount s t
    → Reaches id approved amount s (approve v id actor t).1
unfolding approve
approves_submitted v id actor amount s t exact r =
    let new : DailyClosing = record (closing_from r.row) {
      status = approved;
      approved_by = some actor;
      approved_at = some v.now;
    } in
    let read = read_back id t r.row r.found in
    let ready : is_submitted r.row.status ≡ true =
      unfold is_submitted in ground (arith, r.at_status) in
    unfold closing_from in
    record {
      row = new;
      found = ground (arith, read, ready, found_under id new t.closings r.keyed);
      keyed = r.keyed;
      at_status = refl;
      has_amount = ap rounded r.has_amount ∙ ap some exact;
      same_entries = ground (arith, read, ready, r.same_entries);
    }
