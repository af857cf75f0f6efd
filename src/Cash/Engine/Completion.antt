-- ===== src/Cash/Engine/Completion.antt =====
-- The calls of `class ClosingCashEngine` (src/cash/engine.py) that are left for a closing until it is
-- approved.
use tagro_echo_os.Base.{
  String, ◌⊎◌, true, false, some, lookup, Option, values, filter, map, ◌==◌, inl, inr, Option-cases,
  if◌then◌else◌, ◌≡◌, refl, ap, arith,
}
use mathlib.Core.Path.{subst}
use tagro_echo_os.Money.{Decimal, money, zero_dec, lt_dec}
use tagro_echo_os.Money.Rounding.{money-money}
use tagro_echo_os.Cash.{
  DailyClosing, CashEntry, CashState, Ambient, no_records, Status, draft, submitted, approved,
  superseded, entry_from, is_active, is_draft, is_submitted_or_approved,
}
use tagro_echo_os.Cash.Engine.{declare_closing, submit, approve, entries_of}
use tagro_echo_os.Cash.Engine.Advance.{
  Reaches, declares_draft, submits_declared, approves_submitted,
}
use tagro_echo_os.Cash.Engine.Validity.{IsValid, IsValid-empty}
use tagro_echo_os.Cash.Engine.History.{
  Run, here, next, declared, submitted_by, approved_by, Run-IsValid,
}

-- What the calls that are left lead to.
record Approvable (digest : CashEntry → String) (id : String) (amount : Option Decimal)
    (s : CashState) : Type 0 where
  final : CashState
  run : Run digest s final
  row : DailyClosing
  found : lookup id final.closings ≡ some row
  at_status : row.status ≡ approved
  has_amount : row.declared_closing_cash ≡ amount
  same_entries : entries_of id final ≡ entries_of id s

Reaches-Approvable :
    (digest : CashEntry → String) (id : String) (amount : Decimal) (s u : CashState)
    → Run digest s u
    → Reaches id approved amount s u
    → Approvable digest id (some amount) s
unfolding entries_of
Reaches-Approvable digest id amount s u run r = record {
  final = u;
  run = run;
  row = r.row;
  found = r.found;
  at_status = r.at_status;
  has_amount = r.has_amount;
  same_entries =
      ap (λ rows. map entry_from (filter (λ e. e.closing_id == id) (values rows))) r.same_entries;
}

module _ (digest : CashEntry → String) (v : Ambient) (actor id : String) (s : CashState)
    (row : DailyClosing) (found : lookup id s.closings ≡ some row) where
  draft-Approvable :
      (cash : Decimal)
      → row.closing_id ≡ id
      → row.status ≡ draft
      → lt_dec (money cash) zero_dec ≡ false
      → Approvable digest id (some (money cash)) s
  draft-Approvable cash keyed starts above =
      let amount = money cash in
      let t = (declare_closing v id cash actor s).1 in
      let u = (submit v id actor t).1 in
      let first = declares_draft v id actor cash s row found keyed starts above in
      let second = submits_declared v id actor amount s t (money-money cash) first in
      let third = approves_submitted v id actor amount s u (money-money cash) second in
      Reaches-Approvable digest id amount s (approve v id actor u).1
        (next (next (next here (declared v id cash actor refl)) (submitted_by v id actor refl))
          (approved_by v id actor refl))
        third

  submitted-Approvable :
      (amount : Decimal)
      → row.closing_id ≡ id
      → row.status ≡ submitted
      → row.declared_closing_cash ≡ some amount
      → money amount ≡ amount
      → Approvable digest id (some amount) s
  submitted-Approvable amount keyed ready has exact =
      Reaches-Approvable digest id amount s (approve v id actor s).1
        (next here (approved_by v id actor refl))
        (approves_submitted v id actor amount s s exact (record {
          row = row;
          found = found;
          keyed = keyed;
          at_status = ready;
          has_amount = has;
          same_entries = refl;
        }))

  approved-Approvable : row.status ≡ approved → Approvable digest id row.declared_closing_cash s
  approved-Approvable done = record {
    final = s;
    run = here;
    row = row;
    found = found;
    at_status = done;
    has_amount = refl;
    same_entries = refl;
  }

active_cases :
    (st : Status) → is_active st ≡ true → (st ≡ draft) ⊎ ((st ≡ submitted) ⊎ (st ≡ approved))
unfolding is_active
active_cases draft h = inl refl
active_cases submitted h = inr (inl refl)
active_cases approved h = inr (inr refl)
active_cases superseded h = cc

-- The amount that a closing has at the end: what is counted for a draft, else what is declared already.
abbrev pub final_amount : DailyClosing → Decimal → Option Decimal
final_amount row cash = if is_draft row.status then some (money cash) else row.declared_closing_cash

active-Approvable :
    (digest : CashEntry → String) (v : Ambient) (actor id : String) (cash : Decimal) (s : CashState)
    (row : DailyClosing)
    → IsValid s.closings
    → lookup id s.closings ≡ some row
    → is_active row.status ≡ true
    → lt_dec (money cash) zero_dec ≡ false
    → Approvable digest id (final_amount row cash) s
unfolding is_draft is_submitted_or_approved
active-Approvable digest v actor id cash s row valid found active above =
    let keyed = valid.keyed id row found in
    let goal = λ (o : Option Decimal). Approvable digest id o s in
    elim (active_cases row.status active) [
      | inl starts ↦
          subst goal (ground (arith, starts))
            (draft-Approvable digest v actor id s row found cash keyed starts above)
      | inr (inr done) ↦
          subst goal (ground (arith, done)) (approved-Approvable digest v actor id s row found done)
      | inr (inl ready) ↦ elim (Option-cases row.declared_closing_cash) [
        | inl nothing ↦ absurd (valid.settled id row found (ground (arith, ready)) nothing)
        | inr (amount, has) ↦
            let rounds = valid.declared_rounded id row found in
            let exact : money amount ≡ amount = ground (arith, rounds, has) in
            subst goal (ground (arith, ready, has))
              (submitted-Approvable digest v actor id s row found amount keyed ready has exact)
      ]
    ]

-- No closing is stuck: after any calls on an engine that began empty, whatever their order and their
-- arguments, further calls bring a closing that is draft, submitted or approved to the approved status,
-- for any count of the cash that does not round to less than nothing. Its declared amount is then the
-- rounded count where it was a draft, and the one it had where it was not; its entries are the same.
pub can_be_approved :
    (digest : CashEntry → String) (v : Ambient) (actor id : String) (cash : Decimal) (s : CashState)
    (row : DailyClosing)
    → Run digest no_records s
    → lookup id s.closings ≡ some row
    → is_active row.status ≡ true
    → lt_dec (money cash) zero_dec ≡ false
    → (u : CashState) × Run digest s u
      × (c : DailyClosing) × (lookup id u.closings ≡ some c)
      × (c.status ≡ approved)
      × (c.declared_closing_cash ≡ final_amount row cash)
      × (entries_of id u ≡ entries_of id s)
can_be_approved digest v actor id cash s row run found active above =
    let a =
      active-Approvable digest v actor id cash s row (Run-IsValid run IsValid-empty) found active
        above in
    (a.final, a.run, a.row, a.found, a.at_status, a.has_amount, a.same_entries)
