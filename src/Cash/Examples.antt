-- ===== src/Cash/Examples.antt =====
-- A day of the closing-cash engine (src/cash/engine.py), after tests/test_closing_cash_engine.py: opened
-- with 1000, a cash sale of 500, declared at 1490, submitted and approved.
use tagro_echo_os.Base.{
  pos, negsuc, ◌+ℤ◌, String, none, some, [], ◌∷◌, lookup, insert, values, ◌≡◌, refl, ap, arith, ok,
  err, eq_iff, is_blank, scale, any, filter, ◌-ℤ◌,
}
use tagro_echo_os.Money.{integer, hundredths, money, cents, lt_dec, le_dec, plus, minus, sum_dec}
use tagro_echo_os.Cash.{
  DailyClosing, CashEntry, CashState, ClosingSummary, Ambient, no_records, submitted, approved,
  changed_replay, entry_from, is_valid_type,
}
use tagro_echo_os.Cash.Engine.{
  open_day, add_entry, declare_closing, submit, approve, summary, check_entry, new_entry,
  new_closing, EntryOptions, entries_of, require_draft, get_closing,
}
use tagro_echo_os.Cash.Engine.Validity.{IsValid, IsValid-empty}
use tagro_echo_os.Cash.Engine.History.{
  opened, entered, declared, submitted_by, approved_by, Run, here, next, Keeps, one_active_closing,
  closing-Keeps, Run-IsValid,
}
use tagro_echo_os.Cash.Engine.Completion.{final_amount, can_be_approved}
use tagro_echo_os.Cash.Engine.EntrySteps.{IsFresh, WritesFresh}
use tagro_echo_os.Cash.Engine.Entries.{replay_any_time, retry_refused}
use tagro_echo_os.Cash.Engine.Summary.{Figures, summary-Figures}
use tagro_echo_os.Cash.Engine.Posting.{effect, add_entry_moves_summary, books_shut}

abbrev by_id : CashEntry → String
by_id e = e.entry_id

abbrev at_open : Ambient
at_open = record { new_id = "close-1"; audit_id = "audit-1"; now = 1 }

abbrev at_sale : Ambient
at_sale = record { new_id = "cash-1"; audit_id = "audit-2"; now = 2 }

abbrev at_retry : Ambient
at_retry = record { new_id = "cash-2"; audit_id = "audit-3"; now = 3 }

abbrev at_declare : Ambient
at_declare = record { new_id = "none"; audit_id = "audit-4"; now = 4 }

abbrev at_submit : Ambient
at_submit = record { new_id = "none"; audit_id = "audit-5"; now = 5 }

abbrev options : EntryOptions
options = record {
  channel = "cash";
  reference_type = none;
  reference_id = none;
  evidence_ref = none;
  note = "";
  metadata = [];
}

abbrev sale : CashEntry
sale = record {
  entry_id = "cash-1";
  closing_id = "close-1";
  enterprise_id = "ent-kvr";
  business_date = 20;
  entry_type = "cash_sale";
  amount = hundredths (pos 50000);
  actor_id = "staff-1";
  occurred_at = 2;
  idempotency_key = "a";
  channel = "cash";
  reference_type = none;
  reference_id = none;
  evidence_ref = none;
  note = "";
  metadata = [];
}

day : CashState
unfolding open_day is_blank lt_dec scale money any values lookup insert summary require_draft
    get_closing check_entry le_dec is_valid_type ◌+ℤ◌ ◌-ℤ◌ plus minus sum_dec filter
day = (open_day at_open "ent-kvr" 20 (integer (pos 1000)) "owner-1" "" no_records).1

sold : CashState
unfolding day add_entry
sold = (add_entry by_id at_sale sale day).1

counted : CashState
unfolding sold declare_closing
counted = (declare_closing at_declare "close-1" (integer (pos 1490)) "owner-1" sold).1

closed : CashState
unfolding counted submit
closed = (submit at_submit "close-1" "owner-1" counted).1

day-Run : Run by_id no_records day
unfolding day
day-Run = next here (opened at_open "ent-kvr" 20 (integer (pos 1000)) "owner-1" "" refl refl)

sold-Run : Run by_id day sold
unfolding sold
sold-Run = next here (entered at_sale sale refl)

abbrev counted-Run : Run by_id sold counted
unfolding counted
counted-Run = next here (declared at_declare "close-1" (integer (pos 1490)) "owner-1" refl)

closed-Run : Run by_id day closed
unfolding closed
closed-Run =
    next
      (next (next here (entered at_sale sale refl))
        (declared at_declare "close-1" (integer (pos 1490)) "owner-1" refl))
      (submitted_by at_submit "close-1" "owner-1" refl)

day-IsValid : IsValid day.closings
day-IsValid = Run-IsValid day-Run IsValid-empty

-- The closing of the day as it is first stored.
abbrev first_row : DailyClosing
first_row = new_closing at_open "ent-kvr" 20 (hundredths (pos 100000)) "owner-1" none ""

-- The summary after the submission: 1500 expected, 10 missing.
closed_figures :
    (s : ClosingSummary)
    → (summary "close-1" closed).0 ≡ ok s
    → (s.expected_physical_cash ≡ hundredths (pos 150000))
      × (s.variance ≡ some (hundredths (negsuc 999)))
unfolding closed
closed_figures s h = ground arith

one_active_closing_example : ◌≡◌ {A = String} "close-1" "close-1"
unfolding day
one_active_closing_example =
    one_active_closing by_id day "close-1" "close-1" first_row first_row day-Run refl refl refl refl
      refl refl

closing-Keeps_example :
    (b : DailyClosing) × (lookup "close-1" closed.closings ≡ some b) × Keeps first_row b
unfolding day
closing-Keeps_example =
    closing-Keeps by_id day closed "close-1" first_row day-IsValid closed-Run refl

replay_any_time_example : add_entry by_id at_retry sale counted ≡ (ok (entry_from sale), counted)
unfolding counted
replay_any_time_example =
    replay_any_time by_id at_sale at_retry sale sale day counted refl refl counted-Run
      (unfold WritesFresh counted-Run IsFresh in (tt, tt)) refl

summary-Figures_example :
    (r : ClosingSummary) × (summary "close-1" day ≡ (ok r, day))
    × Figures first_row (entries_of "close-1" day) r
unfolding day
summary-Figures_example = summary-Figures "close-1" day first_row refl

-- The same arguments again, under the same idempotency key: a new identifier, and a refusal.
retry_refused_example :
    (add_entry by_id at_retry (record sale { entry_id = "cash-2"; occurred_at = 3 }) sold).0
    ≡ err changed_replay
unfolding sold new_entry
retry_refused_example =
    retry_refused by_id at_sale at_retry "close-1" "cash_sale" (integer (pos 500)) "staff-1" "a"
      options sale (record sale { entry_id = "cash-2"; occurred_at = 3 }) sale day (λ h. h)
      (ground (arith, eq_iff "cash-1" "cash-2")) refl refl refl refl

row_declared : DailyClosing
row_declared = record first_row { declared_closing_cash = some (hundredths (pos 149000)) }

abbrev summary_of_day :
    (r : ClosingSummary) × (summary "close-1" day ≡ (ok r, day))
    × Figures first_row (entries_of "close-1" day) r
unfolding day
summary_of_day = summary-Figures "close-1" day first_row refl

abbrev summary_of_sold :
    (r : ClosingSummary) × (summary "close-1" sold ≡ (ok r, sold))
    × Figures first_row (entries_of "close-1" sold) r
unfolding sold
summary_of_sold = summary-Figures "close-1" sold first_row refl

add_entry_moves_summary_example :
    cents summary_of_sold.0.expected_physical_cash
    ≡ cents summary_of_day.0.expected_physical_cash +ℤ effect sale
unfolding sold
add_entry_moves_summary_example =
    add_entry_moves_summary by_id at_sale sale sale day first_row summary_of_day.0 summary_of_sold.0
      refl refl refl refl (ap (λ t. t.0) summary_of_day.1) (ap (λ t. t.0) summary_of_sold.1)

-- The closing after its submission.
abbrev submitted_row : DailyClosing
submitted_row = record first_row {
  declared_closing_cash = some (hundredths (pos 149000));
  status = submitted;
  submitted_by = some "owner-1";
  submitted_at = some 5;
}

at_approve : Ambient
at_approve = record { new_id = "none"; audit_id = "audit-6"; now = 6 }

signed : CashState
unfolding closed approve at_approve
signed = (approve at_approve "close-1" "exec-1" closed).1

abbrev signed-Run : Run by_id closed signed
unfolding signed
signed-Run = next here (approved_by at_approve "close-1" "exec-1" refl)

abbrev summary_of_closed :
    (r : ClosingSummary) × (summary "close-1" closed ≡ (ok r, closed))
    × Figures submitted_row (entries_of "close-1" closed) r
unfolding closed
summary_of_closed = summary-Figures "close-1" closed submitted_row refl

abbrev summary_of_signed :
    (r : ClosingSummary) × (summary "close-1" signed ≡ (ok r, signed))
    × Figures
        (record submitted_row {
          status = approved;
          approved_by = some "exec-1";
          approved_at = some 6;
        })
        (entries_of "close-1" signed)
        r
unfolding signed
summary_of_signed =
    summary-Figures "close-1" signed
      (record submitted_row {
        status = approved;
        approved_by = some "exec-1";
        approved_at = some 6;
      })
      refl

books_shut_example :
    (entries_of "close-1" signed ≡ entries_of "close-1" closed)
    × (summary_of_signed.0.expected_physical_cash ≡ summary_of_closed.0.expected_physical_cash)
    × (summary_of_signed.0.declared_closing_cash ≡ summary_of_closed.0.declared_closing_cash)
    × (summary_of_signed.0.variance ≡ summary_of_closed.0.variance)
unfolding closed
books_shut_example =
    books_shut by_id "close-1" submitted_row closed signed summary_of_closed.0 summary_of_signed.0
      (Run-IsValid closed-Run day-IsValid) refl refl signed-Run
      (unfold WritesFresh signed-Run IsFresh in (tt, tt)) (ap (λ t. t.0) summary_of_closed.1)
      (ap (λ t. t.0) summary_of_signed.1)

can_be_approved_example :
    (u : CashState) × Run by_id day u
    × (c : DailyClosing) × (lookup "close-1" u.closings ≡ some c)
    × (c.status ≡ approved)
    × (c.declared_closing_cash ≡ final_amount first_row (integer (pos 1490)))
    × (entries_of "close-1" u ≡ entries_of "close-1" day)
unfolding day
can_be_approved_example =
    can_be_approved by_id at_submit "owner-1" "close-1" (integer (pos 1490)) day first_row day-Run
      refl refl refl

abbrev at_next : Ambient
at_next = record { new_id = "close-2"; audit_id = "audit-7"; now = 7 }

abbrev same_id_sale : CashEntry
same_id_sale = record sale { closing_id = "close-2"; business_date = 21; idempotency_key = "b" }

next_day : CashState
unfolding closed open_day
next_day = (open_day at_next "ent-kvr" 21 (integer (pos 0)) "owner-1" "" closed).1

mixed_up : CashState
unfolding next_day add_entry
mixed_up = (add_entry by_id at_next same_id_sale next_day).1

-- An entry for the next day under an identifier that is in use takes the row of the submitted day away.
reused_identifier :
    (entries_of "close-1" closed ≡ entry_from sale ∷ [])
    × ((add_entry by_id at_next same_id_sale next_day).0 ≡ ok same_id_sale)
    × (entries_of "close-1" mixed_up ≡ [])
unfolding mixed_up entries_of entry_from
reused_identifier = (refl, refl, refl)
