-- ===== src/Closing/Examples.antt =====
-- A closing (src/cash/closing.py): 1000 and 500 of sales less 200 of expenses, and 1290 declared.
use tagro_echo_os.Base.{ℤ, pos, ◌+ℤ◌, ◌≡◌, refl}
use tagro_echo_os.Money.{hundredths}
use tagro_echo_os.Closing.{ClosingCash, variance_of}
use tagro_echo_os.Closing.Balance.{variance_of_lem}

abbrev closing : ClosingCash
closing = record {
  closing_id = "cash-1";
  branch_id = "kvr";
  business_date = 20;
  opening_cash = hundredths (pos 100000);
  cash_sales = hundredths (pos 50000);
  other_cash_in = hundredths (pos 0);
  cash_expenses = hundredths (pos 20000);
  cash_deposits_or_transfers = hundredths (pos 0);
  declared_closing = hundredths (pos 129000);
  recorded_at = 1;
  actor_id = "staff-1";
  note = "";
}

variance_of_lem_example :
    (x : ℤ) × (variance_of closing ≡ hundredths x)
    × (x +ℤ pos 100000 +ℤ pos 50000 +ℤ pos 0 ≡ pos 129000 +ℤ pos 20000 +ℤ pos 0)
variance_of_lem_example =
    variance_of_lem closing (pos 100000) (pos 50000) (pos 0) (pos 20000) (pos 0) (pos 129000) refl
      refl refl refl refl refl
