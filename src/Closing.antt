-- ===== src/Closing.antt =====
-- src/cash/closing.py: a daily cash closing that is not kept in a store.
mod Balance
mod Examples
use tagro_echo_os.Base.{ℕ, String, [], ◌∷◌, any, is_blank, Result, ok, err, if◌then◌else◌}
use tagro_echo_os.Money.{Decimal, zero_dec, lt_dec, plus, minus}

pub record ClosingCash : Type 0 where
  pub closing_id : String
  pub branch_id : String
  pub business_date : ℕ
  pub opening_cash : Decimal
  pub cash_sales : Decimal
  pub other_cash_in : Decimal
  pub cash_expenses : Decimal
  pub cash_deposits_or_transfers : Decimal
  pub declared_closing : Decimal
  pub recorded_at : ℕ
  pub actor_id : String
  pub note : String

pub data ClosingError : Type 0 where
  negative_field actor_required : ClosingError

-- `expected_closing`
unfoldable pub expected_closing : ClosingCash → Decimal
expected_closing c =
    minus (minus (plus (plus c.opening_cash c.cash_sales) c.other_cash_in) c.cash_expenses)
      c.cash_deposits_or_transfers

-- `variance`
unfoldable pub variance_of : ClosingCash → Decimal
unfolding expected_closing
variance_of c = minus c.declared_closing (expected_closing c)

unfoldable pub create_closing :
    (new_id : String) (now : ℕ) (branch_id : String) (business_date : ℕ)
    → (opening_cash cash_sales other_cash_in cash_expenses cash_deposits_or_transfers
        declared_closing : Decimal)
    → (actor_id note : String) → Result ClosingError ClosingCash
unfolding any
create_closing new_id now branch_id business_date opening_cash cash_sales other_cash_in
      cash_expenses cash_deposits_or_transfers declared_closing actor_id note =
    if any (λ x. lt_dec x zero_dec)
      (opening_cash ∷ cash_sales ∷ other_cash_in ∷ cash_expenses ∷ cash_deposits_or_transfers
        ∷ declared_closing ∷ [])
    then err negative_field
    else if is_blank actor_id
    then err actor_required
    else ok (record {
      closing_id = new_id;
      branch_id = branch_id;
      business_date = business_date;
      opening_cash = opening_cash;
      cash_sales = cash_sales;
      other_cash_in = other_cash_in;
      cash_expenses = cash_expenses;
      cash_deposits_or_transfers = cash_deposits_or_transfers;
      declared_closing = declared_closing;
      recorded_at = now;
      actor_id = actor_id;
      note = note;
    })
