-- ===== src/Closing/Balance.antt =====
-- The variance of src/cash/closing.py, in amounts of two places.
use tagro_echo_os.Base.{ℤ, ◌+ℤ◌, ◌-ℤ◌, ◌≡◌, refl, int_laws}
use tagro_echo_os.Money.{hundredths}
use tagro_echo_os.Money.Rounding.{plus-hundredths, minus-hundredths}
use tagro_echo_os.Closing.{ClosingCash, expected_closing, variance_of}

-- The expected cash, in hundredths.
expected-hundredths :
    (c : ClosingCash) (o s i e t : ℤ)
    → c.opening_cash ≡ hundredths o
    → c.cash_sales ≡ hundredths s
    → c.other_cash_in ≡ hundredths i
    → c.cash_expenses ≡ hundredths e
    → c.cash_deposits_or_transfers ≡ hundredths t
    → expected_closing c ≡ hundredths (o +ℤ s +ℤ i -ℤ e -ℤ t)
unfolding expected_closing
expected-hundredths c o s i e t ho hs hi he ht =
    rw
      (
        ho,
        hs,
        hi,
        he,
        ht,
        plus-hundredths o s,
        plus-hundredths (o +ℤ s) i,
        minus-hundredths (o +ℤ s +ℤ i) e,
        minus-hundredths (o +ℤ s +ℤ i -ℤ e) t,
      )
      refl

-- Where the six amounts of a closing are whole hundredths, its variance is a whole number of hundredths, and
-- with the expected outflows and the declared cash it accounts for every inflow: the variance, the opening
-- cash, the sales and the other inflows are together the declared cash, the expenses and the deposits.
pub variance_of_lem :
    (c : ClosingCash) (o s i e t d : ℤ)
    → c.opening_cash ≡ hundredths o
    → c.cash_sales ≡ hundredths s
    → c.other_cash_in ≡ hundredths i
    → c.cash_expenses ≡ hundredths e
    → c.cash_deposits_or_transfers ≡ hundredths t
    → c.declared_closing ≡ hundredths d
    → (x : ℤ) × (variance_of c ≡ hundredths x) × (x +ℤ o +ℤ s +ℤ i ≡ d +ℤ e +ℤ t)
unfolding variance_of
variance_of_lem c o s i e t d ho hs hi he ht hd = (
  d -ℤ (o +ℤ s +ℤ i -ℤ e -ℤ t),
  rw (hd, expected-hundredths c o s i e t ho hs hi he ht)
      (minus-hundredths d (o +ℤ s +ℤ i -ℤ e -ℤ t)),
  omega int_laws,
)
