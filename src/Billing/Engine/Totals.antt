-- ===== src/Billing/Engine/Totals.antt =====
-- The totals of a bill (`issue` of src/billing/engine.py) in hundredths.
use tagro_echo_os.Base.{
  ℤ, ◌+ℤ◌, sum_ℤ, String, Bool, none, List, [], ◌∷◌, Dict, lookup, map, ◌≡◌, refl, sym, ap, ◌∙◌,
  arith, int_laws, ok, inl, inr,
}
use tagro_echo_os.Money.{Decimal, hundredths, cents, money, plus, minus, times, percent, sum_dec}
use tagro_echo_os.Money.Rounding.{
  cents-hundredths, money-eq, money-money, plus-hundredths, money-hundredths, money-sum_dec,
}
use tagro_echo_os.Billing.{
  BillingLine, BillingRequest, RequestPayload, EchoBill, BillingState, taxable, tax, total,
}
use tagro_echo_os.Billing.Engine.{Ambient, issue, bill_of, has_shortage}
use tagro_echo_os.Billing.Engine.Issue.{issue-Issued}

-- The bill adds up.
pub record Totals (bill : EchoBill) : Type 0 where
  pub taxables : bill.taxable_total ≡ hundredths (sum_ℤ (map (λ l. cents (taxable l)) bill.lines))
  pub taxes : bill.tax_total ≡ hundredths (sum_ℤ (map (λ l. cents (tax l)) bill.lines))
  pub invoice : bill.invoice_total ≡ hundredths (sum_ℤ (map (λ l. cents (total l)) bill.lines))

own_cents : (d : Decimal) → money d ≡ hundredths (cents (money d))
own_cents d = sym (money-money d) ∙ money-eq (money d)

taxable-hundredths : (l : BillingLine) → taxable l ≡ hundredths (cents (taxable l))
unfolding taxable
taxable-hundredths l =
    own_cents (minus (times l.quantity l.unit_price_before_tax) l.discount_before_tax)

tax-hundredths : (l : BillingLine) → tax l ≡ hundredths (cents (tax l))
unfolding tax
tax-hundredths l = own_cents (percent (times (taxable l) l.gst_rate))

map-column :
    (f : BillingLine → Decimal)
    → ((l : BillingLine) → f l ≡ hundredths (cents (f l)))
    → (ls : List BillingLine) → map f ls ≡ map hundredths (map (λ l. cents (f l)) ls)
map-column f h [] = refl
map-column f h (l ∷ ls) =
    ap (λ x. x ∷ map f ls) (h l) ∙ ap (λ xs. hundredths (cents (f l)) ∷ xs) (map-column f h ls)

sum-column :
    (f : BillingLine → Decimal)
    → ((l : BillingLine) → f l ≡ hundredths (cents (f l)))
    → (ls : List BillingLine)
    → money (sum_dec (map f ls)) ≡ hundredths (sum_ℤ (map (λ l. cents (f l)) ls))
sum-column f h ls =
    ap (λ xs. money (sum_dec xs)) (map-column f h ls) ∙ money-sum_dec (map (λ l. cents (f l)) ls)

cents-plus :
    (a b : Decimal) (m n : ℤ)
    → a ≡ hundredths m
    → b ≡ hundredths n
    → money (plus a b) ≡ hundredths (m +ℤ n)
cents-plus a b m n h k =
    ap (λ x. money (plus x b)) h
    ∙ ap (λ x. money (plus (hundredths m) x)) k
    ∙ ap money (plus-hundredths m n)
    ∙ money-hundredths (m +ℤ n)

cents-total : (l : BillingLine) → cents (total l) ≡ cents (taxable l) +ℤ cents (tax l)
unfolding total
cents-total l =
    ap cents (
      cents-plus (taxable l) (tax l) (cents (taxable l)) (cents (tax l)) (taxable-hundredths l)
        (tax-hundredths l))
    ∙ cents-hundredths (cents (taxable l) +ℤ cents (tax l))

total_column :
    (ls : List BillingLine)
    → sum_ℤ (map (λ l. cents (total l)) ls)
      ≡ sum_ℤ (map (λ l. cents (taxable l)) ls) +ℤ sum_ℤ (map (λ l. cents (tax l)) ls)
unfolding sum_ℤ
total_column [] = omega int_laws
total_column (l ∷ ls) = rw (total_column ls) (rw (cents-total l) (omega int_laws))

bill_of-Totals :
    (upper lower : String → String) (v : Ambient) (r : BillingRequest) (b : Bool)
    → Totals (bill_of upper lower v r b)
unfolding bill_of
bill_of-Totals upper lower v r b =
    let one = sum-column taxable taxable-hundredths r.lines in
    let two = sum-column tax tax-hundredths r.lines in
    record {
      taxables = one;
      taxes = two;
      invoice =
          cents-plus (money (sum_dec (map taxable r.lines))) (money (sum_dec (map tax r.lines)))
            (sum_ℤ (map (λ l. cents (taxable l)) r.lines))
            (sum_ℤ (map (λ l. cents (tax l)) r.lines)) one two
          ∙ ap hundredths (sym (total_column r.lines));
    }

-- A bill that is new carries the lines of its request and adds up: its taxable, tax and invoice totals
-- are the sums over the lines of the rounded taxable value, tax and total, to the hundredth.
pub issue-Totals :
    (upper lower : String → String) (digest : RequestPayload → String) (v : Ambient)
    (r : BillingRequest) (stock : Dict Decimal) (s u : BillingState) (bill : EchoBill)
    → lookup r.idempotency_key s.bills ≡ none
    → issue upper lower digest v r stock s ≡ (ok bill, u)
    → (bill.lines ≡ r.lines) × Totals bill
unfolding bill_of
issue-Totals upper lower digest v r stock s u bill first h =
    elim (issue-Issued upper lower digest v r stock s u bill h).way [
      | inl (_, at_key, _) ↦ ground (arith, first, at_key)
      | inr (_, _, made, _, _) ↦ (
        ap (λ b. b.lines) made,
        rw made (bill_of-Totals upper lower v r (has_shortage stock r.lines)),
      )
    ]
