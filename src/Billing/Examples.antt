-- ===== src/Billing/Examples.antt =====
-- Bills of two lines (src/billing/engine.py): from stock, replayed, and over the stock by an owner.
use tagro_echo_os.Base.{
  pos, ◌+ℤ◌, ◌-ℤ◌, ◌*ℤ◌, scale, String, true, false, none, [], ◌∷◌, lookup, insert, ◌==◌, ◌≡◌, ◌↔◌,
  refl, ok, err, if◌then◌else◌, is_blank, is_empty, strip, any, Dict,
}
use tagro_echo_os.Money.{
  Decimal, integer, hundredths, cents, money, plus, minus, times, percent, sum_dec, lt_dec, le_dec,
}
use tagro_echo_os.Billing.{
  BillingLine, BillingRequest, RequestPayload, EchoBill, BillingState, no_bills, changed_replay,
  taxable, tax,
}
use tagro_echo_os.Billing.Engine.{
  Ambient, validate, validate_lines, request_payload, check_request, available, has_shortage,
  check_stock, bill_of, replay, issue_new, issue,
}
use tagro_echo_os.Billing.Engine.Totals.{Totals, issue-Totals}
use tagro_echo_os.Billing.Engine.Shortage.{Shortage, IsGranted, issue_stock_rule}
use tagro_echo_os.Billing.Engine.History.{here, issue_again}

abbrev as_is : String → String
as_is s = s

abbrev by_mode : RequestPayload → String
by_mode p = p.payment_mode

abbrev first_call : Ambient
first_call = record { new_id = "echo-bill-1"; now = 1 }

abbrev second_call : Ambient
second_call = record { new_id = "echo-bill-2"; now = 2 }

abbrev saw : BillingLine
saw = record {
  product_id = "saw";
  description = "Chain saw";
  quantity = integer (pos 2);
  unit_price_before_tax = hundredths (pos 10050);
  gst_rate = integer (pos 18);
  discount_before_tax = integer (pos 1);
}

abbrev sale : BillingRequest
sale = record {
  enterprise_id = "ent-kvr";
  branch_id = "br-1";
  branch_code = "KVR";
  actor_id = "owner-1";
  actor_role = "OWNER";
  customer_id = none;
  customer_name = "Walk in";
  lines = saw ∷ saw ∷ [];
  payment_mode = "cash";
  idempotency_key = "k-1";
  owner_stock_override = true;
  stock_override_reason = "in transit";
}

abbrev on_credit : BillingRequest
on_credit = record sale { payment_mode = "credit" }

-- One saw too few for either line.
abbrev stock : Dict Decimal
stock = ("saw", integer (pos 1)) ∷ []

issued : BillingState
unfolding issue check_request validate_lines validate is_blank is_empty le_dec lt_dec scale taxable
    minus times money cents issue_new has_shortage available check_stock strip lookup insert any
    replay ◌-ℤ◌ ◌*ℤ◌ bill_of ◌+ℤ◌ plus sum_dec tax percent
issued = (issue as_is as_is by_mode first_call sale stock no_bills).1

abbrev bill : EchoBill
bill = bill_of as_is as_is first_call sale true

issue-Totals_example : (bill.lines ≡ sale.lines) × Totals bill
unfolding issued
issue-Totals_example =
    issue-Totals as_is as_is by_mode first_call sale stock no_bills issued bill refl refl

issue_stock_rule_example :
    (((b : EchoBill) × ((issue as_is as_is by_mode first_call sale stock no_bills).0 ≡ ok b))
      ↔ (Shortage stock sale.lines → IsGranted as_is sale))
    × ((b : EchoBill)
        → (issue as_is as_is by_mode first_call sale stock no_bills).0 ≡ ok b
        → (b.stock_exception ≡ true) ↔ Shortage stock sale.lines)
unfolding issued
issue_stock_rule_example =
    issue_stock_rule as_is as_is by_mode first_call sale stock no_bills refl refl

issue_again_example : issue as_is as_is by_mode second_call on_credit [] issued ≡ (
  if by_mode (request_payload sale) == by_mode (request_payload on_credit)
      then ok bill
      else err changed_replay,
  issued,
)
unfolding issued
issue_again_example =
    issue_again as_is as_is by_mode first_call second_call sale on_credit stock [] no_bills issued
      issued bill refl here refl refl

-- Two lines of one saw each pass against a stock of one, with no exception.
abbrev one_saw : BillingLine
one_saw = record saw { quantity = integer (pos 1) }

oversold : has_shortage stock (one_saw ∷ one_saw ∷ []) ≡ false
unfolding has_shortage any available lookup lt_dec scale
oversold = refl
