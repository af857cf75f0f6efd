-- ===== src/Billing/Engine.antt =====
-- src/billing/engine.py: `class BillingEngine`. `upper` and `lower` are the methods of `str`; `digest` and
-- `payload_digest` stand for the SHA-256 of the JSON text of a payload.
pub mod Issue
pub mod Totals
pub mod Shortage
pub mod History
use tagro_echo_os.Base.{
  ℕ, String, Bool, true, false, ◌||◌, ◌&&◌, not, none, some, List, [], ◌∷◌, Dict, lookup, insert,
  any, map, ◌==◌, is_blank, is_empty, strip, Action, Result, ok, err, pure, gets, or_raise,
  raise_if, modify, ◌>>=◌, ◌>>◌, if◌then◌else◌,
}
use tagro_echo_os.Money.{Decimal, zero_dec, money, lt_dec, le_dec, plus, sum_dec}
use tagro_echo_os.Billing.{
  BillingLine, BillingRequest, RequestPayload, EchoBill, BusySeriesConfig, HandoffPayload,
  BusyBookingHandoff, BillingState, BillingError, product_required, quantity_not_positive,
  negative_price, discount_exceeds, negative_rate, identity_required, actor_and_key_required,
  lines_required, no_hash, changed_replay, insufficient_stock, reason_required, no_series, taxable,
  tax, total,
}

abbrev pub Billing : Type 0 → Type 0
Billing A = Action BillingState BillingError A

-- The identifier that `uuid4` gives, and the time.
pub record Ambient : Type 0 where
  pub new_id : String
  pub now : ℕ

-- `BillingLine.validate`
unfoldable pub validate : BillingLine → Billing Unit
validate l = do
  raise_if (is_blank l.product_id) product_required
  raise_if (le_dec l.quantity zero_dec) quantity_not_positive
  raise_if (lt_dec l.unit_price_before_tax zero_dec || lt_dec l.discount_before_tax zero_dec)
      negative_price
  raise_if (lt_dec (taxable l) zero_dec) discount_exceeds
  raise_if (lt_dec l.gst_rate zero_dec) negative_rate

unfoldable pub validate_lines : List BillingLine → Billing Unit
unfolding validate
validate_lines [] = pure tt
validate_lines (l ∷ ls) = do validate l; validate_lines ls

-- `_request_payload`
abbrev pub request_payload : BillingRequest → RequestPayload
request_payload r = record {
  enterprise_id = r.enterprise_id;
  branch_id = r.branch_id;
  branch_code = r.branch_code;
  actor_id = r.actor_id;
  actor_role = r.actor_role;
  customer_id = r.customer_id;
  customer_name = r.customer_name;
  payment_mode = r.payment_mode;
  owner_stock_override = r.owner_stock_override;
  stock_override_reason = r.stock_override_reason;
  lines = r.lines;
}

abbrev pub no_lines : List BillingLine → Bool
no_lines [] = true
no_lines (l ∷ ls) = false

-- The guards of `issue` on the request.
unfoldable pub check_request : BillingRequest → Billing Unit
unfolding validate_lines
check_request r = do
  raise_if (is_empty r.enterprise_id || is_empty r.branch_id || is_empty r.branch_code)
      identity_required
  raise_if (is_blank r.actor_id || is_blank r.idempotency_key) actor_and_key_required
  raise_if (no_lines r.lines) lines_required
  validate_lines r.lines

-- `stock_on_hand.get(line.product_id, Decimal("0"))`
unfoldable pub available : Dict Decimal → String → Decimal
available stock product = elim (lookup product stock) [ none ↦ zero_dec | some q ↦ q ]

-- `bool(shortage)`
unfoldable pub has_shortage : Dict Decimal → List BillingLine → Bool
unfolding available any
has_shortage stock lines = any (λ l. lt_dec (available stock l.product_id) l.quantity) lines

-- The guards of `issue` on the stock.
unfoldable pub check_stock : (String → String) → BillingRequest → Bool → Billing Unit
check_stock upper r stock_exception = do
  raise_if
      (stock_exception
        && (not (upper (strip r.actor_role) == "OWNER") || not r.owner_stock_override))
      insufficient_stock
  raise_if (stock_exception && is_blank r.stock_override_reason) reason_required

-- The `EchoBill` that `issue` builds.
unfoldable pub bill_of :
    (upper lower : String → String) → Ambient → BillingRequest → Bool → EchoBill
unfolding taxable tax
bill_of upper lower v r stock_exception =
    let taxables = money (sum_dec (map taxable r.lines)) in
    let taxes = money (sum_dec (map tax r.lines)) in
    record {
      bill_id = v.new_id;
      enterprise_id = r.enterprise_id;
      branch_id = r.branch_id;
      branch_code = upper r.branch_code;
      customer_id = r.customer_id;
      customer_name = strip r.customer_name;
      lines = r.lines;
      payment_mode = lower (strip r.payment_mode);
      created_by = r.actor_id;
      created_at = v.now;
      taxable_total = taxables;
      tax_total = taxes;
      invoice_total = money (plus taxables taxes);
      stock_exception = stock_exception;
      stock_exception_reason = if stock_exception then strip r.stock_override_reason else "";
      status = "echo_issued";
    }

-- The replay of `issue`: a bill under the key of the request.
unfoldable pub replay : String → BillingRequest → EchoBill → Billing EchoBill
replay digest r bill = do
  found ← gets (λ s. lookup r.idempotency_key s.hashes)
  hash ← or_raise found no_hash
  raise_if (not (hash == digest)) changed_replay
  pure bill

-- The rest of `issue`: the stock and the new bill.
unfoldable pub issue_new :
    (upper lower : String → String)
    → String
    → Ambient
    → BillingRequest
    → Dict Decimal
    → Billing EchoBill
unfolding check_stock has_shortage bill_of
issue_new upper lower digest v r stock = do
  let short = has_shortage stock r.lines
  check_stock upper r short
  let bill = bill_of upper lower v r short
  modify (λ s. record s { bills = insert r.idempotency_key bill s.bills })
  modify (λ s. record s { hashes = insert r.idempotency_key digest s.hashes })
  pure bill

unfoldable pub issue :
    (upper lower : String → String)
    → (RequestPayload → String)
    → Ambient
    → BillingRequest
    → Dict Decimal
    → Billing EchoBill
unfolding check_request replay issue_new
issue upper lower digest v r stock = do
  check_request r
  existing ← gets (λ s. lookup r.idempotency_key s.bills)
  elim existing [
    | some bill ↦ replay (digest (request_payload r)) r bill
    | none ↦ issue_new upper lower (digest (request_payload r)) v r stock
  ]

abbrev pub handoff_line : BillingLine → BillingLine × Decimal × Decimal × Decimal
handoff_line l = (l, taxable l, tax l, total l)

-- `prepare_busy_handoff`
unfoldable pub prepare_busy_handoff :
    (upper : String → String)
    → (HandoffPayload → String)
    → Ambient
    → EchoBill
    → Dict BusySeriesConfig
    → Result BillingError BusyBookingHandoff
unfolding lookup
prepare_busy_handoff upper payload_digest v bill series =
    elim (lookup (upper bill.branch_code) series) [
      | none ↦ err no_series
      | some config ↦
          if is_blank config.voucher_series
          then err no_series
          else (let payload : HandoffPayload = record {
            source = "ECHO";
            echo_bill_id = bill.bill_id;
            branch_code = bill.branch_code;
            voucher_series = config.voucher_series;
            material_centre_ref = config.material_centre_ref;
            customer_id = bill.customer_id;
            customer_name = bill.customer_name;
            payment_mode = bill.payment_mode;
            taxable_total = bill.taxable_total;
            tax_total = bill.tax_total;
            invoice_total = bill.invoice_total;
            lines = map handoff_line bill.lines;
          } in
              ok (record {
                handoff_id = v.new_id;
                bill_id = bill.bill_id;
                enterprise_id = bill.enterprise_id;
                branch_code = bill.branch_code;
                voucher_series = config.voucher_series;
                material_centre_ref = config.material_centre_ref;
                payload = payload;
                payload_hash = payload_digest payload;
                status = "queued_not_booked";
              }))
    ]
