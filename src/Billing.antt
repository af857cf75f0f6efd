-- ===== src/Billing.antt =====
-- src/billing/engine.py: the records of operational billing and the arithmetic of a line.
pub mod Engine
mod Examples
use tagro_echo_os.Base.{String, Bool, Option, List, [], Dict, ℕ}
use tagro_echo_os.Money.{Decimal, money, plus, minus, times, percent}

pub record BillingLine : Type 0 where
  pub product_id : String
  pub description : String
  pub quantity : Decimal
  pub unit_price_before_tax : Decimal
  pub gst_rate : Decimal
  pub discount_before_tax : Decimal

pub record BillingRequest : Type 0 where
  pub enterprise_id : String
  pub branch_id : String
  pub branch_code : String
  pub actor_id : String
  pub actor_role : String
  pub customer_id : Option String
  pub customer_name : String
  pub lines : List BillingLine
  pub payment_mode : String
  pub idempotency_key : String
  pub owner_stock_override : Bool
  pub stock_override_reason : String

-- What `_request_payload` puts together: the request without its idempotency key.
pub record RequestPayload : Type 0 where
  pub enterprise_id : String
  pub branch_id : String
  pub branch_code : String
  pub actor_id : String
  pub actor_role : String
  pub customer_id : Option String
  pub customer_name : String
  pub payment_mode : String
  pub owner_stock_override : Bool
  pub stock_override_reason : String
  pub lines : List BillingLine

pub record EchoBill : Type 0 where
  pub bill_id : String
  pub enterprise_id : String
  pub branch_id : String
  pub branch_code : String
  pub customer_id : Option String
  pub customer_name : String
  pub lines : List BillingLine
  pub payment_mode : String
  pub created_by : String
  pub created_at : ℕ
  pub taxable_total : Decimal
  pub tax_total : Decimal
  pub invoice_total : Decimal
  pub stock_exception : Bool
  pub stock_exception_reason : String
  pub status : String

pub record BusySeriesConfig : Type 0 where
  pub branch_code : String
  pub voucher_series : String
  pub material_centre_ref : Option String

-- The payload of a handoff.
pub record HandoffPayload : Type 0 where
  pub source : String
  pub echo_bill_id : String
  pub branch_code : String
  pub voucher_series : String
  pub material_centre_ref : Option String
  pub customer_id : Option String
  pub customer_name : String
  pub payment_mode : String
  pub taxable_total : Decimal
  pub tax_total : Decimal
  pub invoice_total : Decimal
  pub lines : List (BillingLine × Decimal × Decimal × Decimal)

pub record BusyBookingHandoff : Type 0 where
  pub handoff_id : String
  pub bill_id : String
  pub enterprise_id : String
  pub branch_code : String
  pub voucher_series : String
  pub material_centre_ref : Option String
  pub payload : HandoffPayload
  pub payload_hash : String
  pub status : String

-- `_bills_by_idempotency` and `_request_hash_by_idempotency`
pub record BillingState : Type 0 where
  pub bills : Dict EchoBill
  pub hashes : Dict String

abbrev pub no_bills : BillingState
no_bills = record { bills = []; hashes = [] }

-- What the methods raise: the messages of `BillingError`, and the KeyError of a missing hash.
pub data BillingError : Type 0 where
  product_required quantity_not_positive negative_price discount_exceeds negative_rate :
      BillingError
  identity_required actor_and_key_required lines_required : BillingError
  no_hash changed_replay insufficient_stock reason_required no_series : BillingError

-- `BillingLine.taxable`
unfoldable pub taxable : BillingLine → Decimal
taxable l = money (minus (times l.quantity l.unit_price_before_tax) l.discount_before_tax)

-- `BillingLine.tax`
unfoldable pub tax : BillingLine → Decimal
unfolding taxable
tax l = money (percent (times (taxable l) l.gst_rate))

-- `BillingLine.total`
unfoldable pub total : BillingLine → Decimal
unfolding taxable tax
total l = money (plus (taxable l) (tax l))
