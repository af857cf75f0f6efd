-- ===== src/Payments.antt =====
-- src/payments/payments.py: `class PaymentStore`.
pub mod Allocations
pub mod Runs
mod Examples
use tagro_echo_os.Base.{
  ℕ, String, Bool, not, Option, List, [], ◌∷◌, ◌++◌, Dict, lookup, insert, any, filter, map, ◌==◌,
  is_blank, Action, pure, gets, or_raise, raise_if, modify, ◌>>=◌, ◌>>◌,
}
use tagro_echo_os.Money.{Decimal, zero_dec, lt_dec, le_dec, minus, sum_dec}

pub record Payment : Type 0 where
  pub payment_id : String
  pub branch_id : String
  pub customer_id : Option String
  pub received_at : ℕ
  pub method : String
  pub amount : Decimal
  pub reference : String
  pub actor_id : String
  pub status : String

pub record PaymentAllocation : Type 0 where
  pub allocation_id : String
  pub payment_id : String
  pub target_type : String
  pub target_id : String
  pub amount : Decimal
  pub allocated_at : ℕ
  pub actor_id : String

pub record PaymentState : Type 0 where
  pub payments : Dict Payment
  pub allocations : List PaymentAllocation

abbrev pub no_payments : PaymentState
no_payments = record { payments = []; allocations = [] }

-- The messages of the ValueErrors.
pub data PaymentError : Type 0 where
  amount_not_positive invalid_method actor_required no_payment invalid_target : PaymentError
  allocation_not_positive exceeds_payment : PaymentError

abbrev pub Payments : Type 0 → Type 0
Payments A = Action PaymentState PaymentError A

pub record Ambient : Type 0 where
  pub new_id : String
  pub now : ℕ

abbrev pub methods : List String
methods = "cash" ∷ "upi" ∷ "card" ∷ "bank_transfer" ∷ "cheque" ∷ "other" ∷ []

abbrev pub targets : List String
targets = "sale" ∷ "invoice" ∷ "service_job" ∷ "customer_account" ∷ []

-- `x in xs`
unfoldable pub is_in : String → List String → Bool
unfolding any
is_in x xs = any (λ y. y == x) xs

-- `receive`
unfoldable pub receive_payment :
    Ambient → String → Option String → String → Decimal → String → String → Payments Payment
unfolding is_in insert
receive_payment v branch_id customer_id method amount actor_id reference = do
  raise_if (le_dec amount zero_dec) amount_not_positive
  raise_if (not (is_in method methods)) invalid_method
  raise_if (is_blank actor_id) actor_required
  let p : Payment = record {
    payment_id = v.new_id;
    branch_id = branch_id;
    customer_id = customer_id;
    received_at = v.now;
    method = method;
    amount = amount;
    reference = reference;
    actor_id = actor_id;
    status = "received";
  }
  modify (λ s. record s { payments = insert p.payment_id p s.payments })
  pure p

-- `allocated`
unfoldable pub allocated : String → List PaymentAllocation → Decimal
unfolding filter sum_dec
allocated payment_id rows = sum_dec (
    map (λ (x : PaymentAllocation). x.amount)
      (filter (λ (x : PaymentAllocation). x.payment_id == payment_id) rows))

-- `unallocated`, for a payment that was found.
unfoldable pub unallocated : String → Payment → List PaymentAllocation → Decimal
unfolding allocated
unallocated payment_id p rows = minus p.amount (allocated payment_id rows)

unfoldable pub allocate :
    Ambient → String → String → String → Decimal → String → Payments PaymentAllocation
unfolding lookup is_in unallocated
allocate v payment_id target_type target_id amount actor_id = do
  found ← gets (λ s. lookup payment_id s.payments)
  p ← or_raise found no_payment
  raise_if (not (is_in target_type targets)) invalid_target
  raise_if (le_dec amount zero_dec) allocation_not_positive
  rows ← gets (λ s. s.allocations)
  raise_if (lt_dec (unallocated payment_id p rows) amount) exceeds_payment
  let a : PaymentAllocation = record {
    allocation_id = v.new_id;
    payment_id = payment_id;
    target_type = target_type;
    target_id = target_id;
    amount = amount;
    allocated_at = v.now;
    actor_id = actor_id;
  }
  modify (λ s. record s { allocations = s.allocations ++ a ∷ [] })
  pure a
