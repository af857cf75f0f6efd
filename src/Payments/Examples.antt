-- ===== src/Payments/Examples.antt =====
-- A payment of ten (src/payments/payments.py), of which four are allocated to a sale.
use tagro_echo_os.Base.{
  pos, ◌+ℤ◌, ◌-ℤ◌, scale, none, lookup, insert, any, filter, ◌==◌, ◌≡◌, refl, is_blank, false, map,
}
use tagro_echo_os.Money.{integer, plus, minus, sum_dec, lt_dec, le_dec}
use tagro_echo_os.Payments.{
  Payment, PaymentAllocation, PaymentState, no_payments, Ambient, is_in, receive_payment, allocated,
  unallocated, allocate,
}
use tagro_echo_os.Payments.Runs.{
  Run, here, next, received, allocated_by, IsSound, never_over_allocated,
}
use mathlib.Core.List.{Memᴰ}

abbrev at_receipt : Ambient
at_receipt = record { new_id = "pay-1"; now = 1 }

abbrev at_allocation : Ambient
at_allocation = record { new_id = "pal-1"; now = 2 }

paid : PaymentState
unfolding receive_payment le_dec lt_dec scale is_in any is_blank lookup insert allocate unallocated
    allocated filter sum_dec minus plus ◌-ℤ◌ ◌+ℤ◌
paid = (receive_payment at_receipt "kvr" none "cash" (integer (pos 10)) "staff-1" "" no_payments).1

split : PaymentState
unfolding paid
split = (allocate at_allocation "pay-1" "sale" "sal-1" (integer (pos 4)) "staff-1" paid).1

split-Run : Run no_payments split
unfolding split
split-Run =
    next paid split
      (next no_payments paid here
        (received at_receipt "kvr" none "cash" (integer (pos 10)) "staff-1" "" refl refl))
      (allocated_by at_allocation "pay-1" "sale" "sal-1" (integer (pos 4)) "staff-1" refl)

abbrev ten : Payment
ten = record {
  payment_id = "pay-1";
  branch_id = "kvr";
  customer_id = none;
  received_at = 1;
  method = "cash";
  amount = integer (pos 10);
  reference = "";
  actor_id = "staff-1";
  status = "received";
}

never_over_allocated_example :
    (lt_dec (integer (pos 10)) (
        sum_dec (
          map
            (λ (x : PaymentAllocation). x.amount)
            (filter (λ (x : PaymentAllocation). x.payment_id == "pay-1") split.allocations)))
      ≡ false)
    × ((x : PaymentAllocation) → Memᴰ x split.allocations → IsSound split x)
unfolding split
never_over_allocated_example = never_over_allocated split "pay-1" ten split-Run refl
