-- ===== src/CounterOps/Examples.antt =====
-- A transfer (src/counter_ops/operations.py) that is requested and dispatched.
use tagro_echo_os.Base.{String, none, some, [], ◌∷◌, Dict, lookup, insert, refl}
use tagro_echo_os.CounterOps.{
  Transfer, OpsState, Ambient, dispatched, is_requested, request_transfer, dispatch_transfer,
}
use tagro_echo_os.CounterOps.Calls.{Run, here, next, transfer_by, dispatched_by}
use tagro_echo_os.CounterOps.Transfers.{IsSound, transfers-IsSound}

abbrev empty_ops : OpsState String
empty_ops = record { purchase_orders = []; transfers = []; counts = [] }

abbrev line : Dict String
line = ("product_id", "saw") ∷ []

abbrev at_request : Ambient
at_request = record { new_id = "trf-1"; now = 1 }

abbrev at_dispatch : Ambient
at_dispatch = record { new_id = "none"; now = 2 }

asked : OpsState String
unfolding request_transfer dispatch_transfer lookup insert is_requested
asked = (request_transfer at_request "kvr" "ern" (line ∷ []) "staff-1" empty_ops).1

sent : OpsState String
unfolding asked
sent = (dispatch_transfer at_dispatch "trf-1" "staff-2" asked).1

sent-Run : Run empty_ops sent
unfolding sent
sent-Run =
    next asked sent
      (next empty_ops asked here (transfer_by at_request "kvr" "ern" (line ∷ []) "staff-1" refl))
      (dispatched_by at_dispatch "trf-1" "staff-2" refl)

abbrev transfer : Transfer String
transfer = record {
  transfer_id = "trf-1";
  from_branch_id = "kvr";
  to_branch_id = "ern";
  lines = line ∷ [];
  requested_by = "staff-1";
  requested_at = 1;
  status = dispatched;
  dispatched_by = "staff-2";
  dispatched_at = some 2;
  received_by = "";
  received_at = none;
}

transfers-IsSound_example : IsSound transfer
unfolding sent
transfers-IsSound_example = transfers-IsSound empty_ops sent "trf-1" transfer refl sent-Run refl
