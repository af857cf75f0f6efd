-- ===== src/Service/Examples.antt =====
-- A machine (src/service/service.py), a job for it, and the job's inspection.
use tagro_echo_os.Base.{none, lookup, insert, any, append, is_blank, refl}
use tagro_echo_os.Service.{
  MachineRecord, ServiceJob, ServiceState, Ambient, no_service, is_status, add_machine, open_job,
  update_status,
}
use tagro_echo_os.Service.Jobs.{
  Run, here, next, machine_by, job_by, status_by, IsSound, jobs-IsSound,
}

abbrev saw : MachineRecord
saw = record {
  machine_id = "m-1";
  customer_id = "c-1";
  product_id = none;
  model = "MS";
  serial_no = "";
  purchase_date = "";
  source = "staff_confirmed";
}

abbrev at_opening : Ambient
at_opening = record { new_id = "job-1"; event_id = "sev-1"; now = 1 }

abbrev at_inspection : Ambient
at_inspection = record { new_id = "none"; event_id = "sev-2"; now = 2 }

known : ServiceState
unfolding add_machine open_job update_status lookup insert is_blank is_status any append
known = (add_machine saw no_service).1

opened : ServiceState
unfolding known
opened = (open_job at_opening "kvr" "c-1" "m-1" "no spark" "staff-1" known).1

inspected : ServiceState
unfolding opened
inspected = (update_status at_inspection "job-1" "inspecting" "" "staff-1" opened).1

inspected-Run : Run no_service inspected
unfolding inspected
inspected-Run =
    next opened inspected
      (next known opened (next no_service known here (machine_by saw refl))
        (job_by at_opening "kvr" "c-1" "m-1" "no spark" "staff-1" refl))
      (status_by at_inspection "job-1" "inspecting" "" "staff-1" refl)

abbrev job : ServiceJob
job = record {
  job_id = "job-1";
  branch_id = "kvr";
  customer_id = "c-1";
  machine_id = "m-1";
  opened_at = 1;
  complaint = "no spark";
  status = "inspecting";
  observations = "";
  estimate_id = none;
}

jobs-IsSound_example : IsSound inspected job
unfolding inspected
jobs-IsSound_example = jobs-IsSound inspected "job-1" job inspected-Run refl
