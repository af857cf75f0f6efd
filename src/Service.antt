-- ===== src/Service.antt =====
-- src/service/service.py: `class ServiceStore`.
mod Jobs
mod Examples
use tagro_echo_os.Base.{
  ℕ, String, Bool, true, false, not, Option, none, some, List, [], ◌∷◌, ◌++◌, Dict, lookup, insert,
  values, any, filter, ◌==◌, is_blank, strip, append, Action, pure, gets, or_raise, raise_if,
  modify, ◌>>=◌, ◌>>◌,
}

pub record MachineRecord : Type 0 where
  pub machine_id : String
  pub customer_id : String
  pub product_id : Option String
  pub model : String
  pub serial_no : String
  pub purchase_date : String
  pub source : String

pub record ServiceEvent : Type 0 where
  pub event_id : String
  pub job_id : String
  pub occurred_at : ℕ
  pub event_type : String
  pub note : String
  pub actor_id : String

pub record ServiceJob : Type 0 where
  pub job_id : String
  pub branch_id : String
  pub customer_id : String
  pub machine_id : String
  pub opened_at : ℕ
  pub complaint : String
  pub status : String
  pub observations : String
  pub estimate_id : Option String

pub record ServiceState : Type 0 where
  pub machines : Dict MachineRecord
  pub jobs : Dict ServiceJob
  pub events : List ServiceEvent

abbrev pub no_service : ServiceState
no_service = record { machines = []; jobs = []; events = [] }

-- The messages of the ValueErrors, and `no_job` for a KeyError.
pub data ServiceError : Type 0 where
  machine_exists model_required no_machine complaint_required invalid_status no_job
        observation_required :
      ServiceError

abbrev pub Service : Type 0 → Type 0
Service A = Action ServiceState ServiceError A

pub record Ambient : Type 0 where
  pub new_id : String
  pub event_id : String
  pub now : ℕ

-- The set `allowed` of `update_status`.
abbrev pub statuses : List String
statuses =
    "received" ∷ "inspecting" ∷ "estimate_waiting" ∷ "approved" ∷ "repairing" ∷ "ready"
    ∷ "delivered" ∷ "cancelled" ∷ []

unfoldable pub is_status : String → Bool
unfolding any
is_status x = any (λ y. y == x) statuses

-- `_event`
abbrev pub log_event : Ambient → String → String → String → String → ServiceState → ServiceState
log_event v job_id event_type note actor_id s = record s {
  events =
      s.events
      ++ (record {
        event_id = v.event_id;
        job_id = job_id;
        occurred_at = v.now;
        event_type = event_type;
        note = note;
        actor_id = actor_id;
      })
        ∷ [];
}

unfoldable pub add_machine : MachineRecord → Service MachineRecord
unfolding lookup insert
add_machine m = do
  found ← gets (λ s. lookup m.machine_id s.machines)
  raise_if (elim found [ none ↦ false | some x ↦ true ]) machine_exists
  raise_if (is_blank m.model) model_required
  modify (λ s. record s { machines = insert m.machine_id m s.machines })
  pure m

unfoldable pub open_job : Ambient → String → String → String → String → String → Service ServiceJob
unfolding lookup insert
open_job v branch_id customer_id machine_id complaint actor_id = do
  found ← gets (λ s. lookup machine_id s.machines)
  raise_if (elim found [ none ↦ true | some x ↦ false ]) no_machine
  raise_if (is_blank complaint) complaint_required
  let j : ServiceJob = record {
    job_id = v.new_id;
    branch_id = branch_id;
    customer_id = customer_id;
    machine_id = machine_id;
    opened_at = v.now;
    complaint = complaint;
    status = "received";
    observations = "";
    estimate_id = none;
  }
  modify (λ s. record s { jobs = insert j.job_id j s.jobs })
  modify (log_event v j.job_id "received" complaint actor_id)
  pure j

unfoldable pub update_status : Ambient → String → String → String → String → Service ServiceJob
unfolding is_status lookup insert append
update_status v job_id status note actor_id = do
  raise_if (not (is_status status)) invalid_status
  found ← gets (λ s. lookup job_id s.jobs)
  old ← or_raise found no_job
  let j = record old { status = status }
  modify (λ s. record s { jobs = insert job_id j s.jobs })
  modify (log_event v job_id (append "status." status) note actor_id)
  pure j

unfoldable pub add_observation : Ambient → String → String → String → Service ServiceJob
unfolding lookup insert append strip
add_observation v job_id observation actor_id = do
  raise_if (is_blank observation) observation_required
  found ← gets (λ s. lookup job_id s.jobs)
  old ← or_raise found no_job
  let j = record old { observations = strip (append old.observations (append "\n" observation)) }
  modify (λ s. record s { jobs = insert job_id j s.jobs })
  modify (log_event v job_id "observation" observation actor_id)
  pure j

-- `history_for_machine`, for a machine that is there.
unfoldable pub history_for_machine : String → ServiceState → List ServiceJob × List ServiceEvent
unfolding filter values any
history_for_machine machine_id s =
    let jobs = filter (λ (j : ServiceJob). j.machine_id == machine_id) (values s.jobs) in
    (
      jobs,
      filter (λ (e : ServiceEvent). any (λ (j : ServiceJob). j.job_id == e.job_id) jobs) s.events,
    )
