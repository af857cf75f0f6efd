-- ===== src/Service/Jobs.antt =====
-- The jobs that the methods of `class ServiceStore` (src/service/service.py) make.
use tagro_echo_os.Base.{
  String, true, none, some, lookup, insert, lookup-insert, ◌==◌, ◌≡◌, refl, arith, ◌⊎◌, inl, inr,
  Bool-cases, Option-cases, any, is_blank, append, strip,
}
use mathlib.Core.Path.{subst}
use tagro_echo_os.Service.{
  MachineRecord, ServiceJob, ServiceState, Ambient, no_service, is_status, add_machine, open_job,
  update_status, add_observation,
}

-- One call, successful or not.
pub data Step (s u : ServiceState) : Type 0 where
  machine_by : (m : MachineRecord) → u ≡ (add_machine m s).1 → Step s u
  job_by :
      (v : Ambient) (branch customer machine complaint actor : String)
      → u ≡ (open_job v branch customer machine complaint actor s).1
      → Step s u
  status_by :
      (v : Ambient) (id status note actor : String)
      → u ≡ (update_status v id status note actor s).1
      → Step s u
  observation_by :
      (v : Ambient) (id text actor : String) → u ≡ (add_observation v id text actor s).1 → Step s u

pub data Run (s : ServiceState) : ServiceState → Type 0 where
  here : Run s s
  next : (t u : ServiceState) → Run s t → Step t u → Run s u

-- The permitted changes.
data Change (s u : ServiceState) : Type 0 where
  same : u ≡ s → Change s u
  adds :
      (m : MachineRecord)
      → u.machines ≡ insert m.machine_id m s.machines
      → u.jobs ≡ s.jobs
      → Change s u
  puts :
      (id : String) (j : ServiceJob) (m : MachineRecord)
      → is_status j.status ≡ true
      → lookup j.machine_id s.machines ≡ some m
      → u.machines ≡ s.machines
      → u.jobs ≡ insert id j s.jobs
      → Change s u
  revises :
      (id : String) (old j : ServiceJob)
      → lookup id s.jobs ≡ some old
      → j.machine_id ≡ old.machine_id
      → (is_status j.status ≡ true) ⊎ (j.status ≡ old.status)
      → u.machines ≡ s.machines
      → u.jobs ≡ insert id j s.jobs
      → Change s u

received_ok : is_status "received" ≡ true
unfolding is_status any
received_ok = refl

Step-Change : {s u : ServiceState} → Step s u → Change s u
unfolding add_machine open_job update_status add_observation
Step-Change {s} (machine_by m eq) = elim (Option-cases (lookup m.machine_id s.machines)) [
  | inr (x, found) ↦ same (ground (arith, eq, found))
  | inl fresh ↦ elim (Bool-cases (is_blank m.model)) [
    | inl blank ↦ same (ground (arith, eq, fresh))
    | inr named ↦ adds m (ground (arith, eq, fresh)) (ground (arith, eq, fresh))
  ]
]
Step-Change {s} (job_by v branch customer machine complaint actor eq) =
    elim (Option-cases (lookup machine s.machines)) [
      | inl lost ↦ same (ground (arith, eq, lost))
      | inr (m, found) ↦ elim (Bool-cases (is_blank complaint)) [
        | inl blank ↦ same (ground (arith, eq, found))
        | inr named ↦
            puts v.new_id
              (record {
                job_id = v.new_id;
                branch_id = branch;
                customer_id = customer;
                machine_id = machine;
                opened_at = v.now;
                complaint = complaint;
                status = "received";
                observations = "";
                estimate_id = none;
              })
              m received_ok found (ground (arith, eq, found)) (ground (arith, eq, found))
      ]
    ]
Step-Change {s} (status_by v id status note actor eq) = elim (Bool-cases (is_status status)) [
  | inr bad ↦ same (ground (arith, eq))
  | inl fine ↦ elim (Option-cases (lookup id s.jobs)) [
    | inl lost ↦ same (ground (arith, eq, lost))
    | inr (old, found) ↦
        revises id old (record old { status = status }) found refl (inl fine)
          (ground (arith, eq, found)) (ground (arith, eq, found))
  ]
]
Step-Change {s} (observation_by v id text actor eq) = elim (Bool-cases (is_blank text)) [
  | inl bad ↦ same (ground (arith, eq))
  | inr fine ↦ elim (Option-cases (lookup id s.jobs)) [
    | inl lost ↦ same (ground (arith, eq, lost))
    | inr (old, found) ↦
        revises id old
          (record old { observations = strip (append old.observations (append "\n" text)) }) found
          refl (inr refl) (ground (arith, eq, found)) (ground (arith, eq, found))
  ]
]

-- A job with a permitted status, of a registered machine.
pub record IsSound (s : ServiceState) (j : ServiceJob) : Type 0 where
  pub known_status : is_status j.status ≡ true
  pub machine : (m : MachineRecord) × (lookup j.machine_id s.machines ≡ some m)

abbrev AllSound : ServiceState → Type 0
AllSound s = (k : String) (j : ServiceJob) → lookup k s.jobs ≡ some j → IsSound s j

Change-AllSound : (s u : ServiceState) → Change s u → AllSound s → AllSound u
Change-AllSound s u (same eq) g = rw eq g
Change-AllSound s u (adds m machines jobs) g = λ k j found.
    let old = g k j (ground (arith, jobs, found)) in
    let (x, at_x) = old.machine in
    record {
      known_status = old.known_status;
      machine = elim (Bool-cases (m.machine_id == j.machine_id)) [
        | inl this ↦
            (m, ground (arith, machines, lookup-insert m.machine_id j.machine_id m s.machines))
        | inr other ↦ (
          x,
          ground (arith, machines, at_x, lookup-insert m.machine_id j.machine_id m s.machines),
        )
      ];
    }
Change-AllSound s u (puts id new m fine at_m machines jobs) g = λ k j found.
    elim (Bool-cases (id == k)) [
      | inl this ↦
          let it : new ≡ j = ground (arith, jobs, found, lookup-insert id k new s.jobs) in
          subst (IsSound u) it
            (record { known_status = fine; machine = (m, ground (arith, machines, at_m)) })
      | inr other ↦
          let old = g k j (ground (arith, jobs, found, lookup-insert id k new s.jobs)) in
          record {
            known_status = old.known_status;
            machine = (old.machine.0, ground (arith, machines, old.machine.1));
          }
    ]
Change-AllSound s u (revises id was new at_id kept status machines jobs) g = λ k j found.
    elim (Bool-cases (id == k)) [
      | inl this ↦
          let it : new ≡ j = ground (arith, jobs, found, lookup-insert id k new s.jobs) in
          let old = g id was at_id in
          subst (IsSound u) it (record {
            known_status = ground (arith, status, old.known_status);
            machine = (old.machine.0, ground (arith, machines, kept, old.machine.1));
          })
      | inr other ↦
          let old = g k j (ground (arith, jobs, found, lookup-insert id k new s.jobs)) in
          record {
            known_status = old.known_status;
            machine = (old.machine.0, ground (arith, machines, old.machine.1));
          }
    ]

Run-AllSound : (s u : ServiceState) → Run s u → AllSound s → AllSound u
Run-AllSound s u here g = g
Run-AllSound s u (next t _ run st) g = Change-AllSound t u (Step-Change st) (Run-AllSound s t run g)

none-AllSound : AllSound no_service
unfolding lookup
none-AllSound k j found = ground arith

-- After any calls on an empty store, every service job has one of the eight permitted statuses and is of a
-- machine that is registered.
pub jobs-IsSound :
    (u : ServiceState) (k : String) (j : ServiceJob)
    → Run no_service u
    → lookup k u.jobs ≡ some j
    → IsSound u j
jobs-IsSound u k j run found = Run-AllSound no_service u run none-AllSound k j found
