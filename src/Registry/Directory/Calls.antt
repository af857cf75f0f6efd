-- ===== src/Registry/Directory/Calls.antt =====
-- Runs of the registering methods of `class EnterpriseDirectory` (src/enterprise/registry.py).
use tagro_echo_os.Base.{
  String, false, Option, none, some, Dict, lookup, insert, values, ◌≡◌, refl, arith, inl, inr, ◌||◌,
  Bool-cases, Option-cases, ok, any, is_blank, outcome_cases,
}
use tagro_echo_os.Registry.{Enterprise, EnterpriseUser, BusyNode, BusyBinding, Records}
use tagro_echo_os.Registry.Directory.{
  require_nonempty, is_taken, parent_of, check_parent, register_enterprise, register_user,
  register_busy_node, bind_busy, busy_bindings_for_enterprise, conflicts,
}

-- One call, successful or not.
pub data Step (casefold : String → String) (s u : Records) : Type 0 where
  enterprise_by : (e : Enterprise) → u ≡ (register_enterprise casefold e s).1 → Step casefold s u
  user_by : (a : EnterpriseUser) → u ≡ (register_user a s).1 → Step casefold s u
  node_by : (n : BusyNode) → u ≡ (register_busy_node casefold n s).1 → Step casefold s u
  binding_by : (b : BusyBinding) → u ≡ (bind_busy b s).1 → Step casefold s u

pub data Run (casefold : String → String) (s : Records) : Records → Type 0 where
  here : Run casefold s s
  next : (t u : Records) → Run casefold s t → Step casefold t u → Run casefold s u

-- What the guards of `register_enterprise` let through.
pub record EnterpriseOk (casefold : String → String) (e : Enterprise) (s : Records) : Type 0 where
  pub has_id : is_blank e.enterprise_id ≡ false
  pub free_code :
      is_taken casefold
        (λ r. r.code)
        (λ r. r.enterprise_id)
        e.code
        e.enterprise_id
        (values s.enterprises)
      ≡ false
  pub parent : (check_parent e (parent_of e) s.enterprises s) ≡ (ok tt, s)

pub record NodeOk (casefold : String → String) (n : BusyNode) (s : Records) : Type 0 where
  pub has_id : is_blank n.busy_node_id ≡ false
  pub free_code :
      is_taken casefold
        (λ r. r.code)
        (λ r. r.busy_node_id)
        n.code
        n.busy_node_id
        (values s.busy_nodes)
      ≡ false

pub record BindingOk (b : BusyBinding) (s : Records) : Type 0 where
  pub enterprise_of : (e : Enterprise) × (lookup b.enterprise_id s.enterprises ≡ some e)
  pub node_of : (n : BusyNode) × (lookup b.busy_node_id s.busy_nodes ≡ some n)
  pub free_role : any (conflicts b) (busy_bindings_for_enterprise b.enterprise_id false s) ≡ false

-- What a call does to the records: nothing, or one write that its guards have let through.
pub data Change (casefold : String → String) (s u : Records) : Type 0 where
  stays : u ≡ s → Change casefold s u
  puts_enterprise :
      (e : Enterprise)
      → EnterpriseOk casefold e s
      → u ≡ record s { enterprises = insert e.enterprise_id e s.enterprises }
      → Change casefold s u
  puts_user :
      (a : EnterpriseUser) (e : Enterprise)
      → lookup a.enterprise_id s.enterprises ≡ some e
      → u ≡ record s { users = insert a.assignment_id a s.users }
      → Change casefold s u
  puts_node :
      (n : BusyNode)
      → NodeOk casefold n s
      → u ≡ record s { busy_nodes = insert n.busy_node_id n s.busy_nodes }
      → Change casefold s u
  puts_binding :
      (b : BusyBinding)
      → BindingOk b s
      → u ≡ record s { busy_bindings = insert b.binding_id b s.busy_bindings }
      → Change casefold s u

state-check_parent :
    (e : Enterprise) (o : Option String) (d : Dict Enterprise) (s : Records)
    → (check_parent e o d s).1 ≡ s
unfolding check_parent
state-check_parent e none d s = refl
state-check_parent e (some p) d s = ground arith

register_enterprise-Change :
    (casefold : String → String) (e : Enterprise) (s : Records)
    → Change casefold s (register_enterprise casefold e s).1
unfolding register_enterprise require_nonempty
register_enterprise-Change casefold e s = elim (Bool-cases (is_blank e.enterprise_id)) [
  | inl a ↦ stays (ground arith)
  | inr a ↦ elim (Bool-cases (is_blank e.code)) [
    | inl b ↦ stays (ground arith)
    | inr b ↦ elim (Bool-cases (is_blank e.name)) [
      | inl c ↦ stays (ground arith)
      | inr c ↦
          elim (Bool-cases (
            is_taken casefold (λ r. r.code) (λ r. r.enterprise_id) e.code e.enterprise_id
              (values s.enterprises))) [
                | inl taken ↦ stays (ground arith)
                | inr free ↦
                    elim (outcome_cases (check_parent e (parent_of e) s.enterprises s)
                      (state-check_parent e (parent_of e) s.enterprises s)) [
                        | inr (x, bad) ↦ stays (ground (arith, bad))
                        | inl (_, fine) ↦
                            puts_enterprise e
                              (record { has_id = a; free_code = free; parent = fine })
                              (ground (arith, fine))
                      ]
              ]
    ]
  ]
]

register_user-Change :
    (casefold : String → String) (a : EnterpriseUser) (s : Records)
    → Change casefold s (register_user a s).1
unfolding register_user require_nonempty
register_user-Change casefold a s =
    elim (Bool-cases (is_blank a.assignment_id || is_blank a.user_id)) [
      | inl x ↦ stays (ground arith)
      | inr x ↦ elim (Option-cases (lookup a.enterprise_id s.enterprises)) [
        | inl lost ↦ stays (ground (arith, lost))
        | inr (e, found) ↦ puts_user a e found (ground (arith, found))
      ]
    ]

register_busy_node-Change :
    (casefold : String → String) (n : BusyNode) (s : Records)
    → Change casefold s (register_busy_node casefold n s).1
unfolding register_busy_node require_nonempty
register_busy_node-Change casefold n s =
    elim (Bool-cases (
      is_blank n.busy_node_id
      || is_blank n.code
      || is_blank n.name
      || is_blank n.company_ref
      || is_taken casefold (λ r. r.code) (λ r. r.busy_node_id) n.code n.busy_node_id
          (values s.busy_nodes))) [
            | inl bad ↦ stays (ground arith)
            | inr good ↦
                puts_node n (record { has_id = ground arith; free_code = ground arith })
                  (ground arith)
          ]

bind_busy-Change :
    (casefold : String → String) (b : BusyBinding) (s : Records)
    → Change casefold s (bind_busy b s).1
unfolding bind_busy require_nonempty
bind_busy-Change casefold b s = elim (Bool-cases (is_blank b.binding_id)) [
  | inl x ↦ stays (ground arith)
  | inr x ↦ elim (Option-cases (lookup b.enterprise_id s.enterprises)) [
    | inl lost ↦ stays (ground (arith, lost))
    | inr (e, found) ↦ elim (Option-cases (lookup b.busy_node_id s.busy_nodes)) [
      | inl lost ↦ stays (ground (arith, found, lost))
      | inr (n, at_n) ↦
          elim (Bool-cases
            (any (conflicts b) (busy_bindings_for_enterprise b.enterprise_id false s))) [
              | inl taken ↦ stays (ground (arith, found, at_n))
              | inr free ↦
                  puts_binding b
                    (record { enterprise_of = (e, found); node_of = (n, at_n); free_role = free })
                    (ground (arith, found, at_n))
            ]
    ]
  ]
]

pub Step-Change :
    {casefold : String → String} {s u : Records} → Step casefold s u → Change casefold s u
Step-Change {casefold} {s} (enterprise_by e eq) = rw eq (register_enterprise-Change casefold e s)
Step-Change {casefold} {s} (user_by a eq) = rw eq (register_user-Change casefold a s)
Step-Change {casefold} {s} (node_by n eq) = rw eq (register_busy_node-Change casefold n s)
Step-Change {casefold} {s} (binding_by b eq) = rw eq (bind_busy-Change casefold b s)
