-- ===== src/Registry/Directory.antt =====
-- src/enterprise/registry.py: the methods of `class EnterpriseDirectory`. `casefold` is `str.casefold`.
pub mod Walk
pub mod Hierarchy
pub mod Ancestry
pub mod Tree
pub mod Calls
pub mod Codes
pub mod Bindings
pub mod References
pub mod Integrity
use tagro_echo_os.Base.{
  ℕ, zero, suc, String, Bool, true, false, ◌||◌, ◌&&◌, not, Option, none, some, List, [], ◌∷◌, Dict,
  lookup, insert, values, any, filter, length, ◌==◌, is_blank, is_empty, strip, Action, Result, ok,
  err, pure, gets, raise_if, modify, lift, or_raise, ◌>>=◌, ◌>>◌, if◌then◌else◌,
}
use tagro_echo_os.Registry.{
  Enterprise, EnterpriseUser, BusyNode, BusyBinding, Records, RegistryError, is_required,
  duplicate_enterprise, duplicate_node, own_parent, no_parent, hierarchy_cycle, no_enterprise,
  no_busy_node, role_bound, stored_cycle, stored_parent_missing, several_bindings,
}

abbrev pub Directory : Type 0 → Type 0
Directory A = Action Records RegistryError A

-- `c in seen`
unfoldable pub member : String → List String → Bool
unfolding any
member c seen = any (λ x. x == c) seen

-- `_require_nonempty`
unfoldable pub require_nonempty : String → String → Directory Unit
require_nonempty value label = raise_if (is_blank value) (is_required label)

-- The test of `_require_unique_code` over the rows of a collection.
unfoldable pub is_taken :
    {A : Type 0} → (String → String) → (A → String) → (A → String) → String → String → List A → Bool
unfolding any
is_taken casefold code_of id_of code own_id rows =
    any
      (λ row. casefold (strip (code_of row)) == casefold (strip code) && not (id_of row == own_id))
      rows

-- `enterprise.parent_enterprise_id` where it is read as a condition: an empty text counts as none.
unfoldable pub parent_of : Enterprise → Option String
parent_of e = elim e.parent_enterprise_id [
  | none ↦ none
  | some p ↦ if is_empty p then none else some p
]

-- The loop of `_would_create_cycle`, on fuel.
unfoldable pub walk : Dict Enterprise → String → ℕ → List String → Option String → Bool
unfolding lookup member parent_of
walk d own zero seen current = true
walk d own (suc n) seen none = false
walk d own (suc n) seen (some current) =
    if current == own then true else if member current seen then true else elim (lookup current d) [
      | none ↦ false
      | some row ↦ walk d own n (current ∷ seen) (parent_of row)
    ]

-- `_would_create_cycle`: each round of the loop but the last reads one more enterprise.
unfoldable pub would_create_cycle : Dict Enterprise → String → String → Bool
unfolding walk
would_create_cycle d own parent = walk d own (suc (length d)) [] (some parent)

-- The guards of `register_enterprise` on the parent.
unfoldable pub check_parent : Enterprise → Option String → Dict Enterprise → Directory Unit
unfolding would_create_cycle
check_parent e none d = pure tt
check_parent e (some p) d = do
  raise_if (p == e.enterprise_id) own_parent
  raise_if (elim (lookup p d) [ none ↦ true | some row ↦ false ]) no_parent
  raise_if (would_create_cycle d e.enterprise_id p) hierarchy_cycle

unfoldable pub register_enterprise : (String → String) → Enterprise → Directory Unit
unfolding require_nonempty is_taken check_parent values insert
register_enterprise casefold e = do
  require_nonempty e.enterprise_id "enterprise_id"
  require_nonempty e.code "enterprise code"
  require_nonempty e.name "enterprise name"
  d ← gets (λ s. s.enterprises)
  raise_if
      (is_taken casefold (λ r. r.code) (λ r. r.enterprise_id) e.code e.enterprise_id (values d))
      duplicate_enterprise
  check_parent e (parent_of e) d
  modify (λ s. record s { enterprises = insert e.enterprise_id e s.enterprises })

unfoldable pub register_user : EnterpriseUser → Directory Unit
unfolding require_nonempty lookup insert
register_user a = do
  require_nonempty a.assignment_id "assignment_id"
  require_nonempty a.user_id "user_id"
  found ← gets (λ s. lookup a.enterprise_id s.enterprises)
  _ ← or_raise found no_enterprise
  modify (λ s. record s { users = insert a.assignment_id a s.users })

unfoldable pub register_busy_node : (String → String) → BusyNode → Directory Unit
unfolding require_nonempty is_taken values insert
register_busy_node casefold n = do
  require_nonempty n.busy_node_id "busy_node_id"
  require_nonempty n.code "BUSY node code"
  require_nonempty n.name "BUSY node name"
  require_nonempty n.company_ref "BUSY company_ref"
  d ← gets (λ s. s.busy_nodes)
  raise_if (is_taken casefold (λ r. r.code) (λ r. r.busy_node_id) n.code n.busy_node_id (values d))
      duplicate_node
  modify (λ s. record s { busy_nodes = insert n.busy_node_id n s.busy_nodes })

-- `busy_bindings_for_enterprise`
unfoldable pub busy_bindings_for_enterprise : String → Bool → Records → List BusyBinding
unfolding filter values
busy_bindings_for_enterprise enterprise_id active_only s =
    filter (λ r. r.enterprise_id == enterprise_id && (r.active || not active_only))
      (values s.busy_bindings)

-- The condition of `bind_busy` under which an existing binding stands in the way.
unfoldable pub conflicts : BusyBinding → BusyBinding → Bool
conflicts b existing =
    not (existing.binding_id == b.binding_id)
    && (existing.binding_role == b.binding_role)
    && existing.active
    && b.active

unfoldable pub bind_busy : BusyBinding → Directory Unit
unfolding require_nonempty lookup insert busy_bindings_for_enterprise conflicts any
bind_busy b = do
  require_nonempty b.binding_id "binding_id"
  found ← gets (λ s. lookup b.enterprise_id s.enterprises)
  _ ← or_raise found no_enterprise
  node ← gets (λ s. lookup b.busy_node_id s.busy_nodes)
  _ ← or_raise node no_busy_node
  existing ← gets (busy_bindings_for_enterprise b.enterprise_id false)
  raise_if (any (conflicts b) existing) role_bound
  modify (λ s. record s { busy_bindings = insert b.binding_id b s.busy_bindings })

-- The loop of `ancestors_of`, on fuel.
unfoldable pub climb :
    Dict Enterprise → ℕ → List String → Enterprise → Result RegistryError (List Enterprise)
unfolding lookup member parent_of
climb d zero seen current = err stored_cycle
climb d (suc n) seen current = elim (parent_of current) [
  | none ↦ ok []
  | some parent_id ↦ if member parent_id seen then err stored_cycle else elim (lookup parent_id d) [
    | none ↦ err stored_parent_missing
    | some parent ↦ elim (climb d n (parent_id ∷ seen) parent) [
      | err e ↦ err e
      | ok rest ↦ ok (parent ∷ rest)
    ]
  ]
]

unfoldable pub ancestors_of : String → Directory (List Enterprise)
unfolding climb lookup
ancestors_of enterprise_id = do
  d ← gets (λ s. s.enterprises)
  current ← or_raise (lookup enterprise_id d) no_enterprise
  lift (climb d (suc (length d)) [] current)

-- `resolve_busy_binding`
unfoldable pub resolve_busy_binding : String → String → Directory (Option BusyBinding)
unfolding busy_bindings_for_enterprise filter
resolve_busy_binding enterprise_id binding_role = do
  rows ← gets (busy_bindings_for_enterprise enterprise_id true)
  lift (elim (filter (λ b. b.binding_role == binding_role) rows) [
    | [] ↦ ok none
    | b ∷ more ↦ elim more [ [] ↦ ok (some b) | c ∷ others ↦ err several_bindings ]
  ])

-- `enterprises`
unfoldable pub enterprises : Bool → Records → List Enterprise
unfolding filter values
enterprises active_only s = filter (λ r. r.active || not active_only) (values s.enterprises)

-- `children_of`
unfoldable pub children_of : String → Bool → Records → List Enterprise
unfolding enterprises
children_of enterprise_id active_only s =
    filter (λ e. elim e.parent_enterprise_id [ none ↦ false | some p ↦ p == enterprise_id ])
      (enterprises active_only s)

-- `assignments_for_user`
unfoldable pub assignments_for_user : String → Bool → Records → List EnterpriseUser
unfolding filter values
assignments_for_user user_id active_only s =
    filter (λ r. r.user_id == user_id && (r.active || not active_only)) (values s.users)

-- `user_has_role`
unfoldable pub user_has_role : (String → String) → String → String → String → Records → Bool
unfolding assignments_for_user any
user_has_role casefold user_id enterprise_id role s =
    any
      (λ a.
        a.enterprise_id == enterprise_id
        && any (λ r. casefold (strip r) == casefold (strip role)) a.roles)
      (assignments_for_user user_id true s)

-- `users_for_enterprise`
unfoldable pub users_for_enterprise : String → Bool → Records → List EnterpriseUser
unfolding filter values
users_for_enterprise enterprise_id active_only s =
    filter (λ r. r.enterprise_id == enterprise_id && (r.active || not active_only)) (values s.users)

-- `user_has_tool`
unfoldable pub user_has_tool : (String → String) → String → String → String → Records → Bool
unfolding assignments_for_user any
user_has_tool casefold user_id enterprise_id tool_pack s =
    any
      (λ a.
        a.enterprise_id == enterprise_id
        && any (λ t. casefold (strip t) == casefold (strip tool_pack)) a.tool_packs)
      (assignments_for_user user_id true s)

-- `busy_nodes`
unfoldable pub busy_nodes : Bool → Records → List BusyNode
unfolding filter values
busy_nodes active_only s = filter (λ r. r.active || not active_only) (values s.busy_nodes)

-- `_all_bindings`
unfoldable pub all_bindings : Bool → Records → List BusyBinding
unfolding filter values
all_bindings active_only s = filter (λ r. r.active || not active_only) (values s.busy_bindings)

-- `enterprises_for_busy_node`
unfoldable pub enterprises_for_busy_node : String → Bool → Records → List Enterprise
unfolding enterprises all_bindings filter any
enterprises_for_busy_node busy_node_id active_only s =
    filter
      (λ e.
        any (λ b. b.busy_node_id == busy_node_id && b.enterprise_id == e.enterprise_id)
          (all_bindings active_only s))
      (enterprises active_only s)
