-- ===== src/Registry/Examples.antt =====
-- A directory (src/enterprise/registry.py) of a company with one counter, a user, and a bound BUSY node.
use tagro_echo_os.Base.{
  String, Option, true, none, some, List, [], ◌∷◌, lookup, insert, values, any, filter, ◌≡◌, ◌↔◌,
  refl, ok, is_blank, is_empty, strip,
}
use tagro_echo_os.Registry.{Enterprise, EnterpriseUser, BusyNode, BusyBinding, Records, no_records}
use tagro_echo_os.Registry.Directory.{
  require_nonempty, is_taken, parent_of, member, walk, would_create_cycle, check_parent,
  register_enterprise, register_user, register_busy_node, bind_busy, busy_bindings_for_enterprise,
  conflicts, ancestors_of, resolve_busy_binding,
}
use tagro_echo_os.Registry.Directory.Calls.{
  Run, here, next, enterprise_by, user_by, node_by, binding_by,
}
use tagro_echo_os.Registry.Directory.Ancestry.{IsAncestry, IsAbove}
use tagro_echo_os.Registry.Directory.Tree.{ancestors_of-IsAncestry, would_create_cycle-IsAbove}
use tagro_echo_os.Registry.Directory.Bindings.{serves, resolve_busy_binding_lem}
use tagro_echo_os.Registry.Directory.Integrity.{IsConsistent, directory-IsConsistent}

abbrev as_is : String → String
as_is s = s

abbrev company : Enterprise
company = record {
  enterprise_id = "ent-root";
  code = "TAGRO";
  name = "Tagro";
  enterprise_type = "company";
  parent_enterprise_id = none;
  legal_identity_ref = none;
  district = none;
  region = none;
  active = true;
  metadata = [];
}

abbrev counter : Enterprise
counter = record company {
  enterprise_id = "ent-kvr";
  code = "KVR";
  name = "Kavaratti";
  enterprise_type = "counter";
  parent_enterprise_id = some "ent-root";
}

abbrev clerk : EnterpriseUser
clerk = record {
  assignment_id = "as-1";
  user_id = "user-1";
  enterprise_id = "ent-kvr";
  roles = "cashier" ∷ [];
  tool_packs = [];
  active = true;
}

abbrev node : BusyNode
node = record {
  busy_node_id = "busy-1";
  code = "B1";
  name = "Busy";
  company_ref = "comp-1";
  node_type = "company";
  company_data_locator = none;
  active = true;
  capabilities = [];
  metadata = [];
}

abbrev binding : BusyBinding
binding = record {
  binding_id = "bind-1";
  enterprise_id = "ent-kvr";
  busy_node_id = "busy-1";
  binding_role = "primary_accounts";
  material_centre_ref = none;
  voucher_series = [];
  active = true;
}

with_company : Records
unfolding register_enterprise register_user register_busy_node bind_busy require_nonempty is_taken
    check_parent would_create_cycle walk values insert parent_of is_blank lookup any conflicts
    busy_bindings_for_enterprise filter strip member is_empty
with_company = (register_enterprise as_is company no_records).1

with_counter : Records
unfolding with_company
with_counter = (register_enterprise as_is counter with_company).1

with_clerk : Records
unfolding with_counter
with_clerk = (register_user clerk with_counter).1

with_node : Records
unfolding with_clerk
with_node = (register_busy_node as_is node with_clerk).1

bound : Records
unfolding with_node
bound = (bind_busy binding with_node).1

bound-Run : Run as_is no_records bound
unfolding bound
bound-Run =
    next with_node bound
      (next with_clerk with_node
        (next with_counter with_clerk
          (next with_company with_counter
            (next no_records with_company here (enterprise_by company refl))
            (enterprise_by counter refl))
          (user_by clerk refl))
        (node_by node refl))
      (binding_by binding refl)

ancestors_of-IsAncestry_example :
    (rows : List Enterprise) × (ancestors_of "ent-kvr" bound ≡ (ok rows, bound))
    × IsAncestry bound.enterprises (parent_of counter) rows
unfolding bound
ancestors_of-IsAncestry_example =
    ancestors_of-IsAncestry as_is bound "ent-kvr" counter bound-Run refl

would_create_cycle-IsAbove_example :
    (would_create_cycle bound.enterprises "ent-root" "ent-kvr" ≡ true)
    ↔ IsAbove bound.enterprises "ent-root" (some "ent-kvr")
unfolding bound
would_create_cycle-IsAbove_example =
    would_create_cycle-IsAbove as_is bound "ent-root" "ent-kvr" counter bound-Run refl

-- The company may not be put under its own counter.
cycle_refused : would_create_cycle bound.enterprises "ent-root" "ent-kvr" ≡ true
unfolding bound
cycle_refused = refl

resolve_busy_binding_lem_example :
    (found : Option BusyBinding) × (resolve_busy_binding "ent-kvr" "primary_accounts" bound
      ≡ (ok found, bound))
    × ((b : BusyBinding)
        → (found ≡ some b) ↔ (
            (k : String) × (lookup k bound.busy_bindings ≡ some b)
            × (serves "ent-kvr" "primary_accounts" b ≡ true)))
resolve_busy_binding_lem_example =
    resolve_busy_binding_lem as_is bound "ent-kvr" "primary_accounts" bound-Run

directory-IsConsistent_example : IsConsistent as_is bound
directory-IsConsistent_example = directory-IsConsistent as_is bound bound-Run
