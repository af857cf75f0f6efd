-- ===== src/Registry/Directory/Integrity.antt =====
-- The collections of src/enterprise/registry.py together: their codes and their references.
use tagro_echo_os.Base.{String, some, lookup, strip, ◌≡◌}
use tagro_echo_os.Registry.{Enterprise, EnterpriseUser, BusyNode, BusyBinding, Records, no_records}
use tagro_echo_os.Registry.Directory.Calls.{Run}
use tagro_echo_os.Registry.Directory.Codes.{unique_codes}
use tagro_echo_os.Registry.Directory.References.{references_hold}

-- No two rows of a collection have codes that agree up to case and surrounding white space, and what a
-- row refers to is there.
pub record IsConsistent (casefold : String → String) (s : Records) : Type 0 where
  pub enterprise_codes :
      (j k : String) (a b : Enterprise)
      → lookup j s.enterprises ≡ some a
      → lookup k s.enterprises ≡ some b
      → casefold (strip a.code) ≡ casefold (strip b.code)
      → j ≡ k
  pub node_codes :
      (j k : String) (a b : BusyNode)
      → lookup j s.busy_nodes ≡ some a
      → lookup k s.busy_nodes ≡ some b
      → casefold (strip a.code) ≡ casefold (strip b.code)
      → j ≡ k
  pub assigned :
      (k : String) (a : EnterpriseUser)
      → lookup k s.users ≡ some a
      → (e : Enterprise) × (lookup a.enterprise_id s.enterprises ≡ some e)
  pub bound :
      (k : String) (b : BusyBinding)
      → lookup k s.busy_bindings ≡ some b
      → ((e : Enterprise) × (lookup b.enterprise_id s.enterprises ≡ some e))
        × ((n : BusyNode) × (lookup b.busy_node_id s.busy_nodes ≡ some n))

-- After any calls on an empty directory, two enterprises whose codes agree up to case and surrounding
-- white space are the same one, and so are two BUSY nodes; every user assignment names a registered
-- enterprise, and every binding names a registered enterprise and a registered BUSY node.
pub directory-IsConsistent :
    (casefold : String → String) (s : Records) → Run casefold no_records s → IsConsistent casefold s
directory-IsConsistent casefold s run =
    let (enterprise_codes, node_codes) = unique_codes casefold s run in
    let (assigned, bound) = references_hold casefold s run in
    record {
      enterprise_codes = enterprise_codes;
      node_codes = node_codes;
      assigned = assigned;
      bound = bound;
    }
