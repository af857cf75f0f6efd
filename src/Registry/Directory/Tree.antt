-- ===== src/Registry/Directory/Tree.antt =====
-- The hierarchy that the calls of `class EnterpriseDirectory` (src/enterprise/registry.py) build.
use tagro_echo_os.Base.{
  ℕ, suc, String, true, Option, none, some, List, [], Dict, lookup, length, ◌≡◌, ◌↔◌, arith, inl,
  inr, Option-cases, ok,
}
use tagro_echo_os.Registry.{Enterprise, Records, no_records}
use tagro_echo_os.Registry.Directory.{parent_of, check_parent, would_create_cycle, ancestors_of}
use tagro_echo_os.Registry.Directory.Walk.{Free, top, walk-Free}
use tagro_echo_os.Registry.Directory.Hierarchy.{Line, root, Rooted, insert-Rooted}
use tagro_echo_os.Registry.Directory.Ancestry.{
  IsAncestry, IsAbove, ancestors_of-Rooted, would_create_cycle-Rooted,
}
use tagro_echo_os.Registry.Directory.Calls.{
  Run, here, next, Change, stays, puts_enterprise, puts_user, puts_node, puts_binding, Step-Change,
}

-- The guards on the parent let an enterprise through under no parent, or under one that is not below it.
check_parent-Free :
    (e : Enterprise) (o : Option String) (d : Dict Enterprise) (s : Records)
    → Rooted d
    → check_parent e o d s ≡ (ok tt, s)
    → Free d e.enterprise_id o × ((n : ℕ) × Line d n o)
unfolding check_parent would_create_cycle
check_parent-Free e none d s r h = (top, (0, root))
check_parent-Free e (some p) d s r h = elim (Option-cases (lookup p d)) [
  | inl lost ↦ ground (arith, lost)
  | inr (row, found) ↦ (
    walk-Free d e.enterprise_id (suc (length d)) [] (some p) (ground (arith, found)),
    r p row found,
  )
]

Change-Rooted :
    {casefold : String → String} {s u : Records}
    → Change casefold s u
    → Rooted s.enterprises
    → Rooted u.enterprises
Change-Rooted (stays eq) r = rw eq r
Change-Rooted {s = s} (puts_enterprise e fine eq) r =
    let (free, line) = check_parent-Free e (parent_of e) s.enterprises s r fine.parent in
    rw eq (insert-Rooted s.enterprises e e.enterprise_id r free line)
Change-Rooted (puts_user a e found eq) r = rw eq r
Change-Rooted (puts_node n fine eq) r = rw eq r
Change-Rooted (puts_binding b fine eq) r = rw eq r

pub Run-Rooted :
    {casefold : String → String} {s u : Records}
    → Run casefold s u
    → Rooted s.enterprises
    → Rooted u.enterprises
Run-Rooted here r = r
Run-Rooted (next t u run st) r = Change-Rooted (Step-Change st) (Run-Rooted run r)

Rooted-none : Rooted []
unfolding lookup
Rooted-none k row found = cc

-- After any calls on an empty directory, the loop of `ancestors_of` ends for every enterprise without an
-- error, and gives the enterprises above it one after the other up to a root.
pub ancestors_of-IsAncestry :
    (casefold : String → String) (s : Records) (id : String) (e : Enterprise)
    → Run casefold no_records s
    → lookup id s.enterprises ≡ some e
    → (rows : List Enterprise) × (ancestors_of id s ≡ (ok rows, s))
      × IsAncestry s.enterprises (parent_of e) rows
ancestors_of-IsAncestry casefold s id e run found =
    ancestors_of-Rooted s id e (Run-Rooted run Rooted-none) found

-- After any calls on an empty directory, the loop of `_would_create_cycle` answers true for an enterprise
-- and a registered parent exactly when the enterprise is that parent or one of its ancestors.
pub would_create_cycle-IsAbove :
    (casefold : String → String) (s : Records) (own p : String) (row : Enterprise)
    → Run casefold no_records s
    → lookup p s.enterprises ≡ some row
    → (would_create_cycle s.enterprises own p ≡ true) ↔ IsAbove s.enterprises own (some p)
would_create_cycle-IsAbove casefold s own p row run found =
    would_create_cycle-Rooted s.enterprises own p row (Run-Rooted run Rooted-none) found
