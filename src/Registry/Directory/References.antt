-- ===== src/Registry/Directory/References.antt =====
-- The references between the collections of src/enterprise/registry.py.
use tagro_echo_os.Base.{
  String, some, Dict, lookup, insert, lookup-insert, ◌≡◌, arith, inl, inr, Bool-cases, ◌==◌,
}
use tagro_echo_os.Registry.{Enterprise, EnterpriseUser, BusyNode, BusyBinding, Records, no_records}
use tagro_echo_os.Registry.Directory.Calls.{
  Run, here, next, Change, stays, puts_enterprise, puts_user, puts_node, puts_binding, Step-Change,
}

-- A key that is present.
abbrev pub Has : {V : Type 0} → Dict V → String → Type 0
Has {V} d k = (v : V) × (lookup k d ≡ some v)

insert-Has : {V : Type 0} → (d : Dict V) (k j : String) (v : V) → Has d j → Has (insert k v d) j
insert-Has d k j v (w, found) = elim (Bool-cases (k == j)) [
  | inl same ↦ (v, ground (arith, lookup-insert k j v d))
  | inr other ↦ (w, ground (arith, lookup-insert k j v d, found))
]

record Sound (s : Records) : Type 0 where
  assigned :
      (k : String) (a : EnterpriseUser)
      → lookup k s.users ≡ some a
      → Has s.enterprises a.enterprise_id
  bound :
      (k : String) (b : BusyBinding)
      → lookup k s.busy_bindings ≡ some b
      → Has s.enterprises b.enterprise_id × Has s.busy_nodes b.busy_node_id

Change-Sound :
    (casefold : String → String) (s u : Records) → Change casefold s u → Sound s → Sound u
Change-Sound casefold s u (stays eq) g = rw eq g
Change-Sound casefold s u (puts_enterprise e fine eq) g = rw eq (record {
  assigned = λ k a found.
      insert-Has s.enterprises e.enterprise_id a.enterprise_id e (g.assigned k a found);
  bound = λ k b found.
      let (one, two) = g.bound k b found in
      (insert-Has s.enterprises e.enterprise_id b.enterprise_id e one, two);
})
Change-Sound casefold s u (puts_user x e at_e eq) g = rw eq (record {
  assigned = λ k a found. elim (Bool-cases (x.assignment_id == k)) [
    | inl same ↦ (e, ground (arith, at_e, found, lookup-insert x.assignment_id k x s.users))
    | inr other ↦ g.assigned k a (ground (arith, found, lookup-insert x.assignment_id k x s.users))
  ];
  bound = g.bound;
})
Change-Sound casefold s u (puts_node n fine eq) g = rw eq (record {
  assigned = g.assigned;
  bound = λ k b found.
      let (one, two) = g.bound k b found in
      (one, insert-Has s.busy_nodes n.busy_node_id b.busy_node_id n two);
})
Change-Sound casefold s u (puts_binding x fine eq) g =
    let (e, at_e) = fine.enterprise_of in
    let (n, at_n) = fine.node_of in
    rw eq (record {
      assigned = g.assigned;
      bound = λ k b found. elim (Bool-cases (x.binding_id == k)) [
        | inl same ↦ (
          (e, ground (arith, at_e, found, lookup-insert x.binding_id k x s.busy_bindings)),
          (n, ground (arith, at_n, found, lookup-insert x.binding_id k x s.busy_bindings)),
        )
        | inr other ↦
            g.bound k b (ground (arith, found, lookup-insert x.binding_id k x s.busy_bindings))
      ];
    })

Run-Sound : (casefold : String → String) (s u : Records) → Run casefold s u → Sound s → Sound u
Run-Sound casefold s u here g = g
Run-Sound casefold s u (next t _ run st) g =
    Change-Sound casefold t u (Step-Change st) (Run-Sound casefold s t run g)

none-Sound : Sound no_records
unfolding lookup
none-Sound = record { assigned = λ k a found. ground arith; bound = λ k b found. ground arith }

-- After any calls on an empty directory, every user assignment names a registered enterprise, and every
-- binding names a registered enterprise and a registered BUSY node.
pub references_hold :
    (casefold : String → String) (s : Records)
    → Run casefold no_records s
    → ((k : String) (a : EnterpriseUser)
        → lookup k s.users ≡ some a
        → (e : Enterprise) × (lookup a.enterprise_id s.enterprises ≡ some e))
      × ((k : String) (b : BusyBinding)
          → lookup k s.busy_bindings ≡ some b
          → ((e : Enterprise) × (lookup b.enterprise_id s.enterprises ≡ some e))
            × ((n : BusyNode) × (lookup b.busy_node_id s.busy_nodes ≡ some n)))
references_hold casefold s run =
    let g = Run-Sound casefold no_records s run none-Sound in (g.assigned, g.bound)
