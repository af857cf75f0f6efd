-- ===== src/Registry/Directory/Bindings.antt =====
-- The active BUSY bindings (`bind_busy` and `resolve_busy_binding` of src/enterprise/registry.py).
use tagro_echo_os.Base.{
  String, Bool, true, false, not, ◌&&◌, ◌||◌, Option, none, some, Dict, lookup, insert,
  lookup-insert, values, any, any-values-false, any-filter, filter, filter-filter,
  filter-values_cases, Distinct, empty, insert-Distinct, ◌==◌, ◌≡◌, ◌↔◌, arith, inl, inr, eq_iff,
  [], ok,
}
use tagro_echo_os.Registry.{BusyBinding, Records, no_records}
use tagro_echo_os.Registry.Directory.{busy_bindings_for_enterprise, conflicts, resolve_busy_binding}
use tagro_echo_os.Registry.Directory.Calls.{
  Run, here, next, Change, stays, puts_enterprise, puts_user, puts_node, puts_binding, Step-Change,
}

-- A binding that is active for an enterprise in a role.
unfoldable pub serves : String → String → BusyBinding → Bool
serves enterprise_id role b =
    (b.enterprise_id == enterprise_id) && b.active && (b.binding_role == role)

record Exclusive (d : Dict BusyBinding) : Type 0 where
  distinct : Distinct d
  keyed : (k : String) (b : BusyBinding) → lookup k d ≡ some b → b.binding_id ≡ k
  once :
      (enterprise_id role j k : String) (a b : BusyBinding)
      → lookup j d ≡ some a
      → lookup k d ≡ some b
      → serves enterprise_id role a ≡ true
      → serves enterprise_id role b ≡ true
      → j ≡ k

other_binding :
    (s : Records) (b : BusyBinding) (enterprise_id role k : String) (a : BusyBinding)
    → any (conflicts b) (busy_bindings_for_enterprise b.enterprise_id false s) ≡ false
    → lookup k s.busy_bindings ≡ some a
    → serves enterprise_id role a ≡ true
    → serves enterprise_id role b ≡ true
    → a.binding_id ≡ b.binding_id
unfolding serves conflicts busy_bindings_for_enterprise
other_binding s b enterprise_id role k a free found one two =
    let test =
      any-values-false
        (λ r. (r.enterprise_id == b.enterprise_id && (r.active || not false)) && conflicts b r) k a
        s.busy_bindings
        (ground (
          arith,
          any-filter (λ r. r.enterprise_id == b.enterprise_id && (r.active || not false))
              (conflicts b) (values s.busy_bindings),
        ))
        found in
    ground (
      arith,
      test,
      eq_iff a.enterprise_id b.enterprise_id,
      eq_iff a.enterprise_id enterprise_id,
      eq_iff b.enterprise_id enterprise_id,
      eq_iff a.binding_role role,
      eq_iff b.binding_role role,
      eq_iff a.binding_role b.binding_role,
      eq_iff a.binding_id b.binding_id,
    )

insert-Exclusive :
    (s : Records) (x : BusyBinding)
    → any (conflicts x) (busy_bindings_for_enterprise x.enterprise_id false s) ≡ false
    → Exclusive s.busy_bindings
    → Exclusive (insert x.binding_id x s.busy_bindings)
insert-Exclusive s x free c = record {
  distinct = insert-Distinct x.binding_id x s.busy_bindings c.distinct;
  keyed = λ k a found.
      ground
        (arith, lookup-insert x.binding_id k x s.busy_bindings, eq_iff x.binding_id k, c.keyed k a);
  once = λ enterprise_id role j k a b at_j at_k one two. ground (
    arith,
    lookup-insert x.binding_id j x s.busy_bindings,
    lookup-insert x.binding_id k x s.busy_bindings,
    eq_iff x.binding_id j,
    eq_iff x.binding_id k,
    c.once enterprise_id role j k a b,
    c.keyed j a,
    c.keyed k b,
    other_binding s x enterprise_id role j a free,
    other_binding s x enterprise_id role k b free,
  );
}

Change-Exclusive :
    {casefold : String → String} {s u : Records}
    → Change casefold s u
    → Exclusive s.busy_bindings
    → Exclusive u.busy_bindings
Change-Exclusive (stays eq) c = rw eq c
Change-Exclusive (puts_enterprise e fine eq) c = rw eq c
Change-Exclusive (puts_user a e found eq) c = rw eq c
Change-Exclusive (puts_node n fine eq) c = rw eq c
Change-Exclusive {s = s} (puts_binding b fine eq) c = rw eq (insert-Exclusive s b fine.free_role c)

Run-Exclusive :
    {casefold : String → String} {s u : Records}
    → Run casefold s u
    → Exclusive s.busy_bindings
    → Exclusive u.busy_bindings
Run-Exclusive here c = c
Run-Exclusive (next t u run st) c = Change-Exclusive (Step-Change st) (Run-Exclusive run c)

none-Exclusive : Exclusive []
unfolding lookup
none-Exclusive = record {
  distinct = empty;
  keyed = λ k b found. ground arith;
  once = λ enterprise_id role j k a b at_j at_k one two. ground arith;
}

-- The rows that `resolve_busy_binding` finds.
matches_of :
    (enterprise_id role : String) (s : Records)
    → filter (λ b. b.binding_role == role) (busy_bindings_for_enterprise enterprise_id true s)
      ≡ filter
          (λ b.
            (b.enterprise_id == enterprise_id && (b.active || not true))
            && (b.binding_role == role))
          (values s.busy_bindings)
unfolding busy_bindings_for_enterprise
matches_of enterprise_id role s =
    filter-filter (λ r. r.enterprise_id == enterprise_id && (r.active || not true))
      (λ b. b.binding_role == role) (values s.busy_bindings)

-- After any calls on an empty directory, `resolve_busy_binding` does not raise: it returns the one binding
-- that is active for the enterprise in the role, and none when there is no such binding.
pub resolve_busy_binding_lem :
    (casefold : String → String) (s : Records) (enterprise_id role : String)
    → Run casefold no_records s
    → (found : Option BusyBinding) × (resolve_busy_binding enterprise_id role s ≡ (ok found, s))
      × ((b : BusyBinding)
          → (found ≡ some b) ↔ (
              (k : String) × (lookup k s.busy_bindings ≡ some b)
              × (serves enterprise_id role b ≡ true)))
unfolding resolve_busy_binding serves
resolve_busy_binding_lem casefold s enterprise_id role run =
    let c = Run-Exclusive run none-Exclusive in
    let test : BusyBinding → Bool = λ b.
      (b.enterprise_id == enterprise_id && (b.active || not true)) && (b.binding_role == role) in
    elim (filter-values_cases test s.busy_bindings c.distinct (λ j k a b at_j at_k one two.
      c.once enterprise_id role j k a b at_j at_k (ground arith) (ground arith))) [
        | inl (nothing, fails) ↦ (
          none,
          ground (arith, nothing, matches_of enterprise_id role s),
          λ b. (λ h. ground arith, λ (k, at_k, yes_it). ground (arith, fails k b at_k)),
        )
        | inr (k, b, only, at_k, passes) ↦ (
          some b,
          ground (arith, only, matches_of enterprise_id role s),
          λ b'. (
            λ h. (k, ground arith, ground arith),
            λ (j, at_j, serving).
                ground (arith, c.once enterprise_id role j k b' b at_j at_k serving (ground arith)),
          ),
        )
      ]
