-- ===== src/Registry/Directory/Codes.antt =====
-- The codes of enterprises and BUSY nodes (`_require_unique_code` of src/enterprise/registry.py).
use tagro_echo_os.Base.{
  String, false, not, ◌&&◌, some, Dict, lookup, insert, lookup-insert, values, any-values-false,
  strip, ◌==◌, ◌≡◌, arith, eq_iff, [],
}
use tagro_echo_os.Registry.{Enterprise, BusyNode, Records, no_records}
use tagro_echo_os.Registry.Directory.{is_taken}
use tagro_echo_os.Registry.Directory.Calls.{
  Run, here, next, Change, stays, puts_enterprise, puts_user, puts_node, puts_binding, Step-Change,
}

module _ {A : Type 0} (casefold : String → String) (code_of id_of : A → String) where
  -- Rows stand under their own identifiers, and no two have the same code.
  pub record Coded (d : Dict A) : Type 0 where
    pub keyed : (k : String) (a : A) → lookup k d ≡ some a → id_of a ≡ k
    pub once :
        (j k : String) (a b : A)
        → lookup j d ≡ some a
        → lookup k d ≡ some b
        → casefold (strip (code_of a)) ≡ casefold (strip (code_of b))
        → j ≡ k

  other_code :
      (d : Dict A) (x : A) (k : String) (a : A)
      → is_taken casefold code_of id_of (code_of x) (id_of x) (values d) ≡ false
      → lookup k d ≡ some a
      → casefold (strip (code_of a)) ≡ casefold (strip (code_of x))
      → id_of a ≡ id_of x
  unfolding is_taken
  other_code d x k a free found same = ground (
    arith,
    eq_iff (casefold (strip (code_of a))) (casefold (strip (code_of x))),
    eq_iff (id_of a) (id_of x),
    any-values-false
        (λ row.
          casefold (strip (code_of row)) == casefold (strip (code_of x))
          && not (id_of row == id_of x))
        k a d free found,
  )

  pub insert-Coded :
      (d : Dict A) (x : A)
      → is_taken casefold code_of id_of (code_of x) (id_of x) (values d) ≡ false
      → Coded d
      → Coded (insert (id_of x) x d)
  insert-Coded d x free c = record {
    keyed =
        λ k a found. ground (arith, lookup-insert (id_of x) k x d, eq_iff (id_of x) k, c.keyed k a);
    once = λ j k a b at_j at_k same. ground (
      arith,
      lookup-insert (id_of x) j x d,
      lookup-insert (id_of x) k x d,
      eq_iff (id_of x) j,
      eq_iff (id_of x) k,
      c.once j k a b,
      c.keyed j a,
      c.keyed k b,
      other_code d x j a free,
      other_code d x k b free,
    );
  }

  pub Coded-none : Coded []
  unfolding lookup
  Coded-none = record {
    keyed = λ k a found. ground arith;
    once = λ j k a b at_j at_k same. ground arith;
  }

record AllCoded (casefold : String → String) (s : Records) : Type 0 where
  enterprises :
      Coded casefold
        (λ (r : Enterprise). r.code)
        (λ (r : Enterprise). r.enterprise_id)
        s.enterprises
  busy_nodes :
      Coded casefold (λ (r : BusyNode). r.code) (λ (r : BusyNode). r.busy_node_id) s.busy_nodes

Change-AllCoded :
    (casefold : String → String) (s u : Records)
    → Change casefold s u
    → AllCoded casefold s
    → AllCoded casefold u
Change-AllCoded casefold s u (stays eq) c = rw eq c
Change-AllCoded casefold s u (puts_enterprise e fine eq) c = rw eq (record {
  enterprises =
      insert-Coded casefold (λ r. r.code) (λ r. r.enterprise_id) s.enterprises e fine.free_code
        c.enterprises;
  busy_nodes = c.busy_nodes;
})
Change-AllCoded casefold s u (puts_user a e found eq) c =
    rw eq (record { enterprises = c.enterprises; busy_nodes = c.busy_nodes })
Change-AllCoded casefold s u (puts_node n fine eq) c = rw eq (record {
  enterprises = c.enterprises;
  busy_nodes =
      insert-Coded casefold (λ r. r.code) (λ r. r.busy_node_id) s.busy_nodes n fine.free_code
        c.busy_nodes;
})
Change-AllCoded casefold s u (puts_binding b fine eq) c =
    rw eq (record { enterprises = c.enterprises; busy_nodes = c.busy_nodes })

Run-AllCoded :
    (casefold : String → String) (s u : Records)
    → Run casefold s u
    → AllCoded casefold s
    → AllCoded casefold u
Run-AllCoded casefold s u here c = c
Run-AllCoded casefold s u (next t _ run st) c =
    Change-AllCoded casefold t u (Step-Change st) (Run-AllCoded casefold s t run c)

none-AllCoded : (casefold : String → String) → AllCoded casefold no_records
none-AllCoded casefold = record {
  enterprises = Coded-none casefold (λ r. r.code) (λ r. r.enterprise_id);
  busy_nodes = Coded-none casefold (λ r. r.code) (λ r. r.busy_node_id);
}

-- After any calls on an empty directory, two enterprises whose codes agree up to case and surrounding
-- white space are the same one, and so are two BUSY nodes.
pub unique_codes :
    (casefold : String → String) (s : Records)
    → Run casefold no_records s
    → ((j k : String) (a b : Enterprise)
        → lookup j s.enterprises ≡ some a
        → lookup k s.enterprises ≡ some b
        → casefold (strip a.code) ≡ casefold (strip b.code)
        → j ≡ k)
      × ((j k : String) (a b : BusyNode)
          → lookup j s.busy_nodes ≡ some a
          → lookup k s.busy_nodes ≡ some b
          → casefold (strip a.code) ≡ casefold (strip b.code)
          → j ≡ k)
unique_codes casefold s run =
    let c = Run-AllCoded casefold no_records s run (none-AllCoded casefold) in
    (c.enterprises.once, c.busy_nodes.once)
