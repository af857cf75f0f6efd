-- ===== src/Registry/Directory/Walk.antt =====
-- The loops of `_would_create_cycle` and `ancestors_of` (src/enterprise/registry.py): the measure that
-- bounds their rounds, and what an answer of the first one means.
use tagro_echo_os.Base.{
  ℕ, zero, suc, ◌≤◌, ◌<◌, String, true, false, Option, none, some, List, [], ◌∷◌, Dict, lookup, any,
  length, ◌==◌, ◌≡◌, ◌≢◌, refl, arith, inl, inr, Bool-cases, Option-cases, eq_iff, if◌then◌else◌,
}
use tagro_echo_os.Registry.{Enterprise}
use tagro_echo_os.Registry.Directory.{member, parent_of, walk}

-- The number of rows whose keys the loop has not seen.
unfoldable pub unseen : List String → Dict Enterprise → ℕ
unfolding member
unseen seen [] = 0
unseen seen ((k, row) ∷ d) = let rest = unseen seen d in if member k seen then rest else suc rest

pub unseen-none : (d : Dict Enterprise) → unseen [] d ≡ length d
unfolding unseen member any
unseen-none [] = refl
unseen-none ((k, row) ∷ d) = ground (arith, unseen-none d)

member-cons :
    (c k : String) (seen : List String)
    → member k (c ∷ seen) ≡ (if c == k then true else member k seen)
unfolding member any
member-cons c k seen = ground arith

unseen-less :
    (c : String) (seen : List String) (d : Dict Enterprise) → unseen (c ∷ seen) d ≤ unseen seen d
unfolding unseen
unseen-less c seen [] = omega arith
unseen-less c seen ((k, row) ∷ d) = ground (arith, member-cons c k seen, unseen-less c seen d)

-- A round that reads a row it has not seen uses one row up.
pub unseen-round :
    (c : String) (row : Enterprise) (seen : List String) (d : Dict Enterprise)
    → member c seen ≡ false
    → lookup c d ≡ some row
    → suc (unseen (c ∷ seen) d) ≤ unseen seen d
unfolding unseen lookup
unseen-round c row seen [] fresh found = ground arith
unseen-round c row seen ((k, r) ∷ d) fresh found = ground (
  arith,
  eq_iff k c,
  eq_iff c k,
  member-cons c k seen,
  unseen-less c seen d,
  unseen-round c row seen d fresh,
)

-- Above the enterprise `current`, `own` is never met, and the walk ends at the top or at a missing row.
pub data Free (d : Dict Enterprise) (own : String) : Option String → Type 0 where
  top : Free d own none
  missing : (c : String) → c ≢ own → lookup c d ≡ none → Free d own (some c)
  above :
      (c : String) (row : Enterprise)
      → c ≢ own
      → lookup c d ≡ some row
      → Free d own (parent_of row)
      → Free d own (some c)

pub walk-Free :
    (d : Dict Enterprise) (own : String) (n : ℕ) (seen : List String) (current : Option String)
    → walk d own n seen current ≡ false
    → Free d own current
unfolding walk
walk-Free d own zero seen current h = ground arith
walk-Free d own (suc n) seen none h = top
walk-Free d own (suc n) seen (some c) h = elim (Option-cases (lookup c d)) [
  | inl lost ↦ missing c (ground (arith, eq_iff c own)) lost
  | inr (row, found) ↦
      above c row (ground (arith, eq_iff c own)) found
        (walk-Free d own n (c ∷ seen) (parent_of row) (ground (arith, found)))
]

-- More fuel than there are rows to read changes nothing.
pub walk_enough :
    (d : Dict Enterprise) (own : String) (n m : ℕ) (seen : List String) (current : Option String)
    → unseen seen d < n
    → unseen seen d < m
    → walk d own n seen current ≡ walk d own m seen current
unfolding walk
walk_enough d own zero m seen current h k = ground arith
walk_enough d own (suc n) zero seen current h k = ground arith
walk_enough d own (suc n) (suc m) seen none h k = refl
walk_enough d own (suc n) (suc m) seen (some c) h k = elim (Option-cases (lookup c d)) [
  | inl lost ↦ ground (arith, lost)
  | inr (row, found) ↦ elim (Bool-cases (member c seen)) [
    | inl old ↦ ground (arith, old)
    | inr fresh ↦
        let less = unseen-round c row seen d fresh found in
        let same =
          walk_enough d own n m (c ∷ seen) (parent_of row) (omega (arith, less))
            (omega (arith, less)) in
        ground (arith, found, fresh, same)
  ]
]
