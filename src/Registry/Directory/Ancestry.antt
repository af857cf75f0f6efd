-- ===== src/Registry/Directory/Ancestry.antt =====
-- The walks of `ancestors_of` and `_would_create_cycle` (src/enterprise/registry.py) in a rooted hierarchy.
use tagro_echo_os.Base.{
  ℕ, zero, suc, ◌<◌, String, true, Option, none, some, List, [], ◌∷◌, Dict, lookup, any, length,
  ◌==◌, ◌≡◌, ◌↔◌, refl, arith, inl, inr, Bool-cases, eq_iff, ok,
}
use mathlib.Core.Path.{subst}
use tagro_echo_os.Registry.{Enterprise, Records}
use tagro_echo_os.Registry.Directory.{
  member, parent_of, walk, would_create_cycle, climb, ancestors_of,
}
use tagro_echo_os.Registry.Directory.Walk.{
  unseen, unseen-round, unseen-none, Free, top, missing, above, walk-Free,
}
use tagro_echo_os.Registry.Directory.Hierarchy.{
  Line, root, up, Rooted, Behind, Behind-cons, Behind-fresh,
}

-- The list names the enterprises above `o` one after the other, up to the root.
pub data IsAncestry (d : Dict Enterprise) : Option String → List Enterprise → Type 0 where
  done : IsAncestry d none []
  step :
      (c : String) (row : Enterprise) (rows : List Enterprise)
      → lookup c d ≡ some row
      → IsAncestry d (parent_of row) rows
      → IsAncestry d (some c) (row ∷ rows)

-- With a fuel above the number of rows that are left, the climb reaches the root.
climb-IsAncestry :
    (d : Dict Enterprise) (fuel : ℕ) (seen : List String) (current : Enterprise) (n : ℕ)
    (o : Option String)
    → parent_of current ≡ o
    → Line d n o
    → unseen seen d < fuel
    → Behind d seen n
    → (rows : List Enterprise) × (climb d fuel seen current ≡ ok rows) × IsAncestry d o rows
unfolding climb
climb-IsAncestry d zero seen current n o at_o l enough b = ground arith
climb-IsAncestry d (suc fuel) seen current n _ at_o root enough b = ([], ground (arith, at_o), done)
climb-IsAncestry d (suc fuel) seen current _ _ at_o (up i c row found l) enough b =
    let fresh = Behind-fresh d seen (suc i) c (up i c row found l) b in
    let less = unseen-round c row seen d fresh found in
    let (rows, fine, rest) =
      climb-IsAncestry d fuel (c ∷ seen) row i (parent_of row) refl l (omega (arith, less))
        (Behind-cons d seen i c (up i c row found l) b) in
    (row ∷ rows, ground (arith, at_o, fresh, found, fine), step c row rows found rest)

-- `own` is the enterprise `o` or one above it.
pub data IsAbove (d : Dict Enterprise) (own : String) : Option String → Type 0 where
  itself : IsAbove d own (some own)
  further :
      (c : String) (row : Enterprise)
      → lookup c d ≡ some row
      → IsAbove d own (parent_of row)
      → IsAbove d own (some c)

walk-IsAbove :
    (d : Dict Enterprise) (own : String) (fuel : ℕ) (seen : List String) (n : ℕ) (o : Option String)
    → Line d n o
    → unseen seen d < fuel
    → Behind d seen n
    → walk d own fuel seen o ≡ true
    → IsAbove d own o
unfolding walk
walk-IsAbove d own zero seen n o l enough b h = ground arith
walk-IsAbove d own (suc fuel) seen n _ root enough b h = ground arith
walk-IsAbove d own (suc fuel) seen _ _ (up i c row found l) enough b h =
    elim (Bool-cases (c == own)) [
      | inl same ↦ subst (λ k. IsAbove d own (some k)) (ground (arith, eq_iff c own)) itself
      | inr other ↦
          let fresh = Behind-fresh d seen (suc i) c (up i c row found l) b in
          let less = unseen-round c row seen d fresh found in
          further c row found (
            walk-IsAbove d own fuel (c ∷ seen) i (parent_of row) l (omega (arith, less))
              (Behind-cons d seen i c (up i c row found l) b) (ground (arith, found, fresh, other)))
    ]

-- A walk that stays clear of an enterprise has not met it.
Free-IsAbove :
    (d : Dict Enterprise) (own : String) (o : Option String) → Free d own o → ¬ (IsAbove d own o)
Free-IsAbove d own _ top a = elim a [ ]
Free-IsAbove d own _ (missing c differs lost) itself = differs refl
Free-IsAbove d own _ (above c row differs found f) itself = differs refl
Free-IsAbove d own _ (missing c differs lost) (further _ row found a) = ground (arith, lost, found)
Free-IsAbove d own _ (above c row differs found f) (further _ row' found' a) =
    let it : row' ≡ row = ground (arith, found, found') in
    Free-IsAbove d own (parent_of row) f (subst (λ r. IsAbove d own (parent_of r)) it a)

parent-Line :
    (d : Dict Enterprise) (id : String) (e : Enterprise)
    → Rooted d
    → lookup id d ≡ some e
    → (n : ℕ) × Line d n (parent_of e)
parent-Line d id e r found = go (r id e found)
  where
    go : ((n : ℕ) × Line d n (some id)) → (n : ℕ) × Line d n (parent_of e)
    go (_, up i _ row at_row l) =
        let it : row ≡ e = ground (arith, at_row, found) in
        (i, subst (λ x. Line d i (parent_of x)) it l)

nothing-Behind : (d : Dict Enterprise) (n : ℕ) → Behind d [] n
unfolding member any
nothing-Behind d n c h = ground arith

pub ancestors_of-Rooted :
    (s : Records) (id : String) (e : Enterprise)
    → Rooted s.enterprises
    → lookup id s.enterprises ≡ some e
    → (rows : List Enterprise) × (ancestors_of id s ≡ (ok rows, s))
      × IsAncestry s.enterprises (parent_of e) rows
unfolding ancestors_of
ancestors_of-Rooted s id e r found =
    let (n, l) = parent-Line s.enterprises id e r found in
    let (rows, fine, list) =
      climb-IsAncestry s.enterprises (suc (length s.enterprises)) [] e n (parent_of e) refl l
        (omega (arith, unseen-none s.enterprises)) (nothing-Behind s.enterprises n) in
    (rows, ground (arith, found, fine), list)

pub would_create_cycle-Rooted :
    (d : Dict Enterprise) (own p : String) (row : Enterprise)
    → Rooted d
    → lookup p d ≡ some row
    → (would_create_cycle d own p ≡ true) ↔ IsAbove d own (some p)
unfolding would_create_cycle
would_create_cycle-Rooted d own p row r found =
    let (n, l) = r p row found in
    (
      walk-IsAbove d own (suc (length d)) [] n (some p) l (omega (arith, unseen-none d))
          (nothing-Behind d n),
      λ a. elim (Bool-cases (walk d own (suc (length d)) [] (some p))) [
        | inl met ↦ met
        | inr clear ↦
            absurd
              (Free-IsAbove d own (some p) (walk-Free d own (suc (length d)) [] (some p) clear) a)
      ],
    )
