-- ===== src/Base/Dicts.antt =====
-- Python's dict with string keys, in insertion order: a write to a present key keeps its place, and
-- a write to an absent key goes to the end.
use Prim.Native.String.{String}
use mathlib.Core.Path.{◌≡◌, refl, subst}
use mathlib.Core.Option.{Option, none, some}
use mathlib.Core.List.{List, [], ◌∷◌, ◌++◌}
use native.Mathlib.Omega.{arith}
use text.Mathlib.Text.{◌==◌}
use text.Mathlib.TextEquality.{eq_iff}
use text.Mathlib.TextPositions.{eq_refl}
use mathlib.Core.Logic.{inl, inr}
use tagro_echo_os.Base.Tests.{if◌then◌else◌, Bool-cases}

abbrev pub Dict {ℓ} : Type ℓ → Type ℓ
Dict V = List (String × V)

module _ {ℓ} {V : Type ℓ} where
  -- `d.get(k)`
  unfoldable pub lookup : String → Dict V → Option V
  lookup k [] = none
  lookup k ((j, v) ∷ d) = if j == k then some v else lookup k d

  -- `d[k] = v`
  unfoldable pub insert : String → V → Dict V → Dict V
  insert k v [] = (k, v) ∷ []
  insert k v ((j, w) ∷ d) = if j == k then (j, v) ∷ d else (j, w) ∷ insert k v d

  -- `d.values()`
  unfoldable pub values : Dict V → List V
  values [] = []
  values ((j, v) ∷ d) = v ∷ values d

  pub lookup-insert :
      (k j : String) (v : V) (d : Dict V)
      → lookup j (insert k v d) ≡ (if k == j then some v else lookup j d)
  unfolding lookup insert
  lookup-insert k j v [] = refl
  lookup-insert k j v ((i, w) ∷ d) =
      ground (arith, eq_iff k j, eq_iff i k, eq_iff i j, lookup-insert k j v d)

  pub lookup-insert_self : (k : String) (v : V) (d : Dict V) → lookup k (insert k v d) ≡ some v
  lookup-insert_self k v d = simp (lookup-insert, eq_refl)

  -- A new key's value is the last one.
  pub values-insert_new :
      (k : String) (v : V) (d : Dict V)
      → lookup k d ≡ none
      → values (insert k v d) ≡ values d ++ v ∷ []
  unfolding lookup insert values
  values-insert_new k v [] h = refl
  values-insert_new k v ((i, w) ∷ d) h = ground (arith, values-insert_new k v d)

-- No key stands twice.
pub data Distinct {ℓ} {V : Type ℓ} : Dict V → Type ℓ where
  empty : Distinct []
  fresh : (k : String) (v : V) (d : Dict V) → lookup k d ≡ none → Distinct d → Distinct ((k, v) ∷ d)

pub insert-Distinct {ℓ} :
    {V : Type ℓ} (k : String) (v : V) (d : Dict V) → Distinct d → Distinct (insert k v d)
unfolding insert lookup
insert-Distinct k v _ empty = fresh k v [] refl empty
insert-Distinct k v _ (fresh j w d new rest) = elim (Bool-cases (j == k)) [
  | inl same ↦ subst Distinct (ground (arith, same)) (fresh j v d new rest)
  | inr other ↦ subst Distinct (ground (arith, other)) (
      fresh j w (insert k v d) (ground (arith, eq_iff j k, eq_iff k j, lookup-insert k j v d))
        (insert-Distinct k v d rest))
]
