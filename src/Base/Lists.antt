-- ===== src/Base/Lists.antt =====
-- Comprehensions and generator expressions of the source: filters by a Boolean test, `any`, `all`.
use Prim.Native.Nat.{ℕ, suc, ◌+◌}
use Prim.Native.String.{String}
use mathlib.Core.Path.{◌≡◌, refl}
use mathlib.Core.Bool.{Bool, true, false, ◌&&◌, ◌||◌}
use mathlib.Core.Option.{some}
use mathlib.Core.List.{List, [], ◌∷◌, ◌++◌}
use native.Mathlib.Omega.{arith}
use tagro_echo_os.Base.Tests.{if◌then◌else◌, Bool-cases}
use mathlib.Core.Logic.{◌⊎◌, inl, inr}
use text.Mathlib.TextEquality.{eq_iff}
use text.Mathlib.TextPositions.{eq_refl}
use tagro_echo_os.Base.Dicts.{Dict, lookup, values, Distinct, empty, fresh}

module _ {ℓ} {A : Type ℓ} where
  abbrev pub length : List A → ℕ
  length [] = 0
  length (x ∷ xs) = suc (length xs)

  -- `[x for x in xs if p(x)]`
  unfoldable pub filter : (A → Bool) → List A → List A
  filter p [] = []
  filter p (x ∷ xs) = let rest = filter p xs in if p x then x ∷ rest else rest

  -- `any(p(x) for x in xs)`
  unfoldable pub any : (A → Bool) → List A → Bool
  any p [] = false
  any p (x ∷ xs) = p x || any p xs

  -- `all(p(x) for x in xs)`
  unfoldable pub all : (A → Bool) → List A → Bool
  all p [] = true
  all p (x ∷ xs) = p x && all p xs

  pub filter-append :
      (p : A → Bool) (xs ys : List A) → filter p (xs ++ ys) ≡ filter p xs ++ filter p ys
  unfolding filter
  filter-append p [] ys = refl
  filter-append p (x ∷ xs) ys = ground (arith, filter-append p xs ys)

  -- Two comprehensions one after the other are one.
  pub filter-filter :
      (p q : A → Bool) (xs : List A) → filter q (filter p xs) ≡ filter (λ x. p x && q x) xs
  unfolding filter
  filter-filter p q [] = refl
  filter-filter p q (x ∷ xs) = ground (arith, filter-filter p q xs)

  pub any-filter : (p q : A → Bool) (xs : List A) → any q (filter p xs) ≡ any (λ x. p x && q x) xs
  unfolding filter any
  any-filter p q [] = refl
  any-filter p q (x ∷ xs) = ground (arith, any-filter p q xs)

  pub length-append : (xs ys : List A) → length (xs ++ ys) ≡ length xs + length ys
  length-append [] ys = omega arith
  length-append (x ∷ xs) ys = omega (arith, length-append xs ys)

module _ {ℓ} {V : Type ℓ} where
  -- A test that no value passes fails at every key.
  pub any-values-false :
      (p : V → Bool) (k : String) (v : V) (d : Dict V)
      → any p (values d) ≡ false
      → lookup k d ≡ some v
      → p v ≡ false
  unfolding any values lookup
  any-values-false p k v [] h e = cc
  any-values-false p k v ((i, w) ∷ d) h e = ground (arith, any-values-false p k v d)

  -- A value that is found passes a test that all values pass.
  pub all-values-true :
      (p : V → Bool) (k : String) (v : V) (d : Dict V)
      → all p (values d) ≡ true
      → lookup k d ≡ some v
      → p v ≡ true
  unfolding all values lookup
  all-values-true p k v [] h e = cc
  all-values-true p k v ((i, w) ∷ d) h e = ground (arith, all-values-true p k v d)

  -- A comprehension over the values of a dict whose keys are distinct, by a test that passes at most once.
  pub filter-values_cases :
      (p : V → Bool) (d : Dict V)
      → Distinct d
      → ((j k : String) (a b : V)
          → lookup j d ≡ some a
          → lookup k d ≡ some b
          → p a ≡ true
          → p b ≡ true
          → j ≡ k)
      → ((filter p (values d) ≡ []) × ((k : String) (b : V) → lookup k d ≡ some b → p b ≡ false))
        ⊎ ((k : String) × (b : V) × (filter p (values d) ≡ b ∷ [])
            × (lookup k d ≡ some b)
            × (p b ≡ true))
  unfolding filter values lookup
  filter-values_cases p _ empty once = inl (refl, λ k b h. ground arith)
  filter-values_cases p _ (fresh i w d new rest) once =
      elim (filter-values_cases p d rest (λ j k a b at_j at_k.
        once j k a b (ground (arith, eq_iff i j, new, at_j))
          (ground (arith, eq_iff i k, new, at_k)))) [
            | inl (none_left, fails) ↦ elim (Bool-cases (p w)) [
              | inl passes ↦
                  inr (i, w, ground (arith, none_left), ground (arith, eq_refl i), passes)
              | inr not_it ↦
                  inl (ground (arith, none_left), λ k b h. ground (arith, not_it, fails k b, h))
            ]
            | inr (k, b, only, found, passes) ↦
                let shut : p w ≡ false = elim (Bool-cases (p w)) [
                  | inr shut ↦ shut
                  | inl also ↦
                      let same =
                        once i k w b (ground (arith, eq_refl i))
                          (ground (arith, eq_iff i k, new, found)) also passes in
                      ground (arith, same, new, found)
                ] in
                inr (k, b, ground (arith, only), ground (arith, eq_iff i k, new, found), passes)
          ]
