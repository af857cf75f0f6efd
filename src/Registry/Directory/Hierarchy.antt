-- ===== src/Registry/Directory/Hierarchy.antt =====
-- The hierarchy of enterprises (src/enterprise/registry.py): the line from an enterprise up to its root, what
-- `register_enterprise` does to it, and the walks along it.
use tagro_echo_os.Base.{
  ℕ, suc, ◌<◌, String, true, false, Option, none, some, List, ◌∷◌, Dict, lookup, insert,
  lookup-insert, any, ◌==◌, ◌≡◌, refl, ap, arith, inl, inr, Bool-cases, eq_iff,
}
use mathlib.Core.Path.{subst}
use tagro_echo_os.Registry.{Enterprise}
use tagro_echo_os.Registry.Directory.{member, parent_of}
use tagro_echo_os.Registry.Directory.Walk.{Free, missing, above}

-- The line from an enterprise to its root passes `n` enterprises.
pub data Line (d : Dict Enterprise) : ℕ → Option String → Type 0 where
  root : Line d 0 none
  up :
      (n : ℕ) (c : String) (row : Enterprise)
      → lookup c d ≡ some row
      → Line d n (parent_of row)
      → Line d (suc n) (some c)

-- Every enterprise has a line to its root: no cycle, no missing parent.
abbrev pub Rooted : Dict Enterprise → Type 0
Rooted d = (k : String) (row : Enterprise) → lookup k d ≡ some row → (n : ℕ) × Line d n (some k)

pub Line-same :
    (d : Dict Enterprise) (n m : ℕ) (o : Option String) → Line d n o → Line d m o → n ≡ m
Line-same d n m _ root root = refl
Line-same d n m _ (up i c row found l) (up j _ row' found' l') =
    let it : row ≡ row' = ground (arith, found, found') in
    ap suc (Line-same d i j (parent_of row') (subst (λ r. Line d i (parent_of r)) it l) l')

-- A line that stays clear of the enterprise that is written is a line afterwards.
Free-Line :
    (d : Dict Enterprise) (e : Enterprise) (own : String) (n : ℕ) (o : Option String)
    → Free d own o
    → Line d n o
    → Line (insert own e d) n o
Free-Line d e own n _ f root = root
Free-Line d e own n _ (missing c differs lost) (up i _ row found l) = ground (arith, lost, found)
Free-Line d e own n _ (above c row' differs found' f) (up i _ row found l) =
    let it : row' ≡ row = ground (arith, found, found') in
    up i c row (ground (arith, eq_iff own c, found, lookup-insert own c e d))
      (Free-Line d e own i (parent_of row) (subst (λ r. Free d own (parent_of r)) it f) l)

-- Every line leads on to the enterprise that is written, or stays as it was.
Line-insert :
    (d : Dict Enterprise) (e : Enterprise) (own : String) (n : ℕ) (o : Option String)
    → ((m : ℕ) × Line (insert own e d) m (some own))
    → Line d n o
    → (m : ℕ) × Line (insert own e d) m o
Line-insert d e own n _ l root = (0, root)
Line-insert d e own n _ l (up i c row found rest) = elim (Bool-cases (own == c)) [
  | inl same ↦
      subst (λ k. (m : ℕ) × Line (insert own e d) m (some k)) (ground (arith, eq_iff own c)) l
  | inr other ↦
      let (m, l') = Line-insert d e own i (parent_of row) l rest in
      (suc m, up m c row (ground (arith, found, lookup-insert own c e d)) l')
]

-- The write of an enterprise whose parent's line stays clear of it.
pub insert-Rooted :
    (d : Dict Enterprise) (e : Enterprise) (own : String)
    → Rooted d
    → Free d own (parent_of e)
    → ((n : ℕ) × Line d n (parent_of e))
    → Rooted (insert own e d)
insert-Rooted d e own r f (n, l) k row found =
    let mine : (m : ℕ) × Line (insert own e d) m (some own) = (
      suc n,
      up n own e (ground (arith, eq_iff own own, lookup-insert own own e d))
          (Free-Line d e own n (parent_of e) f l),
    ) in
    elim (Bool-cases (own == k)) [
      | inl same ↦
          subst (λ j. (m : ℕ) × Line (insert own e d) m (some j)) (ground (arith, eq_iff own k))
            mine
      | inr other ↦
          let (m, old) = r k row (ground (arith, found, lookup-insert own k e d)) in
          Line-insert d e own m (some k) mine old
    ]

-- Everything that a walk has seen is below the point it has reached.
abbrev pub Behind : Dict Enterprise → List String → ℕ → Type 0
Behind d seen n = (c : String) → member c seen ≡ true → (m : ℕ) × Line d m (some c) × (n < m)

pub Behind-cons :
    (d : Dict Enterprise) (seen : List String) (n : ℕ) (c : String)
    → Line d (suc n) (some c)
    → Behind d seen (suc n)
    → Behind d (c ∷ seen) n
unfolding member any
Behind-cons d seen n c l b k h = elim (Bool-cases (c == k)) [
  | inl same ↦
      (suc n, subst (λ j. Line d (suc n) (some j)) (ground (arith, eq_iff c k)) l, omega arith)
  | inr other ↦ let (m, l', far) = b k (ground (arith, other)) in (m, l', omega (arith, far))
]

-- A walk along a line does not meet what it has seen.
pub Behind-fresh :
    (d : Dict Enterprise) (seen : List String) (n : ℕ) (c : String)
    → Line d n (some c)
    → Behind d seen n
    → member c seen ≡ false
Behind-fresh d seen n c l b = elim (Bool-cases (member c seen)) [
  | inr fresh ↦ fresh
  | inl old ↦
      let (m, l', far) = b c old in
      let same = Line-same d n m (some c) l l' in ground (arith, far, same)
]
