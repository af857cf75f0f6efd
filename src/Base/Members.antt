-- ===== src/Base/Members.antt =====
-- The rows that pass a test, as the comprehensions of the source select them: which they are, and what
-- a test of all or of any of them says.
use mathlib.Core.Path.{◌≡◌, refl, sym, subst}
use mathlib.Core.Bool.{Bool, true, false, not, ◌||◌}
use mathlib.Core.List.{List, [], ◌∷◌, Memᴰ}
use mathlib.Core.List.Memᴰ
use native.Mathlib.Omega.{arith}
use mathlib.Core.Logic.{◌⊎◌, inl, inr}
use tagro_echo_os.Base.Tests.{if◌then◌else◌, Bool-cases}
use tagro_echo_os.Base.Lists.{filter, any, all}

module _ {ℓ} {A : Type ℓ} where
  pub all-weaken :
      (p q : A → Bool) (xs : List A)
      → ((x : A) → p x ≡ true → q x ≡ true)
      → all p xs ≡ true
      → all q xs ≡ true
  unfolding all
  all-weaken p q [] h a = refl
  all-weaken p q (x ∷ xs) h a = ground (arith, h x, all-weaken p q xs h)

  pub all-mem : (p : A → Bool) (x : A) (xs : List A) → all p xs ≡ true → Memᴰ x xs → p x ≡ true
  unfolding all
  all-mem p x [] h m = elim m [ ]
  all-mem p x (y ∷ ys) h (Memᴰ.head e) = subst (λ z. p z ≡ true) (sym e) (ground arith)
  all-mem p x (y ∷ ys) h (Memᴰ.tail m) = all-mem p x ys (ground arith) m

  pub all-filter : (p q : A → Bool) (xs : List A) → all p xs ≡ true → all p (filter q xs) ≡ true
  unfolding all filter
  all-filter p q [] h = refl
  all-filter p q (x ∷ xs) h = ground (arith, all-filter p q xs)

  -- A test of the rows that pass another one.
  pub all-filter_test :
      (p q : A → Bool) (xs : List A) → all p (filter q xs) ≡ all (λ x. not (q x) || p x) xs
  unfolding all filter
  all-filter_test p q [] = refl
  all-filter_test p q (x ∷ xs) = ground (arith, all-filter_test p q xs)

  mem-if :
      (c : Bool) (x y : A) (l : List A)
      → Memᴰ x (if c then y ∷ l else l)
      → ((c ≡ true) × (x ≡ y)) ⊎ Memᴰ x l
  mem-if true x y l m = elim (Memᴰ.cases_cons m) [ inl e ↦ inl (refl, e) | inr k ↦ inr k ]
  mem-if false x y l m = inr m

  pub mem-filter :
      (p : A → Bool) (x : A) (xs : List A) → Memᴰ x (filter p xs) → Memᴰ x xs × (p x ≡ true)
  unfolding filter
  mem-filter p x [] m = elim m [ ]
  mem-filter p x (y ∷ ys) m = elim (mem-if (p y) x y (filter p ys) m) [
    | inl (pass, e) ↦ (Memᴰ.head e, subst (λ z. p z ≡ true) (sym e) pass)
    | inr later ↦ let (k, h) = mem-filter p x ys later in (Memᴰ.tail k, h)
  ]

  mem-if_intro : (c : Bool) (x y : A) (l : List A) → Memᴰ x l → Memᴰ x (if c then y ∷ l else l)
  mem-if_intro true x y l m = Memᴰ.tail m
  mem-if_intro false x y l m = m

  pub all-filter_self : (p : A → Bool) (xs : List A) → all p (filter p xs) ≡ true
  unfolding all filter
  all-filter_self p [] = refl
  all-filter_self p (x ∷ xs) = ground (arith, all-filter_self p xs)

  pub mem-filter_intro :
      (p : A → Bool) (x : A) (xs : List A) → Memᴰ x xs → p x ≡ true → Memᴰ x (filter p xs)
  unfolding filter
  mem-filter_intro p x [] m h = elim m [ ]
  mem-filter_intro p x (y ∷ ys) (Memᴰ.head e) h =
      subst (λ c. Memᴰ x (if c then y ∷ filter p ys else filter p ys))
        (sym (subst (λ z. p z ≡ true) e h)) (Memᴰ.head e)
  mem-filter_intro p x (y ∷ ys) (Memᴰ.tail m) h =
      mem-if_intro (p y) x y (filter p ys) (mem-filter_intro p x ys m h)

  pub any-mem : (p : A → Bool) (x : A) (xs : List A) → Memᴰ x xs → p x ≡ true → any p xs ≡ true
  unfolding any
  any-mem p x [] m h = elim m [ ]
  any-mem p x (y ∷ ys) (Memᴰ.head e) h = ground (arith, subst (λ z. p z ≡ true) e h)
  any-mem p x (y ∷ ys) (Memᴰ.tail m) h = ground (arith, any-mem p x ys m h)

  pub any-first :
      (p : A → Bool) (xs : List A)
      → any p xs ≡ true
      → (y : A) × (ys : List A) × (filter p xs ≡ y ∷ ys)
  unfolding any filter
  any-first p [] h = cc
  any-first p (x ∷ xs) h = elim (Bool-cases (p x)) [
    | inl pass ↦ (x, filter p xs, ground (arith, pass))
    | inr fail ↦
        let (y, ys, e) = any-first p xs (ground (arith, fail)) in (y, ys, ground (arith, fail, e))
  ]
