-- ===== src/Base/Sorting.antt =====
-- `sorted` and `max` of the source, by a key whose order is a Boolean test. `sorted` is stable: of two
-- elements whose keys are equal the earlier stays before the later.
use Prim.Native.Char.{code}
use Prim.Native.String.{String}
use mathlib.Core.Path.{◌≡◌, refl, sym, ◌∙◌, subst}
use mathlib.Core.Bool.{Bool, true, false, not, ◌&&◌, ◌||◌}
use mathlib.Core.List.{List, [], ◌∷◌, Memᴰ, Perm}
use mathlib.Core.List.Memᴰ
use mathlib.Core.List.Perm
use native.Mathlib.Omega.{arith}
use mathlib.Core.Logic.{inl, inr}
use tagro_echo_os.Base.Tests.{ltb, nat_eq, if◌then◌else◌, Bool-cases}
use tagro_echo_os.Base.Lists.{all}
use tagro_echo_os.Base.Members.{all-weaken}

-- `s <= t` of two strings, by code points.
unfoldable pub le_text : String → String → Bool
le_text String.[] t = true
le_text (String.◌∷◌ c s) String.[] = false
le_text (String.◌∷◌ c s) (String.◌∷◌ d t) =
    ltb (code c) (code d) || (nat_eq (code c) (code d) && le_text s t)

pub le_text_trans : (r s t : String) → le_text r s ≡ true → le_text s t ≡ true → le_text r t ≡ true
unfolding le_text
le_text_trans String.[] s t h k = refl
le_text_trans (String.◌∷◌ b r) String.[] t h k = cc
le_text_trans (String.◌∷◌ b r) (String.◌∷◌ c s) String.[] h k = cc
le_text_trans (String.◌∷◌ b r) (String.◌∷◌ c s) (String.◌∷◌ d t) h k =
    ground (arith, le_text_trans r s t)

pub le_text_total : (s t : String) → le_text s t ≡ false → le_text t s ≡ true
unfolding le_text
le_text_total String.[] t h = cc
le_text_total (String.◌∷◌ c s) String.[] h = refl
le_text_total (String.◌∷◌ c s) (String.◌∷◌ d t) h = ground (arith, le_text_total s t)

module _ {ℓ} {A : Type ℓ} where
  unfoldable pub insert_by : (A → A → Bool) → A → List A → List A
  insert_by le x [] = x ∷ []
  insert_by le x (y ∷ ys) = let rest = insert_by le x ys in if le x y then x ∷ y ∷ ys else y ∷ rest

  -- `sorted(xs, key=k)`, for `le x y` the test of `k(x) <= k(y)`.
  unfoldable pub sort_by : (A → A → Bool) → List A → List A
  sort_by le [] = []
  sort_by le (x ∷ xs) = insert_by le x (sort_by le xs)

  -- The loop of `max`: the first of the greatest elements.
  unfoldable pub max_from : (A → A → Bool) → A → List A → A
  max_from le best [] = best
  max_from le best (x ∷ xs) = max_from le (if le x best then best else x) xs

  -- Each element stands before those that follow it.
  unfoldable pub is_sorted : (A → A → Bool) → List A → Bool
  is_sorted le [] = true
  is_sorted le (x ∷ xs) = all (le x) xs && is_sorted le xs

  -- What the order of a key satisfies.
  pub record IsOrder (le : A → A → Bool) : Type ℓ where
    pub le-trans : (x y z : A) → le x y ≡ true → le y z ≡ true → le x z ≡ true
    pub le-total : (x y : A) → le x y ≡ false → le y x ≡ true

  -- The order of a key that is a pair: by the first part, and by the second where the first is the same.
  unfoldable pub lex : (A → A → Bool) → (A → A → Bool) → A → A → Bool
  lex p q x y = not (p y x) || (p x y && q x y)

  pub lex-IsOrder : (p q : A → A → Bool) → IsOrder p → IsOrder q → IsOrder (lex p q)
  unfolding lex
  lex-IsOrder p q o r = record {
    le-trans = λ x y z h k. ground (
      arith,
      o.le-trans x y z,
      o.le-trans z x y,
      o.le-trans y z x,
      o.le-trans x z y,
      o.le-trans z y x,
      o.le-trans y x z,
      o.le-total y x,
      o.le-total z y,
      o.le-total z x,
      r.le-trans x y z,
    );
    le-total = λ x y h. ground (arith, o.le-total x y, o.le-total y x, r.le-total x y);
  }

  insert_by-perm : (le : A → A → Bool) (x : A) (ys : List A) → Perm (insert_by le x ys) (x ∷ ys)
  unfolding insert_by
  insert_by-perm le x [] = Perm.refl _
  insert_by-perm le x (y ∷ ys) = elim (Bool-cases (le x y)) [
    | inl h ↦ subst (λ l. Perm l (x ∷ y ∷ ys)) (ground (arith, h)) (Perm.refl (x ∷ y ∷ ys))
    | inr h ↦
        subst (λ l. Perm l (x ∷ y ∷ ys)) (ground (arith, h))
          (Perm.trans (Perm.cons y (insert_by-perm le x ys)) (Perm.swap x y ys))
  ]

  -- `sorted` loses nothing and makes nothing up.
  pub sort_by-perm : (le : A → A → Bool) (xs : List A) → Perm (sort_by le xs) xs
  unfolding sort_by
  sort_by-perm le [] = Perm.refl []
  sort_by-perm le (x ∷ xs) =
      Perm.trans (insert_by-perm le x (sort_by le xs)) (Perm.cons x (sort_by-perm le xs))

  all-insert_by :
      (le : A → A → Bool) (p : A → Bool) (x : A) (ys : List A)
      → all p (insert_by le x ys) ≡ (p x && all p ys)
  unfolding insert_by all
  all-insert_by le p x [] = refl
  all-insert_by le p x (y ∷ ys) = ground (arith, all-insert_by le p x ys)

  pub all-sort_by :
      (le : A → A → Bool) (p : A → Bool) (xs : List A) → all p (sort_by le xs) ≡ all p xs
  unfolding sort_by all
  all-sort_by le p [] = refl
  all-sort_by le p (x ∷ xs) =
      ground (arith, all-insert_by le p x (sort_by le xs), all-sort_by le p xs)

  insert_by-sorted :
      (le : A → A → Bool) (x : A) (ys : List A)
      → IsOrder le
      → is_sorted le ys ≡ true
      → is_sorted le (insert_by le x ys) ≡ true
  unfolding insert_by is_sorted all
  insert_by-sorted le x [] o s = refl
  insert_by-sorted le x (y ∷ ys) o s = elim (Bool-cases (le x y)) [
    | inl h ↦ ground (arith, h, all-weaken (le y) (le x) ys (λ z k. o.le-trans x y z h k))
    | inr h ↦
        ground (arith, h, insert_by-sorted le x ys o, all-insert_by le (le y) x ys, o.le-total x y)
  ]

  pub sort_by-sorted :
      (le : A → A → Bool) (xs : List A) → IsOrder le → is_sorted le (sort_by le xs) ≡ true
  unfolding sort_by is_sorted
  sort_by-sorted le [] o = refl
  sort_by-sorted le (x ∷ xs) o = insert_by-sorted le x (sort_by le xs) o (sort_by-sorted le xs o)

  mem-swap :
      (c : Bool) (x y z : A) (l r : List A)
      → (Memᴰ z r → Memᴰ z (x ∷ l))
      → Memᴰ z (if c then x ∷ y ∷ l else y ∷ r)
      → Memᴰ z (x ∷ y ∷ l)
  mem-swap true x y z l r h m = m
  mem-swap false x y z l r h m = elim (Memᴰ.cases_cons m) [
    | inl e ↦ Memᴰ.tail (Memᴰ.head e)
    | inr k ↦ elim (Memᴰ.cases_cons (h k)) [ inl e ↦ Memᴰ.head e | inr j ↦ Memᴰ.tail (Memᴰ.tail j) ]
  ]

  mem-insert_by :
      (le : A → A → Bool) (x y : A) (ys : List A) → Memᴰ y (insert_by le x ys) → Memᴰ y (x ∷ ys)
  unfolding insert_by
  mem-insert_by le x y [] m = m
  mem-insert_by le x y (z ∷ zs) m =
      mem-swap (le x z) x z y zs (insert_by le x zs) (mem-insert_by le x y zs) m

  pub mem-sort_by : (le : A → A → Bool) (x : A) (xs : List A) → Memᴰ x (sort_by le xs) → Memᴰ x xs
  unfolding sort_by
  mem-sort_by le x [] m = m
  mem-sort_by le x (y ∷ ys) m = elim (Memᴰ.cases_cons (mem-insert_by le y x (sort_by le ys) m)) [
    | inl e ↦ Memᴰ.head e
    | inr k ↦ Memᴰ.tail (mem-sort_by le x ys k)
  ]

  -- The greatest element is one of those compared, and none is above it.
  pub max_from-greatest :
      (le : A → A → Bool) (b : A) (xs : List A)
      → IsOrder le
      → all (λ y. le y (max_from le b xs)) (b ∷ xs) ≡ true
  unfolding all max_from
  max_from-greatest le b [] o = ground (arith, o.le-total b b)
  max_from-greatest le b (x ∷ xs) o = elim (Bool-cases (le x b)) [
    | inl h ↦
        let m = max_from le b xs in
        let rest = max_from-greatest le b xs o in
        let below : le b m ≡ true = ground (arith, rest) in
        ground (arith, h, rest, o.le-trans x b m h below)
    | inr h ↦
        let m = max_from le x xs in
        let rest = max_from-greatest le x xs o in
        let below : le x m ≡ true = ground (arith, rest) in
        ground (arith, h, rest, o.le-trans b x m (o.le-total x b h) below)
  ]

  insert_by-first :
      (le : A → A → Bool) (x : A) (ys : List A)
      → (z : A) × (zs : List A) × (insert_by le x ys ≡ z ∷ zs)
  unfolding insert_by
  insert_by-first le x [] = (x, [], refl)
  insert_by-first le x (y ∷ ys) = elim (Bool-cases (le x y)) [
    | inl h ↦ (x, y ∷ ys, ground (arith, h))
    | inr h ↦ (y, insert_by le x ys, ground (arith, h))
  ]

  first_least :
      (le : A → A → Bool) (y : A) (ys : List A)
      → IsOrder le
      → is_sorted le (y ∷ ys) ≡ true
      → all (le y) (y ∷ ys) ≡ true
  unfolding is_sorted all
  first_least le y ys o h = ground (arith, o.le-total y y)

  -- The first of the sorted elements is one of them, and none goes before it.
  pub sort_by-first :
      (le : A → A → Bool) (x : A) (xs : List A)
      → IsOrder le
      → (y : A) × (ys : List A) × (sort_by le (x ∷ xs) ≡ y ∷ ys)
        × Memᴰ y (x ∷ xs)
        × (all (le y) (x ∷ xs) ≡ true)
  unfolding sort_by
  sort_by-first le x xs o =
      let (y, ys, e) = insert_by-first le x (sort_by le xs) in
      let sorted : is_sorted le (y ∷ ys) ≡ true =
        subst (λ l. is_sorted le l ≡ true) e (sort_by-sorted le (x ∷ xs) o) in
      let least : all (le y) (sort_by le (x ∷ xs)) ≡ true =
        subst (λ l. all (le y) l ≡ true) (sym e) (first_least le y ys o sorted) in
      (
        y,
        ys,
        e,
        mem-sort_by le y (x ∷ xs) (subst (Memᴰ y) (sym e) (Memᴰ.head refl)),
        sym (all-sort_by le (le y) (x ∷ xs)) ∙ least,
      )
