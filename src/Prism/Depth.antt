-- ===== src/Prism/Depth.antt =====
-- How deep `resolve` (src/financial/prism.py) goes, and on what evidence.
use tagro_echo_os.Base.{
  ◌-◌, String, Bool, true, false, not, ◌&&◌, ◌||◌, Option, none, some, List, [], ◌∷◌, ◌++◌, all,
  is_sorted, leb, lt_float, ok, ◌≡◌, refl, ◌∙◌, arith, ◌⊎◌, inl, inr, Bool-cases,
}
use tagro_echo_os.Prism.{
  PrismDepth, observation, movement, relationship, event_family, business_meaning,
  financial_consequence, operational_allocation, rank, depth_of, PrismBand, identity, location,
  PrismCandidate, PrismObservation, PrismRay, PrismResult, AdaptivePrism, validate_observation,
  not_after,
}
use mathlib.Core.Path.{subst}
use tagro_echo_os.Prism.Candidates.{
  resolve_value, resolve-candidates, resolve-is_ok, is_ok, is_valid,
}
use mathlib.Core.List.{Perm}
use tagro_echo_os.Prism.Status.{is_yield}
use tagro_echo_os.Prism.Resolve.{
  Stop, step_back, is_tight, shallower, stop_at, base_rays, candidate_ray, candidate_rays,
  reliability_ray, resolve_sorted, sorted_candidates, resolve, ray_of_text,
}

-- A ray of a financial consequence is not deeper than the safe depth.
unfoldable pub within : PrismDepth → PrismRay → Bool
unfolding is_yield rank
within safe ray = not (is_yield ray.band) || leb (rank ray.depth) (rank safe)

all-append :
    {A : Type 0} (p : A → Bool) (xs ys : List A) → all p (xs ++ ys) ≡ (all p xs && all p ys)
unfolding all
all-append p [] ys = refl
all-append p (x ∷ xs) ys = ground (arith, all-append p xs ys)

ray_of_text-within :
    (safe : PrismDepth) (band : PrismBand) (depth : PrismDepth) (reason ref : String)
    (t : Option String)
    → is_yield band ≡ false
    → all (within safe) (ray_of_text band depth reason ref t) ≡ true
unfolding ray_of_text all within
ray_of_text-within safe band depth reason ref none h = refl
ray_of_text-within safe band depth reason ref (some s) h = ground (arith, h)

base_rays-within :
    (safe : PrismDepth) (o : PrismObservation) → all (within safe) (base_rays o) ≡ true
unfolding base_rays all within is_yield
base_rays-within safe o = ground (
  arith,
  all-append (within safe)
      (ray_of_text location operational_allocation "explicit source branch" o.source_ref o.branch)
      (ray_of_text identity relationship "explicit counterparty identity" o.source_ref
        o.counterparty),
  ray_of_text-within safe location operational_allocation "explicit source branch" o.source_ref
      o.branch refl,
  ray_of_text-within safe identity relationship "explicit counterparty identity" o.source_ref
      o.counterparty refl,
)

last_within :
    (safe : PrismDepth) (last : PrismRay)
    → is_yield last.band ≡ false
    → all (within safe) (last ∷ []) ≡ true
unfolding all within
last_within safe last h = ground (arith, h)

reliability_band :
    (o : PrismObservation) (top : PrismCandidate) (stop : Stop)
    → is_yield (reliability_ray o top stop).band ≡ false
unfolding reliability_ray is_yield
reliability_band o top stop = refl

candidate_rays-within :
    (o : PrismObservation) (safe : PrismDepth) (cs : List PrismCandidate)
    → all (within safe) (candidate_rays o safe cs) ≡ true
unfolding candidate_rays candidate_ray all within
candidate_rays-within o safe [] = refl
candidate_rays-within o safe (c ∷ cs) = ground (arith, candidate_rays-within o safe cs)

-- Stepping back from a depth gives MOVEMENT, or the depth before it.
step_back-rank :
    (d : PrismDepth)
    → (step_back (rank d) ≡ movement) ⊎ (leb (rank (step_back (rank d))) (rank d - 1) ≡ true)
unfolding rank step_back depth_of
step_back-rank observation = inl refl
step_back-rank movement = inl refl
step_back-rank relationship = inl refl
step_back-rank event_family = inr refl
step_back-rank business_meaning = inr refl
step_back-rank financial_consequence = inr refl
step_back-rank operational_allocation = inr refl

shallower-rank :
    (top : PrismCandidate) (rest : List PrismCandidate)
    → (d : PrismDepth) × (shallower top rest ≡ rank d) × (leb (rank d) (rank top.depth) ≡ true)
unfolding shallower
shallower-rank top [] = (top.depth, refl, ground arith)
shallower-rank top (second ∷ rest) = elim (Bool-cases (leb (rank top.depth) (rank second.depth))) [
  | inl h ↦ (top.depth, ground (arith, h), ground arith)
  | inr h ↦ (second.depth, ground (arith, h), ground (arith, h))
]

-- Where more evidence is asked for, the depth is MOVEMENT or above the depth of the best candidate.
stop_at-above :
    (prism : AdaptivePrism) (top : PrismCandidate) (rest : List PrismCandidate)
    → (stop_at prism top rest).requires_more ≡ true
    → ((stop_at prism top rest).safe_depth ≡ movement)
      ⊎ (leb (rank (stop_at prism top rest).safe_depth) (rank top.depth - 1) ≡ true)
unfolding stop_at rank
stop_at-above prism top rest h =
    let (d, e, under) = shallower-rank top rest in
    let tight = step_back-rank d in
    let low = step_back-rank top.depth in
    elim (Bool-cases (is_tight prism top rest)) [
      | inl t ↦ elim tight [
        | inl m ↦ inl (ground (arith, t, e, m))
        | inr m ↦ inr (ground (arith, t, e, m, under))
      ]
      | inr t ↦ elim (Bool-cases (lt_float top.confidence prism.descend_threshold)) [
        | inl l ↦ elim low [
          | inl m ↦ inl (ground (arith, t, l, m))
          | inr m ↦ inr (ground (arith, t, l, m))
        ]
        | inr l ↦ inr (ground (arith, t, l, h))
      ]
    ]

stop_at-supported :
    (prism : AdaptivePrism) (top : PrismCandidate) (rest : List PrismCandidate)
    → (stop_at prism top rest).requires_more ≡ false
    → ((stop_at prism top rest).safe_depth ≡ top.depth)
      × (is_tight prism top rest ≡ false)
      × (lt_float top.confidence prism.descend_threshold ≡ false)
      × (leb 5 (rank top.depth) ≡ true
          → lt_float top.confidence prism.auto_consequence_threshold ≡ false)
unfolding stop_at rank
stop_at-supported prism top rest h = elim (Bool-cases (is_tight prism top rest)) [
  | inl t ↦ absurd (ground (arith, t, h))
  | inr t ↦ elim (Bool-cases (lt_float top.confidence prism.descend_threshold)) [
    | inl l ↦ absurd (ground (arith, t, l, h))
    | inr l ↦ (ground (arith, t, l, h), t, l, λ five. ground (arith, t, l, h, five))
  ]
]

-- What evidence a result stands on that asks for no more.
pub record IsSupported (prism : AdaptivePrism) (r : PrismResult) (top : PrismCandidate)
    : Type 0 where
  pub best : (rest : List PrismCandidate) × (r.candidates ≡ top ∷ rest)
  pub at_depth : r.resolved_depth ≡ top.depth
  pub apart : r.tight_split ≡ false
  pub descended : lt_float top.confidence prism.descend_threshold ≡ false
  pub consequent :
      leb 5 (rank top.depth) ≡ true
      → lt_float top.confidence prism.auto_consequence_threshold ≡ false

-- What holds of every result.
pub record IsSound (prism : AdaptivePrism) (r : PrismResult) : Type 0 where
  -- A ray of a financial consequence is not deeper than the resolved depth.
  pub bounded : all (within r.resolved_depth) r.rays ≡ true
  pub supported :
      r.requires_more_evidence ≡ false → (top : PrismCandidate) × IsSupported prism r top
  pub stepped_back :
      r.requires_more_evidence ≡ true
      → (r.resolved_depth ≡ movement)
        ⊎ ((top : PrismCandidate) × (rest : List PrismCandidate) × (r.candidates ≡ top ∷ rest)
            × (leb (rank r.resolved_depth) (rank top.depth - 1) ≡ true))

rays-within :
    (safe : PrismDepth) (o : PrismObservation) (cs : List PrismCandidate) (last : PrismRay)
    → is_yield last.band ≡ false
    → all (within safe) (base_rays o ++ (candidate_rays o safe cs ++ last ∷ [])) ≡ true
rays-within safe o cs last h =
    all-append (within safe) (base_rays o) (candidate_rays o safe cs ++ last ∷ [])
    ∙ ground (
      arith,
      base_rays-within safe o,
      all-append (within safe) (candidate_rays o safe cs) (last ∷ []),
      candidate_rays-within o safe cs,
      last_within safe last h,
    )

resolve_sorted-IsSound :
    (prism : AdaptivePrism) (o : PrismObservation) (cs : List PrismCandidate)
    → IsSound prism (resolve_sorted prism o cs)
unfolding resolve_sorted
resolve_sorted-IsSound prism o [] = record {
  bounded = base_rays-within movement o;
  supported = λ h. cc;
  stepped_back = λ h. inl refl;
}
resolve_sorted-IsSound prism o (top ∷ rest) = record {
  bounded =
      rays-within (stop_at prism top rest).safe_depth o (top ∷ rest)
        (reliability_ray o top (stop_at prism top rest))
        (reliability_band o top (stop_at prism top rest));
  supported = λ h.
      let (d, t, l, c) = stop_at-supported prism top rest h in
      (top, record { best = (rest, refl); at_depth = d; apart = t; descended = l; consequent = c });
  stepped_back = λ h. elim (stop_at-above prism top rest h) [
    | inl m ↦ inl m
    | inr m ↦ inr (top, rest, refl, m)
  ];
}

pub resolve-IsSound :
    (prism : AdaptivePrism) (o : PrismObservation) (cs : List PrismCandidate) (r : PrismResult)
    → resolve prism o cs ≡ ok r
    → IsSound prism r
resolve-IsSound prism o cs r h =
    subst (IsSound prism) (resolve_value prism o cs r h)
      (resolve_sorted-IsSound prism o (sorted_candidates cs))

-- `resolve` raises just where the observation or some candidate is refused by its `validate`. Else its
-- result lists the candidates, none lost and none made up, by falling confidence, then meaning, then depth;
-- no ray of a financial consequence is deeper than the resolved depth; where no more evidence is asked for,
-- the depth is that of the best candidate, which is not tight, is confident enough to descend and, for a
-- consequence or an allocation, reaches the threshold of a consequence; and where more is asked for, the depth
-- is MOVEMENT or lies above that of the best candidate.
pub resolve_lem :
    (prism : AdaptivePrism) (o : PrismObservation) (cs : List PrismCandidate)
    → (is_ok (resolve prism o cs) ≡ (is_ok (validate_observation o) && all is_valid cs))
      × ((r : PrismResult)
          → resolve prism o cs ≡ ok r
          → Perm r.candidates cs × (is_sorted not_after r.candidates ≡ true) × IsSound prism r)
resolve_lem prism o cs = (
  resolve-is_ok prism o cs,
  λ r h.
      let (perm, sorted) = resolve-candidates prism o cs r h in
      (perm, sorted, resolve-IsSound prism o cs r h),
)
