-- ===== src/Prism/Resolve.antt =====
-- `AdaptivePrism.resolve` of src/financial/prism.py.
use tagro_echo_os.Base.{
  ℕ, ◌-◌, max, String, Bool, true, false, ◌&&◌, Option, none, some, List, [], ◌∷◌, ◌++◌, sort_by,
  leb, is_empty, append, one_float, lt_float, abs_difference, Result, ok, err, if◌then◌else◌,
}
use tagro_echo_os.Money.Show.{show_decimal}
use tagro_echo_os.Prism.{
  PrismDepth, observation, movement, relationship, business_meaning, financial_consequence,
  operational_allocation, rank, depth_of, PrismBand, value, identity, location, origin, reliability,
  PrismCandidate, PrismObservation, PrismRay, PrismResult, PrismError, AdaptivePrism,
  validate_candidate, validate_observation, not_after, band_for_depth,
}

-- The loop of `_sort` that validates.
unfoldable pub validate_all : List PrismCandidate → Result PrismError Unit
unfolding validate_candidate
validate_all [] = ok tt
validate_all (c ∷ cs) =
    let rest = validate_all cs in elim (validate_candidate c) [ err e ↦ err e | ok _ ↦ rest ]

-- `sorted(candidates, key=...)` of `_sort`
unfoldable pub sorted_candidates : List PrismCandidate → List PrismCandidate
unfolding sort_by not_after
sorted_candidates = sort_by not_after

-- The rays of an optional text that is not empty.
unfoldable pub ray_of_text :
    PrismBand → PrismDepth → String → String → Option String → List PrismRay
unfolding is_empty
ray_of_text band depth reason ref none = []
ray_of_text band depth reason ref (some s) =
    if is_empty s
    then []
    else record {
      band = band;
      value = s;
      confidence = one_float;
      depth = depth;
      reason = reason;
      source_refs = ref ∷ [];
    }
      ∷ []

-- `base_rays`
unfoldable pub base_rays : PrismObservation → List PrismRay
unfolding append show_decimal ray_of_text
base_rays o =
    record {
      band = value;
      value = append o.direction (append ":" (show_decimal o.amount));
      confidence = one_float;
      depth = movement;
      reason = "literal observed movement";
      source_refs = o.source_ref ∷ [];
    }
    ∷ record {
      band = origin;
      value = o.source_kind;
      confidence = one_float;
      depth = observation;
      reason = "preserved source identity";
      source_refs = o.source_ref ∷ [];
    }
    ∷ (ray_of_text location operational_allocation "explicit source branch" o.source_ref o.branch
        ++ ray_of_text identity relationship "explicit counterparty identity" o.source_ref
            o.counterparty)

-- Where the resolution stops.
pub record Stop : Type 0 where
  pub safe_depth : PrismDepth
  pub stop_reason : String
  pub requires_more : Bool

-- One level up from a depth, and never above MOVEMENT.
unfoldable pub step_back : ℕ → PrismDepth
unfolding depth_of
step_back n = depth_of (max 1 (n - 1))

-- `tight`, of the best and the second candidate.
unfoldable pub is_tight : AdaptivePrism → PrismCandidate → List PrismCandidate → Bool
unfolding lt_float abs_difference
is_tight prism top [] = false
is_tight prism top (second ∷ _) =
    lt_float (abs_difference top.confidence second.confidence) prism.tight_margin

-- `min(top.depth, second.depth)`
unfoldable pub shallower : PrismCandidate → List PrismCandidate → ℕ
unfolding rank
shallower top [] = rank top.depth
shallower top (second ∷ _) =
    if leb (rank top.depth) (rank second.depth) then rank top.depth else rank second.depth

-- The choice of `safe_depth`.
unfoldable pub stop_at : AdaptivePrism → PrismCandidate → List PrismCandidate → Stop
unfolding is_tight shallower step_back lt_float rank
stop_at prism top rest =
    if is_tight prism top rest
    then record {
      safe_depth = step_back (shallower top rest);
      stop_reason = "competing meanings are too close; stepped back to broader interpretation";
      requires_more = true;
    }
    else if lt_float top.confidence prism.descend_threshold
    then record {
      safe_depth = step_back (rank top.depth);
      stop_reason = "evidence below descent threshold; retained broader interpretation";
      requires_more = true;
    }
    else if leb (rank financial_consequence) (rank top.depth)
        && lt_float top.confidence prism.auto_consequence_threshold
    then record {
      safe_depth = business_meaning;
      stop_reason = "financial consequence requires stronger evidence";
      requires_more = true;
    }
    else record {
      safe_depth = top.depth;
      stop_reason = "evidence supports current resolution depth";
      requires_more = false;
    }

-- `tuple(x for x in (observation.source_ref, candidate.source_ref) if x)`
unfoldable pub refs_with : String → Option String → List String
unfolding is_empty
refs_with a none = if is_empty a then [] else a ∷ []
refs_with a (some b) = (if is_empty a then [] else a ∷ []) ++ (if is_empty b then [] else b ∷ [])

unfoldable pub candidate_ray : PrismObservation → PrismCandidate → PrismRay
unfolding band_for_depth refs_with
candidate_ray o c = record {
  band = band_for_depth c.depth;
  value = c.meaning;
  confidence = c.confidence;
  depth = c.depth;
  reason = c.reason;
  source_refs = refs_with o.source_ref c.source_ref;
}

-- The loop over the candidates: those deeper than the safe depth give no ray.
unfoldable pub candidate_rays : PrismObservation → PrismDepth → List PrismCandidate → List PrismRay
unfolding candidate_ray rank
candidate_rays o safe [] = []
candidate_rays o safe (c ∷ cs) =
    let rest = candidate_rays o safe cs in
    if leb (rank c.depth) (rank safe) then candidate_ray o c ∷ rest else rest

unfoldable pub reliability_ray : PrismObservation → PrismCandidate → Stop → PrismRay
reliability_ray o top stop = record {
  band = reliability;
  value = if stop.requires_more then "needs-more-evidence" else "resolved-at-supported-depth";
  confidence = top.confidence;
  depth = stop.safe_depth;
  reason = stop.stop_reason;
  source_refs = o.source_ref ∷ [];
}

-- The result of the candidates in their order.
unfoldable pub resolve_sorted : AdaptivePrism → PrismObservation → List PrismCandidate → PrismResult
unfolding base_rays stop_at candidate_rays reliability_ray is_tight
resolve_sorted prism o [] = record {
  observation_id = o.observation_id;
  resolved_depth = movement;
  rays = base_rays o;
  candidates = [];
  tight_split = false;
  requires_more_evidence = true;
  stop_reason = "no semantic evidence beyond literal movement";
}
resolve_sorted prism o (top ∷ rest) =
    let stop = stop_at prism top rest in
    record {
      observation_id = o.observation_id;
      resolved_depth = stop.safe_depth;
      rays =
          base_rays o
          ++ (candidate_rays o stop.safe_depth (top ∷ rest) ++ reliability_ray o top stop ∷ []);
      candidates = top ∷ rest;
      tight_split = is_tight prism top rest;
      requires_more_evidence = stop.requires_more;
      stop_reason = stop.stop_reason;
    }

-- `resolve`
unfoldable pub resolve :
    AdaptivePrism → PrismObservation → List PrismCandidate → Result PrismError PrismResult
unfolding validate_observation validate_all sorted_candidates resolve_sorted
resolve prism o candidates = elim (validate_observation o) [
  | err e ↦ err e
  | ok _ ↦
      let ordered = sorted_candidates candidates in
      elim (validate_all ordered) [ err e ↦ err e | ok _ ↦ ok (resolve_sorted prism o ordered) ]
]
