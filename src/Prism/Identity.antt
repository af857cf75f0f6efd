-- ===== src/Prism/Identity.antt =====
-- What the prism of src/financial/prism.py makes of the candidates of `reconcile_pair`
-- (src/financial/prism_reconciliation.py), with its default thresholds.
use tagro_echo_os.Base.{
  String, Bool, true, false, ◌&&◌, Option, List, [], ◌∷◌, Date, ok, sort_by, insert_by, lex,
  le_float, lt_float, abs_difference, in_unit, is_blank, leb, ◌≡◌, refl, ap, ◌∙◌, arith, Bool-cases,
  inl, inr,
}
use tagro_echo_os.Prism.{
  PrismObservation, PrismCandidate, PrismResult, relationship, financial_consequence, rank,
  default_prism, validate_candidate, validate_observation, not_after,
}
use tagro_echo_os.Prism.Resolve.{
  sorted_candidates, validate_all, resolve, resolve_sorted, stop_at, is_tight, step_back,
}
use tagro_echo_os.Prism.Reconcile.{
  Corroboration, ChordEvidence, chord_of, is_triple, is_corroborated, reconcile_chord,
  reconcile_pair, transfer_candidate, consequence_candidate,
}

resolve_valid :
    (o : PrismObservation) (cs sorted : List PrismCandidate)
    → validate_observation o ≡ ok tt
    → sorted_candidates cs ≡ sorted
    → validate_all sorted ≡ ok tt
    → resolve default_prism o cs ≡ ok (resolve_sorted default_prism o sorted)
unfolding resolve
resolve_valid o cs sorted h s v = ground (arith, h, s, v)

module _ (x : ChordEvidence) where
  transfer_sorted : sorted_candidates (transfer_candidate x ∷ []) ≡ transfer_candidate x ∷ []
  unfolding sorted_candidates sort_by insert_by
  transfer_sorted = refl

  transfer_valid : validate_all (transfer_candidate x ∷ []) ≡ ok tt
  unfolding validate_all validate_candidate transfer_candidate is_blank in_unit le_float
  transfer_valid = refl

  transfer_stops :
      ((stop_at default_prism (transfer_candidate x) []).requires_more ≡ true)
      × ((stop_at default_prism (transfer_candidate x) []).safe_depth ≡ relationship)
  unfolding stop_at is_tight step_back transfer_candidate lt_float rank
  transfer_stops = (refl, refl)

sorted_by :
    (x : ChordEvidence) (s a o : Bool)
    → let c : Corroboration = record {
      same_reference = s;
      account_identified = a;
      owner_confirmed = o;
    } in
      is_corroborated c ≡ true
      → (sorted_candidates (transfer_candidate x ∷ consequence_candidate x c ∷ [])
          ≡ consequence_candidate x c ∷ transfer_candidate x ∷ [])
        × (validate_all (consequence_candidate x c ∷ transfer_candidate x ∷ []) ≡ ok tt)
        × ((stop_at default_prism
              (consequence_candidate x c)
              (transfer_candidate x ∷ [])).requires_more
            ≡ false)
        × ((stop_at default_prism
              (consequence_candidate x c)
              (transfer_candidate x ∷ [])).safe_depth
            ≡ financial_consequence)
unfolding sorted_candidates sort_by insert_by not_after lex le_float lt_float consequence_candidate
    transfer_candidate validate_all validate_candidate is_blank in_unit stop_at is_tight
    abs_difference rank is_corroborated
sorted_by x s a true h = (refl, refl, refl, refl)
sorted_by x true a false h = (refl, refl, refl, refl)
sorted_by x false true false h = (refl, refl, refl, refl)
sorted_by x false false false h = cc

-- What the prism makes of the candidates of a chord.
reconcile_chord-resolve :
    (left : PrismObservation) (x : ChordEvidence) (c : Corroboration)
    → validate_observation left ≡ ok tt
    → let r = reconcile_chord x c in
      (p : PrismResult) × (resolve default_prism left r.candidates ≡ ok p)
      × (p.requires_more_evidence ≡ r.requires_review)
      × (leb 5 (rank p.resolved_depth) ≡ r.deterministic_identity)
      × (r.deterministic_identity ≡ (is_triple x && is_corroborated c))
unfolding reconcile_chord resolve_sorted rank
reconcile_chord-resolve left x c valid =
    let none_sorted : sorted_candidates [] ≡ [] = unfold sorted_candidates in refl in
    let none_valid : validate_all [] ≡ ok tt = unfold validate_all in refl in
    let t = transfer_candidate x in
    let k = consequence_candidate x c in
    elim (Bool-cases (is_triple x)) [
      | inr no_triple ↦ (
        resolve_sorted default_prism left [],
        ap (resolve default_prism left) (ground (arith, no_triple))
            ∙ resolve_valid left [] [] valid none_sorted none_valid,
        ground (arith, no_triple),
        ground (arith, no_triple),
        ground (arith, no_triple),
      )
      | inl triple ↦ elim (Bool-cases (is_corroborated c)) [
        | inr unknown ↦ (
          resolve_sorted default_prism left (t ∷ []),
          ap (resolve default_prism left) (ground (arith, triple, unknown))
              ∙ resolve_valid left (t ∷ []) (t ∷ []) valid (transfer_sorted x) (transfer_valid x),
          ground (arith, triple, unknown, transfer_stops x),
          ground (arith, triple, unknown, transfer_stops x),
          ground (arith, triple, unknown),
        )
        | inl known ↦
            let (order, passes, more, depth) =
              sorted_by x c.same_reference c.account_identified c.owner_confirmed known in
            (
              resolve_sorted default_prism left (k ∷ t ∷ []),
              ap (resolve default_prism left) (ground (arith, triple, known))
                  ∙ resolve_valid left (t ∷ k ∷ []) (k ∷ t ∷ []) valid order passes,
              ground (arith, triple, known, more),
              ground (arith, triple, known, depth),
              ground (arith, triple, known),
            )
      ]
    ]

-- A reconciliation and the prism agree: for a valid observation the default prism resolves the candidates of
-- `reconcile_pair`; it asks for more evidence just where the reconciliation asks for a review, and goes as
-- deep as a financial consequence just where the identity is deterministic. That is the case just where the
-- amounts are equal, the directions opposed and the dates close, and some corroboration is given.
pub reconcile_pair-resolve :
    (lower : String → String) (iso : String → Option Date) (left right : PrismObservation)
    (c : Corroboration)
    → validate_observation left ≡ ok tt
    → let r = reconcile_pair lower iso left right c in
      (p : PrismResult) × (resolve default_prism left r.candidates ≡ ok p)
      × (p.requires_more_evidence ≡ r.requires_review)
      × (leb 5 (rank p.resolved_depth) ≡ r.deterministic_identity)
      × (r.deterministic_identity
          ≡ (is_triple (chord_of lower iso left right c) && is_corroborated c))
unfolding reconcile_pair
reconcile_pair-resolve lower iso left right c valid =
    reconcile_chord-resolve left (chord_of lower iso left right c) c valid
