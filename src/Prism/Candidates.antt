-- ===== src/Prism/Candidates.antt =====
-- The order of the candidates and the errors of `resolve` (src/financial/prism.py).
use mathlib.Core.List.{Perm}
use mathlib.Core.Path.{subst}
use tagro_echo_os.Base.{
  Bool, true, false, not, ◌&&◌, List, [], ◌∷◌, all, all-sort_by, is_sorted, sort_by, sort_by-perm,
  sort_by-sorted, IsOrder, lex-IsOrder, le_float_trans, le_float_total, le_text, le_text_trans,
  le_text_total, le_float, leb, is_blank, in_unit, Result, ok, err, Result-cases, ◌≡◌, refl, sym,
  ap, ◌∙◌, arith, inl, inr,
}
use tagro_echo_os.Prism.{
  PrismCandidate, PrismObservation, PrismResult, PrismError, AdaptivePrism, validate_candidate,
  validate_observation, not_after, rank,
}
use tagro_echo_os.Prism.Resolve.{resolve_sorted, sorted_candidates, validate_all, resolve}

-- A candidate that is not refused.
unfoldable pub is_valid : PrismCandidate → Bool
unfolding is_blank in_unit
is_valid c = not (is_blank c.meaning) && in_unit c.confidence

unfoldable pub is_ok : {A : Type 0} → Result PrismError A → Bool
is_ok (ok _) = true
is_ok (err _) = false

not_after-IsOrder : IsOrder not_after
unfolding not_after
not_after-IsOrder =
    lex-IsOrder (λ (a b : PrismCandidate). le_float b.confidence a.confidence) _
      (record {
        le-trans = λ a b c h k. le_float_trans c.confidence b.confidence a.confidence k h;
        le-total = λ a b h. le_float_total b.confidence a.confidence h;
      })
      (lex-IsOrder (λ (a b : PrismCandidate). le_text a.meaning b.meaning)
        (λ (a b : PrismCandidate). leb (rank a.depth) (rank b.depth))
        (record {
          le-trans = λ a b c. le_text_trans a.meaning b.meaning c.meaning;
          le-total = λ a b. le_text_total a.meaning b.meaning;
        })
        (record {
          le-trans = λ a b c h k. ground (arith, h, k);
          le-total = λ a b h. ground (arith, h);
        }))

validate_candidate-is_ok : (c : PrismCandidate) → is_ok (validate_candidate c) ≡ is_valid c
unfolding validate_candidate is_valid is_ok
validate_candidate-is_ok c = ground arith

validate_all-is_ok : (cs : List PrismCandidate) → is_ok (validate_all cs) ≡ all is_valid cs
unfolding validate_all is_ok all
validate_all-is_ok [] = refl
validate_all-is_ok (c ∷ cs) = elim (Result-cases (validate_candidate c)) [
  | inl (a, e) ↦ ground (arith, e, validate_candidate-is_ok c, validate_all-is_ok cs)
  | inr (x, e) ↦ ground (arith, e, validate_candidate-is_ok c)
]

pub resolve_value :
    (prism : AdaptivePrism) (o : PrismObservation) (cs : List PrismCandidate) (r : PrismResult)
    → resolve prism o cs ≡ ok r
    → resolve_sorted prism o (sorted_candidates cs) ≡ r
unfolding resolve
resolve_value prism o cs r h = elim (Result-cases (validate_observation o)) [
  | inr (e, is_e) ↦ absurd (ground (arith, is_e, h))
  | inl (a, is_a) ↦ elim (Result-cases (validate_all (sorted_candidates cs))) [
    | inr (e, is_e) ↦ absurd (ground (arith, is_a, is_e, h))
    | inl (b, is_b) ↦ ground (arith, is_a, is_b, h)
  ]
]

pub resolve-is_ok :
    (prism : AdaptivePrism) (o : PrismObservation) (cs : List PrismCandidate)
    → is_ok (resolve prism o cs) ≡ (is_ok (validate_observation o) && all is_valid cs)
unfolding resolve is_ok sorted_candidates
resolve-is_ok prism o cs =
    let ordered = sorted_candidates cs in
    let valid : is_ok (validate_all ordered) ≡ all is_valid cs =
      validate_all-is_ok ordered ∙ all-sort_by not_after is_valid cs in
    elim (Result-cases (validate_observation o)) [
      | inr (e, is_e) ↦ ground (arith, is_e)
      | inl (a, is_a) ↦ elim (Result-cases (validate_all ordered)) [
        | inr (e, is_e) ↦ ground (arith, is_a, is_e, valid)
        | inl (b, is_b) ↦ ground (arith, is_a, is_b, valid)
      ]
    ]

resolve_sorted-candidates :
    (prism : AdaptivePrism) (o : PrismObservation) (cs : List PrismCandidate)
    → (resolve_sorted prism o cs).candidates ≡ cs
unfolding resolve_sorted
resolve_sorted-candidates prism o [] = refl
resolve_sorted-candidates prism o (c ∷ cs) = refl

pub resolve-candidates :
    (prism : AdaptivePrism) (o : PrismObservation) (cs : List PrismCandidate) (r : PrismResult)
    → resolve prism o cs ≡ ok r
    → Perm r.candidates cs × (is_sorted not_after r.candidates ≡ true)
unfolding sorted_candidates
resolve-candidates prism o cs r h =
    let same : sort_by not_after cs ≡ r.candidates =
      sym (resolve_sorted-candidates prism o (sort_by not_after cs))
      ∙ ap (λ (x : PrismResult). x.candidates) (resolve_value prism o cs r h) in
    (
      subst (λ l. Perm l cs) same (sort_by-perm not_after cs),
      subst (λ l. is_sorted not_after l ≡ true) same
          (sort_by-sorted not_after cs not_after-IsOrder),
    )
