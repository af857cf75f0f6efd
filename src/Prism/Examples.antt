-- ===== src/Prism/Examples.antt =====
-- Cash paid out of a counter and the credit of the bank a day later (src/financial/prism_reconciliation.py), and
-- competing candidates (src/financial/prism.py).
use mathlib.Core.List.{Perm}
use tagro_echo_os.Base.{
  ℕ, pos, String, true, false, ◌&&◌, ◌==◌, Option, none, some, List, [], ◌∷◌, all, filter,
  is_sorted, length, scale, insert_by, leb, Date, double, ok, ◌≤◌, ◌≡◌, refl, if◌then◌else◌,
}
use tagro_echo_os.Money.{integer, hundredths}
use tagro_echo_os.Prism.{
  PrismObservation, PrismCandidate, PrismResult, PrismDepth, financial_consequence,
  operational_allocation, rank, default_prism, validate_observation, not_after,
}
use tagro_echo_os.Prism.Resolve.{resolve, resolve_sorted, sorted_candidates}
use tagro_echo_os.Prism.Candidates.{is_ok, is_valid}
use tagro_echo_os.Prism.Depth.{IsSound, resolve_lem}
use tagro_echo_os.Prism.Reconcile.{
  Corroboration, reconcile_pair, candidate_pairs, chord_of, is_triple, is_corroborated,
}
use tagro_echo_os.Prism.Pairs.{product, has_candidate, candidate_pairs_lem}
use tagro_echo_os.Prism.Identity.{reconcile_pair-resolve}
use tagro_echo_os.Prism.Status.{PrismStatusRow, has_financial_consequence, build_prism_status}
use tagro_echo_os.Prism.Review.{no_rows, one_more, build_prism_status-bounds}

abbrev as_is : String → String
as_is s = s

abbrev calendar : String → Option Date
calendar s =
    if s == "2026-07-04"
    then some (record { year = 2026; month = 7; day = 4 })
    else if s == "2026-07-05"
    then some (record { year = 2026; month = 7; day = 5 })
    else none

abbrev moved : String → String → String → PrismObservation
moved id direction day = record {
  observation_id = id;
  source_kind = "ledger";
  source_ref = id;
  amount = integer (pos 500);
  direction = direction;
  branch = none;
  account = none;
  counterparty = none;
  narration = "";
  business_date = some day;
}

abbrev paid : PrismObservation
paid = moved "cash-1" "out" "2026-07-04"

abbrev credited : PrismObservation
credited = moved "bank-1" "credit" "2026-07-05"

abbrev referenced : Corroboration
referenced = record { same_reference = true; account_identified = false; owner_confirmed = false }

abbrev guess : ℕ → ℕ → PrismDepth → PrismCandidate
guess m k depth = record {
  meaning = "rent";
  confidence = double m k;
  depth = depth;
  reason = "narration";
  source_ref = none;
}

abbrev guesses : List PrismCandidate
guesses =
    guess 1 3 financial_consequence
    ∷ guess 1 1 operational_allocation
    ∷ guess 1 1 operational_allocation
    ∷ []

paid_valid : validate_observation paid ≡ ok tt
unfolding validate_observation scale
paid_valid = refl

resolve_lem_example :
    (is_ok (resolve default_prism paid guesses)
      ≡ (is_ok (validate_observation paid) && all is_valid guesses))
    × ((r : PrismResult)
        → resolve default_prism paid guesses ≡ ok r
        → Perm r.candidates guesses
          × (is_sorted not_after r.candidates ≡ true)
          × IsSound default_prism r)
resolve_lem_example = resolve_lem default_prism paid guesses

abbrev doubtful : PrismResult
doubtful = resolve_sorted default_prism paid (sorted_candidates guesses)

-- Two equal allocations step back to the depth of a consequence, and a third candidate of confidence 0.125
-- then gives a consequence, which counts as resolved.
doubtful_consequence :
    (doubtful.requires_more_evidence ≡ true) × (has_financial_consequence doubtful ≡ true)
unfolding resolve_sorted sorted_candidates has_financial_consequence insert_by
doubtful_consequence = (refl, refl)

candidate_pairs_lem_example :
    candidate_pairs as_is calendar (paid ∷ []) (credited ∷ [])
    ≡ filter
        (λ p. has_candidate (reconcile_pair as_is calendar p.0 p.1 referenced))
        (product (paid ∷ []) (credited ∷ []))
candidate_pairs_lem_example =
    candidate_pairs_lem as_is calendar referenced (paid ∷ []) (credited ∷ [])

one_pair : candidate_pairs as_is calendar (paid ∷ []) (credited ∷ []) ≡ (paid, credited) ∷ []
unfolding candidate_pairs scale
one_pair = refl

reconcile_pair-resolve_example :
    let r = reconcile_pair as_is calendar paid credited referenced in
    (p : PrismResult) × (resolve default_prism paid r.candidates ≡ ok p)
    × (p.requires_more_evidence ≡ r.requires_review)
    × (leb 5 (rank p.resolved_depth) ≡ r.deterministic_identity)
    × (r.deterministic_identity ≡ (
        is_triple (chord_of as_is calendar paid credited referenced) && is_corroborated referenced))
reconcile_pair-resolve_example =
    reconcile_pair-resolve as_is calendar paid credited referenced paid_valid

abbrev rows : List PrismStatusRow
rows = record { observation = paid; result = doubtful } ∷ []

resolved_doubtful : resolve default_prism paid guesses ≡ ok doubtful
unfolding resolve scale insert_by
resolved_doubtful = refl

build_prism_status-bounds_example :
    let s = build_prism_status rows in
    (s.tight_split_count ≤ s.unresolved_count)
    × (length s.review_queue ≡ s.unresolved_count)
    × ((x : ℕ) × (s.financial_consequence_amount_coverage_pct ≡ hundredths (pos x)) × (x ≤ 10000))
build_prism_status-bounds_example =
    build_prism_status-bounds rows
      (one_more default_prism paid guesses doubtful [] resolved_doubtful no_rows)
