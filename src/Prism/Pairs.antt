-- ===== src/Prism/Pairs.antt =====
-- `candidate_pairs` against `reconcile_pair` (src/financial/prism_reconciliation.py).
use tagro_echo_os.Base.{
  String, Bool, true, false, not, ◌&&◌, Option, none, some, List, [], ◌∷◌, ◌++◌, map, filter,
  filter-append, Date, ◌≡◌, refl, sym, ap, ◌∙◌, arith, if◌then◌else◌,
}
use tagro_echo_os.Money.{eq_dec}
use tagro_echo_os.Prism.{PrismObservation}
use tagro_echo_os.Prism.Reconcile.{
  Corroboration, ReconciliationResult, ChordEvidence, chord_of, is_triple, within_date_tolerance,
  date_delta, close_dates, parse_date, cash_bank_opposed, reconcile_chord, reconcile_pair, pairs_of,
  candidate_pairs,
}

-- Every pair of a row of the first list with a row of the second.
unfoldable pub product : {A : Type 0} → List A → List A → List (A × A)
product [] ys = []
product (x ∷ xs) ys = map (λ y. (x, y)) ys ++ product xs ys

-- A reconciliation that gives a candidate.
unfoldable pub has_candidate : ReconciliationResult → Bool
has_candidate r = elim r.candidates [ [] ↦ false | c ∷ cs ↦ true ]

close_dates-tolerance :
    (a b : Option Date) → close_dates a b ≡ within_date_tolerance (date_delta a b)
unfolding close_dates within_date_tolerance date_delta
close_dates-tolerance (some a) (some b) = refl
close_dates-tolerance (some a) none = refl
close_dates-tolerance none b = refl

has_candidate-reconcile_chord :
    (chord : ChordEvidence) (c : Corroboration)
    → has_candidate (reconcile_chord chord c) ≡ is_triple chord
unfolding has_candidate reconcile_chord
has_candidate-reconcile_chord chord c = ground arith

-- Three tests that continue where they fail are one test.
three_guards :
    {A : Type 0} (p q r : Bool) (x : A) (rest : List A)
    → (if not p then rest else if not q then rest else if r then x ∷ rest else rest)
      ≡ (if p && q && r then x ∷ rest else rest)
three_guards false q r x rest = refl
three_guards true false r x rest = refl
three_guards true true r x rest = refl

module _ (lower : String → String) (iso : String → Option Date) (c : Corroboration) where
  -- The test by reconciliation.
  reconciles : PrismObservation × PrismObservation → Bool
  reconciles (a, b) = has_candidate (reconcile_pair lower iso a b c)

  reconciles-triple :
      (a b : PrismObservation)
      → reconciles (a, b) ≡ (
          eq_dec a.amount b.amount
          && cash_bank_opposed lower a b
          && close_dates (parse_date iso a.business_date) (parse_date iso b.business_date))
  unfolding reconciles reconcile_pair chord_of is_triple
  reconciles-triple a b =
      has_candidate-reconcile_chord (chord_of lower iso a b c) c
      ∙ ap (λ t. eq_dec a.amount b.amount && cash_bank_opposed lower a b && t)
          (sym (
            close_dates-tolerance (parse_date iso a.business_date)
              (parse_date iso b.business_date)))

  pairs_of-filter :
      (a : PrismObservation) (bank : List PrismObservation)
      → pairs_of lower iso a bank ≡ filter reconciles (map (λ b. (a, b)) bank)
  unfolding pairs_of filter
  pairs_of-filter a [] = refl
  pairs_of-filter a (b ∷ bank) =
      let rest = pairs_of lower iso a bank in
      three_guards (eq_dec a.amount b.amount) (cash_bank_opposed lower a b)
        (close_dates (parse_date iso a.business_date) (parse_date iso b.business_date)) (a, b) rest
      ∙ ap (λ t. if t then (a, b) ∷ rest else rest) (sym (reconciles-triple a b))
      ∙ ap (λ l. if reconciles (a, b) then (a, b) ∷ l else l) (pairs_of-filter a bank)

  candidate_pairs-filter :
      (cash bank : List PrismObservation)
      → candidate_pairs lower iso cash bank ≡ filter reconciles (product cash bank)
  unfolding candidate_pairs product filter
  candidate_pairs-filter [] bank = refl
  candidate_pairs-filter (a ∷ cash) bank =
      ap (λ l. l ++ candidate_pairs lower iso cash bank) (pairs_of-filter a bank)
      ∙ ap (λ l. filter reconciles (map (λ b. (a, b)) bank) ++ l) (candidate_pairs-filter cash bank)
      ∙ sym (filter-append reconciles (map (λ b. (a, b)) bank) (product cash bank))

-- The pairs are, in their order, the pairs of a row of the cash and a row of the bank that `reconcile_pair`
-- gives some candidate for, whatever the corroboration.
pub candidate_pairs_lem :
    (lower : String → String) (iso : String → Option Date) (c : Corroboration)
    (cash bank : List PrismObservation)
    → candidate_pairs lower iso cash bank
      ≡ filter (λ p. has_candidate (reconcile_pair lower iso p.0 p.1 c)) (product cash bank)
unfolding reconciles
candidate_pairs_lem lower iso c cash bank = candidate_pairs-filter lower iso c cash bank
