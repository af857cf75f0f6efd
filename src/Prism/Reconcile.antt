-- ===== src/Prism/Reconcile.antt =====
-- src/financial/prism_reconciliation.py, and `chord_pair` of src/financial/prism.py. `lower` is `str.lower`, and
-- `iso` is `date.fromisoformat`, `none` where that raises ValueError.
use Prim.Native.String.{String}
use tagro_echo_os.Base.{
  magnitude, ℕ, zero, suc, Bool, true, false, not, ◌&&◌, ◌||◌, Option, none, some, List, [], ◌∷◌,
  ◌++◌, ◌==◌, is_empty, append, join, leb, Date, days_between, double, Result, ok, err,
  if◌then◌else◌,
}
use tagro_echo_os.Money.{Decimal, abs, minus, lt_dec, eq_dec}
use tagro_echo_os.Prism.{
  PrismCandidate, PrismObservation, PrismError, event_family, financial_consequence,
  validate_observation,
}

pub record ChordEvidence : Type 0 where
  pub left_id : String
  pub right_id : String
  pub amount_equal : Bool
  pub direction_opposed : Bool
  pub date_delta_days : Option ℕ
  pub same_reference : Bool
  pub account_identified : Bool
  pub owner_confirmed : Bool
  pub source_refs : List String

-- `within_date_tolerance`
unfoldable pub within_date_tolerance : Option ℕ → Bool
within_date_tolerance none = false
within_date_tolerance (some n) = leb n 3

pub record ReconciliationResult : Type 0 where
  pub chord : ChordEvidence
  pub candidates : List PrismCandidate
  pub deterministic_identity : Bool
  pub requires_review : Bool
  pub reason : String

-- `s[:n]`
prefix_of : ℕ → String → String
prefix_of zero s = ""
prefix_of (suc n) String.[] = ""
prefix_of (suc n) (String.◌∷◌ c s) = String.◌∷◌ c (prefix_of n s)

-- `_parse_date`
unfoldable pub parse_date : (String → Option Date) → Option String → Option Date
unfolding is_empty prefix_of
parse_date iso none = none
parse_date iso (some s) = if is_empty s then none else iso (prefix_of 10 s)

-- `{a, b} == {x, y}`, for x and y that differ.
unfoldable pub is_pair : String → String → String → String → Bool
is_pair a b x y = (a == x && b == y) || (a == y && b == x)

-- `_cash_bank_opposed`
unfoldable pub cash_bank_opposed : (String → String) → PrismObservation → PrismObservation → Bool
unfolding is_pair
cash_bank_opposed lower left right =
    let a = lower left.direction in
    let b = lower right.direction in
    is_pair a b "out" "credit" || is_pair a b "out" "in" || is_pair a b "in" "debit"

-- `abs((a - b).days) if a and b else None`
unfoldable pub date_delta : Option Date → Option Date → Option ℕ
unfolding days_between
date_delta (some a) (some b) = some (magnitude (days_between a b))
date_delta _ _ = none

-- `(x for x in (left.source_ref, right.source_ref) if x)`
refs_of_pair : String → String → List String
unfolding is_empty
refs_of_pair a b = (if is_empty a then [] else a ∷ []) ++ (if is_empty b then [] else b ∷ [])

-- What the caller knows of a pair besides its observations.
pub record Corroboration : Type 0 where
  pub same_reference : Bool
  pub account_identified : Bool
  pub owner_confirmed : Bool

unfoldable pub chord_of :
    (String → String)
    → (String → Option Date)
    → PrismObservation
    → PrismObservation
    → Corroboration
    → ChordEvidence
unfolding eq_dec cash_bank_opposed parse_date date_delta refs_of_pair
chord_of lower iso left right c = record {
  left_id = left.observation_id;
  right_id = right.observation_id;
  amount_equal = eq_dec left.amount right.amount;
  direction_opposed = cash_bank_opposed lower left right;
  date_delta_days =
      date_delta (parse_date iso left.business_date) (parse_date iso right.business_date);
  same_reference = c.same_reference;
  account_identified = c.account_identified;
  owner_confirmed = c.owner_confirmed;
  source_refs = refs_of_pair left.source_ref right.source_ref;
}

-- The test of the exact movement triple.
unfoldable pub is_triple : ChordEvidence → Bool
unfolding within_date_tolerance
is_triple chord =
    chord.amount_equal && chord.direction_opposed && within_date_tolerance chord.date_delta_days

-- `deterministic`
unfoldable pub is_corroborated : Corroboration → Bool
is_corroborated c = c.same_reference || c.account_identified || c.owner_confirmed

unfoldable pub transfer_candidate : ChordEvidence → PrismCandidate
unfolding join
transfer_candidate chord = record {
  meaning = "INTERNAL_TRANSFER_CANDIDATE";
  confidence = double 3422735716801577 52;
  depth = event_family;
  reason = "exact amount, opposing movement and date proximity across two sources";
  source_ref = some (join " | " chord.source_refs);
}

unfoldable pub consequence_candidate : ChordEvidence → Corroboration → PrismCandidate
unfolding join
consequence_candidate chord c = record {
  meaning = "NO_PNL_INTERNAL_TRANSFER";
  confidence =
      if c.owner_confirmed
      then double 4458563631096791 52
      else if c.same_reference
      then double 4368491638549381 52
      else double 2116691824864133 51;
  depth = financial_consequence;
  reason = join "; " (
      "exact movement triple"
      ∷ ((if c.same_reference then "shared reference" ∷ [] else [])
          ++ ((if c.account_identified then "destination/source account identified" ∷ [] else [])
              ++ (if c.owner_confirmed then "owner confirmed" ∷ [] else []))));
  source_ref = some (join " | " chord.source_refs);
}

unfoldable pub reconcile_chord : ChordEvidence → Corroboration → ReconciliationResult
unfolding is_triple is_corroborated transfer_candidate consequence_candidate
reconcile_chord chord c =
    if is_triple chord
    then record {
      chord = chord;
      candidates =
          transfer_candidate chord
          ∷ (if is_corroborated c then consequence_candidate chord c ∷ [] else []);
      deterministic_identity = is_corroborated c;
      requires_review = not (is_corroborated c);
      reason =
          if is_corroborated c
          then "cross-source movement identity corroborated"
          else "probable transfer; independent identity evidence still required";
    }
    else record {
      chord = chord;
      candidates = [];
      deterministic_identity = false;
      requires_review = true;
      reason = "pair lacks exact amount/opposed direction/close-date evidence";
    }

unfoldable pub reconcile_pair :
    (String → String)
    → (String → Option Date)
    → PrismObservation
    → PrismObservation
    → Corroboration
    → ReconciliationResult
unfolding chord_of reconcile_chord
reconcile_pair lower iso left right c = reconcile_chord (chord_of lower iso left right c) c

-- The date test of `candidate_pairs`, which continues with the next row where it fails.
unfoldable pub close_dates : Option Date → Option Date → Bool
unfolding days_between
close_dates (some a) (some b) = leb (magnitude (days_between a b)) 3
close_dates _ _ = false

-- The loop over the bank rows, for one row of the cash.
unfoldable pub pairs_of :
    (String → String)
    → (String → Option Date)
    → PrismObservation
    → List PrismObservation
    → List (PrismObservation × PrismObservation)
unfolding eq_dec cash_bank_opposed parse_date close_dates
pairs_of lower iso cash [] = []
pairs_of lower iso cash (b ∷ bank) =
    let rest = pairs_of lower iso cash bank in
    if not (eq_dec cash.amount b.amount)
    then rest
    else if not (cash_bank_opposed lower cash b)
    then rest
    else if close_dates (parse_date iso cash.business_date) (parse_date iso b.business_date)
    then (cash, b) ∷ rest
    else rest

unfoldable pub candidate_pairs :
    (String → String)
    → (String → Option Date)
    → List PrismObservation
    → List PrismObservation
    → List (PrismObservation × PrismObservation)
unfolding pairs_of
candidate_pairs lower iso [] bank = []
candidate_pairs lower iso (cash ∷ rest) bank =
    pairs_of lower iso cash bank ++ candidate_pairs lower iso rest bank

-- The opposing directions of `chord_pair`.
unfoldable pub is_opposite : String → String → Bool
unfolding is_pair
is_opposite a b =
    is_pair a b "out" "in"
    || is_pair a b "debit" "credit"
    || is_pair a b "out" "credit"
    || is_pair a b "debit" "in"

-- `chord_pair` of src/financial/prism.py.
unfoldable pub chord_pair :
    PrismObservation → PrismObservation → Decimal → Result PrismError (Option PrismCandidate)
unfolding validate_observation abs minus lt_dec is_opposite append
chord_pair left right tolerance = elim (validate_observation left) [
  | err e ↦ err e
  | ok _ ↦ elim (validate_observation right) [
    | err e ↦ err e
    | ok _ ↦
        if lt_dec tolerance (abs (minus left.amount right.amount))
          || not (is_opposite left.direction right.direction)
        then ok none
        else ok (
            some (record {
              meaning = "INTERNAL_TRANSFER_CANDIDATE";
              confidence = double 3422735716801577 52;
              depth = event_family;
              reason = "opposing equal-value observations form a possible transfer chord";
              source_ref = some (append left.source_ref (append "|" right.source_ref));
            }))
  ]
]
