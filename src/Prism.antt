-- ===== src/Prism.antt =====
-- src/financial/prism.py: the observations, candidates and rays of `class AdaptivePrism`.
pub mod Resolve
pub mod Candidates
pub mod Depth
pub mod Reconcile
pub mod Pairs
pub mod Identity
pub mod Status
pub mod Review
mod Examples
use tagro_echo_os.Base.{
  ℕ, String, Bool, not, ◌||◌, Option, none, some, List, [], ◌∷◌, ◌==◌, is_blank, leb, nat_eq, Float,
  double, in_unit, le_float, le_text, lex, Result, ok, err, if◌then◌else◌,
}
use tagro_echo_os.Money.{Decimal, zero_dec, lt_dec}

-- `class PrismDepth`
pub data PrismDepth : Type 0 where
  observation movement relationship event_family business_meaning financial_consequence
        operational_allocation :
      PrismDepth

-- `int(depth)`
unfoldable pub rank : PrismDepth → ℕ
rank observation = 0
rank movement = 1
rank relationship = 2
rank event_family = 3
rank business_meaning = 4
rank financial_consequence = 5
rank operational_allocation = 6

-- `PrismDepth(n)`, for n at most 6.
unfoldable pub depth_of : ℕ → PrismDepth
depth_of n =
    if nat_eq n 0
    then observation
    else if nat_eq n 1
    then movement
    else if nat_eq n 2
    then relationship
    else if nat_eq n 3
    then event_family
    else if nat_eq n 4
    then business_meaning
    else if nat_eq n 5
    then financial_consequence
    else operational_allocation

-- `class PrismBand`, by its members.
pub data PrismBand : Type 0 where
  value identity business location yield origin reliability : PrismBand

pub record PrismCandidate : Type 0 where
  pub meaning : String
  pub confidence : Float
  pub depth : PrismDepth
  pub reason : String
  pub source_ref : Option String

pub record PrismObservation : Type 0 where
  pub observation_id : String
  pub source_kind : String
  pub source_ref : String
  pub amount : Decimal
  pub direction : String
  pub branch : Option String
  pub account : Option String
  pub counterparty : Option String
  pub narration : String
  pub business_date : Option String

pub record PrismRay : Type 0 where
  pub band : PrismBand
  pub value : String
  pub confidence : Float
  pub depth : PrismDepth
  pub reason : String
  pub source_refs : List String

pub record PrismResult : Type 0 where
  pub observation_id : String
  pub resolved_depth : PrismDepth
  pub rays : List PrismRay
  pub candidates : List PrismCandidate
  pub tight_split : Bool
  pub requires_more_evidence : Bool
  pub stop_reason : String

-- The messages of the ValueErrors.
pub data PrismError : Type 0 where
  meaning_required confidence_range observation_id_required source_ref_required negative_amount
        unsupported_direction descend_range margin_range consequence_range :
      PrismError

-- `PrismResult.top_candidate`
unfoldable pub top_candidate : PrismResult → Option PrismCandidate
top_candidate r = elim r.candidates [ [] ↦ none | c ∷ cs ↦ some c ]

-- `PrismCandidate.validate`
unfoldable pub validate_candidate : PrismCandidate → Result PrismError Unit
unfolding is_blank in_unit
validate_candidate c =
    if is_blank c.meaning
    then err meaning_required
    else if not (in_unit c.confidence)
    then err confidence_range
    else ok tt

unfoldable pub is_direction : String → Bool
is_direction d = d == "in" || d == "out" || d == "debit" || d == "credit" || d == "neutral"

-- `PrismObservation.validate`
unfoldable pub validate_observation : PrismObservation → Result PrismError Unit
unfolding is_blank lt_dec is_direction
validate_observation o =
    if is_blank o.observation_id
    then err observation_id_required
    else if is_blank o.source_ref
    then err source_ref_required
    else if lt_dec o.amount zero_dec
    then err negative_amount
    else if not (is_direction o.direction)
    then err unsupported_direction
    else ok tt

-- The thresholds of an `AdaptivePrism`.
pub record AdaptivePrism : Type 0 where
  pub descend_threshold : Float
  pub tight_margin : Float
  pub auto_consequence_threshold : Float

-- `AdaptivePrism()`: 0.80, 0.12 and 0.92.
abbrev pub default_prism : AdaptivePrism
default_prism = record {
  descend_threshold = double 3602879701896397 52;
  tight_margin = double 1080863910568919 53;
  auto_consequence_threshold = double 8286623314361713 53;
}

-- `AdaptivePrism.__init__`
unfoldable pub make_prism : Float → Float → Float → Result PrismError AdaptivePrism
unfolding in_unit
make_prism descend margin consequence =
    if not (in_unit descend)
    then err descend_range
    else if not (in_unit margin)
    then err margin_range
    else if not (in_unit consequence)
    then err consequence_range
    else ok (record {
      descend_threshold = descend;
      tight_margin = margin;
      auto_consequence_threshold = consequence;
    })

-- `key(a) <= key(b)`, for the key `(-c.confidence, c.meaning, int(c.depth))`.
unfoldable pub not_after : PrismCandidate → PrismCandidate → Bool
unfolding lex le_float le_text rank
not_after =
    lex (λ (a b : PrismCandidate). le_float b.confidence a.confidence)
      (lex (λ (a b : PrismCandidate). le_text a.meaning b.meaning)
        (λ (a b : PrismCandidate). leb (rank a.depth) (rank b.depth)))

-- `_band_for_depth`
unfoldable pub band_for_depth : PrismDepth → PrismBand
band_for_depth observation = origin
band_for_depth movement = value
band_for_depth relationship = identity
band_for_depth event_family = business
band_for_depth business_meaning = business
band_for_depth financial_consequence = yield
band_for_depth operational_allocation = location
