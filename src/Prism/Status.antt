-- ===== src/Prism/Status.antt =====
-- src/financial/prism_status.py: `build_prism_status`.
use tagro_echo_os.Base.{
  pos, ℕ, zero, suc, ◌+◌, String, Bool, true, false, ◌&&◌, ◌||◌, Option, List, [], ◌∷◌, ◌++◌, map,
  any, length, nat_eq, Float, if◌then◌else◌,
}
use tagro_echo_os.Money.{Decimal, zero_dec, hundredths, abs, plus, eq_dec}
use tagro_echo_os.Money.Ratio.{ratio_pct}
use tagro_echo_os.Prism.{
  PrismDepth, observation, movement, relationship, event_family, business_meaning,
  financial_consequence, operational_allocation, rank, PrismBand, yield, PrismCandidate,
  PrismObservation, PrismRay, PrismResult,
}

pub record PrismStatusRow : Type 0 where
  pub observation : PrismObservation
  pub result : PrismResult

-- `depth.name.lower()`
unfoldable pub depth_name : PrismDepth → String
depth_name observation = "observation"
depth_name movement = "movement"
depth_name relationship = "relationship"
depth_name event_family = "event_family"
depth_name business_meaning = "business_meaning"
depth_name financial_consequence = "financial_consequence"
depth_name operational_allocation = "operational_allocation"

unfoldable pub is_yield : PrismBand → Bool
is_yield yield = true
is_yield _ = false

-- `_has_financial_consequence`
unfoldable pub has_financial_consequence : PrismResult → Bool
unfolding any is_yield rank
has_financial_consequence r =
    any (λ (ray : PrismRay). is_yield ray.band && nat_eq (rank ray.depth) 5) r.rays

-- The dict of one candidate in the review queue.
pub record ReviewCandidate : Type 0 where
  pub meaning : String
  pub confidence : Float
  pub depth : String
  pub source_ref : Option String

-- The dict of one row in the review queue.
pub record Review : Type 0 where
  pub observation_id : String
  pub source_kind : String
  pub source_ref : String
  pub amount : Decimal
  pub direction : String
  pub branch : Option String
  pub resolved_depth : String
  pub tight_split : Bool
  pub reason : String
  pub candidates : List ReviewCandidate

-- `cs[:n]`
first_candidates : ℕ → List PrismCandidate → List PrismCandidate
first_candidates zero cs = []
first_candidates (suc n) [] = []
first_candidates (suc n) (c ∷ cs) = c ∷ first_candidates n cs

unfoldable pub review_of : PrismStatusRow → Review
unfolding abs depth_name first_candidates
review_of row = record {
  observation_id = row.observation.observation_id;
  source_kind = row.observation.source_kind;
  source_ref = row.observation.source_ref;
  amount = abs row.observation.amount;
  direction = row.observation.direction;
  branch = row.observation.branch;
  resolved_depth = depth_name row.result.resolved_depth;
  tight_split = row.result.tight_split;
  reason = row.result.stop_reason;
  candidates =
      map
        (λ (c : PrismCandidate). record {
          meaning = c.meaning;
          confidence = c.confidence;
          depth = depth_name c.depth;
          source_ref = c.source_ref;
        })
        (first_candidates 4 row.result.candidates);
}

-- The variables of the loop.
pub record Tally : Type 0 where
  pub total_amount : Decimal
  pub resolved_consequence_amount : Decimal
  pub unresolved_amount : Decimal
  pub tight_amount : Decimal
  pub resolved_count : ℕ
  pub unresolved_count : ℕ
  pub tight_count : ℕ
  pub review : List Review

abbrev pub no_tally : Tally
no_tally = record {
  total_amount = zero_dec;
  resolved_consequence_amount = zero_dec;
  unresolved_amount = zero_dec;
  tight_amount = zero_dec;
  resolved_count = 0;
  unresolved_count = 0;
  tight_count = 0;
  review = [];
}

-- `if c: total += amount`
abbrev pub add_if : Bool → Decimal → Decimal → Decimal
add_if c amount total = if c then plus total amount else total

abbrev pub count_if : Bool → ℕ → ℕ
count_if c n = if c then n + 1 else n

-- One round of the loop.
unfoldable pub add_row : PrismStatusRow → Tally → Tally
unfolding abs plus has_financial_consequence review_of
add_row row t =
    let amount = abs row.observation.amount in
    let consequence = has_financial_consequence row.result in
    let more = row.result.requires_more_evidence in
    let tight = row.result.tight_split in
    record {
      total_amount = plus t.total_amount amount;
      resolved_consequence_amount = add_if consequence amount t.resolved_consequence_amount;
      unresolved_amount = add_if more amount t.unresolved_amount;
      tight_amount = add_if tight amount t.tight_amount;
      resolved_count = count_if consequence t.resolved_count;
      unresolved_count = count_if more t.unresolved_count;
      tight_count = count_if tight t.tight_count;
      review = if more || tight then t.review ++ review_of row ∷ [] else t.review;
    }

unfoldable pub tally_rows : List PrismStatusRow → Tally → Tally
unfolding add_row
tally_rows [] t = t
tally_rows (row ∷ rows) t = tally_rows rows (add_row row t)

-- `coverage_pct`
unfoldable pub coverage_pct : Tally → Decimal
unfolding eq_dec ratio_pct
coverage_pct t =
    if eq_dec t.total_amount zero_dec
    then hundredths (pos 0)
    else ratio_pct t.resolved_consequence_amount t.total_amount

-- The dict that `build_prism_status` returns.
pub record PrismStatus : Type 0 where
  pub observation_count : ℕ
  pub movement_amount_observed : Decimal
  pub financial_consequence_resolved_count : ℕ
  pub financial_consequence_resolved_amount : Decimal
  pub financial_consequence_amount_coverage_pct : Decimal
  pub unresolved_count : ℕ
  pub unresolved_amount : Decimal
  pub tight_split_count : ℕ
  pub tight_split_amount : Decimal
  pub review_queue : List Review

unfoldable pub build_prism_status : List PrismStatusRow → PrismStatus
unfolding tally_rows coverage_pct
build_prism_status rows =
    let t = tally_rows rows no_tally in
    record {
      observation_count = length rows;
      movement_amount_observed = t.total_amount;
      financial_consequence_resolved_count = t.resolved_count;
      financial_consequence_resolved_amount = t.resolved_consequence_amount;
      financial_consequence_amount_coverage_pct = coverage_pct t;
      unresolved_count = t.unresolved_count;
      unresolved_amount = t.unresolved_amount;
      tight_split_count = t.tight_count;
      tight_split_amount = t.tight_amount;
      review_queue = t.review;
    }
