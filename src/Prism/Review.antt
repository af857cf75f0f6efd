-- ===== src/Prism/Review.antt =====
-- The figures of `build_prism_status` (src/financial/prism_status.py) over results of `resolve`.
use tagro_echo_os.Base.{
  pos, magnitude, ℕ, ◌≤◌, true, List, [], ◌∷◌, length, length-append, ◌≡◌, refl, ap, ◌∙◌, arith,
  Bool-cases, inl, inr, ok, if◌then◌else◌,
}
use tagro_echo_os.Money.{Decimal, zero_dec, hundredths, abs, plus, eq_dec}
use tagro_echo_os.Money.Ratio.{ratio_pct}
use tagro_echo_os.Money.Parts.{
  IsPart, zero-IsPart, plus-IsPart, plus-IsPart_whole, ratio_pct-bounds,
}
use mathlib.Core.Path.{subst}
use tagro_echo_os.Prism.Depth.{resolve-IsSound}
use tagro_echo_os.Prism.{PrismObservation, PrismCandidate, PrismResult, AdaptivePrism}
use tagro_echo_os.Prism.Resolve.{resolve}
use tagro_echo_os.Prism.Status.{
  PrismStatusRow, Tally, no_tally, add_row, tally_rows, review_of, has_financial_consequence,
  build_prism_status, coverage_pct,
}

-- Rows whose results come from `resolve`.
pub data Resolved : List PrismStatusRow → Type 0 where
  no_rows : Resolved []
  one_more :
      (prism : AdaptivePrism) (o : PrismObservation) (cs : List PrismCandidate) (r : PrismResult)
      (rows : List PrismStatusRow)
      → resolve prism o cs ≡ ok r
      → Resolved rows
      → Resolved (record { observation = o; result = r } ∷ rows)

-- What the loop keeps of its counts.
record IsCounted (t : Tally) : Type 0 where
  few_tight : t.tight_count ≤ t.unresolved_count
  queued : length t.review ≡ t.unresolved_count

add_row-IsCounted :
    (row : PrismStatusRow) (t : Tally)
    → (row.result.tight_split ≡ true → row.result.requires_more_evidence ≡ true)
    → IsCounted t
    → IsCounted (add_row row t)
unfolding add_row
add_row-IsCounted row t h c = record {
  few_tight = ground (arith, h, c.few_tight);
  queued = ground (arith, h, c.queued, length-append t.review (review_of row ∷ []));
}

-- The resolved amount is a part of the observed amount.
abbrev Covered : Tally → Type 0
Covered t = IsPart t.resolved_consequence_amount t.total_amount

add_row-Covered : (row : PrismStatusRow) (t : Tally) → Covered t → Covered (add_row row t)
unfolding add_row abs
add_row-Covered row t c =
    let a = abs row.observation.amount in
    let k = magnitude row.observation.amount.coeff in
    elim (Bool-cases (has_financial_consequence row.result)) [
      | inl h ↦
          subst (λ (d : Decimal). IsPart d (plus t.total_amount a)) (ground (arith, h))
            (plus-IsPart t.resolved_consequence_amount t.total_amount a k refl c)
      | inr h ↦
          subst (λ (d : Decimal). IsPart d (plus t.total_amount a)) (ground (arith, h))
            (plus-IsPart_whole t.resolved_consequence_amount t.total_amount a k refl c)
    ]

tally_rows-Covered :
    (rows : List PrismStatusRow) (t : Tally) → Covered t → Covered (tally_rows rows t)
unfolding tally_rows
tally_rows-Covered [] t c = c
tally_rows-Covered (row ∷ rows) t c =
    tally_rows-Covered rows (add_row row t) (add_row-Covered row t c)

coverage_pct-bounds :
    (t : Tally) → Covered t → (x : ℕ) × (coverage_pct t ≡ hundredths (pos x)) × (x ≤ 10000)
unfolding coverage_pct
coverage_pct-bounds t c =
    let pct = ratio_pct t.resolved_consequence_amount t.total_amount in
    elim (Bool-cases (eq_dec t.total_amount zero_dec)) [
      | inl h ↦ (0, ap (λ b. if b then hundredths (pos 0) else pct) h, omega arith)
      | inr h ↦
          let (x, e, le) = ratio_pct-bounds t.resolved_consequence_amount t.total_amount c h in
          (x, ap (λ b. if b then hundredths (pos 0) else pct) h ∙ e, le)
    ]

-- A tight result of `resolve` asks for more evidence.
resolve-tight :
    (prism : AdaptivePrism) (o : PrismObservation) (cs : List PrismCandidate) (r : PrismResult)
    → resolve prism o cs ≡ ok r
    → r.tight_split ≡ true
    → r.requires_more_evidence ≡ true
resolve-tight prism o cs r h tight = elim (Bool-cases r.requires_more_evidence) [
  | inl more ↦ more
  | inr enough ↦
      let (top, s) = (resolve-IsSound prism o cs r h).supported enough in
      absurd (ground (arith, tight, s.apart))
]

tally_rows-IsCounted :
    (rows : List PrismStatusRow) (t : Tally)
    → Resolved rows
    → IsCounted t
    → IsCounted (tally_rows rows t)
unfolding tally_rows
tally_rows-IsCounted _ t no_rows c = c
tally_rows-IsCounted _ t (one_more prism o cs r rows h rest) c =
    let row : PrismStatusRow = record { observation = o; result = r } in
    tally_rows-IsCounted rows (add_row row t) rest
      (add_row-IsCounted row t (resolve-tight prism o cs r h) c)

-- Over results of `resolve`, at most as many rows are tight as are unresolved, the review queue has just the
-- unresolved rows' number, and the coverage is between 0 and 100 per cent.
pub build_prism_status-bounds :
    (rows : List PrismStatusRow)
    → Resolved rows
    → let s = build_prism_status rows in
      (s.tight_split_count ≤ s.unresolved_count)
      × (length s.review_queue ≡ s.unresolved_count)
      × ((x : ℕ) × (s.financial_consequence_amount_coverage_pct ≡ hundredths (pos x)) × (x ≤ 10000))
unfolding build_prism_status
build_prism_status-bounds rows resolved =
    let c =
      tally_rows-IsCounted rows no_tally resolved
        (record { few_tight = omega arith; queued = refl }) in
    (
      c.few_tight,
      c.queued,
      coverage_pct-bounds (tally_rows rows no_tally) (tally_rows-Covered rows no_tally zero-IsPart),
    )
