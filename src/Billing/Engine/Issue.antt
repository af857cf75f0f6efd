-- ===== src/Billing/Engine/Issue.antt =====
-- The ways in which a call of `issue` (src/billing/engine.py) ends.
use tagro_echo_os.Base.{
  String, Bool, none, some, List, [], ◌∷◌, Dict, lookup, insert, ◌≡◌, refl, arith, ok, err, ◌⊎◌,
  inl, inr, Option-cases, outcome_cases, eq_iff,
}
use tagro_echo_os.Money.{Decimal}
use tagro_echo_os.Billing.{
  BillingLine, BillingRequest, RequestPayload, EchoBill, BillingState, BillingError,
}
use tagro_echo_os.Billing.Engine.{
  Ambient, validate, validate_lines, request_payload, check_request, has_shortage, check_stock,
  bill_of, replay, issue_new, issue,
}

state-validate_lines : (ls : List BillingLine) (s : BillingState) → (validate_lines ls s).1 ≡ s
unfolding validate_lines validate
state-validate_lines [] s = refl
state-validate_lines (l ∷ ls) s = ground (arith, state-validate_lines ls s)

pub state-check_request : (r : BillingRequest) (s : BillingState) → (check_request r s).1 ≡ s
unfolding check_request
state-check_request r s = ground (arith, state-validate_lines r.lines s)

-- The guards on the request do not read the state.
result-validate_lines :
    (ls : List BillingLine) (s t : BillingState) → (validate_lines ls s).0 ≡ (validate_lines ls t).0
unfolding validate_lines validate
result-validate_lines [] s t = refl
result-validate_lines (l ∷ ls) s t = ground (arith, result-validate_lines ls s t)

pub result-check_request :
    (r : BillingRequest) (s t : BillingState) → (check_request r s).0 ≡ (check_request r t).0
unfolding check_request
result-check_request r s t = ground (arith, result-validate_lines r.lines s t)

-- What a call that returns a bill has found and done.
pub record Issued (upper lower : String → String) (digest : String) (v : Ambient)
    (r : BillingRequest) (stock : Dict Decimal) (s u : BillingState) (bill : EchoBill)
    : Type 0 where
  pub checked : check_request r s ≡ (ok tt, s)
  pub way :
      ((u ≡ s)
        × (lookup r.idempotency_key s.bills ≡ some bill)
        × (lookup r.idempotency_key s.hashes ≡ some digest))
      ⊎ ((lookup r.idempotency_key s.bills ≡ none)
          × (check_stock upper r (has_shortage stock r.lines) s ≡ (ok tt, s))
          × (bill ≡ bill_of upper lower v r (has_shortage stock r.lines))
          × (u.bills ≡ insert r.idempotency_key bill s.bills)
          × (u.hashes ≡ insert r.idempotency_key digest s.hashes))

replay_way :
    (digest : String) (r : BillingRequest) (s u : BillingState) (found bill : EchoBill)
    → lookup r.idempotency_key s.bills ≡ some found
    → replay digest r found s ≡ (ok bill, u)
    → (u ≡ s)
      × (lookup r.idempotency_key s.bills ≡ some bill)
      × (lookup r.idempotency_key s.hashes ≡ some digest)
unfolding replay
replay_way digest r s u found bill at_key h =
    elim (Option-cases (lookup r.idempotency_key s.hashes)) [
      | inl lost ↦ ground (arith, lost)
      | inr (hash, at_hash) ↦ (
        ground (arith, at_hash),
        ground (arith, at_hash, at_key),
        ground (arith, at_hash, eq_iff hash digest),
      )
    ]

state-check_stock :
    (upper : String → String) (r : BillingRequest) (b : Bool) (s : BillingState)
    → (check_stock upper r b s).1 ≡ s
unfolding check_stock
state-check_stock upper r b s = ground arith

new_way :
    (upper lower : String → String) (digest : String) (v : Ambient) (r : BillingRequest)
    (stock : Dict Decimal) (s u : BillingState) (bill : EchoBill)
    → issue_new upper lower digest v r stock s ≡ (ok bill, u)
    → (check_stock upper r (has_shortage stock r.lines) s ≡ (ok tt, s))
      × (bill ≡ bill_of upper lower v r (has_shortage stock r.lines))
      × (u.bills ≡ insert r.idempotency_key bill s.bills)
      × (u.hashes ≡ insert r.idempotency_key digest s.hashes)
unfolding issue_new
new_way upper lower digest v r stock s u bill h =
    elim (outcome_cases (check_stock upper r (has_shortage stock r.lines) s)
      (state-check_stock upper r (has_shortage stock r.lines) s)) [
        | inr (e, bad) ↦ ground (arith, bad)
        | inl (_, fine) ↦
            (ground (arith, fine), ground (arith, fine), ground (arith, fine), ground (arith, fine))
      ]

pub issue-Issued :
    (upper lower : String → String) (digest : RequestPayload → String) (v : Ambient)
    (r : BillingRequest) (stock : Dict Decimal) (s u : BillingState) (bill : EchoBill)
    → issue upper lower digest v r stock s ≡ (ok bill, u)
    → Issued upper lower (digest (request_payload r)) v r stock s u bill
unfolding issue
issue-Issued upper lower digest v r stock s u bill h =
    elim (outcome_cases (check_request r s) (state-check_request r s)) [
      | inr (e, bad) ↦ ground (arith, bad)
      | inl (_, fine) ↦ record {
        checked = ground (arith, fine);
        way = elim (Option-cases (lookup r.idempotency_key s.bills)) [
          | inr (found, at_key) ↦ inl (
              replay_way (digest (request_payload r)) r s u found bill at_key
                (ground (arith, fine, at_key)))
          | inl first ↦
              let (granted, made, b, h') =
                new_way upper lower (digest (request_payload r)) v r stock s u bill
                  (ground (arith, fine, first)) in
              inr (first, granted, made, b, h')
        ];
      }
    ]

state-replay :
    (digest : String) (r : BillingRequest) (bill : EchoBill) (s : BillingState)
    → (replay digest r bill s).1 ≡ s
unfolding replay
state-replay digest r bill s = ground arith

issue_new_raises :
    (upper lower : String → String) (digest : String) (v : Ambient) (r : BillingRequest)
    (stock : Dict Decimal) (s : BillingState) (e : BillingError)
    → (issue_new upper lower digest v r stock s).0 ≡ err e
    → (issue_new upper lower digest v r stock s).1 ≡ s
unfolding issue_new
issue_new_raises upper lower digest v r stock s e h =
    elim (outcome_cases (check_stock upper r (has_shortage stock r.lines) s)
      (state-check_stock upper r (has_shortage stock r.lines) s)) [
        | inr (x, bad) ↦ ground (arith, bad)
        | inl (_, fine) ↦ ground (arith, fine)
      ]

-- A call that raises changes nothing.
pub issue_raises :
    (upper lower : String → String) (digest : RequestPayload → String) (v : Ambient)
    (r : BillingRequest) (stock : Dict Decimal) (s : BillingState) (e : BillingError)
    → (issue upper lower digest v r stock s).0 ≡ err e
    → (issue upper lower digest v r stock s).1 ≡ s
unfolding issue
issue_raises upper lower digest v r stock s e h =
    elim (outcome_cases (check_request r s) (state-check_request r s)) [
      | inr (x, bad) ↦ ground (arith, bad)
      | inl (_, fine) ↦ elim (Option-cases (lookup r.idempotency_key s.bills)) [
        | inr (found, at_key) ↦
            ground (arith, fine, at_key, state-replay (digest (request_payload r)) r found s)
        | inl first ↦
            let back = issue_new_raises upper lower (digest (request_payload r)) v r stock s e in
            ground (arith, fine, first, back)
      ]
    ]
