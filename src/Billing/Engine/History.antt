-- ===== src/Billing/Engine/History.antt =====
-- Later calls of `issue` (src/billing/engine.py) under an idempotency key that was used.
use tagro_echo_os.Base.{
  String, some, Dict, lookup, lookup-insert, lookup-insert_self, ◌==◌, ◌≡◌, ap, arith, ok, err, inl,
  inr, Result-cases, eq_iff, if◌then◌else◌,
}
use tagro_echo_os.Money.{Decimal}
use tagro_echo_os.Billing.{BillingRequest, RequestPayload, EchoBill, BillingState, changed_replay}
use tagro_echo_os.Billing.Engine.{Ambient, request_payload, check_request, replay, issue}
use tagro_echo_os.Billing.Engine.Issue.{Issued, issue-Issued, issue_raises, state-check_request}

-- Any calls of `issue`, successful or not.
pub data Run (upper lower : String → String) (digest : RequestPayload → String) (s : BillingState)
    : BillingState → Type 0 where
  here : Run upper lower digest s s
  next :
      (t u : BillingState) (v : Ambient) (r : BillingRequest) (stock : Dict Decimal)
      → Run upper lower digest s t
      → u ≡ (issue upper lower digest v r stock t).1
      → Run upper lower digest s u

-- The bill and the digest that stand under a key.
abbrev Under : String → EchoBill → String → BillingState → Type 0
Under key bill hash s = (lookup key s.bills ≡ some bill) × (lookup key s.hashes ≡ some hash)

issue-Under :
    (upper lower : String → String) (digest : RequestPayload → String) (v : Ambient)
    (r : BillingRequest) (stock : Dict Decimal) (s : BillingState) (key : String) (bill : EchoBill)
    (hash : String)
    → Under key bill hash s
    → Under key bill hash (issue upper lower digest v r stock s).1
issue-Under upper lower digest v r stock s key bill hash (at_bill, at_hash) =
    elim (Result-cases (issue upper lower digest v r stock s).0) [
      | inr (e, bad) ↦ rw (issue_raises upper lower digest v r stock s e bad) (at_bill, at_hash)
      | inl (b, fine) ↦
          elim (issue-Issued upper lower digest v r stock s (issue upper lower digest v r stock s).1
            b (ap (λ x. (x, (issue upper lower digest v r stock s).1)) fine)).way [
              | inl (same, _, _) ↦ rw same (at_bill, at_hash)
              | inr (first, _, _, bills, hashes) ↦ (
                ground (
                  arith,
                  bills,
                  first,
                  at_bill,
                  lookup-insert r.idempotency_key key b s.bills,
                  eq_iff r.idempotency_key key,
                ),
                ground (
                  arith,
                  hashes,
                  first,
                  at_bill,
                  at_hash,
                  lookup-insert r.idempotency_key key (digest (request_payload r)) s.hashes,
                  eq_iff r.idempotency_key key,
                ),
              )
            ]
    ]

Run-Under :
    {upper lower : String → String} {digest : RequestPayload → String} {s u : BillingState}
    (key : String) (bill : EchoBill) (hash : String)
    → Run upper lower digest s u
    → Under key bill hash s
    → Under key bill hash u
Run-Under key bill hash here h = h
Run-Under {upper} {lower} {digest} key bill hash (next t u v r stock run eq) h =
    rw eq (issue-Under upper lower digest v r stock t key bill hash (Run-Under key bill hash run h))

Issued-Under :
    {upper lower : String → String} {digest : String} {v : Ambient} {r : BillingRequest}
    {stock : Dict Decimal} {s u : BillingState} {bill : EchoBill}
    → Issued upper lower digest v r stock s u bill
    → Under r.idempotency_key bill digest u
Issued-Under {digest = digest} {r = r} {s = s} {bill = bill} i = elim i.way [
  | inl (same, at_bill, at_hash) ↦ rw same (at_bill, at_hash)
  | inr (_, _, _, bills, hashes) ↦ (
    rw bills (lookup-insert_self r.idempotency_key bill s.bills),
    rw hashes (lookup-insert_self r.idempotency_key digest s.hashes),
  )
]

-- Once `issue` has returned a bill, a later call under the same key with a request that passes the guards
-- writes nothing, whatever calls come between and whatever the stock: it returns that bill when the digests
-- of the two requests agree, and is refused as a changed replay when they differ.
pub issue_again :
    (upper lower : String → String) (digest : RequestPayload → String) (v v' : Ambient)
    (r r' : BillingRequest) (stock stock' : Dict Decimal) (s t u : BillingState) (bill : EchoBill)
    → issue upper lower digest v r stock s ≡ (ok bill, t)
    → Run upper lower digest t u
    → r'.idempotency_key ≡ r.idempotency_key
    → (check_request r' u).0 ≡ ok tt
    → issue upper lower digest v' r' stock' u ≡ (
      if digest (request_payload r) == digest (request_payload r')
          then ok bill
          else err changed_replay,
      u,
    )
unfolding issue replay
issue_again upper lower digest v v' r r' stock stock' s t u bill h run same fine =
    let (at_bill, at_hash) =
      Run-Under r.idempotency_key bill (digest (request_payload r)) run
        (Issued-Under (issue-Issued upper lower digest v r stock s t bill h)) in
    ground (arith, fine, state-check_request r' u, same, at_bill, at_hash)
