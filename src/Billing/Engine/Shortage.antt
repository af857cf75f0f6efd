-- ===== src/Billing/Engine/Shortage.antt =====
-- The stock guard of `issue` (src/billing/engine.py), against the lines that ask for more than there is.
use mathlib.Core.List.{Memᴰ}
use tagro_echo_os.Base.{
  String, true, false, none, some, List, Dict, lookup, any-mem, any-first, mem-filter, ◌≡◌, ◌↔◌,
  inl, inr, refl, sym, ap, arith, ok, Bool-cases, Option-cases, is_blank, strip, eq_iff,
}
use mathlib.Core.Path.{subst}
use tagro_echo_os.Money.{Decimal, zero_dec, lt_dec}
use tagro_echo_os.Money.Order.{IsMore, lt_dec-IsMore}
use tagro_echo_os.Billing.{BillingLine, BillingRequest, RequestPayload, EchoBill, BillingState}
use tagro_echo_os.Billing.Engine.{
  Ambient, available, has_shortage, check_request, check_stock, bill_of, issue_new, issue,
}
use tagro_echo_os.Billing.Engine.Issue.{issue-Issued}

-- The quantity of a line is more than the stock of its product; a product that is not listed has none.
pub data AsksTooMuch (stock : Dict Decimal) (l : BillingLine) : Type 0 where
  of_listed :
      (q : Decimal) → lookup l.product_id stock ≡ some q → IsMore l.quantity q → AsksTooMuch stock l
  of_unlisted : lookup l.product_id stock ≡ none → IsMore l.quantity zero_dec → AsksTooMuch stock l

-- Some line asks for too much.
abbrev pub Shortage : Dict Decimal → List BillingLine → Type 0
Shortage stock lines = (l : BillingLine) × Memᴰ l lines × AsksTooMuch stock l

-- An owner has set the override and given a reason.
abbrev pub IsGranted : (String → String) → BillingRequest → Type 0
IsGranted upper r =
    (upper (strip r.actor_role) ≡ "OWNER")
    × (r.owner_stock_override ≡ true)
    × (is_blank r.stock_override_reason ≡ false)

asks_too_much :
    (stock : Dict Decimal) (l : BillingLine)
    → (lt_dec (available stock l.product_id) l.quantity ≡ true) ↔ AsksTooMuch stock l
unfolding available
asks_too_much stock l = elim (Option-cases (lookup l.product_id stock)) [
  | inl missing ↦ (
    λ h. of_unlisted missing ((lt_dec-IsMore l.quantity zero_dec).0 (ground (arith, missing, h))),
    λ a. elim a [
      | of_listed q found more ↦ ground (arith, missing, found)
      | of_unlisted lost more ↦
          let less = (lt_dec-IsMore l.quantity zero_dec).1 more in ground (arith, missing, less)
    ],
  )
  | inr (p, at_p) ↦ (
    λ h. of_listed p at_p ((lt_dec-IsMore l.quantity p).0 (ground (arith, at_p, h))),
    λ a. elim a [
      | of_unlisted lost more ↦ ground (arith, lost, at_p)
      | of_listed q found more ↦
          let less = (lt_dec-IsMore l.quantity q).1 more in ground (arith, at_p, found, less)
    ],
  )
]

has_shortage-Shortage :
    (stock : Dict Decimal) (lines : List BillingLine)
    → (has_shortage stock lines ≡ true) ↔ Shortage stock lines
unfolding has_shortage
has_shortage-Shortage stock lines =
    let short = λ (l : BillingLine). lt_dec (available stock l.product_id) l.quantity in
    (
      λ h.
          let (l, ls, e) = any-first short lines h in
          let (m, less) = mem-filter short l lines (subst (Memᴰ l) (sym e) (Memᴰ.head refl)) in
          (l, m, (asks_too_much stock l).0 less),
      λ (l, m, too_much). any-mem short l lines m ((asks_too_much stock l).1 too_much),
    )

check_stock-IsGranted :
    (upper : String → String) (r : BillingRequest) (s : BillingState)
    → (check_stock upper r true s ≡ (ok tt, s)) ↔ IsGranted upper r
unfolding check_stock
check_stock-IsGranted upper r s = (
  λ h. (ground (arith, eq_iff (upper (strip r.actor_role)) "OWNER"), ground arith, ground arith),
  λ (owner, set, reason). ground (arith, eq_iff (upper (strip r.actor_role)) "OWNER"),
)

check_stock-none :
    (upper : String → String) (r : BillingRequest) (s : BillingState)
    → check_stock upper r false s ≡ (ok tt, s)
unfolding check_stock
check_stock-none upper r s = ground arith

-- With its guards passed, a call under a new key returns the bill it builds.
accepts :
    (upper lower : String → String) (digest : RequestPayload → String) (v : Ambient)
    (r : BillingRequest) (stock : Dict Decimal) (s : BillingState)
    → lookup r.idempotency_key s.bills ≡ none
    → check_request r s ≡ (ok tt, s)
    → check_stock upper r (has_shortage stock r.lines) s ≡ (ok tt, s)
    → (issue upper lower digest v r stock s).0
      ≡ ok (bill_of upper lower v r (has_shortage stock r.lines))
unfolding issue issue_new
accepts upper lower digest v r stock s first passes granted = ground (arith, first, passes, granted)

-- A bill that is returned under a new key has passed the guards and is the one built.
new_bill :
    (upper lower : String → String) (digest : RequestPayload → String) (v : Ambient)
    (r : BillingRequest) (stock : Dict Decimal) (s u : BillingState) (bill : EchoBill)
    → lookup r.idempotency_key s.bills ≡ none
    → issue upper lower digest v r stock s ≡ (ok bill, u)
    → (check_stock upper r (has_shortage stock r.lines) s ≡ (ok tt, s))
      × (bill ≡ bill_of upper lower v r (has_shortage stock r.lines))
new_bill upper lower digest v r stock s u bill first h =
    elim (issue-Issued upper lower digest v r stock s u bill h).way [
      | inl (_, at_key, _) ↦ ground (arith, first, at_key)
      | inr (_, granted, made, _, _) ↦ (granted, made)
    ]

-- For a request under a new key that passes the other guards, `issue` returns a bill exactly when an
-- owner has set the override and given a reason, or no line asks for more than the stock of its product
-- (nothing where the product is not listed); and a bill that it returns is marked as a stock exception
-- exactly when some line does.
pub issue_stock_rule :
    (upper lower : String → String) (digest : RequestPayload → String) (v : Ambient)
    (r : BillingRequest) (stock : Dict Decimal) (s : BillingState)
    → lookup r.idempotency_key s.bills ≡ none
    → check_request r s ≡ (ok tt, s)
    → (((bill : EchoBill) × ((issue upper lower digest v r stock s).0 ≡ ok bill))
        ↔ (Shortage stock r.lines → IsGranted upper r))
      × ((bill : EchoBill)
          → (issue upper lower digest v r stock s).0 ≡ ok bill
          → (bill.stock_exception ≡ true) ↔ Shortage stock r.lines)
unfolding bill_of
issue_stock_rule upper lower digest v r stock s first passes =
    let u = (issue upper lower digest v r stock s).1 in
    let short = has_shortage-Shortage stock r.lines in
    let made = λ (bill : EchoBill) (done : (issue upper lower digest v r stock s).0 ≡ ok bill).
      new_bill upper lower digest v r stock s u bill first (ap (λ x. (x, u)) done) in
    (
      (
        λ (bill, done) shortage. (check_stock-IsGranted upper r s).0 (
            subst (λ b. check_stock upper r b s ≡ (ok tt, s)) (short.1 shortage)
              (made bill done).0),
        λ grants. (
          bill_of upper lower v r (has_shortage stock r.lines),
          accepts upper lower digest v r stock s first passes
              (elim (Bool-cases (has_shortage stock r.lines)) [
                | inl yes_it ↦
                    subst (λ b. check_stock upper r b s ≡ (ok tt, s)) (sym yes_it)
                      ((check_stock-IsGranted upper r s).1 (grants (short.0 yes_it)))
                | inr none_it ↦
                    subst (λ b. check_stock upper r b s ≡ (ok tt, s)) (sym none_it)
                      (check_stock-none upper r s)
              ]),
        ),
      ),
      λ bill done. (
        λ marked. short.0 (ground (arith, marked, (made bill done).1)),
        λ shortage. ground (arith, short.1 shortage, (made bill done).1),
      ),
    )
