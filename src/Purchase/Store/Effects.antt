-- ===== src/Purchase/Store/Effects.antt =====
-- What each method of `class PurchaseOrderStore` (src/purchase/orders.py) does: it raises and changes
-- nothing, or it makes one permitted change to one order and appends one event.
use tagro_echo_os.Base.{
  String, Bool, true, false, ◌||◌, ◌&&◌, not, Option, none, some, List, [], ◌∷◌, ◌++◌, Dict, lookup,
  filter, length, ◌≡◌, refl, arith, ok, err, ◌⊎◌, inl, inr, Bool-cases, Option-cases, outcome_cases,
  Result-cases, is_blank, if◌then◌else◌, strip,
}
use tagro_echo_os.Money.{Decimal}
use tagro_echo_os.Purchase.{
  PurchaseOrderStatus, PurchaseOrderLine, InterBranchStockEvidence, ApprovalDecision, PurchaseOrder,
  OrderError, OrderState, Ambient, draft, submitted, approved, rejected, ordered, part_received,
  received, cancelled, no_order, not_editable, branch_and_requester_required, lines_required,
  only_submitted, owner_required, approval_required, submission_required, ordered_ref_required,
  only_ordered, not_cancellable, reason_required, line_added, evidence_attached, order_submitted,
  decided, placed, stock_received, order_cancelled,
}
use tagro_echo_os.Purchase.Quantities.{has_lines, known_lines, receive_lines, is_complete}
use tagro_echo_os.Purchase.Store.Changes.{
  LineOk, adds_line, attaches, submits, decides, orders, receives, cancels, Effect, refused, opens,
  changes,
}
use tagro_echo_os.Purchase.Store.{
  new_order, validate_evidence, get_order, editable, validate_line, validate_all, create, add_line,
  attach_interbranch_evidence, submit, decide, mark_ordered, receive, cancel, is_editable,
  is_relevant, is_submitted, is_approved, is_receivable, is_final, rounded_cost,
}

pub get_order_cases :
    (id : String) (s : OrderState)
    → (get_order id s ≡ (err no_order, s))
      ⊎ ((o : PurchaseOrder) × (lookup id s.orders ≡ some o) × (get_order id s ≡ (ok o, s)))
unfolding get_order
get_order_cases id s = elim (Option-cases (lookup id s.orders)) [
  | inl missing ↦ inl (ground arith)
  | inr (o, found) ↦ inr (o, found, ground arith)
]

-- The look-up of an order that may still be edited.
editable_cases :
    (id : String) (b : Bool) (s : OrderState)
    → ((e : OrderError) × (editable id b s ≡ (err e, s)))
      ⊎ ((o : PurchaseOrder) × (lookup id s.orders ≡ some o)
          × (is_editable b o.status ≡ true)
          × (editable id b s ≡ (ok o, s)))
unfolding editable
editable_cases id b s = elim (get_order_cases id s) [
  | inl missing ↦ inl (no_order, ground (arith, missing))
  | inr (o, found, read) ↦ elim (Bool-cases (is_editable b o.status)) [
    | inl open_to ↦ inr (o, found, open_to, ground (arith, read))
    | inr shut ↦ inl (not_editable, ground (arith, read))
  ]
]

state-validate_line : (line : PurchaseOrderLine) (s : OrderState) → (validate_line line s).1 ≡ s
unfolding validate_line
state-validate_line line s = ground arith

validate_line-LineOk :
    (line : PurchaseOrderLine) (s : OrderState) → validate_line line s ≡ (ok tt, s) → LineOk line
unfolding validate_line
validate_line-LineOk line s h = ground arith

state-validate_all :
    (rows : List InterBranchStockEvidence) (s : OrderState) → (validate_all rows s).1 ≡ s
unfolding validate_all validate_evidence
state-validate_all [] s = refl
state-validate_all (e ∷ es) s = ground (arith, state-validate_all es s)

pub create-Effect :
    (v : Ambient) (branch who : String) (supplier : Option String) (needs : Bool) (s : OrderState)
    → lookup v.new_id s.orders ≡ none
    → Effect s (create v branch who supplier needs s)
unfolding create
create-Effect v branch who supplier needs s fresh =
    elim (Bool-cases (is_blank branch || is_blank who)) [
      | inl blank ↦ refused branch_and_requester_required (ground arith)
      | inr named ↦
          opens v who (new_order v branch who supplier needs) fresh
            (record { starts = refl; no_lines = refl; no_approval = refl; no_receipts = refl })
            (ground arith)
    ]

draft_of : (st : PurchaseOrderStatus) → is_editable false st ≡ true → st ≡ draft
unfolding is_editable
draft_of st h = ground arith

pub add_line-Effect :
    (v : Ambient) (id item text : String) (quantity : Decimal) (cost : Option Decimal)
    (ref : Option String) (s : OrderState)
    → Effect s (add_line v id item text quantity cost ref s)
unfolding add_line
add_line-Effect v id item text quantity cost ref s = elim (editable_cases id false s) [
  | inl (e, shut) ↦ refused e (ground (arith, shut))
  | inr (o, found, open_to, read) ↦
      let line : PurchaseOrderLine = record {
        line_id = v.new_id;
        item_key = item;
        description = strip text;
        quantity = quantity;
        expected_unit_cost = rounded_cost cost;
        source_ref = ref;
      } in
      elim (outcome_cases (validate_line line s) (state-validate_line line s)) [
        | inr (e, bad) ↦ refused e (ground (arith, read, bad))
        | inl (_, fine) ↦
            changes v id o.requested_by (line_added item quantity) o
              (record o { lines = o.lines ++ line ∷ [] }) found
              (adds_line line (draft_of o.status open_to) (validate_line-LineOk line s fine) refl)
              (ground (arith, read, fine))
      ]
]

pub attach_interbranch_evidence-Effect :
    (v : Ambient) (id : String) (rows : List InterBranchStockEvidence) (actor : String)
    (s : OrderState)
    → Effect s (attach_interbranch_evidence v id rows actor s)
unfolding attach_interbranch_evidence
attach_interbranch_evidence-Effect v id rows actor s = elim (editable_cases id true s) [
  | inl (e, shut) ↦ refused e (ground (arith, shut))
  | inr (o, found, open_to, read) ↦
      elim (outcome_cases (validate_all rows s) (state-validate_all rows s)) [
        | inr (e, bad) ↦ refused e (ground (arith, read, bad))
        | inl (_, fine) ↦
            changes v id actor (evidence_attached (length (filter (is_relevant o) rows))) o
              (record o { interbranch_evidence = filter (is_relevant o) rows }) found
              (attaches rows open_to refl) (ground (arith, read, fine))
      ]
]

pub submit-Effect :
    (v : Ambient) (id actor : String) (s : OrderState) → Effect s (submit v id actor s)
unfolding submit
submit-Effect v id actor s = elim (editable_cases id false s) [
  | inl (e, shut) ↦ refused e (ground (arith, shut))
  | inr (o, found, open_to, read) ↦ elim (Bool-cases (has_lines o)) [
    | inr empty ↦ refused lines_required (ground (arith, read))
    | inl full ↦
        changes v id actor order_submitted o (record o { status = submitted }) found
          (submits (draft_of o.status open_to) full refl) (ground (arith, read))
  ]
]

pub decide-Effect :
    (v : Ambient) (id : String) (approve : Bool) (owner note : String) (s : OrderState)
    → Effect s (decide v id approve owner note s)
unfolding decide
decide-Effect v id approve owner note s = elim (get_order_cases id s) [
  | inl missing ↦ refused no_order (ground (arith, missing))
  | inr (o, found, read) ↦ elim (Bool-cases (is_submitted o.status)) [
    | inr other ↦ refused only_submitted (ground (arith, read))
    | inl ready ↦ elim (Bool-cases (is_blank owner)) [
      | inl blank ↦ refused owner_required (ground (arith, read))
      | inr named ↦
          let d : ApprovalDecision = record {
            decision_id = v.new_id;
            order_id = id;
            is_approved = approve;
            actor_id = owner;
            decided_at = v.now;
            note = strip note;
          } in
          changes v id owner (decided approve (strip note)) o
            (record o { status = if approve then approved else rejected; approval = some d }) found
            (decides d (ground arith) named refl) (ground (arith, read))
    ]
  ]
]

-- The two guards of `mark_ordered` on the status.
may_order :
    (st : PurchaseOrderStatus) (needs : Bool)
    → (needs && not (is_approved st)) ≡ false
    → (not needs && not (is_submitted st || is_approved st)) ≡ false
    → (st ≡ approved) ⊎ ((st ≡ submitted) × (needs ≡ false))
unfolding is_approved is_submitted
may_order st needs a b = ground arith

pub mark_ordered-Effect :
    (v : Ambient) (id actor ref : String) (s : OrderState)
    → Effect s (mark_ordered v id actor ref s)
unfolding mark_ordered
mark_ordered-Effect v id actor ref s = elim (get_order_cases id s) [
  | inl missing ↦ refused no_order (ground (arith, missing))
  | inr (o, found, read) ↦
      elim (Bool-cases (o.owner_approval_required && not (is_approved o.status))) [
        | inl needs ↦ refused approval_required (ground (arith, read))
        | inr granted ↦
            elim (Bool-cases (
              not o.owner_approval_required
              && not (is_submitted o.status || is_approved o.status))) [
                | inl early ↦ refused submission_required (ground (arith, read))
                | inr ready ↦ elim (Bool-cases (is_blank ref)) [
                  | inl blank ↦ refused ordered_ref_required (ground (arith, read))
                  | inr named ↦
                      changes v id actor (placed (strip ref)) o
                        (record o { status = ordered; ordered_ref = some (strip ref) }) found
                        (orders (strip ref)
                          (may_order o.status o.owner_approval_required granted ready) refl)
                        (ground (arith, read))
                ]
              ]
      ]
]

pub receive-Effect :
    (v : Ambient) (id actor : String) (quantities : Dict Decimal) (s : OrderState)
    → Effect s (receive v id actor quantities s)
unfolding receive
receive-Effect v id actor quantities s = elim (get_order_cases id s) [
  | inl missing ↦ refused no_order (ground (arith, missing))
  | inr (o, found, read) ↦ elim (Bool-cases (is_receivable o.status)) [
    | inr other ↦ refused only_ordered (ground (arith, read))
    | inl ready ↦
        elim (Result-cases (receive_lines (known_lines o.lines) quantities o.received_quantities)) [
          | inr (e, bad) ↦ refused e (ground (arith, read, bad))
          | inl (got, fine) ↦
              changes v id actor (stock_received (is_complete got o.lines)) o
                (record o {
                  status = if is_complete got o.lines then received else part_received;
                  received_quantities = got;
                })
                found (receives quantities got ready fine refl) (ground (arith, read, fine))
        ]
  ]
]

pub cancel-Effect :
    (v : Ambient) (id actor reason : String) (s : OrderState)
    → Effect s (cancel v id actor reason s)
unfolding cancel
cancel-Effect v id actor reason s = elim (get_order_cases id s) [
  | inl missing ↦ refused no_order (ground (arith, missing))
  | inr (o, found, read) ↦ elim (Bool-cases (is_final o.status)) [
    | inl final ↦ refused not_cancellable (ground (arith, read))
    | inr live ↦ elim (Bool-cases (is_blank reason)) [
      | inl blank ↦ refused reason_required (ground (arith, read))
      | inr named ↦
          changes v id actor (order_cancelled (strip reason)) o (record o { status = cancelled })
            found (cancels live refl) (ground (arith, read))
    ]
  ]
]
