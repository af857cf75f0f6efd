-- ===== src/Purchase/Store/Validity.antt =====
-- What holds of every order that the methods of `class PurchaseOrderStore` (src/purchase/orders.py) make.
use tagro_echo_os.Base.{
  String, Bool, true, false, Option, none, some, List, [], ◌∷◌, ◌++◌, Dict, lookup, insert, ◌≡◌,
  refl, arith, Result, inl, inr, Bool-cases, lookup-insert, eq_iff, ◌==◌, if◌then◌else◌, is_blank,
}
use mathlib.Core.Path.{subst}
use tagro_echo_os.Money.{Decimal, zero_dec, lt_dec, le_dec}
use tagro_echo_os.Purchase.{
  PurchaseOrderStatus, PurchaseOrderLine, ApprovalDecision, PurchaseOrder, OrderError, OrderState,
  draft, submitted, approved, rejected, ordered, part_received, received, no_orders,
}
use tagro_echo_os.Purchase.Quantities.{has_lines, received_of, known_from, known_lines, is_complete}
use tagro_echo_os.Purchase.Store.{is_receivable}
use tagro_echo_os.Purchase.Store.Changes.{
  LineOk, Change, adds_line, attaches, submits, decides, orders, receives, cancels, IsNew, Effect,
  refused, opens, changes,
}
use tagro_echo_os.Purchase.Store.Calls.{Call-Effect, Run, here, next}
use tagro_echo_os.Purchase.Store.Receipt.{Within, receive_lines-Within}

-- An order that was placed with the supplier and is still alive.
unfoldable pub is_placed : PurchaseOrderStatus → Bool
is_placed ordered = true
is_placed part_received = true
is_placed received = true
is_placed _ = false

-- An order that was not placed, and whose lines may not have been fixed.
unfoldable pub is_before_placing : PurchaseOrderStatus → Bool
is_before_placing draft = true
is_before_placing submitted = true
is_before_placing approved = true
is_before_placing rejected = true
is_before_placing _ = false

-- A decision by a named owner that approves.
unfoldable pub is_approval : Option ApprovalDecision → Bool
is_approval none = false
is_approval (some d) = if is_blank d.actor_id then false else d.is_approved

pub record IsGood (o : PurchaseOrder) : Type 0 where
  pub within : Within (known_lines o.lines) o.received_quantities
  pub unplaced : is_before_placing o.status ≡ true → o.received_quantities ≡ []
  pub granted : o.status ≡ approved → is_approval o.approval ≡ true
  pub authorised :
      is_placed o.status ≡ true → o.owner_approval_required ≡ true → is_approval o.approval ≡ true
  pub complete : o.status ≡ received → is_complete o.received_quantities o.lines ≡ true
  pub full : is_placed o.status ≡ true → has_lines o ≡ true
  pub sent : o.status ≡ submitted → has_lines o ≡ true
  pub agreed : o.status ≡ approved → has_lines o ≡ true

abbrev pub AllGood : OrderState → Type 0
AllGood s = (k : String) (o : PurchaseOrder) → lookup k s.orders ≡ some o → IsGood o

IsNew-IsGood : (o : PurchaseOrder) → IsNew o → IsGood o
unfolding is_placed known_lines known_from lookup
IsNew-IsGood o n = record {
  within = λ i line found. ground (arith, n.no_receipts, n.no_lines, found);
  unplaced = λ _. n.no_receipts;
  granted = λ st. ground (arith, n.starts);
  authorised = λ st _. ground (arith, n.starts);
  complete = λ st. ground (arith, n.starts);
  full = λ st. ground (arith, n.starts);
  sent = λ st. ground (arith, n.starts);
  agreed = λ st. ground (arith, n.starts);
}

-- Reading the dict of lines after one more line.
known_from-append :
    (d : Dict PurchaseOrderLine) (lines : List PurchaseOrderLine) (line : PurchaseOrderLine)
    → known_from d (lines ++ line ∷ []) ≡ insert line.line_id line (known_from d lines)
unfolding known_from
known_from-append d [] line = refl
known_from-append d (x ∷ lines) line = known_from-append (insert x.line_id x d) lines line

lt-le_dec : (a b : Decimal) → le_dec a b ≡ false → lt_dec a b ≡ false
unfolding lt_dec le_dec
lt-le_dec a b h = ground arith

-- A draft has no receipts, and every line that is added to it asks for more than nothing.
added-Within :
    (lines : List PurchaseOrderLine) (line : PurchaseOrderLine)
    → LineOk line
    → Within (known_lines lines) []
    → Within (known_lines (lines ++ line ∷ [])) []
unfolding known_lines received_of lookup
added-Within lines line h w i other found = ground (
  arith,
  lt-le_dec line.quantity zero_dec h.positive,
  w i other,
  eq_iff line.line_id i,
  known_from-append [] lines line,
  lookup-insert line.line_id i line (known_from [] lines),
)

draft-Within :
    (o : PurchaseOrder) (line : PurchaseOrderLine)
    → LineOk line
    → o.received_quantities ≡ []
    → Within (known_lines o.lines) o.received_quantities
    → Within (known_lines (o.lines ++ line ∷ [])) o.received_quantities
draft-Within o line fine nothing w i other found =
    let before : Within (known_lines o.lines) [] = λ k x at_k. ground (arith, w k x at_k) in
    ground (arith, added-Within o.lines line fine before i other found)

receivable_placed : (st : PurchaseOrderStatus) → is_receivable st ≡ true → is_placed st ≡ true
unfolding is_receivable is_placed
receivable_placed st h = ground arith

Change-IsGood : (old new : PurchaseOrder) → Change old new → IsGood old → IsGood new
unfolding is_placed is_before_placing is_approval
Change-IsGood old new (adds_line line st fine eq) g = rw eq (record {
  within = draft-Within old line fine (g.unplaced (ground (arith, st))) g.within;
  unplaced = g.unplaced;
  granted = g.granted;
  authorised = g.authorised;
  complete = λ s. ground (arith, st);
  full = λ s. ground (arith, st);
  sent = λ s. ground (arith, st);
  agreed = λ s. ground (arith, st);
})
Change-IsGood old new (attaches rows open_to eq) g = rw eq (record {
  within = g.within;
  unplaced = g.unplaced;
  granted = g.granted;
  authorised = g.authorised;
  complete = g.complete;
  full = g.full;
  sent = g.sent;
  agreed = g.agreed;
})
Change-IsGood old new (submits st lines eq) g = rw eq (record {
  within = g.within;
  unplaced = λ _. g.unplaced (ground (arith, st));
  granted = λ s. ground arith;
  authorised = λ s _. ground arith;
  complete = λ s. ground arith;
  full = λ _. lines;
  sent = λ _. lines;
  agreed = λ _. lines;
})
Change-IsGood old new (decides d st named eq) g = rw eq (record {
  within = g.within;
  unplaced = λ _. g.unplaced (ground (arith, st));
  granted = λ s. ground (arith, named);
  authorised = λ s _. ground arith;
  complete = λ s. ground arith;
  full = λ _. g.sent st;
  sent = λ _. g.sent st;
  agreed = λ _. g.sent st;
})
Change-IsGood old new (orders ref (inl st) eq) g = rw eq (record {
  within = g.within;
  unplaced = λ s. ground arith;
  granted = λ s. ground arith;
  authorised = λ s _. g.granted st;
  complete = λ s. ground arith;
  full = λ _. g.agreed st;
  sent = λ _. g.agreed st;
  agreed = λ _. g.agreed st;
})
Change-IsGood old new (orders ref (inr (st, free)) eq) g = rw eq (record {
  within = g.within;
  unplaced = λ s. ground arith;
  granted = λ s. ground arith;
  authorised = λ s needs. ground arith;
  complete = λ s. ground arith;
  full = λ _. g.sent st;
  sent = λ _. g.sent st;
  agreed = λ _. g.sent st;
})
Change-IsGood old new (receives quantities got st fine eq) g = rw eq (record {
  within =
      receive_lines-Within (known_lines old.lines) quantities old.received_quantities got fine
        g.within;
  unplaced = λ s. ground arith;
  granted = λ s. ground arith;
  authorised = λ s needs. g.authorised (receivable_placed old.status st) needs;
  complete = λ s. ground arith;
  full = λ _. g.full (receivable_placed old.status st);
  sent = λ s. g.full (receivable_placed old.status st);
  agreed = λ s. g.full (receivable_placed old.status st);
})
Change-IsGood old new (cancels st eq) g = rw eq (record {
  within = g.within;
  unplaced = λ s. ground arith;
  granted = λ s. ground arith;
  authorised = λ s needs. ground arith;
  complete = λ s. ground arith;
  full = λ s. ground arith;
  sent = λ s. ground arith;
  agreed = λ s. ground arith;
})

-- A store where one good order was written.
AllGood-put :
    (table : Dict PurchaseOrder) (k : String) (o : PurchaseOrder)
    → ((j : String) (x : PurchaseOrder) → lookup j table ≡ some x → IsGood x)
    → IsGood o
    → (j : String) (x : PurchaseOrder) → lookup j (insert k o table) ≡ some x
    → IsGood x
AllGood-put table k o all_good good j x found = elim (Bool-cases (k == j)) [
  | inl same ↦
      let it : o ≡ x = ground (arith, found, lookup-insert k j o table) in subst IsGood it good
  | inr other ↦ all_good j x (ground (arith, found, lookup-insert k j o table))
]

Effect-AllGood :
    {s : OrderState} {p : Result OrderError PurchaseOrder × OrderState}
    → Effect s p
    → AllGood s
    → AllGood p.1
Effect-AllGood {s} (refused e eq) g = rw eq g
Effect-AllGood {s} (opens v actor o fresh new eq) g =
    rw eq (AllGood-put s.orders v.new_id o g (IsNew-IsGood o new))
Effect-AllGood {s} (changes v id actor kind old new found change eq) g =
    rw eq (AllGood-put s.orders id new g (Change-IsGood old new change (g id old found)))

pub Run-AllGood : {s u : OrderState} → Run s u → AllGood s → AllGood u
Run-AllGood here g = g
Run-AllGood (next r c eq) g = rw eq (Effect-AllGood (Call-Effect c) (Run-AllGood r g))

AllGood-none : AllGood no_orders
unfolding lookup
AllGood-none k o found = cc

-- After any calls on an empty store, in any order and with any arguments, every order is consistent:
-- no line has received more than its quantity; nothing is received before the order is placed; an
-- approved order, and a placed one that needs the owner, has an approval by a named actor; a received
-- order is complete; and an order is submitted, approved or placed only with lines.
pub orders-IsGood :
    (u : OrderState) (k : String) (o : PurchaseOrder)
    → Run no_orders u
    → lookup k u.orders ≡ some o
    → IsGood o
orders-IsGood u k o r found = Run-AllGood r AllGood-none k o found
