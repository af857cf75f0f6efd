-- ===== src/Purchase/Store/Lifecycle.antt =====
-- What later calls of `class PurchaseOrderStore` (src/purchase/orders.py) leave of an order.
use tagro_echo_os.Base.{
  ℕ, ◌≤◌, String, true, some, List, [], ◌∷◌, ◌++◌, lookup, ◌≡◌, refl, arith, Result, inl, inr,
  Bool-cases, lookup-insert, eq_iff, ◌==◌, ap, ◌∙◌,
}
use mathlib.Core.Path.{subst}
use tagro_echo_os.Purchase.{
  PurchaseOrderStatus, PurchaseOrderLine, PurchaseOrder, OrderError, OrderState, draft, submitted,
  approved, rejected, ordered, part_received, received, cancelled,
}
use tagro_echo_os.Purchase.Store.{is_editable, is_receivable, is_final}
use tagro_echo_os.Purchase.Store.Changes.{
  Change, adds_line, attaches, submits, decides, orders, receives, cancels, Effect, refused, opens,
  changes,
}
use tagro_echo_os.Purchase.Store.Calls.{Call-Effect, Run, here, next}

-- The place of a status in the life of an order.
unfoldable pub rank : PurchaseOrderStatus → ℕ
rank draft = 0
rank submitted = 1
rank approved = 2
rank rejected = 2
rank ordered = 3
rank part_received = 4
rank received = 5
rank cancelled = 6

-- What of an order survives.
pub record Keeps (old new : PurchaseOrder) : Type 0 where
  pub same_branch : new.branch_id ≡ old.branch_id
  pub same_requester : new.requested_by ≡ old.requested_by
  pub same_rule : new.owner_approval_required ≡ old.owner_approval_required
  pub forward : rank old.status ≤ rank new.status
  pub more_lines : (more : List PurchaseOrderLine) × (new.lines ≡ old.lines ++ more)
  pub fixed_lines : 1 ≤ rank old.status → new.lines ≡ old.lines
  pub fixed_approval : 2 ≤ rank old.status → new.approval ≡ old.approval
  pub fixed_ref : 3 ≤ rank old.status → new.ordered_ref ≡ old.ordered_ref
  pub closed : is_final old.status ≡ true → new ≡ old

append_none : (xs : List PurchaseOrderLine) → xs ≡ xs ++ []
append_none [] = refl
append_none (x ∷ xs) = ap (λ ys. x ∷ ys) (append_none xs)

append_twice : (xs ys zs : List PurchaseOrderLine) → (xs ++ ys) ++ zs ≡ xs ++ (ys ++ zs)
append_twice [] ys zs = refl
append_twice (x ∷ xs) ys zs = ap (λ us. x ∷ us) (append_twice xs ys zs)

-- A change that leaves the lines alone.
keep :
    (old new : PurchaseOrder)
    → new.branch_id ≡ old.branch_id
    → new.requested_by ≡ old.requested_by
    → new.owner_approval_required ≡ old.owner_approval_required
    → new.lines ≡ old.lines
    → rank old.status ≤ rank new.status
    → (2 ≤ rank old.status → new.approval ≡ old.approval)
    → (3 ≤ rank old.status → new.ordered_ref ≡ old.ordered_ref)
    → (is_final old.status ≡ true → new ≡ old)
    → Keeps old new
keep old new branch who rule lines moves approval ref final = record {
  same_branch = branch;
  same_requester = who;
  same_rule = rule;
  forward = moves;
  more_lines = ([], lines ∙ append_none old.lines);
  fixed_lines = λ _. lines;
  fixed_approval = approval;
  fixed_ref = ref;
  closed = final;
}

Keeps-refl : (o : PurchaseOrder) → Keeps o o
Keeps-refl o = keep o o refl refl refl refl (omega arith) (λ _. refl) (λ _. refl) (λ _. refl)

Keeps-trans : (a b c : PurchaseOrder) → Keeps a b → Keeps b c → Keeps a c
Keeps-trans a b c x y = record {
  same_branch = y.same_branch ∙ x.same_branch;
  same_requester = y.same_requester ∙ x.same_requester;
  same_rule = y.same_rule ∙ x.same_rule;
  forward = omega (arith, x.forward, y.forward);
  more_lines = (
    x.more_lines.0 ++ y.more_lines.0,
    y.more_lines.1
        ∙ ap (λ xs. xs ++ y.more_lines.0) x.more_lines.1
        ∙ append_twice a.lines x.more_lines.0 y.more_lines.0,
  );
  fixed_lines = λ h. y.fixed_lines (omega (arith, x.forward)) ∙ x.fixed_lines h;
  fixed_approval = λ h. y.fixed_approval (omega (arith, x.forward)) ∙ x.fixed_approval h;
  fixed_ref = λ h. y.fixed_ref (omega (arith, x.forward)) ∙ x.fixed_ref h;
  closed = λ h. ground (arith, x.closed h, y.closed);
}

Change-Keeps : (old new : PurchaseOrder) → Change old new → Keeps old new
unfolding rank is_final is_editable is_receivable
Change-Keeps old new (adds_line line st fine eq) = record {
  same_branch = ground (arith, eq);
  same_requester = ground (arith, eq);
  same_rule = ground (arith, eq);
  forward = ground (arith, eq);
  more_lines = (line ∷ [], ground (arith, eq));
  fixed_lines = λ h. ground (arith, st);
  fixed_approval = λ h. ground (arith, st);
  fixed_ref = λ h. ground (arith, st);
  closed = λ h. ground (arith, st);
}
Change-Keeps old new (attaches rows open_to eq) =
    keep old new (ground (arith, eq)) (ground (arith, eq)) (ground (arith, eq)) (ground (arith, eq))
      (ground (arith, eq)) (λ h. ground (arith, eq)) (λ h. ground (arith, eq))
      (λ h. ground (arith, open_to))
Change-Keeps old new (submits st lines eq) =
    keep old new (ground (arith, eq)) (ground (arith, eq)) (ground (arith, eq)) (ground (arith, eq))
      (ground (arith, eq)) (λ h. ground (arith, eq)) (λ h. ground (arith, eq))
      (λ h. ground (arith, st))
Change-Keeps old new (decides d st named eq) =
    keep old new (ground (arith, eq)) (ground (arith, eq)) (ground (arith, eq)) (ground (arith, eq))
      (ground (arith, eq)) (λ h. ground (arith, eq)) (λ h. ground (arith, eq))
      (λ h. ground (arith, st))
Change-Keeps old new (orders ref (inl st) eq) =
    keep old new (ground (arith, eq)) (ground (arith, eq)) (ground (arith, eq)) (ground (arith, eq))
      (ground (arith, eq)) (λ h. ground (arith, eq)) (λ h. ground (arith, eq))
      (λ h. ground (arith, st))
Change-Keeps old new (orders ref (inr (st, free)) eq) =
    keep old new (ground (arith, eq)) (ground (arith, eq)) (ground (arith, eq)) (ground (arith, eq))
      (ground (arith, eq)) (λ h. ground (arith, eq)) (λ h. ground (arith, eq))
      (λ h. ground (arith, st))
Change-Keeps old new (receives quantities got st fine eq) =
    keep old new (ground (arith, eq)) (ground (arith, eq)) (ground (arith, eq)) (ground (arith, eq))
      (ground (arith, eq)) (λ h. ground (arith, eq)) (λ h. ground (arith, eq))
      (λ h. ground (arith, st))
Change-Keeps old new (cancels st eq) =
    keep old new (ground (arith, eq)) (ground (arith, eq)) (ground (arith, eq)) (ground (arith, eq))
      (ground (arith, eq)) (λ h. ground (arith, eq)) (λ h. ground (arith, eq))
      (λ h. ground (arith, st))

-- An order that is in place stays in place.
abbrev Stays : (s u : OrderState) (k : String) → PurchaseOrder → Type 0
Stays s u k o = (o' : PurchaseOrder) × (lookup k u.orders ≡ some o') × Keeps o o'

Effect-Stays :
    (s : OrderState) (p : Result OrderError PurchaseOrder × OrderState) (k : String)
    (o : PurchaseOrder)
    → Effect s p
    → lookup k s.orders ≡ some o
    → Stays s p.1 k o
Effect-Stays s p k o (refused e eq) found = (o, ground (arith, eq), Keeps-refl o)
Effect-Stays s p k o (opens v actor new fresh it eq) found = (
  o,
  ground (arith, eq, found, lookup-insert v.new_id k new s.orders, eq_iff v.new_id k),
  Keeps-refl o,
)
Effect-Stays s p k o (changes v id actor kind old new read change eq) found =
    elim (Bool-cases (id == k)) [
      | inl same ↦
          let it : old ≡ o = ground (arith, eq_iff id k) in
          (
            new,
            ground (arith, eq, lookup-insert id k new s.orders),
            subst (λ z. Keeps z new) it (Change-Keeps old new change),
          )
      | inr other ↦ (o, ground (arith, eq, lookup-insert id k new s.orders), Keeps-refl o)
    ]

-- Whatever calls follow, an order stays in place with its branch, its requester and its rule on the
-- owner's approval; its status never goes back; it never loses a line and gains none after the draft
-- status; its approval is fixed once it is decided and its supplier reference once it is placed; a
-- received or cancelled order does not change at all.
pub order-Keeps :
    (s u : OrderState) (k : String) (o : PurchaseOrder)
    → Run s u
    → lookup k s.orders ≡ some o
    → (o' : PurchaseOrder) × (lookup k u.orders ≡ some o') × Keeps o o'
order-Keeps s u k o here found = (o, found, Keeps-refl o)
order-Keeps s u k o (next {t} {p = p} r c eq) found =
    let (mid, at_mid, first) = order-Keeps s t k o r found in
    let (last, at_last, second) = Effect-Stays t p k mid (Call-Effect c) at_mid in
    (last, ground (arith, eq, at_last), Keeps-trans o mid last first second)
