-- ===== src/Purchase/Store/Calls.antt =====
-- The calls of `class PurchaseOrderStore` (src/purchase/orders.py) and their runs. No call writes before
-- it raises.
use tagro_echo_os.Base.{
  String, Bool, Option, none, List, [], ◌∷◌, ◌++◌, Dict, lookup, insert, ◌≡◌, refl, ok, err, Result,
  ◌⊎◌, inl, inr, ap,
}
use tagro_echo_os.Money.{Decimal}
use tagro_echo_os.Purchase.{
  InterBranchStockEvidence, PurchaseOrder, OrderError, OrderState, Ambient, Event, created,
}
use tagro_echo_os.Purchase.Store.{
  create, add_line, attach_interbranch_evidence, submit, decide, mark_ordered, receive, cancel,
}
use tagro_echo_os.Purchase.Store.Changes.{Effect, refused, opens, changes}
use tagro_echo_os.Purchase.Store.Effects.{
  create-Effect, add_line-Effect, attach_interbranch_evidence-Effect, submit-Effect, decide-Effect,
  mark_ordered-Effect, receive-Effect, cancel-Effect,
}

-- A call with any arguments, with its result and the state that it leaves. The identifier that
-- `uuid4` gives to a new order is not in use.
pub data Call (s : OrderState) (p : Result OrderError PurchaseOrder × OrderState) : Type 0 where
  creates :
      (v : Ambient) (branch who : String) (supplier : Option String) (needs : Bool)
      → lookup v.new_id s.orders ≡ none
      → p ≡ create v branch who supplier needs s
      → Call s p
  adds_line :
      (v : Ambient) (id item text : String) (quantity : Decimal) (cost : Option Decimal)
      (ref : Option String)
      → p ≡ add_line v id item text quantity cost ref s
      → Call s p
  attaches :
      (v : Ambient) (id : String) (rows : List InterBranchStockEvidence) (actor : String)
      → p ≡ attach_interbranch_evidence v id rows actor s
      → Call s p
  submits : (v : Ambient) (id actor : String) → p ≡ submit v id actor s → Call s p
  decides :
      (v : Ambient) (id : String) (approve : Bool) (owner note : String)
      → p ≡ decide v id approve owner note s
      → Call s p
  orders : (v : Ambient) (id actor ref : String) → p ≡ mark_ordered v id actor ref s → Call s p
  receives :
      (v : Ambient) (id actor : String) (quantities : Dict Decimal)
      → p ≡ receive v id actor quantities s
      → Call s p
  cancels : (v : Ambient) (id actor reason : String) → p ≡ cancel v id actor reason s → Call s p

pub Call-Effect :
    {s : OrderState} {p : Result OrderError PurchaseOrder × OrderState} → Call s p → Effect s p
Call-Effect {s} (creates v branch who supplier needs fresh e) =
    rw e (create-Effect v branch who supplier needs s fresh)
Call-Effect {s} (adds_line v id item text quantity cost ref e) =
    rw e (add_line-Effect v id item text quantity cost ref s)
Call-Effect {s} (attaches v id rows actor e) =
    rw e (attach_interbranch_evidence-Effect v id rows actor s)
Call-Effect {s} (submits v id actor e) = rw e (submit-Effect v id actor s)
Call-Effect {s} (decides v id approve owner note e) = rw e (decide-Effect v id approve owner note s)
Call-Effect {s} (orders v id actor ref e) = rw e (mark_ordered-Effect v id actor ref s)
Call-Effect {s} (receives v id actor quantities e) = rw e (receive-Effect v id actor quantities s)
Call-Effect {s} (cancels v id actor reason e) = rw e (cancel-Effect v id actor reason s)

-- The calls so far.
pub data Run (s : OrderState) : OrderState → Type 0 where
  here : Run s s
  next :
      {t u : OrderState} {p : Result OrderError PurchaseOrder × OrderState}
      → Run s t
      → Call t p
      → u ≡ p.1
      → Run s u

-- What a call that succeeds has written: one order, and one event for it at the end.
pub record Written (s u : OrderState) (o : PurchaseOrder) : Type 0 where
  pub key : String
  pub event : Event
  pub orders : u.orders ≡ insert key o s.orders
  pub events : u.events ≡ s.events ++ event ∷ []
  pub about : event.order_id ≡ key

Effect-Written :
    {s : OrderState} {p : Result OrderError PurchaseOrder × OrderState}
    → Effect s p
    → ((e : OrderError) × (p ≡ (err e, s))) ⊎ ((o : PurchaseOrder) × (p.0 ≡ ok o) × Written s p.1 o)
Effect-Written (refused e eq) = inl (e, eq)
Effect-Written (opens v actor o fresh new eq) = inr (
  o,
  ap (λ t. t.0) eq,
  record {
    key = v.new_id;
    event = record {
      event_id = v.event_id;
      order_id = v.new_id;
      kind = created;
      actor_id = actor;
      occurred_at = v.now;
    };
    orders = ap (λ t. t.1.orders) eq;
    events = ap (λ t. t.1.events) eq;
    about = refl;
  },
)
Effect-Written (changes v id actor kind old new found change eq) = inr (
  new,
  ap (λ t. t.0) eq,
  record {
    key = id;
    event = record {
      event_id = v.event_id;
      order_id = id;
      kind = kind;
      actor_id = actor;
      occurred_at = v.now;
    };
    orders = ap (λ t. t.1.orders) eq;
    events = ap (λ t. t.1.events) eq;
    about = refl;
  },
)

-- Every call is atomic: it raises and leaves the store as it was, or it returns an order, having
-- written that order and appended exactly one event, which names its key.
pub Call-atomic :
    (s : OrderState) (p : Result OrderError PurchaseOrder × OrderState)
    → Call s p
    → ((e : OrderError) × (p ≡ (err e, s))) ⊎ ((o : PurchaseOrder) × (p.0 ≡ ok o) × Written s p.1 o)
Call-atomic s p c = Effect-Written (Call-Effect c)
