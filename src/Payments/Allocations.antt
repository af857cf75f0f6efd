-- ===== src/Payments/Allocations.antt =====
-- What `allocate` (src/payments/payments.py) does to the allocated amounts.
use tagro_echo_os.Base.{
  String, Bool, true, false, some, List, [], ◌∷◌, ◌++◌, lookup, filter, filter-append, map, ◌==◌,
  ◌≡◌, refl, ap, ◌∙◌, arith, ok, inl, inr, Option-cases, if◌then◌else◌,
}
use tagro_echo_os.Money.{Decimal, zero_dec, lt_dec, le_dec, plus, sum_dec, sum_from}
use tagro_echo_os.Payments.{
  Payment, PaymentAllocation, PaymentState, Ambient, targets, is_in, allocated, unallocated,
  allocate,
}

sum-snoc : (a x : Decimal) (xs : List Decimal) → sum_from a (xs ++ x ∷ []) ≡ plus (sum_from a xs) x
unfolding sum_from
sum-snoc a x [] = refl
sum-snoc a x (y ∷ ys) = sum-snoc (plus a y) x ys

map-snoc :
    (a : PaymentAllocation) (rows : List PaymentAllocation)
    → map (λ (x : PaymentAllocation). x.amount) (rows ++ a ∷ [])
      ≡ map (λ (x : PaymentAllocation). x.amount) rows ++ a.amount ∷ []
map-snoc a [] = refl
map-snoc a (r ∷ rows) = ap (λ xs. r.amount ∷ xs) (map-snoc a rows)

append_none : (rows : List PaymentAllocation) → rows ++ [] ≡ rows
append_none [] = refl
append_none (r ∷ rows) = ap (λ xs. r ∷ xs) (append_none rows)

last_row :
    (b : Bool) (a : PaymentAllocation) (kept : List PaymentAllocation)
    → sum_from zero_dec
        (map (λ (x : PaymentAllocation). x.amount) (kept ++ (if b then a ∷ [] else [])))
      ≡ (if b
          then plus (sum_from zero_dec (map (λ (x : PaymentAllocation). x.amount) kept)) a.amount
          else sum_from zero_dec (map (λ (x : PaymentAllocation). x.amount) kept))
last_row true a kept =
    ap (sum_from zero_dec) (map-snoc a kept)
    ∙ sum-snoc zero_dec a.amount (map (λ (x : PaymentAllocation). x.amount) kept)
last_row false a kept =
    ap (λ xs. sum_from zero_dec (map (λ (x : PaymentAllocation). x.amount) xs)) (append_none kept)

-- The allocated amount after one more row.
pub allocated-snoc :
    (id : String) (a : PaymentAllocation) (rows : List PaymentAllocation)
    → allocated id (rows ++ a ∷ [])
      ≡ (if a.payment_id == id then plus (allocated id rows) a.amount else allocated id rows)
unfolding allocated sum_dec filter
allocated-snoc id a rows =
    ap (λ xs. sum_from zero_dec (map (λ (x : PaymentAllocation). x.amount) xs))
      (filter-append (λ (x : PaymentAllocation). x.payment_id == id) rows (a ∷ []))
    ∙ last_row (a.payment_id == id) a (filter (λ (x : PaymentAllocation). x.payment_id == id) rows)

-- What an accepted allocation has passed and written.
pub record Allocated (id : String) (amount : Decimal) (s u : PaymentState) (a : PaymentAllocation)
    : Type 0 where
  pub payment :
      (p : Payment) × (lookup id s.payments ≡ some p)
      × (lt_dec (unallocated id p s.allocations) amount ≡ false)
  pub positive : le_dec a.amount zero_dec ≡ false
  pub target : is_in a.target_type targets ≡ true
  pub names : a.payment_id ≡ id
  pub amount_of : a.amount ≡ amount
  pub payments : u.payments ≡ s.payments
  pub allocations : u.allocations ≡ s.allocations ++ a ∷ []

pub allocate-Allocated :
    (v : Ambient) (id target target_id : String) (amount : Decimal) (actor : String)
    (s u : PaymentState) (a : PaymentAllocation)
    → allocate v id target target_id amount actor s ≡ (ok a, u)
    → Allocated id amount s u a
unfolding allocate
allocate-Allocated v id target target_id amount actor s u a h =
    elim (Option-cases (lookup id s.payments)) [
      | inl lost ↦ ground (arith, lost)
      | inr (p, found) ↦ record {
        payment = (p, found, ground (arith, found));
        positive = ground (arith, found);
        target = ground (arith, found);
        names = ground (arith, found);
        amount_of = ground (arith, found);
        payments = ground (arith, found);
        allocations = ground (arith, found);
      }
    ]
