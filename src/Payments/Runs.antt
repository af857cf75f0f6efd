-- ===== src/Payments/Runs.antt =====
-- Runs of the methods of `class PaymentStore` (src/payments/payments.py), and what they leave of a payment.
use mathlib.Core.List.{Memᴰ}
use mathlib.Core.List.Memᴰ
use tagro_echo_os.Base.{
  String, Option, true, false, none, some, List, [], ◌∷◌, ◌++◌, lookup, insert, lookup-insert,
  filter, map, ◌==◌, ◌≡◌, refl, sym, ap, ◌∙◌, arith, ok, ◌⊎◌, inl, inr, Bool-cases, Result-cases,
  eq_iff, scale,
}
use mathlib.Core.Path.{subst}
use tagro_echo_os.Money.{Decimal, zero_dec, lt_dec, le_dec, sum_dec}
use tagro_echo_os.Money.Order.{plus_within}
use tagro_echo_os.Payments.{
  Payment, PaymentAllocation, PaymentState, no_payments, Ambient, targets, is_in, allocated,
  unallocated, receive_payment, allocate,
}
use tagro_echo_os.Payments.Allocations.{Allocated, allocate-Allocated, allocated-snoc}

-- One call, successful or not. What `uuid4` gives for a payment is not in use.
pub data Step (s u : PaymentState) : Type 0 where
  received :
      (v : Ambient) (branch_id : String) (customer_id : Option String) (method : String)
      (amount : Decimal) (actor_id reference : String)
      → lookup v.new_id s.payments ≡ none
      → u ≡ (receive_payment v branch_id customer_id method amount actor_id reference s).1
      → Step s u
  allocated_by :
      (v : Ambient) (id target target_id : String) (amount : Decimal) (actor_id : String)
      → u ≡ (allocate v id target target_id amount actor_id s).1
      → Step s u

pub data Run (s : PaymentState) : PaymentState → Type 0 where
  here : Run s s
  next : (t u : PaymentState) → Run s t → Step t u → Run s u

-- An allocation is of a positive amount, to a permitted target, and of a payment that is stored.
abbrev pub IsSound : PaymentState → PaymentAllocation → Type 0
IsSound s x =
    (le_dec x.amount zero_dec ≡ false)
    × (is_in x.target_type targets ≡ true)
    × ((p : Payment) × (lookup x.payment_id s.payments ≡ some p))

record IsCovered (s : PaymentState) : Type 0 where
  covered :
      (id : String) (p : Payment)
      → lookup id s.payments ≡ some p
      → lt_dec p.amount (allocated id s.allocations) ≡ false
  unused : (id : String) → lookup id s.payments ≡ none → allocated id s.allocations ≡ zero_dec
  sound : (x : PaymentAllocation) → Memᴰ x s.allocations → IsSound s x

not_below_zero : (d : Decimal) → le_dec d zero_dec ≡ false → lt_dec d zero_dec ≡ false
unfolding le_dec lt_dec scale
not_below_zero d h = ground arith

receive_cases :
    (v : Ambient) (branch_id : String) (customer_id : Option String) (method : String)
    (amount : Decimal) (actor_id reference : String) (s : PaymentState)
    → ((receive_payment v branch_id customer_id method amount actor_id reference s).1 ≡ s)
      ⊎ ((p : Payment) × (le_dec p.amount zero_dec ≡ false)
          × ((receive_payment v branch_id customer_id method amount actor_id reference s).1
              ≡ record s { payments = insert v.new_id p s.payments }))
unfolding receive_payment
receive_cases v branch_id customer_id method amount actor_id reference s =
    elim (Result-cases
      (receive_payment v branch_id customer_id method amount actor_id reference s).0) [
        | inr (e, bad) ↦ inl (ground (arith, bad))
        | inl (p, fine) ↦ inr (p, ground (arith, fine), ground (arith, fine))
      ]

allocate_raises :
    (v : Ambient) (id target target_id : String) (amount : Decimal) (actor_id : String)
    (s : PaymentState)
    → ((allocate v id target target_id amount actor_id s).1 ≡ s)
      ⊎ ((a : PaymentAllocation) × (u : PaymentState) × (allocate v id target target_id amount
              actor_id s
            ≡ (ok a, u)))
unfolding allocate
allocate_raises v id target target_id amount actor_id s =
    elim (Result-cases (allocate v id target target_id amount actor_id s).0) [
      | inl (a, fine) ↦ inr (
        a,
        (allocate v id target target_id amount actor_id s).1,
        ap (λ r. (r, (allocate v id target target_id amount actor_id s).1)) fine,
      )
      | inr (e, bad) ↦ inl (ground (arith, bad))
    ]

mem-snoc :
    (x a : PaymentAllocation) (rows : List PaymentAllocation)
    → Memᴰ x (rows ++ a ∷ [])
    → Memᴰ x rows ⊎ (x ≡ a)
mem-snoc x a [] m = elim (Memᴰ.cases_cons m) [ inl e ↦ inr e | inr k ↦ inl k ]
mem-snoc x a (r ∷ rows) m = elim (Memᴰ.cases_cons m) [
  | inl e ↦ inl (Memᴰ.head e)
  | inr k ↦ elim (mem-snoc x a rows k) [ inl j ↦ inl (Memᴰ.tail j) | inr e ↦ inr e ]
]

put-IsCovered :
    (id : String) (p : Payment) (s : PaymentState)
    → lookup id s.payments ≡ none
    → le_dec p.amount zero_dec ≡ false
    → IsCovered s
    → IsCovered (record s { payments = insert id p s.payments })
put-IsCovered id p s new positive g = record {
  covered = λ j q found. ground (
    arith,
    lookup-insert id j p s.payments,
    eq_iff id j,
    g.covered j q,
    g.unused id new,
    not_below_zero p.amount positive,
  );
  unused = λ j lost. g.unused j (ground (arith, lost, lookup-insert id j p s.payments));
  sound = λ x m.
      let (a, b, (q, found)) = g.sound x m in
      (
        a,
        b,
        elim (Bool-cases (id == x.payment_id)) [
          | inl same ↦ (p, ground (arith, lookup-insert id x.payment_id p s.payments))
          | inr other ↦ (q, ground (arith, found, lookup-insert id x.payment_id p s.payments))
        ],
      );
}

allocate-IsCovered :
    (id : String) (amount : Decimal) (s u : PaymentState) (a : PaymentAllocation)
    → Allocated id amount s u a
    → IsCovered s
    → IsCovered u
unfolding unallocated
allocate-IsCovered id amount s u a r g =
    let (p, found, left) = r.payment in
    let within = plus_within p.amount (allocated id s.allocations) amount left in
    record {
      covered = λ j q at_j.
          rw (r.allocations, allocated-snoc j a s.allocations)
            (ground (
              arith,
              r.names,
              r.amount_of,
              r.payments,
              at_j,
              found,
              within,
              g.covered j q,
              eq_iff a.payment_id j,
            ));
      unused = λ j lost.
          rw (r.allocations, allocated-snoc j a s.allocations)
            (ground (arith, r.names, r.payments, lost, found, g.unused j, eq_iff a.payment_id j));
      sound = λ x m. elim (mem-snoc x a s.allocations (subst (Memᴰ x) r.allocations m)) [
        | inl k ↦
            let (b, c, (q, at_x)) = g.sound x k in
            (b, c, (q, ap (lookup x.payment_id) r.payments ∙ at_x))
        | inr e ↦ subst (IsSound u) (sym e) (
          r.positive,
          r.target,
          (p, ap (lookup a.payment_id) r.payments ∙ ap (λ k. lookup k s.payments) r.names ∙ found),
        )
      ];
    }

Step-IsCovered : (s u : PaymentState) → Step s u → IsCovered s → IsCovered u
Step-IsCovered s u (received v branch_id customer_id method amount actor_id reference new eq) g =
    rw eq (elim (receive_cases v branch_id customer_id method amount actor_id reference s) [
      | inl same ↦ rw same g
      | inr (p, positive, put) ↦ rw put (put-IsCovered v.new_id p s new positive g)
    ])
Step-IsCovered s u (allocated_by v id target target_id amount actor_id eq) g =
    rw eq (elim (allocate_raises v id target target_id amount actor_id s) [
      | inl same ↦ rw same g
      | inr (a, t, made) ↦ subst IsCovered (sym (ap (λ r. r.1) made)) (
          allocate-IsCovered id amount s t a
            (allocate-Allocated v id target target_id amount actor_id s t a made) g)
    ])

Run-IsCovered : (s u : PaymentState) → Run s u → IsCovered s → IsCovered u
Run-IsCovered s u here g = g
Run-IsCovered s u (next t _ run st) g = Step-IsCovered t u st (Run-IsCovered s t run g)

none-IsCovered : IsCovered no_payments
unfolding allocated lookup filter sum_dec
none-IsCovered = record {
  covered = λ id p found. cc;
  unused = λ id lost. refl;
  sound = λ x m. elim m [ ];
}

-- After any calls on a store without payments (a new payment under an identifier not in use), what is
-- allocated of a payment, summed over its allocations, is at most the amount of the payment; and every
-- allocation is of a positive amount, to a permitted target, and of a payment that is stored.
pub never_over_allocated :
    (s : PaymentState) (id : String) (p : Payment)
    → Run no_payments s
    → lookup id s.payments ≡ some p
    → (lt_dec p.amount (
          sum_dec (
            map
              (λ (x : PaymentAllocation). x.amount)
              (filter (λ (x : PaymentAllocation). x.payment_id == id) s.allocations)))
        ≡ false)
      × ((x : PaymentAllocation) → Memᴰ x s.allocations → IsSound s x)
unfolding allocated
never_over_allocated s id p run found =
    let g = Run-IsCovered no_payments s run none-IsCovered in (g.covered id p found, g.sound)
