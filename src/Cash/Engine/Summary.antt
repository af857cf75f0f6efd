-- ===== src/Cash/Engine/Summary.antt =====
-- `summary` of src/cash/engine.py in hundredths, and what later calls leave of it.
use tagro_echo_os.Base.{
  ℤ, ◌+ℤ◌, ◌-ℤ◌, sum_ℤ, String, Option, none, some, List, [], ◌∷◌, lookup, values, filter, map,
  ◌==◌, ◌≡◌, refl, sym, ◌∙◌, ap, arith, ok, Bool-cases, inl, inr,
}
use mathlib.Core.Path.{ap₂}
use tagro_echo_os.Money.{Decimal, money, cents, hundredths, plus, minus, sum_dec}
use tagro_echo_os.Money.Rounding.{
  money-eq, money-money, money-hundredths, money-sum_dec, minus-hundredths, plus-sum_dec,
  minus-sum_dec,
}
use tagro_echo_os.Cash.{
  DailyClosing, CashEntry, CashState, ClosingSummary, entry_from, rounded, closing_from, member,
  cash_affecting_in, cash_affecting_out, noncash_in_types, noncash_out_types,
}
use tagro_echo_os.Cash.Engine.{entries_of, total_of, summarize, get_closing, summary}

-- The hundredths of the entries of the given types.
unfoldable pub cents_of : List String → List CashEntry → ℤ
unfolding sum_ℤ filter member
cents_of types es = sum_ℤ (map (λ e. cents e.amount) (filter (λ e. member e.entry_type types) es))

-- All amounts have two places, as they have after `_entry_from`.
abbrev pub AreRounded : List CashEntry → Type 0
AreRounded [] = Unit
AreRounded (e ∷ es) = (e.amount ≡ hundredths (cents e.amount)) × AreRounded es

total_of-amounts :
    (types : List String) (es : List CashEntry)
    → AreRounded es
    → map (λ e. e.amount) (filter (λ e. member e.entry_type types) es)
      ≡ map hundredths (map (λ e. cents e.amount) (filter (λ e. member e.entry_type types) es))
unfolding filter
total_of-amounts types [] h = refl
total_of-amounts types (e ∷ es) h = elim (Bool-cases (member e.entry_type types)) [
  | inl takes ↦ simp takes (ap₂ ◌∷◌ h.0 (total_of-amounts types es h.1))
  | inr skips ↦ simp skips (total_of-amounts types es h.1)
]

total_of-eq :
    (types : List String) (es : List CashEntry)
    → AreRounded es
    → total_of types es
      ≡ sum_dec
          (map hundredths (map (λ e. cents e.amount) (filter (λ e. member e.entry_type types) es)))
unfolding total_of
total_of-eq types es h = ap sum_dec (total_of-amounts types es h)

money-total_of :
    (types : List String) (es : List CashEntry)
    → AreRounded es
    → money (total_of types es) ≡ hundredths (cents_of types es)
unfolding cents_of
money-total_of types es h = ap money (total_of-eq types es h) ∙ money-sum_dec _

plus-total_of :
    (m : ℤ) (types : List String) (es : List CashEntry)
    → AreRounded es
    → plus (hundredths m) (total_of types es) ≡ hundredths (m +ℤ cents_of types es)
unfolding cents_of
plus-total_of m types es h = ap (plus (hundredths m)) (total_of-eq types es h) ∙ plus-sum_dec m _

minus-total_of :
    (m : ℤ) (types : List String) (es : List CashEntry)
    → AreRounded es
    → minus (hundredths m) (total_of types es) ≡ hundredths (m -ℤ cents_of types es)
unfolding cents_of
minus-total_of m types es h = ap (minus (hundredths m)) (total_of-eq types es h) ∙ minus-sum_dec m _

-- The physical cash that a closing with these entries should hold, in hundredths.
unfoldable pub expected_cents : DailyClosing → List CashEntry → ℤ
expected_cents c es =
    cents c.opening_cash +ℤ cents_of cash_affecting_in es -ℤ cents_of cash_affecting_out es

-- A declared amount less an expected one, in hundredths.
abbrev pub difference : Option Decimal → ℤ → Option Decimal
difference none n = none
difference (some d) n = some (hundredths (cents d -ℤ n))

-- The figures of a summary, each in hundredths.
pub record Figures (c : DailyClosing) (es : List CashEntry) (r : ClosingSummary) : Type 0 where
  pub cash_in : r.cash_in ≡ hundredths (cents_of cash_affecting_in es)
  pub cash_out : r.cash_out ≡ hundredths (cents_of cash_affecting_out es)
  pub noncash_in : r.noncash_in ≡ hundredths (cents_of noncash_in_types es)
  pub noncash_out : r.noncash_out ≡ hundredths (cents_of noncash_out_types es)
  pub expected : r.expected_physical_cash ≡ hundredths (expected_cents c es)
  pub declared : r.declared_closing_cash ≡ rounded c.declared_closing_cash
  pub variance : r.variance ≡ difference c.declared_closing_cash (expected_cents c es)

expected_lem :
    (o : ℤ) (es : List CashEntry)
    → AreRounded es
    → money (
        minus
          (plus (hundredths o) (total_of cash_affecting_in es))
          (total_of cash_affecting_out es))
      ≡ hundredths (o +ℤ cents_of cash_affecting_in es -ℤ cents_of cash_affecting_out es)
expected_lem o es h =
    ap (λ t. money (minus t (total_of cash_affecting_out es)))
      (plus-total_of o cash_affecting_in es h)
    ∙ ap money (minus-total_of (o +ℤ cents_of cash_affecting_in es) cash_affecting_out es h)
    ∙ money-hundredths _

expected_lem_of :
    (c : DailyClosing) (es : List CashEntry)
    → AreRounded es
    → money (
        minus
          (plus (money c.opening_cash) (total_of cash_affecting_in es))
          (total_of cash_affecting_out es))
      ≡ hundredths (expected_cents c es)
unfolding expected_cents
expected_lem_of c es h =
    ap
      (λ t. money (minus (plus t (total_of cash_affecting_in es)) (total_of cash_affecting_out es)))
      (money-eq c.opening_cash)
    ∙ expected_lem (cents c.opening_cash) es h

variance_lem :
    (d : Option Decimal) (x : Decimal) (n : ℤ)
    → x ≡ hundredths n
    → elim (rounded d) as (λ _. Option Decimal) [ none ↦ none | some t ↦ some (money (minus t x)) ]
      ≡ difference d n
variance_lem none x n e = refl
variance_lem (some t) x n e = ap some (
    ap₂ (λ a b. money (minus a b)) (money-eq t) e
    ∙ ap money (minus-hundredths (cents t) n)
    ∙ money-hundredths _)

summarize-Figures :
    (c : DailyClosing) (es : List CashEntry)
    → AreRounded es
    → Figures c es (summarize (closing_from c) es)
unfolding summarize closing_from expected_cents
summarize-Figures c es h = record {
  cash_in = money-total_of cash_affecting_in es h;
  cash_out = money-total_of cash_affecting_out es h;
  noncash_in = money-total_of noncash_in_types es h;
  noncash_out = money-total_of noncash_out_types es h;
  expected = expected_lem_of c es h;
  declared = refl;
  variance = variance_lem c.declared_closing_cash _ (expected_cents c es) (expected_lem_of c es h);
}

-- The entries are rounded as they are read.
entries_of-AreRounded : (id : String) (s : CashState) → AreRounded (entries_of id s)
unfolding entries_of
entries_of-AreRounded id s = go (filter (λ r. r.closing_id == id) (values s.entries))
  where
    go : (rows : List CashEntry) → AreRounded (map entry_from rows)
    go [] = tt
    go (e ∷ rows) = (sym (money-money e.amount) ∙ money-eq (money e.amount), go rows)

-- The summary of a closing that exists succeeds and changes nothing. In hundredths, it expects the
-- opening cash plus the entries of the cash-in types less those of the cash-out types, so that
-- non-cash entries do not move it; and the variance is the declared amount less that, where one is
-- declared.
pub summary-Figures :
    (id : String) (s : CashState) (c : DailyClosing)
    → lookup id s.closings ≡ some c
    → (r : ClosingSummary) × (summary id s ≡ (ok r, s)) × Figures c (entries_of id s) r
unfolding summary get_closing
summary-Figures id s c found = (
  summarize (closing_from c) (entries_of id s),
  ground (arith, found),
  summarize-Figures c (entries_of id s) (entries_of-AreRounded id s),
)
