-- ===== src/Cash/Engine/Posting.antt =====
-- How `add_entry` of src/cash/engine.py moves the summary of its closing, and that the books of a closing
-- that is no draft are shut.
use mathlib.Core.List.{map-append, append-nil}
use tagro_echo_os.Base.{
  ℤ, pos, ◌+ℤ◌, ◌-ℤ◌, sum_ℤ, sum_ℤ-append, int_laws, +ℤ_zero, String, Bool, false, none, some, List,
  [], ◌∷◌, ◌++◌, lookup, insert, values, filter, filter-append, map, values-insert_new, eq_iff,
  eq_refl, ◌==◌, ◌≡◌, refl, sym, ◌∙◌, ap, arith, ok, Result, Bool-cases, inl, inr, if◌then◌else◌,
}
use mathlib.Core.Path.{subst, ap₂}
use tagro_echo_os.Money.{Decimal, money, cents, hundredths}
use tagro_echo_os.Money.Rounding.{cents-hundredths, money-eq}
use tagro_echo_os.Cash.{
  DailyClosing, CashEntry, CashState, ClosingSummary, Ambient, is_draft, entry_from, closing_from,
  rounded, member, cash_affecting_in, cash_affecting_out,
}
use tagro_echo_os.Cash.Engine.{check_entry, entries_of, get_closing, summary, add_entry}
use tagro_echo_os.Cash.Engine.Validity.{IsValid}
use tagro_echo_os.Cash.Engine.Refinement.{closings-add_entry, state-check_entry}
use tagro_echo_os.Cash.Engine.EntrySteps.{EntryStep, quiet, writes, Step-EntryStep, WritesFresh}
use tagro_echo_os.Cash.Engine.History.{Run, here, next, draft_rank, Keeps, closing-Keeps}
use tagro_echo_os.Cash.Engine.Summary.{
  cents_of, expected_cents, Figures, difference, summary-Figures,
}

one_entry :
    (id : String) (e : CashEntry)
    → map entry_from (filter (λ r. r.closing_id == id) (e ∷ []))
      ≡ (if e.closing_id == id then entry_from e ∷ [] else [])
unfolding filter
one_entry id e = ground arith

-- The entries of a closing after a write of a new entry.
entries_of-insert :
    (id : String) (e : CashEntry) (s u : CashState)
    → lookup e.entry_id s.entries ≡ none
    → u.entries ≡ insert e.entry_id e s.entries
    → entries_of id u ≡ entries_of id s ++ (if e.closing_id == id then entry_from e ∷ [] else [])
unfolding entries_of filter
entries_of-insert id e s u new eq =
    ap (λ d. map entry_from (filter (λ r. r.closing_id == id) (values d))) eq
    ∙ ap (λ l. map entry_from (filter (λ r. r.closing_id == id) l))
        (values-insert_new e.entry_id e s.entries new)
    ∙ ap (map entry_from) (filter-append (λ r. r.closing_id == id) (values s.entries) (e ∷ []))
    ∙ map-append entry_from (filter (λ r. r.closing_id == id) (values s.entries))
        (filter (λ r. r.closing_id == id) (e ∷ []))
    ∙ ap (λ l. entries_of id s ++ l) (one_entry id e)

-- An entry for a closing that is no draft is refused.
not_draft_refused :
    (k : String) (a : DailyClosing) (e : CashEntry) (s : CashState)
    → lookup k s.closings ≡ some a
    → is_draft a.status ≡ false
    → check_entry e s ≡ (ok tt, s)
    → (e.closing_id == k) ≡ false
unfolding check_entry get_closing closing_from
not_draft_refused k a e s found shut passes = ground (arith, eq_iff e.closing_id k)

ok-injective : {E A : Type 0} (a b : A) → ◌≡◌ {A = Result E A} (ok a) (ok b) → a ≡ b
ok-injective a b h = cc

-- The figures of a summary that is known to succeed.
figures_of :
    (id : String) (s : CashState) (c : DailyClosing) (p : ClosingSummary)
    → lookup id s.closings ≡ some c
    → (summary id s).0 ≡ ok p
    → Figures c (entries_of id s) p
figures_of id s c p found done =
    let (r, computed, figures) = summary-Figures id s c found in
    subst (Figures c (entries_of id s)) (ok-injective r p (sym (ap (λ t. t.0) computed) ∙ done))
      figures

taken : List String → CashEntry → ℤ
unfolding member
taken types e = if member e.entry_type types then cents e.amount else pos 0

-- What an entry adds to the expected cash, in hundredths.
pub effect : CashEntry → ℤ
unfolding taken
effect e = taken cash_affecting_in e -ℤ taken cash_affecting_out e

cents-money : (d : Decimal) → cents (money d) ≡ cents d
cents-money d = ap cents (money-eq d) ∙ cents-hundredths (cents d)

cents_of-one :
    (types : List String) (e : CashEntry) → cents_of types (entry_from e ∷ []) ≡ taken types e
unfolding cents_of taken entry_from sum_ℤ
cents_of-one types e = elim (Bool-cases (member e.entry_type types)) [
  | inl takes ↦ simp takes (+ℤ_zero _ ∙ cents-money e.amount)
  | inr skips ↦ simp skips
]

cents_of-append :
    (types : List String) (xs ys : List CashEntry)
    → cents_of types (xs ++ ys) ≡ cents_of types xs +ℤ cents_of types ys
unfolding cents_of
cents_of-append types xs ys =
    let p : CashEntry → Bool = λ e. member e.entry_type types in
    let f : CashEntry → ℤ = λ e. cents e.amount in
    ap (λ l. sum_ℤ (map f l)) (filter-append p xs ys)
    ∙ ap sum_ℤ (map-append f (filter p xs) (filter p ys))
    ∙ sum_ℤ-append (map f (filter p xs)) (map f (filter p ys))

regroup : (a i x o y : ℤ) → a +ℤ (i +ℤ x) -ℤ (o +ℤ y) ≡ a +ℤ i -ℤ o +ℤ (x -ℤ y)
regroup a i x o y = omega int_laws

expected_cents-append :
    (c : DailyClosing) (es : List CashEntry) (e : CashEntry)
    → expected_cents c (es ++ entry_from e ∷ []) ≡ expected_cents c es +ℤ effect e
unfolding expected_cents effect
expected_cents-append c es e =
    let i : ℤ = cents_of cash_affecting_in es in
    let o : ℤ = cents_of cash_affecting_out es in
    let di : cents_of cash_affecting_in (es ++ entry_from e ∷ []) ≡ i +ℤ taken cash_affecting_in e =
      cents_of-append cash_affecting_in es (entry_from e ∷ [])
      ∙ ap (λ t. i +ℤ t) (cents_of-one cash_affecting_in e) in
    let do' : cents_of cash_affecting_out (es ++ entry_from e ∷ [])
        ≡ o +ℤ taken cash_affecting_out e =
      cents_of-append cash_affecting_out es (entry_from e ∷ [])
      ∙ ap (λ t. o +ℤ t) (cents_of-one cash_affecting_out e) in
    ap₂ (λ a b. cents c.opening_cash +ℤ a -ℤ b) di do'
    ∙ regroup (cents c.opening_cash) i (taken cash_affecting_in e) o (taken cash_affecting_out e)

add_entry_writes :
    (digest : CashEntry → String) (v : Ambient) (e r : CashEntry) (s : CashState)
    → lookup e.idempotency_key s.idempotency ≡ none
    → (add_entry digest v e s).0 ≡ ok r
    → (add_entry digest v e s).1.entries ≡ insert e.entry_id e s.entries
unfolding add_entry
add_entry_writes digest v e r s new done = ground (arith, state-check_entry e s)

-- A first successful call with an entry raises the cash that the summary of its closing expects by
-- the rounded amount for a cash-in type, lowers it by that for a cash-out type, and leaves it for a
-- non-cash type.
pub add_entry_moves_summary :
    (digest : CashEntry → String) (v : Ambient) (e r : CashEntry) (s : CashState) (c : DailyClosing)
    (p q : ClosingSummary)
    → lookup e.idempotency_key s.idempotency ≡ none
    → lookup e.entry_id s.entries ≡ none
    → lookup e.closing_id s.closings ≡ some c
    → (add_entry digest v e s).0 ≡ ok r
    → (summary e.closing_id s).0 ≡ ok p
    → (summary e.closing_id (add_entry digest v e s).1).0 ≡ ok q
    → cents q.expected_physical_cash ≡ cents p.expected_physical_cash +ℤ effect e
add_entry_moves_summary digest v e r s c p q new_key new_row found done before after =
    let u : CashState = (add_entry digest v e s).1 in
    let es : List CashEntry = entries_of e.closing_id s in
    let fp : Figures c es p = figures_of e.closing_id s c p found before in
    let fq : Figures c (entries_of e.closing_id u) q =
      figures_of e.closing_id u c q
        (ap (lookup e.closing_id) (closings-add_entry digest v e s) ∙ found) after in
    let written : entries_of e.closing_id u ≡ es ++ entry_from e ∷ [] =
      entries_of-insert e.closing_id e s u new_row (add_entry_writes digest v e r s new_key done)
      ∙ ap (λ b. es ++ (if b then entry_from e ∷ [] else [])) (eq_refl e.closing_id) in
    ap cents fq.expected
    ∙ cents-hundredths (expected_cents c (entries_of e.closing_id u))
    ∙ ap (expected_cents c) written
    ∙ expected_cents-append c es e
    ∙ ap (λ t. t +ℤ effect e) (sym (ap cents fp.expected ∙ cents-hundredths (expected_cents c es)))

-- A call adds nothing to the entries of a closing that is no draft.
EntryStep-shut :
    {digest : CashEntry → String} (k : String) (a : DailyClosing) {s u : CashState}
    → EntryStep digest s u
    → lookup k s.closings ≡ some a
    → is_draft a.status ≡ false
    → entries_of k u ≡ entries_of k s
EntryStep-shut k a (quiet same) found shut = unfold entries_of in ground (arith, same.entries)
EntryStep-shut k a {s} {u} (writes e new_key new_row passes es is) found shut =
    entries_of-insert k e s u new_row es
    ∙ ap (λ b. entries_of k s ++ (if b then entry_from e ∷ [] else []))
        (not_draft_refused k a e s found shut passes)
    ∙ append-nil (entries_of k s)

still_shut :
    (a b : DailyClosing) → Keeps a b → is_draft a.status ≡ false → is_draft b.status ≡ false
still_shut a b keeps shut = draft_rank a.status b.status shut keeps.forward

Run-shut :
    {digest : CashEntry → String} (k : String) (a : DailyClosing) {s u : CashState}
    → (run : Run digest s u) → WritesFresh run
    → IsValid s.closings
    → lookup k s.closings ≡ some a
    → is_draft a.status ≡ false
    → entries_of k u ≡ entries_of k s
unfolding WritesFresh
Run-shut k a here new valid found shut = refl
Run-shut {digest} k a {s} (next {t} r st) (before, new) valid found shut =
    let (b, found_b, keeps_b) = closing-Keeps digest s t k a valid r found in
    EntryStep-shut k b (Step-EntryStep st new) found_b (still_shut a b keeps_b shut)
    ∙ Run-shut k a r before valid found shut

expected_cents_same :
    (a b : DailyClosing) (es : List CashEntry)
    → b.opening_cash ≡ a.opening_cash
    → expected_cents b es ≡ expected_cents a es
unfolding expected_cents
expected_cents_same a b es same =
    ap (λ t. cents t +ℤ cents_of cash_affecting_in es -ℤ cents_of cash_affecting_out es) same

-- The books of a closing that is no draft are shut: whatever calls follow, if no entry is written under
-- the identifier of another entry and new closings have identifiers not in use, its entries are the same,
-- and so are the expected cash, the declared amount and the variance of its summary.
pub books_shut :
    (digest : CashEntry → String) (k : String) (a : DailyClosing) (s u : CashState)
    (p q : ClosingSummary)
    → IsValid s.closings
    → lookup k s.closings ≡ some a
    → is_draft a.status ≡ false
    → (run : Run digest s u) → WritesFresh run
    → (summary k s).0 ≡ ok p
    → (summary k u).0 ≡ ok q
    → (entries_of k u ≡ entries_of k s)
      × (q.expected_physical_cash ≡ p.expected_physical_cash)
      × (q.declared_closing_cash ≡ p.declared_closing_cash)
      × (q.variance ≡ p.variance)
books_shut digest k a s u p q valid found shut run new before after =
    let (b, found_b, keeps_b) = closing-Keeps digest s u k a valid run found in
    let fp : Figures a (entries_of k s) p = figures_of k s a p found before in
    let fq : Figures b (entries_of k u) q = figures_of k u b q found_b after in
    let same = Run-shut k a run new valid found shut in
    let opening = keeps_b.same_opening in
    let declared = keeps_b.same_declared shut in
    let expected : expected_cents b (entries_of k u) ≡ expected_cents a (entries_of k s) =
      expected_cents_same a b (entries_of k u) opening ∙ ap (expected_cents a) same in
    (
      same,
      fq.expected ∙ ap hundredths expected ∙ sym fp.expected,
      fq.declared ∙ ap rounded declared ∙ sym fp.declared,
      fq.variance ∙ ap₂ difference declared expected ∙ sym fp.variance,
    )
