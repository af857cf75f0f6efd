-- ===== src/Lib.antt =====
-- TAGRO ECHO OS: a verification library of the business engines under src/ of the repository.
--
-- The program keeps the operations of a retail business: engines hold the state of one concern each, in
-- dicts (or repository collections, which are dicts of rows), check a call in a fixed order, raise a
-- ValueError of their own or write. What the models share is in two modules.
--
-- - Base: the shared names. Base/Dicts is Python's insertion-ordered dict, Base/Lists the comprehensions,
--   `any` and `all`, Base/Text the tests `not s.strip()` and `not s`, Base/Int signed integers on the native
--   numbers, Base/Outcome the calls that may raise. A call is a function from a state to a result and a
--   state: what was written before a raise stays written, so that "a refused call changes nothing" is a
--   statement about the code and not a part of the model.
-- - Money: `decimal.Decimal` as a coefficient and a number of places, with exact sums and products, and
--   `money`, the rounding half up to two places. The 28 digits of the decimal context are
--   modelled for quotients (Ratio) only; the sums and products of the engines stay far below them. Show writes
--   a decimal. Rounding has the laws of `money`, Signs the signs of
--   sums, Scaling and Order
--   the comparison of sums and differences.
--
-- The parts, and the files that model them:
--
-- - Cash (src/cash/engine.py, `ClosingCashEngine`): Cash has the rows of the four collections, Cash/Engine the
--   methods. Lifecycle is the abstract specification of a closing (draft, submitted, approved, superseded),
--   Refinement shows that each method takes one permitted step of it, History has the runs, EntrySteps and
--   Entries the entries and their idempotency keys, Summary the figures, Posting the entries' effect on them,
--   Advance and Completion the calls up to the approval.
-- - Purchase (src/purchase/orders.py, `PurchaseOrderStore`): Purchase has the records, Quantities the loops over
--   lines, Store the methods. Store/Changes has the permitted changes of an order, Effects what each method
--   does, Calls the calls and their runs, Validity the invariant, Lifecycle what later calls keep, Receipt and
--   Delivery the deliveries.
-- - Billing (src/billing/engine.py, `BillingEngine`): Billing has the records and the arithmetic of a line, Engine
--   the methods; Issue has the ways in which `issue` ends, Totals its sums, Shortage its stock rule,
--   History its replays.
-- - Business (src/business/models.py and src/business/store.py, `InMemoryBusinessStore`): Store has the methods,
--   Ledger what they do to `stock_on_hand`, Stock and History the sign of the stock.
-- - Registry (src/enterprise/registry.py, `EnterpriseDirectory`): Directory has the methods; Walk and Hierarchy
--   the loops along the parents, Ancestry and Tree their meaning, Calls the runs, Codes, Bindings,
--   References and Integrity the invariants of the collections.
-- - Payments (src/payments/payments.py, `PaymentStore`): the store; Payments/Allocations has what `allocate` does,
--   Payments/Runs the runs and the bound of the allocations.
-- - Dock (src/busy_dock/engine.py, `BusyDock`): Dock has the records, Engine the methods, which read the records of
--   the Registry; Handoffs has the prepared envelopes and their replays.
-- - CounterOps (src/counter_ops/operations.py, `CounterOpsStore`): the store; Calls has the runs and Transfers the
--   state machine of the transfers between branches.
-- - Expense (src/financial/expense_reconciliation.py, with two records of src/financial/health.py): the reconciliation
--   of expense evidence; Slices has the totals of the slices, Aggregates the loop over the aggregates, Partition
--   the division of the rows.
-- - Service (src/service/service.py, `ServiceStore`): the store; Jobs has the runs and what holds of the jobs.
-- - Sync (src/sync/envelopes.py, `SyncQueue`): the queue; Queue has its replays.
-- - Closing (src/cash/closing.py): a single closing; Balance has its variance.
-- - Health (src/financial/health.py, `FinancialHealthEngine`, and src/financial/cost_confidence.py): Health has the
--   evidence and its tests, Estimate the policy of the purchase cost, Project the projections and the summary,
--   Confidence the breakdown by tiers. Years, Scopes and Costs show which purchase gives a cost, Tiers what its tier
--   says, Sums and Totals that the summary balances, Breakdown that the two divisions by tier agree. The quotients
--   of its percentages are in Money/Ratio.
-- - Prism (src/financial/prism.py, src/financial/prism_reconciliation.py and src/financial/prism_status.py): Prism has the
--   records, Resolve the method `resolve`, Reconcile the pairs of observations, Status the summary. Candidates and
--   Depth show what a result stands on, Pairs and Identity how the reconciliation and the prism agree, Review
--   the figures of the summary; Money/Parts has the totals of some of the terms. Confidences are the doubles of
--   Base/Floats.
-- - Pages (src/page_builder/model.py): Pages has the records, JSON values and the validation, Builder the reading
--   and the writing of a page, Loading the round trip.
-- Each component has a module Examples with concrete states.
--
-- What comes from outside is an input: an identifier of `uuid4` and a time are fields of the `Ambient` that a
-- call takes, and the theorems about runs say which identifiers must be new. The identifier of a
-- cash entry is given by the caller, and no run assumes it new: where a theorem needs it, WritesFresh of
-- Cash/Engine/EntrySteps is a hypothesis. SHA-256 of a JSON text, and
-- `str.upper`, `str.lower` and `str.casefold`, are function arguments, of which a theorem assumes only
-- what it says.
--
-- Fuel and bounds: the two loops along the enterprise hierarchy run on fuel, the number of enterprises plus
-- one; a round reads an enterprise that was not seen before, so that the fuel is never used up
-- (Registry/Directory/Walk and Ancestry). All other loops are over lists. Python's integers are unbounded,
-- and no machine integers occur.
--
-- Not modelled: the AWS runtime (HTTP and SQL), the scripts, the web surface, the page toolbox
-- and the HTML of the page builder, the learning and the views of the financial part, and the
-- JSON file repository. The orders of sorting in queries of the stores that only read are not
-- modelled either.
pub mod Base
pub mod Money
pub mod Cash
pub mod Purchase
pub mod Registry
pub mod Billing
pub mod Business
pub mod Payments
pub mod Dock
pub mod CounterOps
pub mod Expense
pub mod Health
pub mod Prism
pub mod Pages
pub mod Service
pub mod Sync
pub mod Closing
