-- ===== src/CounterOps.antt =====
-- src/counter_ops/operations.py: `class CounterOpsStore`. `D` stands for the values of the dicts that are the lines
-- of orders and transfers. A stored object that is assigned to is the row that the dict then holds.
mod Calls
mod Transfers
mod Examples
use tagro_echo_os.Base.{
  ℕ, String, Bool, true, false, ◌||◌, not, Option, none, some, List, [], ◌∷◌, ◌++◌, Dict, lookup,
  insert, filter, ◌==◌, is_empty, Action, pure, gets, or_raise, raise_if, modify, ◌>>=◌, ◌>>◌,
}
use tagro_echo_os.Money.{Decimal, zero_dec, minus, eq_dec}

pub data PoStatus : Type 0 where
  draft approved : PoStatus

pub data TransferStatus : Type 0 where
  requested dispatched arrived : TransferStatus

pub data CountStatus : Type 0 where
  open_count finalized : CountStatus

-- `class PurchaseOrder` of this file.
pub record CounterPo (D : Type 0) : Type 0 where
  pub po_id : String
  pub branch_id : String
  pub supplier_id : String
  pub lines : List (Dict D)
  pub created_by : String
  pub created_at : ℕ
  pub status : PoStatus
  pub approved_by : String
  pub approved_at : Option ℕ

pub record Transfer (D : Type 0) : Type 0 where
  pub transfer_id : String
  pub from_branch_id : String
  pub to_branch_id : String
  pub lines : List (Dict D)
  pub requested_by : String
  pub requested_at : ℕ
  pub status : TransferStatus
  pub dispatched_by : String
  pub dispatched_at : Option ℕ
  pub received_by : String
  pub received_at : Option ℕ

-- A row of a stock count.
pub record CountLine : Type 0 where
  pub product_id : String
  pub counted_qty : Decimal
  pub system_qty : Decimal
  pub variance : Decimal
  pub evidence_ids : List String

pub record StockCount : Type 0 where
  pub count_id : String
  pub branch_id : String
  pub created_by : String
  pub created_at : ℕ
  pub status : CountStatus
  pub lines : List CountLine
  pub finalized_by : String
  pub finalized_at : Option ℕ

pub record OpsState (D : Type 0) : Type 0 where
  pub purchase_orders : Dict (CounterPo D)
  pub transfers : Dict (Transfer D)
  pub counts : Dict StockCount

-- The messages of the ValueErrors, and `missing` for a KeyError.
pub data OpsError : Type 0 where
  fields_required missing only_draft same_branch lines_required not_requested not_dispatched :
      OpsError
  not_open already_finalized : OpsError

abbrev pub Ops : Type 0 → Type 0 → Type 0
Ops D A = Action (OpsState D) OpsError A

pub record Ambient : Type 0 where
  pub new_id : String
  pub now : ℕ

unfoldable pub is_draft : PoStatus → Bool
is_draft draft = true
is_draft approved = false

unfoldable pub is_requested : TransferStatus → Bool
is_requested requested = true
is_requested _ = false

unfoldable pub is_dispatched : TransferStatus → Bool
is_dispatched dispatched = true
is_dispatched _ = false

unfoldable pub is_open : CountStatus → Bool
is_open open_count = true
is_open finalized = false

-- `[x for x in c.lines if x['product_id'] != product_id] + [row]`
unfoldable pub put_line : CountLine → List CountLine → List CountLine
unfolding filter
put_line row lines =
    filter (λ (x : CountLine). not (x.product_id == row.product_id)) lines ++ row ∷ []

-- `[x for x in c.lines if x['variance'] != 0]`
unfoldable pub variances_of : List CountLine → List CountLine
unfolding filter
variances_of lines = filter (λ (x : CountLine). not (eq_dec x.variance zero_dec)) lines

module _ {D : Type 0} where
  abbrev pub has_no_lines : List (Dict D) → Bool
  has_no_lines [] = true
  has_no_lines (l ∷ ls) = false

  unfoldable pub create_po :
      Ambient → String → String → List (Dict D) → String → Ops D (CounterPo D)
  unfolding insert
  create_po v branch_id supplier_id lines actor_id = do
    raise_if (is_empty branch_id || is_empty supplier_id || is_empty actor_id || has_no_lines lines)
        fields_required
    let po : CounterPo D = record {
      po_id = v.new_id;
      branch_id = branch_id;
      supplier_id = supplier_id;
      lines = lines;
      created_by = actor_id;
      created_at = v.now;
      status = draft;
      approved_by = "";
      approved_at = none;
    }
    modify (λ s. record s { purchase_orders = insert po.po_id po s.purchase_orders })
    pure po

  unfoldable pub approve_po : Ambient → String → String → Ops D (CounterPo D)
  unfolding lookup is_draft insert
  approve_po v po_id actor_id = do
    found ← gets (λ s. lookup po_id s.purchase_orders)
    po ← or_raise found missing
    raise_if (not (is_draft po.status)) only_draft
    let updated = record po { status = approved; approved_by = actor_id; approved_at = some v.now }
    modify (λ s. record s { purchase_orders = insert po_id updated s.purchase_orders })
    pure updated

  unfoldable pub request_transfer :
      Ambient → String → String → List (Dict D) → String → Ops D (Transfer D)
  unfolding insert
  request_transfer v from_branch to_branch lines actor_id = do
    raise_if (from_branch == to_branch) same_branch
    raise_if (has_no_lines lines) lines_required
    let t : Transfer D = record {
      transfer_id = v.new_id;
      from_branch_id = from_branch;
      to_branch_id = to_branch;
      lines = lines;
      requested_by = actor_id;
      requested_at = v.now;
      status = requested;
      dispatched_by = "";
      dispatched_at = none;
      received_by = "";
      received_at = none;
    }
    modify (λ s. record s { transfers = insert t.transfer_id t s.transfers })
    pure t

  unfoldable pub dispatch_transfer : Ambient → String → String → Ops D (Transfer D)
  unfolding lookup is_requested insert
  dispatch_transfer v transfer_id actor_id = do
    found ← gets (λ s. lookup transfer_id s.transfers)
    t ← or_raise found missing
    raise_if (not (is_requested t.status)) not_requested
    let updated = record t {
      status = dispatched;
      dispatched_by = actor_id;
      dispatched_at = some v.now;
    }
    modify (λ s. record s { transfers = insert transfer_id updated s.transfers })
    pure updated

  unfoldable pub receive_transfer : Ambient → String → String → Ops D (Transfer D)
  unfolding lookup is_dispatched insert
  receive_transfer v transfer_id actor_id = do
    found ← gets (λ s. lookup transfer_id s.transfers)
    t ← or_raise found missing
    raise_if (not (is_dispatched t.status)) not_dispatched
    let updated = record t { status = arrived; received_by = actor_id; received_at = some v.now }
    modify (λ s. record s { transfers = insert transfer_id updated s.transfers })
    pure updated

  unfoldable pub start_count : Ambient → String → String → Ops D StockCount
  unfolding insert
  start_count v branch_id actor_id = do
    let c : StockCount = record {
      count_id = v.new_id;
      branch_id = branch_id;
      created_by = actor_id;
      created_at = v.now;
      status = open_count;
      lines = [];
      finalized_by = "";
      finalized_at = none;
    }
    modify (λ s. record s { counts = insert c.count_id c s.counts })
    pure c

  unfoldable pub record_count_line :
      String → String → Decimal → Decimal → List String → Ops D CountLine
  unfolding lookup is_open put_line insert
  record_count_line count_id product_id counted_qty system_qty evidence_ids = do
    found ← gets (λ s. lookup count_id s.counts)
    c ← or_raise found missing
    raise_if (not (is_open c.status)) not_open
    let row : CountLine = record {
      product_id = product_id;
      counted_qty = counted_qty;
      system_qty = system_qty;
      variance = minus counted_qty system_qty;
      evidence_ids = evidence_ids;
    }
    modify (λ s. record s {
      counts = insert count_id (record c { lines = put_line row c.lines }) s.counts;
    })
    pure row

  -- The count, and the rows with a variance.
  unfoldable pub finalize_count : Ambient → String → String → Ops D (StockCount × List CountLine)
  unfolding lookup is_open variances_of insert
  finalize_count v count_id actor_id = do
    found ← gets (λ s. lookup count_id s.counts)
    c ← or_raise found missing
    raise_if (not (is_open c.status)) already_finalized
    let updated = record c {
      status = finalized;
      finalized_by = actor_id;
      finalized_at = some v.now;
    }
    modify (λ s. record s { counts = insert count_id updated s.counts })
    pure (updated, variances_of updated.lines)
