-- ===== src/CounterOps/Calls.antt =====
-- Runs of the methods of `class CounterOpsStore` (src/counter_ops/operations.py), and the writes they make.
use tagro_echo_os.Base.{
  ℕ, String, false, ◌||◌, none, some, List, Dict, lookup, insert, ◌==◌, ◌≡◌, refl, arith, inl, inr,
  Bool-cases, Option-cases,
}
use tagro_echo_os.Money.{Decimal}
use tagro_echo_os.CounterOps.{
  Transfer, OpsState, Ambient, requested, dispatched, arrived, is_requested, is_dispatched,
  has_no_lines, create_po, approve_po, request_transfer, dispatch_transfer, receive_transfer,
  start_count, record_count_line, finalize_count,
}

module _ {D : Type 0} where
  -- One call, successful or not.
  pub data Step (s u : OpsState D) : Type 0 where
    po_by :
        (v : Ambient) (branch supplier : String) (lines : List (Dict D)) (actor : String)
        → u ≡ (create_po v branch supplier lines actor s).1
        → Step s u
    po_approved_by : (v : Ambient) (id actor : String) → u ≡ (approve_po v id actor s).1 → Step s u
    transfer_by :
        (v : Ambient) (from_branch to_branch : String) (lines : List (Dict D)) (actor : String)
        → u ≡ (request_transfer v from_branch to_branch lines actor s).1
        → Step s u
    dispatched_by :
        (v : Ambient) (id actor : String) → u ≡ (dispatch_transfer v id actor s).1 → Step s u
    received_by :
        (v : Ambient) (id actor : String) → u ≡ (receive_transfer v id actor s).1 → Step s u
    count_by :
        (v : Ambient) (branch actor : String) → u ≡ (start_count v branch actor s).1 → Step s u
    line_by :
        (id product : String) (counted system : Decimal) (evidence : List String)
        → u ≡ (record_count_line id product counted system evidence s).1
        → Step s u
    finalized_by :
        (v : Ambient) (id actor : String) → u ≡ (finalize_count v id actor s).1 → Step s u

  pub data Run (s : OpsState D) : OpsState D → Type 0 where
    here : Run s s
    next : (t u : OpsState D) → Run s t → Step t u → Run s u

  -- The permitted writes of a transfer.
  pub data Moved (s : Dict (Transfer D)) (u : Dict (Transfer D)) : Type 0 where
    same : u ≡ s → Moved s u
    asks :
        (id : String) (t : Transfer D)
        → t.status ≡ requested
        → (t.from_branch_id == t.to_branch_id) ≡ false
        → has_no_lines t.lines ≡ false
        → t.dispatched_at ≡ none
        → t.received_at ≡ none
        → u ≡ insert id t s
        → Moved s u
    sends :
        (id actor : String) (at : ℕ) (t : Transfer D)
        → lookup id s ≡ some t
        → t.status ≡ requested
        → u
          ≡ insert id
              (record t { status = dispatched; dispatched_by = actor; dispatched_at = some at })
              s
        → Moved s u
    takes :
        (id actor : String) (at : ℕ) (t : Transfer D)
        → lookup id s ≡ some t
        → t.status ≡ dispatched
        → u
          ≡ insert id (record t { status = arrived; received_by = actor; received_at = some at }) s
        → Moved s u

  request_transfer-Moved :
      (v : Ambient) (a b : String) (lines : List (Dict D)) (actor : String) (s : OpsState D)
      → Moved s.transfers (request_transfer v a b lines actor s).1.transfers
  unfolding request_transfer
  request_transfer-Moved v a b lines actor s = elim (Bool-cases ((a == b) || has_no_lines lines)) [
    | inl bad ↦ same (ground arith)
    | inr fine ↦
        asks v.new_id
          (record {
            transfer_id = v.new_id;
            from_branch_id = a;
            to_branch_id = b;
            lines = lines;
            requested_by = actor;
            requested_at = v.now;
            status = requested;
            dispatched_by = "";
            dispatched_at = none;
            received_by = "";
            received_at = none;
          })
          refl (ground arith) (ground arith) refl refl (ground arith)
  ]

  dispatch_transfer-Moved :
      (v : Ambient) (id actor : String) (s : OpsState D)
      → Moved s.transfers (dispatch_transfer v id actor s).1.transfers
  unfolding dispatch_transfer is_requested
  dispatch_transfer-Moved v id actor s = elim (Option-cases (lookup id s.transfers)) [
    | inl lost ↦ same (ground (arith, lost))
    | inr (t, found) ↦ elim (Bool-cases (is_requested t.status)) [
      | inr other ↦ same (ground (arith, found))
      | inl ready ↦ sends id actor v.now t found (ground arith) (ground (arith, found))
    ]
  ]

  receive_transfer-Moved :
      (v : Ambient) (id actor : String) (s : OpsState D)
      → Moved s.transfers (receive_transfer v id actor s).1.transfers
  unfolding receive_transfer is_dispatched
  receive_transfer-Moved v id actor s = elim (Option-cases (lookup id s.transfers)) [
    | inl lost ↦ same (ground (arith, lost))
    | inr (t, found) ↦ elim (Bool-cases (is_dispatched t.status)) [
      | inr other ↦ same (ground (arith, found))
      | inl ready ↦ takes id actor v.now t found (ground arith) (ground (arith, found))
    ]
  ]

  pub Step-Moved : {s u : OpsState D} → Step s u → Moved s.transfers u.transfers
  unfolding create_po approve_po start_count record_count_line finalize_count
  Step-Moved (po_by v branch supplier lines actor eq) = same (ground (arith, eq))
  Step-Moved {s} (po_approved_by v id actor eq) =
      elim (Option-cases (lookup id s.purchase_orders)) [
        | inl lost ↦ same (ground (arith, eq, lost))
        | inr (po, found) ↦ same (ground (arith, eq, found))
      ]
  Step-Moved {s} (transfer_by v a b lines actor eq) =
      rw eq (request_transfer-Moved v a b lines actor s)
  Step-Moved {s} (dispatched_by v id actor eq) = rw eq (dispatch_transfer-Moved v id actor s)
  Step-Moved {s} (received_by v id actor eq) = rw eq (receive_transfer-Moved v id actor s)
  Step-Moved (count_by v branch actor eq) = same (ground (arith, eq))
  Step-Moved {s} (line_by id product counted system evidence eq) =
      elim (Option-cases (lookup id s.counts)) [
        | inl lost ↦ same (ground (arith, eq, lost))
        | inr (c, found) ↦ same (ground (arith, eq, found))
      ]
  Step-Moved {s} (finalized_by v id actor eq) = elim (Option-cases (lookup id s.counts)) [
    | inl lost ↦ same (ground (arith, eq, lost))
    | inr (c, found) ↦ same (ground (arith, eq, found))
  ]
