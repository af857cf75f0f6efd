-- ===== src/Purchase/Store/Receipt.antt =====
-- The loop of `receive` (src/purchase/orders.py): what it adds to the receipts, and its bound.
use tagro_echo_os.Base.{
  String, false, some, [], ◌∷◌, Dict, lookup, insert, ◌≡◌, arith, ok, inl, inr, Option-cases,
  Result-cases, lookup-insert, eq_iff, ◌==◌, if◌then◌else◌,
}
use tagro_echo_os.Money.{Decimal, zero_dec, lt_dec, plus}
use tagro_echo_os.Purchase.{PurchaseOrderLine}
use tagro_echo_os.Purchase.Quantities.{received_of, receive_line, receive_lines}

-- What a round that succeeds has found and written.
pub record Received (known : Dict PurchaseOrderLine) (id : String) (q : Decimal)
    (got got' : Dict Decimal) : Type 0 where
  pub line : PurchaseOrderLine
  pub is_known : lookup id known ≡ some line
  pub not_negative : lt_dec q zero_dec ≡ false
  pub fits : lt_dec line.quantity (plus (received_of got id) q) ≡ false
  pub written : got' ≡ insert id (plus (received_of got id) q) got

pub receive_line-Received :
    (known : Dict PurchaseOrderLine) (id : String) (q : Decimal) (got got' : Dict Decimal)
    → receive_line known id q got ≡ ok got'
    → Received known id q got got'
unfolding receive_line
receive_line-Received known id q got got' h = elim (Option-cases (lookup id known)) [
  | inl missing ↦ ground (arith, missing)
  | inr (line, found) ↦ record {
    line = line;
    is_known = found;
    not_negative = ground (arith, found);
    fits = ground (arith, found);
    written = ground (arith, found);
  }
]

pub received_of-insert :
    (id j : String) (q : Decimal) (got : Dict Decimal)
    → received_of (insert id q got) j ≡ (if id == j then q else received_of got j)
unfolding received_of
received_of-insert id j q got = ground (arith, lookup-insert id j q got)

-- Every known line's receipts stay within its quantity.
abbrev pub Within : Dict PurchaseOrderLine → Dict Decimal → Type 0
Within known got =
    (id : String) (line : PurchaseOrderLine)
    → lookup id known ≡ some line
    → lt_dec line.quantity (received_of got id) ≡ false

Received-Within :
    {known : Dict PurchaseOrderLine} {id : String} {q : Decimal} {got got' : Dict Decimal}
    → Received known id q got got'
    → Within known got
    → Within known got'
Received-Within {known} {id} {q} {got} {got'} r w j line found =
    let ih = w j line found in
    ground (
      arith,
      eq_iff id j,
      r.is_known,
      r.fits,
      r.written,
      received_of-insert id j (plus (received_of got id) q) got,
    )

pub receive_lines-Within :
    (known : Dict PurchaseOrderLine) (qs got got' : Dict Decimal)
    → receive_lines known qs got ≡ ok got'
    → Within known got
    → Within known got'
unfolding receive_lines
receive_lines-Within known [] got got' h w = λ i line found. ground (arith, w i line found)
receive_lines-Within known ((id, q) ∷ qs) got got' h w =
    elim (Result-cases (receive_line known id q got)) [
      | inl (mid, fine) ↦
          receive_lines-Within known qs mid got' (ground (arith, fine))
            (Received-Within (receive_line-Received known id q got mid fine) w)
      | inr (e, bad) ↦ ground (arith, bad)
    ]

-- A quantity, with what a delivery brings for a line added to it in order.
unfoldable pub add_all : String → Dict Decimal → Decimal → Decimal
add_all j [] total = total
add_all j ((id, q) ∷ qs) total = add_all j qs (if id == j then plus total q else total)

pub received_of-receive_lines :
    (known : Dict PurchaseOrderLine) (qs got got' : Dict Decimal) (j : String)
    → receive_lines known qs got ≡ ok got'
    → received_of got' j ≡ add_all j qs (received_of got j)
unfolding receive_lines add_all
received_of-receive_lines known [] got got' j h = ground arith
received_of-receive_lines known ((id, q) ∷ qs) got got' j h =
    elim (Result-cases (receive_line known id q got)) [
      | inl (mid, fine) ↦
          let r = receive_line-Received known id q got mid fine in
          ground (
            arith,
            eq_iff id j,
            r.written,
            received_of-insert id j (plus (received_of got id) q) got,
            received_of-receive_lines known qs mid got' j,
          )
      | inr (e, bad) ↦ ground (arith, bad)
    ]
