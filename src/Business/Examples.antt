-- ===== src/Business/Examples.antt =====
-- A store (src/business/store.py) with one branch and one product: five bought, three sold.
use tagro_echo_os.Base.{
  pos, negsuc, ◌+ℤ◌, ◌-ℤ◌, scale, ℕ, zero, suc, String, true, false, none, some, List, [], ◌∷◌,
  lookup, insert, values, map, filter, any, ◌==◌, ◌≡◌, refl, arith, if◌then◌else◌,
}
use tagro_echo_os.Money.{
  Decimal, integer, zero_dec, plus, negate, sum_dec, sum_from, lt_dec, le_dec,
}
use tagro_echo_os.Business.{
  Branch, Product, Supplier, LineItem, Sale, PurchaseRecord, StoreState, empty_store,
}
use tagro_echo_os.Business.Store.{
  Ambient, has_key, add_branch, add_product, add_supplier, stock_on_hand, is_bad_item, check_items,
  check_lines, check_branch, movements_of, create_purchase, is_short, create_sale,
}
use tagro_echo_os.Business.Store.Ledger.{
  quantities_of, create_sale_moves_stock, create_purchase_moves_stock,
}
use tagro_echo_os.Business.Store.Stock.{NamesOnce}
use tagro_echo_os.Business.Store.History.{
  Run, here, next, branch_by, product_by, supplier_by, purchase_by, sale_by, stock_never_negative,
}

abbrev as_is : String → String
as_is s = s

abbrev movement_id : ℕ → String
movement_id zero = "stk-0"
movement_id (suc n) = "stk-1"

abbrev at_purchase : Ambient
at_purchase = record { new_id = "pur-1"; now = 1; movement = λ n. (movement_id n, 1) }

abbrev at_sale : Ambient
at_sale = record { new_id = "sal-1"; now = 2; movement = λ n. (movement_id n, 2) }

abbrev kvr : Branch
kvr = record {
  branch_id = "kvr";
  code = "KVR";
  name = "Kavaratti";
  district = "";
  branch_type = "counter";
  active = true;
}

abbrev saw : Product
saw = record {
  product_id = "saw";
  sku = "S-1";
  model = "MS";
  name = "Saw";
  category = "tools";
  gst_rate = integer (pos 18);
  unit = "nos";
  serial_tracked = false;
  active = true;
}

abbrev stihl : Supplier
stihl = record { supplier_id = "sup"; name = "Stihl"; phone = ""; email = ""; gstin = "" }

abbrev item : Decimal → LineItem
item q = record {
  product_id = "saw";
  quantity = q;
  unit_price = integer (pos 100);
  gst_rate = integer (pos 18);
  discount = integer (pos 0);
}

abbrev five : List LineItem
five = item (integer (pos 5)) ∷ []

abbrev three : List LineItem
three = item (integer (pos 3)) ∷ []

opened : StoreState
unfolding add_branch add_product add_supplier has_key lookup insert any values create_purchase
    check_branch check_lines check_items is_bad_item le_dec lt_dec scale movements_of create_sale
    is_short stock_on_hand filter sum_dec sum_from plus ◌+ℤ◌ negate ◌-ℤ◌
opened = (add_supplier stihl (add_product as_is saw (add_branch as_is kvr empty_store).1).1).1

stocked : StoreState
unfolding opened
stocked = (create_purchase at_purchase "kvr" "sup" five "inv-1" opened).1

abbrev purchase : PurchaseRecord
purchase = record {
  purchase_id = "pur-1";
  branch_id = "kvr";
  supplier_id = "sup";
  created_at = 1;
  items = five;
  supplier_invoice_no = "inv-1";
}

sold : StoreState
unfolding stocked
sold = (create_sale at_sale "kvr" none three none stocked).1

abbrev sale : Sale
sale = record {
  sale_id = "sal-1";
  branch_id = "kvr";
  customer_id = none;
  created_at = 2;
  items = three;
  payment_status = "unpaid";
  source_quote_id = none;
}

stocked-Run : Run as_is empty_store stocked
unfolding stocked
stocked-Run =
    next opened stocked
      (next (add_product as_is saw (add_branch as_is kvr empty_store).1).1 opened
        (next (add_branch as_is kvr empty_store).1
          (add_product as_is saw (add_branch as_is kvr empty_store).1).1
          (next empty_store (add_branch as_is kvr empty_store).1 here (branch_by kvr refl))
          (product_by saw refl))
        (supplier_by stihl refl))
      (purchase_by at_purchase "kvr" "sup" five "inv-1" refl)

three_once : NamesOnce three
unfolding quantities_of filter
three_once p = ground arith

sold-Run : Run as_is empty_store sold
unfolding sold
sold-Run = next stocked sold stocked-Run (sale_by at_sale "kvr" none three none three_once refl)

create_purchase_moves_stock_example :
    (lookup "pur-1" stocked.purchases ≡ some purchase)
    × (stock_on_hand "kvr" "saw" stocked.stock_movements
        ≡ sum_from
            (stock_on_hand "kvr" "saw" opened.stock_movements)
            (if "kvr" == "kvr" then map (λ q. q) (quantities_of "saw" five) else []))
unfolding stocked
create_purchase_moves_stock_example =
    create_purchase_moves_stock at_purchase "kvr" "sup" five "inv-1" opened stocked purchase "kvr"
      "saw" refl

create_sale_moves_stock_example :
    (lookup "sal-1" sold.sales ≡ some sale)
    × (stock_on_hand "kvr" "saw" sold.stock_movements
        ≡ sum_from
            (stock_on_hand "kvr" "saw" stocked.stock_movements)
            (if "kvr" == "kvr" then map negate (quantities_of "saw" three) else []))
unfolding sold
create_sale_moves_stock_example =
    create_sale_moves_stock at_sale "kvr" none three none stocked sold sale "kvr" "saw" refl

stock_never_negative_example :
    lt_dec (stock_on_hand "kvr" "saw" sold.stock_movements) zero_dec ≡ false
stock_never_negative_example = stock_never_negative as_is sold "kvr" "saw" sold-Run

-- A sale of two lines of three from a stock of five is accepted and leaves a stock of minus one.
oversold :
    stock_on_hand "kvr" "saw"
      (create_sale at_sale "kvr" none
        (item (integer (pos 3)) ∷ three)
        none
        stocked).1.stock_movements
    ≡ integer (negsuc 0)
unfolding sold
oversold = refl
