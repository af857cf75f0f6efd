-- ===== src/Business.antt =====
-- src/business/models.py: the records of the business store, and its state.
pub mod Store
mod Examples
use tagro_echo_os.Base.{ℕ, String, Bool, Option, List, [], Dict, map}
use tagro_echo_os.Money.{Decimal, money, plus, minus, times, percent, sum_dec}

pub record UserRecord : Type 0 where
  pub user_id : String
  pub name : String
  pub email : String
  pub role : String
  pub branch_id : Option String
  pub active : Bool

pub record Branch : Type 0 where
  pub branch_id : String
  pub code : String
  pub name : String
  pub district : String
  pub branch_type : String
  pub active : Bool

pub record Product : Type 0 where
  pub product_id : String
  pub sku : String
  pub model : String
  pub name : String
  pub category : String
  pub gst_rate : Decimal
  pub unit : String
  pub serial_tracked : Bool
  pub active : Bool

pub record PriceRecord : Type 0 where
  pub price_id : String
  pub product_id : String
  pub price_type : String
  pub amount : Decimal
  pub effective_from : ℕ
  pub effective_to : Option ℕ
  pub branch_id : Option String

pub record Customer : Type 0 where
  pub customer_id : String
  pub name : String
  pub phone : String
  pub email : String
  pub gstin : String
  pub district : String

pub record Supplier : Type 0 where
  pub supplier_id : String
  pub name : String
  pub phone : String
  pub email : String
  pub gstin : String

pub record LineItem : Type 0 where
  pub product_id : String
  pub quantity : Decimal
  pub unit_price : Decimal
  pub gst_rate : Decimal
  pub discount : Decimal

pub record Quote : Type 0 where
  pub quote_id : String
  pub branch_id : String
  pub customer_id : String
  pub created_at : ℕ
  pub items : List LineItem
  pub status : String

pub record Sale : Type 0 where
  pub sale_id : String
  pub branch_id : String
  pub customer_id : Option String
  pub created_at : ℕ
  pub items : List LineItem
  pub payment_status : String
  pub source_quote_id : Option String

pub record PurchaseRecord : Type 0 where
  pub purchase_id : String
  pub branch_id : String
  pub supplier_id : String
  pub created_at : ℕ
  pub items : List LineItem
  pub supplier_invoice_no : String

pub record StockMovement : Type 0 where
  pub movement_id : String
  pub branch_id : String
  pub product_id : String
  pub quantity_delta : Decimal
  pub movement_type : String
  pub occurred_at : ℕ
  pub reference_type : String
  pub reference_id : String
  pub note : String

-- `LineItem.taxable`
unfoldable pub line_taxable : LineItem → Decimal
line_taxable i = money (minus (times i.quantity i.unit_price) i.discount)

-- `LineItem.tax`
unfoldable pub line_tax : LineItem → Decimal
unfolding line_taxable
line_tax i = money (percent (times (line_taxable i) i.gst_rate))

-- `LineItem.total`
unfoldable pub line_total : LineItem → Decimal
unfolding line_taxable line_tax
line_total i = money (plus (line_taxable i) (line_tax i))

-- `Sale.total`, `Quote.total` and `Purchase.total`
unfoldable pub items_total : List LineItem → Decimal
unfolding line_total
items_total items = money (sum_dec (map line_total items))

pub record StoreState : Type 0 where
  pub users : Dict UserRecord
  pub branches : Dict Branch
  pub products : Dict Product
  pub prices : Dict PriceRecord
  pub customers : Dict Customer
  pub suppliers : Dict Supplier
  pub quotes : Dict Quote
  pub sales : Dict Sale
  pub purchases : Dict PurchaseRecord
  pub stock_movements : List StockMovement

abbrev pub empty_store : StoreState
empty_store = record {
  users = [];
  branches = [];
  products = [];
  prices = [];
  customers = [];
  suppliers = [];
  quotes = [];
  sales = [];
  purchases = [];
  stock_movements = [];
}

-- The messages of `BusinessError`.
pub data BusinessError : Type 0 where
  branch_not_unique no_user_branch product_not_unique no_price_product no_active_price :
      BusinessError
  no_customer no_supplier items_required invalid_item no_branch no_product : BusinessError
  insufficient_stock note_required negative_stock : BusinessError
