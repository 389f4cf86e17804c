-- ===== src/Sales/Tables.antt =====
-- The request of a sale and the state that it works on: src/modules/invoices/dto, the tables of
-- orders, customers, coupons and loyalty, and what the database's functions answer.
use apiv.Prelude.{ℕ, String, Bool, Option, List, Error}
use apiv.Prelude.Int.{ℤ}
use apiv.Till.{PaymentMethod, Order, Till}
use apiv.Pricing.Types.{Approval, Tables}
use apiv.Sales.Engines.{DiscountType, DiscountInput, InvoiceItem}

-- InvoiceItemDto, validated: a quantity of at least 1 (whole, as order_items.qty is), a price that is
-- not negative.
pub record InvoiceItemDto : Type 0 where
  pub item_id : String
  pub item_name : String
  pub variant_id : Option String
  pub variant_name : Option String
  pub quantity : ℕ
  pub unit_price : ℤ
  pub serial_id : Option String
  pub reason : Option String

-- CreateInvoiceDto; points are whole.
pub record CreateInvoiceDto : Type 0 where
  pub sale_attempt_id : String
  pub items : List InvoiceItemDto
  pub discount : Option DiscountInput
  pub customer_id : Option String
  pub payment_method : PaymentMethod
  pub cash_tendered : Option ℕ
  pub cash_amount : Option ℤ
  pub card_amount : Option ℤ
  pub notes : Option String
  pub redeem_points : Option ℕ
  pub coupon_code : Option String

pub record OrderItem : Type 0 where
  pub order_id : String
  pub item_id : String
  pub item_name : String
  pub qty : ℕ
  pub price : ℤ
  pub total_price : ℤ
  pub variant_id : Option String
  pub variant_name : Option String
  pub official_price_snapshot : ℤ

-- price_override_audit
pub record OverrideAudit : Type 0 where
  pub tenant_id : String
  pub branch_id : String
  pub order_id : String
  pub actor_id : String
  pub item_id : String
  pub approval : Approval

pub record Customer : Type 0 where
  pub id : String
  pub tenant_id : String
  pub loyalty_points : ℕ
  pub lifetime_points_earned : ℕ
  pub is_deleted : Bool

pub record Coupon : Type 0 where
  pub id : String
  pub tenant_id : String
  pub code : String
  pub discount_type : DiscountType
  pub discount_value : ℕ
  pub max_discount_amount : Option ℕ
  pub min_order_amount : Option ℕ
  pub max_uses : Option ℕ
  pub used_count : ℕ
  pub valid_from : Option ℕ
  pub valid_to : Option ℕ
  pub is_active : Bool
  pub is_deleted : Bool

-- loyalty_tiers; a multiplier in hundredths.
pub record Tier : Type 0 where
  pub tenant_id : String
  pub min_lifetime_points : ℕ
  pub points_multiplier : ℕ
  pub is_deleted : Bool

-- The columns of tenants that a sale reads. A rate is in ten-thousandths, points for one unit of
-- currency in hundredths, and the value of a point in ten-thousandths of a cent.
pub record Tenant : Type 0 where
  pub id : String
  pub tax_rate : Option ℕ
  pub loyalty_points_per_currency : Option ℕ
  pub loyalty_redemption_value : Option ℕ
  pub loyalty_enabled : Option Bool
  pub is_deleted : Bool

-- A cached page of the list of invoices, by its tenant and the rest of its key.
pub record CachedList : Type 0 where
  pub tenant_id : String
  pub key : String
  pub rows : List Order

pub record Shop : Type 0 where
  pub till : Till
  pub prices : Tables
  pub order_items : List OrderItem
  pub override_audits : List OverrideAudit
  pub customers : List Customer
  pub coupons : List Coupon
  pub tiers : List Tier
  pub tenants : List Tenant
  pub lists : List CachedList

-- What the sale asks of code outside the repository's TypeScript: settings, the clock, ids, and the
-- answers of the database's functions. A function that gives a message or an error has failed.
pub record Outside : Type 0 where
  pub pooled_writes : Bool  -- POOLED_INVOICE_WRITES_ENABLED
  pub now : ℕ
  pub upper : String → String
  pub order_id : String
  pub insert_items : List OrderItem → Option Error
  pub post_sales_order : Order → Option String
  pub is_accounting_message : String → Bool
  pub default_warehouse : String → Option String
  pub check_holds : List InvoiceItem → Option (List String)
  pub check_expired_batches : List InvoiceItem → Option (List String)
  pub consume_for_sale : InvoiceItem → Option Bool
  pub deduct_stock_for_sale : List InvoiceItem → Option String
  pub sell_serial : String → Option String
