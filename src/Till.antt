-- ===== src/Till.antt =====
-- The tables that the till works on: shifts, orders and expenses, with the audit entries. Amounts are
-- whole cents (NUMERIC(10,2)); times are milliseconds. The database answers every query.
-- `allows_cancelled` is whether the CHECK of expenses.status knows the status cancelled: the migrations
-- do not add it, and STATUS.md says that the database has it.
use apiv.Prelude.{ℕ, String, Bool, Option, List}
use apiv.Prelude.Int.{ℤ}

pub data ShiftStatus : Type 0 where
  open_shift closed_shift : ShiftStatus

pub record Shift : Type 0 where
  pub id : String
  pub tenant_id : String
  pub branch_id : String
  pub cashier_id : String
  pub status : ShiftStatus
  pub opening_cash : ℤ
  pub closing_cash : Option ℤ
  pub expected_cash : Option ℤ
  pub discrepancy : Option ℤ
  pub notes : Option String
  pub is_deleted : Bool

pub data PaymentMethod : Type 0 where
  cash card split wallet mada visa mastercard stc_pay apple_pay tab : PaymentMethod

pub data OrderStatus : Type 0 where
  pending completed cancelled refunded : OrderStatus

pub record Order : Type 0 where
  pub id : String
  pub tenant_id : String
  pub branch_id : String
  pub shift_id : Option String
  pub cashier_id : String
  pub customer_id : Option String
  pub status : OrderStatus
  pub subtotal : ℤ
  pub discount : ℤ
  pub tax : ℤ
  pub total : ℤ
  pub payment_method : Option PaymentMethod
  pub notes : Option String
  pub coupon_code : Option String
  pub sale_attempt_id : String
  pub cash_amount : Option ℤ
  pub card_amount : Option ℤ
  pub held : Bool
  pub is_deleted : Bool

pub data ExpenseStatus : Type 0 where
  pending approved rejected expired cancelled : ExpenseStatus

pub record Expense : Type 0 where
  pub id : String
  pub tenant_id : String
  pub branch_id : String
  pub shift_id : Option String
  pub requested_by : String
  pub approved_by : Option String
  pub title : String
  pub notes : Option String
  pub amount : ℤ
  pub status : ExpenseStatus
  pub expires_at : ℕ
  pub resolved_at : Option ℕ
  pub is_deleted : Bool

pub record AuditEntry : Type 0 where
  pub tenant_id : String
  pub actor_id : String
  pub action : String
  pub resource_type : String
  pub resource_id : String

pub record Till : Type 0 where
  pub shifts : List Shift
  pub orders : List Order
  pub expenses : List Expense
  pub audit : List AuditEntry
  pub allows_cancelled : Bool
