-- ===== src/Billing/Tables.antt =====
-- The tables of src/core/billing (billing.types.ts, dunning.constants.ts). Times are milliseconds and
-- money whole units of the smallest currency step. `up` is whether the database answers: a pass that
-- finds it down does nothing. The failure of a single query in the middle of a pass is not modelled.
use apiv.Prelude.{ℕ, String, Bool, Option, List}

-- `past_due` is in the table's CHECK and not in the enum of billing.types.ts.
pub data Status : Type 0 where
  trial active past_due grace_period suspended cancelled expired : Status

pub data BillingCycle : Type 0 where
  monthly yearly : BillingCycle

pub record Subscription : Type 0 where
  pub id : String
  pub tenant_id : String
  pub plan_id : String
  pub status : Status
  pub billing_cycle : BillingCycle
  pub is_deleted : Bool
  pub created_at : ℕ
  pub trial_ends_at : Option ℕ
  pub current_period_start : Option ℕ
  pub current_period_end : Option ℕ
  pub grace_period_ends_at : Option ℕ
  pub suspended_at : Option ℕ
  pub cancelled_at : Option ℕ

-- The limit -1 of a plan is `none`: unlimited.
pub record Plan : Type 0 where
  pub id : String
  pub name : String
  pub price_monthly : ℕ
  pub price_yearly : ℕ
  pub max_users : Option ℕ
  pub max_branches : Option ℕ
  pub trial_days : ℕ

pub data AttemptStatus : Type 0 where
  pending succeeded failed exhausted : AttemptStatus

pub record Attempt : Type 0 where
  pub id : ℕ
  pub tenant_id : String
  pub subscription_id : String
  pub attempt_number : ℕ
  pub status : AttemptStatus
  pub next_retry_at : ℕ
  pub attempted_at : ℕ
  pub billing_invoice_id : Option String
  pub error_message : Option String

pub record Tenant : Type 0 where
  pub id : String
  pub is_suspended : Bool

-- billing_customers, UNIQUE (tenant_id, provider)
pub record Customer : Type 0 where
  pub tenant_id : String
  pub provider : String
  pub provider_customer_id : String
  pub email : String

pub data InvoiceStatus : Type 0 where
  draft open_invoice paid_invoice void overdue : InvoiceStatus

-- The text `INV-<prefix>-<year>-<seq>` by its parts.
pub record InvoiceNumber : Type 0 where
  pub prefix : String
  pub year : ℕ
  pub seq : ℕ

-- invoices, with UNIQUE (invoice_number)
pub record Invoice : Type 0 where
  pub id : String
  pub tenant_id : String
  pub subscription_id : String
  pub invoice_number : InvoiceNumber
  pub status : InvoiceStatus
  pub total_amount : ℕ
  pub currency : String
  pub period_start : Option ℕ
  pub period_end : Option ℕ
  pub due_at : Option ℕ
  pub paid_at : Option ℕ
  pub created_at : ℕ

-- invoice_items
pub record InvoiceItem : Type 0 where
  pub invoice_id : String
  pub plan_name : String
  pub quantity : ℕ
  pub unit_price : ℕ
  pub amount : ℕ

pub data PaymentStatus : Type 0 where
  pending succeeded failed refunded : PaymentStatus

pub record Payment : Type 0 where
  pub id : String
  pub tenant_id : String
  pub invoice_id : String
  pub provider : String
  pub provider_payment_id : Option String
  pub amount : ℕ
  pub currency : String
  pub status : PaymentStatus
  pub paid_at : Option ℕ
  pub failure_reason : Option String

pub record Member : Type 0 where
  pub id : String
  pub tenant_id : String
  pub is_owner : Bool
  pub is_active : Bool
  pub is_deleted : Bool

pub record Branch : Type 0 where
  pub tenant_id : String
  pub is_active : Bool
  pub is_deleted : Bool

-- The argument of `PaymentProvider.createPayment`.
pub record Charge : Type 0 where
  pub tenant_id : String
  pub provider_customer_id : String
  pub invoice_id : String
  pub amount : ℕ
  pub currency : String

pub data Outcome : Type 0 where
  paid : Outcome
  declined : (failure_reason : Option String) → Outcome
  threw : (message : String) → Outcome

pub data NotificationType : Type 0 where
  payment_success payment_failed subscription_expired : NotificationType

-- `charges` and `notifications` are the calls made, the last first. `next_id` numbers new attempts.
pub record Books : Type 0 where
  pub up : Bool
  pub next_id : ℕ
  pub subscriptions : List Subscription
  pub attempts : List Attempt
  pub tenants : List Tenant
  pub customers : List Customer
  pub invoices : List Invoice
  pub invoice_items : List InvoiceItem
  pub payments : List Payment
  pub members : List Member
  pub branches : List Branch
  pub plans : List Plan
  pub charges : List Charge
  pub notifications : List (String × NotificationType)

abbrev pub hour : ℕ
hour = 3600000

abbrev pub day : ℕ
day = 86400000

abbrev pub dunning_grace_period_days : ℕ
dunning_grace_period_days = 3

abbrev pub dunning_max_attempts : ℕ
dunning_max_attempts = 3
