-- ===== src/Billing/Tests.antt =====
-- The billing of one tenant with a paid subscription and one that did not pay.
use apiv.Prelude.{
  ◌*◌, ◌≤◌, true, false, none, some, List, [], ◌∷◌, filter, length, ◌≡◌, refl, arith,
}
use apiv.Billing.Tables.{
  active, past_due, monthly, Subscription, Attempt, AttemptStatus, pending, Charge, open_invoice,
  Plan, Customer, Invoice, Outcome, declined, Books, day,
}
use apiv.Billing.Dunning.{
  retry_pending_attempts, attempt_failed, suspend_expired_grace_periods, is_due,
}
use apiv.Billing.Subscriptions.{
  get_active_subscription, is_subscription_active, handle_subscription_expiry,
}
use apiv.Billing.Retries.{retry_pending_attempts_lem}
use apiv.Billing.Grace.{final_failure_no_suspension}
use apiv.Billing.Expiry.{handle_subscription_expiry_keeps_active}

abbrev paying : Subscription
paying = record {
  id = "s1";
  tenant_id = "t1";
  plan_id = "p1";
  status = active;
  billing_cycle = monthly;
  is_deleted = false;
  created_at = 5;
  trial_ends_at = some day;
  current_period_start = none;
  current_period_end = some (90 * day);
  grace_period_ends_at = none;
  suspended_at = none;
  cancelled_at = none;
}

abbrev late : Subscription
late = record {
  id = "s2";
  tenant_id = "t2";
  plan_id = "p1";
  status = past_due;
  billing_cycle = monthly;
  is_deleted = false;
  created_at = 7;
  trial_ends_at = none;
  current_period_start = none;
  current_period_end = some (30 * day);
  grace_period_ends_at = none;
  suspended_at = none;
  cancelled_at = none;
}

abbrev pub basic : Plan
basic = record {
  id = "p1";
  name = "Basic";
  price_monthly = 4900;
  price_yearly = 49000;
  max_users = some 2;
  max_branches = none;
  trial_days = 14;
}

abbrev pub customer : Customer
customer = record {
  tenant_id = "t2";
  provider = "stripe";
  provider_customer_id = "cus_2";
  email = "t2@example.org";
}

abbrev pub unpaid : Invoice
unpaid = record {
  id = "v1";
  tenant_id = "t2";
  subscription_id = "s2";
  invoice_number = record { prefix = "T2"; year = 1970; seq = 1 };
  status = open_invoice;
  total_amount = 4900;
  currency = "SAR";
  period_start = none;
  period_end = none;
  due_at = none;
  paid_at = none;
  created_at = 8;
}

abbrev pub books : List Attempt → Books
books ats = record {
  up = true;
  next_id = 10;
  subscriptions = paying ∷ late ∷ [];
  attempts = ats;
  tenants =
      record { id = "t1"; is_suspended = false } ∷ record { id = "t2"; is_suspended = false } ∷ [];
  customers = customer ∷ [];
  invoices = unpaid ∷ [];
  invoice_items = [];
  payments = [];
  members =
      record { id = "ana"; tenant_id = "t1"; is_owner = true; is_active = true; is_deleted = false }
      ∷ [];
  branches = [];
  plans = basic ∷ [];
  charges = [];
  notifications = [];
}

abbrev pub third : AttemptStatus → Attempt
third st = record {
  id = 3;
  tenant_id = "t2";
  subscription_id = "s2";
  attempt_number = 3;
  status = st;
  next_retry_at = 40 * day;
  attempted_at = 37 * day;
  billing_invoice_id = none;
  error_message = none;
}

abbrev declines : Charge → Outcome
declines c = declined none

retry_pending_attempts_lem_example :
    let t = retry_pending_attempts declines (40 * day) (books (third pending ∷ [])) in
    (length t.charges ≤ 1)
    × (filter (is_due declines (40 * day)) t.attempts ≡ [])
    × (retry_pending_attempts declines (40 * day) t ≡ t)
retry_pending_attempts_lem_example =
    retry_pending_attempts_lem declines (40 * day) (books (third pending ∷ [])) refl

final_failure_no_suspension_example :
    let t =
      attempt_failed (40 * day) (third pending) "card declined" (books (third pending ∷ [])) in
    suspend_expired_grace_periods (80 * day) t ≡ t
final_failure_no_suspension_example =
    final_failure_no_suspension (40 * day) (80 * day) (third pending) "card declined"
      (books (third pending ∷ [])) (omega arith) ((λ _. refl), tt) refl

handle_subscription_expiry_keeps_active_example :
    is_subscription_active (60 * day) "t1" (handle_subscription_expiry (60 * day) (books [])) ≡ true
unfolding is_subscription_active get_active_subscription
handle_subscription_expiry_keeps_active_example =
    handle_subscription_expiry_keeps_active (60 * day) "t1" (books []) refl
