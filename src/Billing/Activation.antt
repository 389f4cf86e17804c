-- ===== src/Billing/Activation.antt =====
-- src/core/billing/billing.service.ts, activateSubscription: the subscription is written, then invoiced,
-- then paid. What was written before an error stays written.
use apiv.Prelude.{
  ℕ, String, false, Option, none, some, ◌∷◌, ◌==◌, update, if◌then◌else◌, ok, err, other, Run,
  ◌>>=◌, ◌>>◌, pure,
}
use apiv.Calendar.{time_add_months}
use apiv.Billing.Tables.{active, BillingCycle, monthly, yearly, Subscription, Plan, Books}
use apiv.Billing.Subscriptions.{get_active_subscription, get_plan_by_id}
use apiv.Billing.Invoices.{
  PaymentProvider, GenerateInvoiceInput, CreateCustomerInput, CreatePaymentResult, NewIds,
  generate_invoice, process_payment,
}

pub record Activation : Type 0 where
  pub tenant_id : String
  pub plan_id : String
  pub cycle : BillingCycle
  pub tenant_email : String
  pub tenant_name : String
  pub custom_amount : Option ℕ

abbrev pub months_of : BillingCycle → ℕ
months_of monthly = 1
months_of yearly = 12

abbrev pub period_end : ℕ → BillingCycle → ℕ
period_end now cycle = time_add_months (months_of cycle) now

abbrev price_in : BillingCycle → Plan → ℕ
price_in monthly p = p.price_monthly
price_in yearly p = p.price_yearly

-- `customAmount ?? …`
abbrev pub plan_price : Option ℕ → BillingCycle → Plan → ℕ
plan_price none cycle p = price_in cycle p
plan_price (some n) cycle p = n

abbrev pub paid_until : ℕ → Activation → Subscription → Subscription
paid_until now dto x = record x {
  plan_id = dto.plan_id;
  status = active;
  billing_cycle = dto.cycle;
  current_period_start = some now;
  current_period_end = some (period_end now dto.cycle);
}

abbrev pub active_row : ℕ → String → Activation → Subscription
active_row now id dto = record {
  id = id;
  tenant_id = dto.tenant_id;
  plan_id = dto.plan_id;
  status = active;
  billing_cycle = dto.cycle;
  is_deleted = false;
  created_at = now;
  trial_ends_at = none;
  current_period_start = some now;
  current_period_end = some (period_end now dto.cycle);
  grace_period_ends_at = none;
  suspended_at = none;
  cancelled_at = none;
}

-- The live subscription of the tenant is taken over; without one a row is inserted. The result is its
-- id.
unfoldable pub write_subscription : ℕ → String → Activation → Run Books String
write_subscription now id dto s = elim (get_active_subscription dto.tenant_id s) [
  | some sub ↦ (
    ok sub.id,
    record s {
      subscriptions =
          update (λ (x : Subscription). x.id == sub.id) (paid_until now dto) s.subscriptions;
    },
  )
  | none ↦
      if s.up
      then (ok id, record s { subscriptions = active_row now id dto ∷ s.subscriptions })
      else (err (other "Failed to create subscription"), s)
]

abbrev pub invoice_input : ℕ → Activation → Plan → String → GenerateInvoiceInput
invoice_input now dto p sub = record {
  tenant_id = dto.tenant_id;
  subscription_id = sub;
  plan_name = p.name;
  plan_price = plan_price dto.custom_amount dto.cycle p;
  currency = "USD";
  period_start = now;
  period_end = period_end now dto.cycle;
}

abbrev pub payer : Activation → CreateCustomerInput
payer dto = record { tenant_id = dto.tenant_id; email = dto.tenant_email; name = dto.tenant_name }

abbrev pub plan_of : String → Run Books Plan
plan_of id s = (get_plan_by_id id s, s)

module _ (provider : PaymentProvider) (prefix : String → String) (now : ℕ) where
  -- `generateInvoice` and `processPayment` for a subscription that is written.
  unfoldable pub invoice_subscription :
      NewIds → Activation → Plan → String → Run Books CreatePaymentResult
  invoice_subscription ids dto p sub =
      generate_invoice prefix now ids.invoice (invoice_input now dto p sub) >>= λ i.
      process_payment provider now ids.payment i.id (payer dto)

  -- The payment's status is not looked at.
  unfoldable pub activate_subscription : NewIds → Activation → Run Books (Unit {0})
  activate_subscription ids dto = plan_of dto.plan_id >>= λ p.
      write_subscription now ids.subscription dto >>= λ sub.
      invoice_subscription ids dto p sub >> pure tt
