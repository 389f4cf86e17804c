-- ===== src/Billing/InvoiceTests.antt =====
-- A tenant that activates its plan, one whose invoice number is taken, and a payment that fails.
use apiv.Prelude.{◌+◌, ◌*◌, ◌≤◌, String, none, some, [], ◌∷◌, ◌≡◌, refl, arith, err, other}
use apiv.Calendar.{day, date_of}
use apiv.Billing.Subscriptions.{get_active_subscription}
use apiv.Billing.Tables.{monthly, paid_invoice, void, Books}
use apiv.Billing.Invoices.{NewIds, PaymentProvider, generate_invoice_number}
use apiv.Billing.Providers.{mock_payment_provider}
use apiv.Billing.Activation.{Activation, period_end, activate_subscription}
use apiv.Billing.PaidPeriods.{IsPaidUntil, activate_subscription-IsPaidUntil}
use apiv.Billing.Payments.{activate_subscription_taken}
use apiv.Billing.Webhook.{
  PaymentIntent, payment_failed, payment_succeeded, unhandled, handle_events,
}
use apiv.Billing.EventOrder.{AllAre, handle_events_last}
use apiv.Billing.Tests.{basic, unpaid, books}

abbrev mock : PaymentProvider
mock = mock_payment_provider (λ _. "cus_new") (λ _. "pay_1")

-- Both tenants have ids that begin alike.
abbrev prefix : String → String
prefix tenant = "T2"

abbrev ids : NewIds
ids = record { subscription = "s9"; invoice = "v9"; payment = "y9" }

abbrev request : String → Activation
request tenant = record {
  tenant_id = tenant;
  plan_id = "p1";
  cycle = monthly;
  tenant_email = "new@example.org";
  tenant_name = "New";
  custom_amount = none;
}

abbrev s0 : Books
s0 = books []

activate_subscription-IsPaidUntil_example :
    let r = activate_subscription mock prefix (31 * day) ids (request "t9") s0 in
    IsPaidUntil (31 * day) (40 * day) (request "t9") r.1
    × (31 * day + 28 * 1 * day ≤ period_end (31 * day) monthly)
    × (period_end (31 * day) monthly ≤ 31 * day + 31 * 1 * day)
unfolding get_active_subscription
activate_subscription-IsPaidUntil_example =
    activate_subscription-IsPaidUntil mock prefix (31 * day) (40 * day) ids (request "t9") basic s0
      refl refl ((λ e. omega arith), ((λ e. omega arith), tt)) (λ sub e. absurd (cc e))

activate_subscription_taken_example :
    let r = activate_subscription mock prefix (31 * day) ids (request "t9") (books []) in
    (r.0 ≡ err (other "Failed to create invoice"))
    × (r.1.invoices ≡ unpaid ∷ [])
    × (r.1.payments ≡ [])
unfolding generate_invoice_number date_of
activate_subscription_taken_example =
    activate_subscription_taken mock prefix (31 * day) ids (request "t9") basic (books []) refl refl
      refl

abbrev failing : PaymentIntent
failing = record { id = "pay_1"; invoice_id = some "v1"; last_error = some "card declined" }

handle_events_last_example :
    AllAre "v1" void
      (handle_events ((60, payment_failed failing) ∷ (61, unhandled) ∷ []) s0).invoices
    × AllAre "v1" paid_invoice
        (handle_events ((60, payment_succeeded failing) ∷ (61, unhandled) ∷ []) s0).invoices
handle_events_last_example =
    handle_events_last 60 "v1" failing ((61, unhandled) ∷ []) s0 refl refl (refl, tt)
