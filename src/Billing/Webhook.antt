-- ===== src/Billing/Webhook.antt =====
-- src/core/billing/stripe-webhook.controller.ts. Stripe's `constructEvent` is a parameter; the errors of
-- the database are not looked at, so that a call which finds it down changes nothing.
use apiv.Prelude.{
  ℕ, String, Bool, true, false, ◌&&◌, Option, none, some, List, [], ◌∷◌, ◌==◌, update, truthy,
  if◌then◌else◌, Result, ok, err, bad_request,
}
use apiv.Billing.Tables.{
  Status, active, Subscription, Invoice, void, Payment, succeeded, failed, Books,
}
use apiv.Billing.Subscriptions.{cancel}
use apiv.Billing.Invoices.{mark_paid}

-- The object of an event of the two payment types.
pub record PaymentIntent : Type 0 where
  pub id : String
  pub invoice_id : Option String
  pub last_error : Option String

pub data Event : Type 0 where
  payment_failed payment_succeeded : PaymentIntent → Event
  subscription_deleted : (tenant_id : Option String) → Event
  unhandled : Event

abbrev is_intent : String → Option String → Bool
is_intent id none = false
is_intent id (some p) = p == id

abbrev pub is_payment_of : PaymentIntent → Payment → Bool
is_payment_of o p = is_intent o.id p.provider_payment_id

abbrev failure_of : Option String → String
failure_of none = "Unknown failure"
failure_of (some m) = m

abbrev pub fail_payment : PaymentIntent → Payment → Payment
fail_payment o p = record p { status = failed; failure_reason = some (failure_of o.last_error) }

abbrev pub succeed_payment : Payment → Payment
succeed_payment p = record p { status = succeeded }

abbrev pub void_invoice : Invoice → Invoice
void_invoice i = record i { status = void }

unfoldable pub handle_payment_failed : PaymentIntent → Books → Books
handle_payment_failed o s = elim (truthy o.invoice_id) [
  | none ↦ s
  | some id ↦ record s {
    payments = update (is_payment_of o) (fail_payment o) s.payments;
    invoices = update (λ (i : Invoice). i.id == id) void_invoice s.invoices;
  }
]

unfoldable pub handle_payment_succeeded : ℕ → PaymentIntent → Books → Books
handle_payment_succeeded now o s = elim (truthy o.invoice_id) [
  | none ↦ s
  | some id ↦ record s {
    payments = update (is_payment_of o) succeed_payment s.payments;
    invoices = update (λ (i : Invoice). i.id == id) (mark_paid now) s.invoices;
  }
]

abbrev is_active : Status → Bool
is_active active = true
is_active _ = false

abbrev pub is_active_of : String → Subscription → Bool
is_active_of tenant x = (x.tenant_id == tenant) && is_active x.status

unfoldable pub handle_subscription_deleted : ℕ → Option String → Books → Books
handle_subscription_deleted now tenant s = elim (truthy tenant) [
  | none ↦ s
  | some id ↦ record s { subscriptions = update (is_active_of id) (cancel now) s.subscriptions }
]

-- The `switch` on the type of the event.
unfoldable pub handle_event : ℕ → Event → Books → Books
handle_event now (payment_failed o) s = if s.up then handle_payment_failed o s else s
handle_event now (payment_succeeded o) s = if s.up then handle_payment_succeeded now o s else s
handle_event now (subscription_deleted t) s =
    if s.up then handle_subscription_deleted now t s else s
handle_event now unhandled s = s

-- The body as it was received, with its signature.
pub record Delivery : Type 0 where
  pub signature : String
  pub raw_body : Option String

module _ (construct_event : String → String → String → Result Event) where
  abbrev verified : String → String → String → Result Event
  verified body signature secret = elim (construct_event body signature secret) [
    | ok e ↦ ok e
    | err x ↦ err (bad_request "Webhook Error")
  ]

  abbrev checked : Option String → Delivery → Result Event
  checked none d = err (bad_request "Stripe is not configured")
  checked (some secret) d = elim d.raw_body [
    | none ↦ err (bad_request "Missing raw body")
    | some body ↦ verified body d.signature secret
  ]

  -- `secret` is set if Stripe is configured.
  unfoldable pub handle_webhook : Option String → ℕ → Delivery → Books → Result (Unit {0}) × Books
  handle_webhook secret now d s = elim (checked secret d) [
    | ok e ↦ (ok tt, handle_event now e s)
    | err x ↦ (err x, s)
  ]

-- Events one after the other, each with its time.
abbrev pub handle_events : List (ℕ × Event) → Books → Books
handle_events [] s = s
handle_events ((now, e) ∷ es) s = handle_events es (handle_event now e s)
