-- ===== src/Billing/Providers.antt =====
-- src/core/billing/providers: the payment providers. Stripe's client is a parameter, `none` if no secret
-- key is set; so are the ids that the mock makes up, and `toLowerCase`. Amounts are in the smallest
-- currency step, as Stripe wants them.
use apiv.Prelude.{
  ℕ, String, true, false, Option, none, some, [], ◌∷◌, ◌==◌, filter, All, if◌then◌else◌, Result, ok,
  err, other, ◌≡◌, ◌⊎◌, inl, inr, refl,
}
use apiv.Billing.Tables.{
  Customer, Invoice, Payment, PaymentStatus, pending, succeeded, failed, Books,
}
use apiv.Billing.Invoices.{
  PaymentProvider, CreateCustomerInput, CreatePaymentInput, CreatePaymentResult, process_payment,
  find_by_tenant, is_invoice, payment_row, with_result,
}
use apiv.Billing.Payments.{process_payment_lem}

abbrev mock_payment : String → CreatePaymentResult
mock_payment id = record { provider_payment_id = id; status = succeeded; failure_reason = none }

-- Every payment succeeds.
abbrev pub mock_payment_provider :
    (CreateCustomerInput → String) → (CreatePaymentInput → String) → PaymentProvider
mock_payment_provider customer_id payment_id = record {
  provider_name = "mock";
  create_customer = λ dto. ok (customer_id dto);
  create_payment = λ dto. ok (mock_payment (payment_id dto));
}

pub record PaymentIntent : Type 0 where
  pub id : String
  pub status : String

-- A call that throws gives its message.
pub record Stripe : Type 0 where
  pub create_customer : CreateCustomerInput → String ⊎ String
  pub create_intent : CreatePaymentInput → String ⊎ PaymentIntent

abbrev status_of : String → PaymentStatus
status_of st =
    if st == "succeeded"
    then succeeded
    else if st == "requires_payment_method"
    then failed
    else pending

-- The `catch`: the payment has failed, and has no id.
abbrev refused : String → CreatePaymentResult
refused message = record {
  provider_payment_id = "";
  status = failed;
  failure_reason = some message;
}

abbrev answered : PaymentIntent → CreatePaymentResult
answered p = record {
  provider_payment_id = p.id;
  status = status_of p.status;
  failure_reason = none;
}

abbrev not_configured : String
not_configured = "Stripe is not configured. Set STRIPE_SECRET_KEY."

module _ (to_lower_case : String → String) where
  abbrev lower : CreatePaymentInput → CreatePaymentInput
  lower dto = record dto { currency = to_lower_case dto.currency }

  unfoldable pub create_payment : Option Stripe → CreatePaymentInput → CreatePaymentResult
  create_payment none dto = refused not_configured
  create_payment (some stripe) dto = elim (stripe.create_intent (lower dto)) [
    | inl message ↦ refused message
    | inr p ↦ answered p
  ]

  unfoldable pub create_customer : Option Stripe → CreateCustomerInput → Result String
  create_customer none dto = err (other not_configured)
  create_customer (some stripe) dto = elim (stripe.create_customer dto) [
    | inl message ↦ err (other message)
    | inr id ↦ ok id
  ]

  abbrev pub stripe_payment_provider : Option Stripe → PaymentProvider
  stripe_payment_provider stripe = record {
    provider_name = "stripe";
    create_customer = create_customer stripe;
    create_payment = λ dto. ok (create_payment stripe dto);
  }

-- Where Stripe is not configured, processing the payment of an invoice that the tenant has once, for a
-- tenant that is a customer and a payment id that is new, returns that the payment failed, stores the
-- failed payment and leaves the invoices as they are.
process_payment-not_configured :
    (to_lower_case : String → String) (now : ℕ) (id invoice : String) (dto : CreateCustomerInput)
    (i : Invoice) (c : Customer) (s : Books)
    → s.up ≡ true
    → filter (is_invoice invoice dto.tenant_id) s.invoices ≡ i ∷ []
    → find_by_tenant dto.tenant_id "stripe" s ≡ some c
    → All (λ (p : Payment). (p.id == id) ≡ false) s.payments
    → let (result, t) =
        process_payment (stripe_payment_provider to_lower_case none) now id invoice dto s in
      (result ≡ ok (refused not_configured))
      × (t.payments
          ≡ with_result now (refused not_configured) (payment_row id "stripe" dto.tenant_id i)
            ∷ s.payments)
      × (t.invoices ≡ s.invoices)
unfolding create_payment
process_payment-not_configured to_lower_case now id invoice dto i c s up found customer fresh =
    rw
      (process_payment_lem (stripe_payment_provider to_lower_case none) now id invoice dto i c
        (refused not_configured) s up found customer fresh refl)
      (refl, refl, refl)
