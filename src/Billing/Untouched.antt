-- ===== src/Billing/Untouched.antt =====
-- Invoicing and paying leave the subscriptions alone.
use apiv.Prelude.{ℕ, String, Option-cases, pure, modify, Run, ◌>>=◌, ◌≡◌, inl, inr, arith}
use apiv.Prelude.Rules.{bind_keeps}
use apiv.Billing.Tables.{Plan, Customer, Payment, Invoice, Books}
use apiv.Billing.Invoices.{
  PaymentProvider, GenerateInvoiceInput, CreateCustomerInput, NewIds, create, generate_invoice,
  find_by_id, find_by_tenant, create_billing_customer, customer_for, insert_payment, charge,
  record_result, process_payment, provider_call, payment_input, payment_row, customer_row,
  CreatePaymentResult,
}
use apiv.Billing.Activation.{Activation, invoice_input, payer, invoice_subscription}

-- Billing that leaves the subscriptions as they are in `s`.
abbrev pub Same : Books → Books → Type 0
Same s t = (t.subscriptions ≡ s.subscriptions) × (t.up ≡ s.up)

generate_invoice-Same :
    (now : ℕ) (id : String) (dto : GenerateInvoiceInput) (prefix : String → String) (s t : Books)
    → Same s t
    → Same s (generate_invoice prefix now id dto t).1
unfolding create generate_invoice
generate_invoice-Same now id dto prefix s t h = ground (arith, h)

find_by_id-Same : (id tenant : String) (s t : Books) → Same s t → Same s (find_by_id id tenant t).1
unfolding find_by_id
find_by_id-Same id tenant s t h = h

insert_payment-Same : (p : Payment) (s t : Books) → Same s t → Same s (insert_payment p t).1
unfolding insert_payment
insert_payment-Same p s t h = ground (arith, h)

create_billing_customer-Same :
    (c : Customer) (s t : Books) → Same s t → Same s (create_billing_customer c t).1
unfolding create_billing_customer
create_billing_customer-Same c s t h = ground (arith, h)

module _ (provider : PaymentProvider) (now : ℕ) where
  customer_for-Same :
      (dto : CreateCustomerInput) (s t : Books)
      → Same s t
      → Same s (customer_for provider now dto t).1
  unfolding customer_for
  customer_for-Same dto s t h =
      let row = customer_row provider.provider_name dto in
      elim (Option-cases (find_by_tenant dto.tenant_id provider.provider_name t)) [
        | inl e ↦
            rw (e, customer_for)
              (bind_keeps (Same s) (provider_call (provider.create_customer dto))
                (λ id. create_billing_customer (row id)) t (λ _ _. h)
                (λ id _. create_billing_customer-Same (row id) s t h))
        | inr (c, e) ↦ rw (e, customer_for) h
      ]

  charge-Same :
      (id tenant : String) (i : Invoice) (c : Customer) (s t : Books)
      → Same s t
      → Same s (charge provider now id tenant i c t).1
  unfolding charge record_result
  charge-Same id tenant i c s t h =
      bind_keeps (Same s) (provider_call (provider.create_payment (payment_input tenant i c)))
        (λ r. modify (record_result now id i.id r) >>= λ _. pure r) t (λ _ _. h) (λ _ _. h)

  process_payment-Same :
      (id invoice : String) (dto : CreateCustomerInput) (s t : Books)
      → Same s t
      → Same s (process_payment provider now id invoice dto t).1
  unfolding process_payment
  process_payment-Same id invoice dto s t h =
      let found = find_by_id-Same invoice dto.tenant_id s t h in
      bind_keeps (Same s) (find_by_id invoice dto.tenant_id)
        (λ i. customer_for provider now dto >>= paid_by i) t (λ _ _. found)
        (λ i _.
          let t1 = (find_by_id invoice dto.tenant_id t).1 in
          let known = customer_for-Same dto s t1 found in
          bind_keeps (Same s) (customer_for provider now dto) (paid_by i) t1 (λ _ _. known)
            (λ c _.
              let t2 = (customer_for provider now dto t1).1 in
              let p = payment_row id provider.provider_name dto.tenant_id i in
              let inserted = insert_payment-Same p s t2 known in
              bind_keeps (Same s) (insert_payment p) (λ _. charge provider now id dto.tenant_id i c)
                t2 (λ _ _. inserted)
                (λ _ _. charge-Same id dto.tenant_id i c s (insert_payment p t2).1 inserted)))
    where
      paid_by : Invoice → Customer → Run Books CreatePaymentResult
      paid_by i c = insert_payment (payment_row id provider.provider_name dto.tenant_id i) >>= λ _.
          charge provider now id dto.tenant_id i c

  pub invoice_subscription-Same :
      (prefix : String → String) (ids : NewIds) (dto : Activation) (p : Plan) (sub : String)
      (s t : Books)
      → Same s t
      → Same s (invoice_subscription provider prefix now ids dto p sub t).1
  unfolding invoice_subscription
  invoice_subscription-Same prefix ids dto p sub s t h =
      let input = invoice_input now dto p sub in
      let made = generate_invoice-Same now ids.invoice input prefix s t h in
      let who = payer dto in
      bind_keeps (Same s) (generate_invoice prefix now ids.invoice input)
        (λ i. process_payment provider now ids.payment i.id who) t (λ _ _. made)
        (λ i _.
          process_payment-Same ids.payment i.id who s
            (generate_invoice prefix now ids.invoice input t).1 made)
