-- ===== src/Billing/Payments.antt =====
-- What processing the payment of an invoice writes, and what an invoice number that is taken does to an
-- activation.
use apiv.Prelude.{
  ℕ, String, Bool, true, false, some, List, [], ◌∷◌, ◌==◌, any, filter, find, update, All,
  if◌then◌else◌, ok, err, other, ◌>>=◌, ◌>>◌, pure, modify, ◌≡◌, ◌∙◌, inl, inr, refl, arith,
  eq_refl, Option-cases,
}
use apiv.Prelude.Rules.{bind_ok, bind_err}
use apiv.Billing.Tables.{Subscription, Plan, Customer, Invoice, Payment, Books}
use apiv.Billing.Subscriptions.{get_active_subscription, get_plan_by_id}
use apiv.Billing.Invoices.{
  PaymentProvider, CreateCustomerInput, CreatePaymentResult, NewIds, create, generate_invoice,
  generate_invoice_number, has_number, is_invoice, is_succeeded, find_by_id, find_by_tenant,
  customer_for, insert_payment, charge, record_result, process_payment, provider_call,
  payment_input, payment_row, mark_paid, with_result,
}
use apiv.Billing.Activation.{
  Activation, active_row, paid_until, write_subscription, invoice_input, payer, plan_of,
  invoice_subscription, activate_subscription,
}

update_none :
    {A : Type 0} (p : A → Bool) (f : A → A) (xs : List A)
    → All (λ x. p x ≡ false) xs
    → update p f xs ≡ xs
update_none p f [] h = refl
update_none p f (x ∷ xs) h = ground (arith, h.0, update_none p f xs h.1)

module _ (provider : PaymentProvider) (now : ℕ) where
  charged :
      (id tenant : String) (i : Invoice) (c : Customer) (r : CreatePaymentResult) (s : Books)
      → provider.create_payment (payment_input tenant i c) ≡ ok r
      → charge provider now id tenant i c s ≡ (ok r, record_result now id i.id r s)
  unfolding charge
  charged id tenant i c r s h =
      bind_ok (provider_call (provider.create_payment (payment_input tenant i c)))
        (λ r. modify (record_result now id i.id r) >>= λ _. pure r) (rw h refl)

  -- For an invoice that the tenant has once, a tenant that is a customer of the provider and a payment id
  -- that is new: when the provider answers, the answer is returned, one payment of the invoice's amount
  -- is added that holds it, and the invoice is paid just if the payment succeeded.
  pub process_payment_lem :
      (id invoice : String) (dto : CreateCustomerInput) (i : Invoice) (c : Customer)
      (r : CreatePaymentResult) (s : Books)
      → s.up ≡ true
      → filter (is_invoice invoice dto.tenant_id) s.invoices ≡ i ∷ []
      → find_by_tenant dto.tenant_id provider.provider_name s ≡ some c
      → All (λ (p : Payment). (p.id == id) ≡ false) s.payments
      → provider.create_payment (payment_input dto.tenant_id i c) ≡ ok r
      → process_payment provider now id invoice dto s ≡ (
        ok r,
        record s {
          payments =
              with_result now r (payment_row id provider.provider_name dto.tenant_id i)
              ∷ s.payments;
          invoices =
              if is_succeeded r.status
              then update (λ (j : Invoice). j.id == i.id) (mark_paid now) s.invoices
              else s.invoices;
        },
      )
  unfolding process_payment find_by_id customer_for insert_payment record_result
  process_payment_lem id invoice dto i c r s up found customer fresh answer =
      let row = payment_row id provider.provider_name dto.tenant_id i in
      let t = record s { payments = row ∷ s.payments } in
      let f : find_by_id invoice dto.tenant_id s ≡ (ok i, s) = rw (up, found) refl in
      let g : customer_for provider now dto s ≡ (ok c, s) = rw (customer, customer_for) refl in
      let w : insert_payment row s ≡ (ok tt, t) = ground (arith, up) in
      let written : update (λ (p : Payment). p.id == id) (with_result now r) t.payments
          ≡ with_result now r row ∷ s.payments =
        ground (
          arith,
          eq_refl id,
          update_none (λ (p : Payment). p.id == id) (with_result now r) s.payments fresh,
        ) in
      bind_ok (find_by_id invoice dto.tenant_id)
        (λ i. customer_for provider now dto >>= λ c.
          insert_payment (payment_row id provider.provider_name dto.tenant_id i) >>= λ _.
          charge provider now id dto.tenant_id i c)
        f
      ∙ bind_ok (customer_for provider now dto)
          (λ c. insert_payment row >>= λ _. charge provider now id dto.tenant_id i c) g
      ∙ bind_ok (insert_payment row) (λ _. charge provider now id dto.tenant_id i c) w
      ∙ charged id dto.tenant_id i c r t answer
      ∙ ground (arith, written)

-- The subscription is written without touching an invoice or a payment.
write_subscription_keeps :
    (now : ℕ) (id : String) (dto : Activation) (s : Books)
    → s.up ≡ true
    → (sub : String) × (t : Books) × (write_subscription now id dto s ≡ (ok sub, t))
      × (t.up ≡ true)
      × (t.invoices ≡ s.invoices)
      × (t.payments ≡ s.payments)
unfolding write_subscription
write_subscription_keeps now id dto s up =
    elim (Option-cases (get_active_subscription dto.tenant_id s)) [
      | inl e ↦
          let t = record s { subscriptions = active_row now id dto ∷ s.subscriptions } in
          (id, t, ground (arith, e, up), up, refl, refl)
      | inr (sub, e) ↦
          let t = record s {
            subscriptions =
                update (λ (x : Subscription). x.id == sub.id) (paid_until now dto) s.subscriptions;
          } in
          (sub.id, t, ground (arith, e, up), up, refl, refl)
    ]

-- When some invoice, of whatever tenant, has the number that the next invoice of this tenant gets, the
-- activation of an existing plan ends with an error, with no new invoice and no new payment.
pub activate_subscription_taken :
    (provider : PaymentProvider) (prefix : String → String) (now : ℕ) (ids : NewIds)
    (dto : Activation) (p : Plan) (s : Books)
    → s.up ≡ true
    → find (λ (q : Plan). q.id == dto.plan_id) s.plans ≡ some p
    → any (has_number (generate_invoice_number prefix now dto.tenant_id s)) s.invoices ≡ true
    → let r = activate_subscription provider prefix now ids dto s in
      (r.0 ≡ err (other "Failed to create invoice"))
      × (r.1.invoices ≡ s.invoices)
      × (r.1.payments ≡ s.payments)
unfolding activate_subscription get_plan_by_id invoice_subscription generate_invoice create
    generate_invoice_number
activate_subscription_taken provider prefix now ids dto p s up found taken =
    let (sub, t, w, t_up, same_invoices, same_payments) =
      write_subscription_keeps now ids.subscription dto s up in
    let plan_found : plan_of dto.plan_id s ≡ (ok p, s) = ground (arith, up, found) in
    let input = invoice_input now dto p sub in
    let refused : generate_invoice prefix now ids.invoice input t
        ≡ (err (other "Failed to create invoice"), t) =
      ground (arith, t_up, same_invoices, taken) in
    let e : activate_subscription provider prefix now ids dto s
        ≡ (err (other "Failed to create invoice"), t) =
      bind_ok (plan_of dto.plan_id)
        (λ q. write_subscription now ids.subscription dto >>= λ sub.
          invoice_subscription provider prefix now ids dto q sub >> pure tt)
        plan_found
      ∙ bind_ok (write_subscription now ids.subscription dto)
          (λ sub. invoice_subscription provider prefix now ids dto p sub >> pure tt) w
      ∙ bind_err (invoice_subscription provider prefix now ids dto p sub) (λ _. pure tt)
          (bind_err (generate_invoice prefix now ids.invoice input)
            (λ i. process_payment provider now ids.payment i.id (payer dto)) refused) in
    rw e (refl, same_invoices, same_payments)
