-- ===== src/Billing/Invoices.antt =====
-- src/core/billing/billing-invoice.service.ts with the repositories of invoices, payments and billing
-- customers. The payment provider is a parameter, and so are the id that the database gives to a new
-- row and the prefix of an invoice number (four characters of the tenant's id, in upper case).
use apiv.Prelude.{
  ℕ, suc, ◌+◌, ◌*◌, ◌/◌, String, Bool, true, false, not, ◌&&◌, Option, none, some, ◌∷◌, ◌==◌,
  nat_eq, length, filter, any, update, maybe_single, if◌then◌else◌, Result, ok, err, other, Run,
  ◌>>=◌, pure, modify,
}
use apiv.Calendar.{date_of, day_number, day}
use apiv.Billing.Tables.{
  InvoiceNumber, Invoice, open_invoice, paid_invoice, PaymentStatus, pending, succeeded, Payment,
  Customer, Books,
}

pub record CreateCustomerInput : Type 0 where
  pub tenant_id : String
  pub email : String
  pub name : String

pub record CreatePaymentInput : Type 0 where
  pub tenant_id : String
  pub provider_customer_id : String
  pub invoice_id : String
  pub amount : ℕ
  pub currency : String

pub record CreatePaymentResult : Type 0 where
  pub provider_payment_id : String
  pub status : PaymentStatus
  pub failure_reason : Option String

-- What is left out of the interface is `refundPayment`, which nothing calls.
pub record PaymentProvider : Type 0 where
  pub provider_name : String
  pub create_customer : CreateCustomerInput → Result String
  pub create_payment : CreatePaymentInput → Result CreatePaymentResult

pub record GenerateInvoiceInput : Type 0 where
  pub tenant_id : String
  pub subscription_id : String
  pub plan_name : String
  pub plan_price : ℕ
  pub currency : String
  pub period_start : ℕ
  pub period_end : ℕ

-- The ids of new rows.
pub record NewIds : Type 0 where
  pub subscription : String
  pub invoice : String
  pub payment : String

-- `getFullYear`
abbrev pub year_of : ℕ → ℕ
year_of time = 1970 + (date_of (day_number time)).month / 12

abbrev pub is_invoice_of : String → Invoice → Bool
is_invoice_of tenant i = i.tenant_id == tenant

unfoldable pub generate_invoice_number : (String → String) → ℕ → String → Books → InvoiceNumber
generate_invoice_number prefix now tenant s = record {
  prefix = prefix tenant;
  year = year_of now;
  seq = suc (length (filter (is_invoice_of tenant) s.invoices));
}

abbrev pub same_number : InvoiceNumber → InvoiceNumber → Bool
same_number a b = (a.prefix == b.prefix) && (nat_eq a.year b.year && nat_eq a.seq b.seq)

abbrev pub has_number : InvoiceNumber → Invoice → Bool
has_number n i = same_number i.invoice_number n

-- The invoice that `create` inserts for `generateInvoice`.
abbrev pub invoice_row : ℕ → String → InvoiceNumber → GenerateInvoiceInput → Invoice
invoice_row now id number dto = record {
  id = id;
  tenant_id = dto.tenant_id;
  subscription_id = dto.subscription_id;
  invoice_number = number;
  status = open_invoice;
  total_amount = dto.plan_price;
  currency = dto.currency;
  period_start = some dto.period_start;
  period_end = some dto.period_end;
  due_at = some (dto.period_end + 7 * day);
  paid_at = none;
  created_at = now;
}

-- An invoice and its one item. A number that is taken violates UNIQUE.
unfoldable pub create : ℕ → String → InvoiceNumber → GenerateInvoiceInput → Run Books Invoice
create now id number dto s =
    let row = invoice_row now id number dto in
    if s.up && not (any (has_number number) s.invoices)
    then (
      ok row,
      record s {
        invoices = row ∷ s.invoices;
        invoice_items =
            record {
              invoice_id = id;
              plan_name = dto.plan_name;
              quantity = 1;
              unit_price = dto.plan_price;
              amount = dto.plan_price;
            }
            ∷ s.invoice_items;
      },
    )
    else (err (other "Failed to create invoice"), s)

unfoldable pub generate_invoice :
    (String → String) → ℕ → String → GenerateInvoiceInput → Run Books Invoice
generate_invoice prefix now id dto s =
    create now id (generate_invoice_number prefix now dto.tenant_id s) dto s

abbrev pub is_invoice : String → String → Invoice → Bool
is_invoice id tenant i = (i.id == id) && (i.tenant_id == tenant)

abbrev found_invoice : Option Invoice → Result Invoice
found_invoice none = err (other "Invoice not found")
found_invoice (some i) = ok i

unfoldable pub find_by_id : String → String → Run Books Invoice
find_by_id id tenant s = (
  found_invoice (if s.up then maybe_single (filter (is_invoice id tenant) s.invoices) else none),
  s,
)

abbrev pub mark_paid : ℕ → Invoice → Invoice
mark_paid now i = record i { status = paid_invoice; paid_at = some now }

abbrev pub is_customer : String → String → Customer → Bool
is_customer tenant provider c = (c.tenant_id == tenant) && (c.provider == provider)

unfoldable pub find_by_tenant : String → String → Books → Option Customer
find_by_tenant tenant provider s =
    if s.up then maybe_single (filter (is_customer tenant provider) s.customers) else none

-- A second customer of a tenant with the provider violates UNIQUE.
unfoldable pub create_billing_customer : Customer → Run Books Customer
create_billing_customer c s =
    if s.up && not (any (is_customer c.tenant_id c.provider) s.customers)
    then (ok c, record s { customers = c ∷ s.customers })
    else (err (other "Failed to create billing customer"), s)

abbrev pub payment_row : String → String → String → Invoice → Payment
payment_row id provider tenant i = record {
  id = id;
  tenant_id = tenant;
  invoice_id = i.id;
  provider = provider;
  provider_payment_id = none;
  amount = i.total_amount;
  currency = i.currency;
  status = pending;
  paid_at = none;
  failure_reason = none;
}

abbrev pub is_succeeded : PaymentStatus → Bool
is_succeeded succeeded = true
is_succeeded _ = false

-- `updateStatus` with the provider's answer.
abbrev pub with_result : ℕ → CreatePaymentResult → Payment → Payment
with_result now r p = record p {
  status = r.status;
  provider_payment_id = some r.provider_payment_id;
  failure_reason = r.failure_reason;
  paid_at = if is_succeeded r.status then some now else none;
}

unfoldable pub insert_payment : Payment → Run Books (Unit {0})
insert_payment p s =
    if s.up
    then (ok tt, record s { payments = p ∷ s.payments })
    else (err (other "Failed to create payment"), s)

-- The answer is stored in the payment, and the invoice of a payment that succeeded is paid.
unfoldable pub record_result : ℕ → String → String → CreatePaymentResult → Books → Books
record_result now payment invoice r s = record s {
  payments = update (λ (p : Payment). p.id == payment) (with_result now r) s.payments;
  invoices =
      if is_succeeded r.status
      then update (λ (i : Invoice). i.id == invoice) (mark_paid now) s.invoices
      else s.invoices;
}

abbrev pub provider_call : {A : Type 0} → Result A → Run Books A
provider_call r s = (r, s)

abbrev pub payment_input : String → Invoice → Customer → CreatePaymentInput
payment_input tenant i c = record {
  tenant_id = tenant;
  provider_customer_id = c.provider_customer_id;
  invoice_id = i.id;
  amount = i.total_amount;
  currency = i.currency;
}

abbrev pub customer_row : String → CreateCustomerInput → String → Customer
customer_row provider dto id = record {
  tenant_id = dto.tenant_id;
  provider = provider;
  provider_customer_id = id;
  email = dto.email;
}

module _ (provider : PaymentProvider) (now : ℕ) where
  unfoldable pub customer_for : CreateCustomerInput → Run Books Customer
  customer_for dto s = elim (find_by_tenant dto.tenant_id provider.provider_name s) [
    | some c ↦ (ok c, s)
    | none ↦
        (provider_call (provider.create_customer dto) >>= λ id.
        create_billing_customer (customer_row provider.provider_name dto id))
          s
  ]

  -- `createPayment` and what follows it, for a payment that is inserted.
  unfoldable pub charge : String → String → Invoice → Customer → Run Books CreatePaymentResult
  charge id tenant i c = provider_call (provider.create_payment (payment_input tenant i c)) >>= λ r.
      modify (record_result now id i.id r) >>= λ _. pure r

  unfoldable pub process_payment :
      String → String → CreateCustomerInput → Run Books CreatePaymentResult
  process_payment id invoice dto = find_by_id invoice dto.tenant_id >>= λ i.
      customer_for dto >>= λ c.
      insert_payment (payment_row id provider.provider_name dto.tenant_id i) >>= λ _.
      charge id dto.tenant_id i c
