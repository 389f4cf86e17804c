-- ===== src/Billing/Dunning.antt =====
-- src/core/billing/dunning/dunning.service.ts. The payment provider is a parameter; `now` is the clock
-- of a pass, and days are of 24 hours.
use apiv.Prelude.{
  ℕ, suc, ◌+◌, ◌*◌, String, Bool, true, false, not, ◌&&◌, Option, none, some, List, [], ◌∷◌, ◌++◌,
  ◌==◌, nat_eq, ltb, leb, filter, find, update, maybe_single, truthy, or_else, add, if◌then◌else◌,
}
use apiv.Billing.Tables.{
  Status, active, past_due, grace_period, suspended, Subscription, Attempt, pending, succeeded,
  failed, exhausted, AttemptStatus, Tenant, Customer, Invoice, InvoiceStatus, open_invoice, Member,
  Charge, Outcome, paid, declined, threw, NotificationType, payment_success, payment_failed,
  subscription_expired, Books, hour, day, dunning_grace_period_days, dunning_max_attempts,
}

abbrev pub is_past_due : Status → Bool
is_past_due past_due = true
is_past_due _ = false

abbrev pub is_grace_period : Status → Bool
is_grace_period grace_period = true
is_grace_period _ = false

abbrev pub is_pending : AttemptStatus → Bool
is_pending pending = true
is_pending _ = false

abbrev pub is_exhausted : AttemptStatus → Bool
is_exhausted exhausted = true
is_exhausted _ = false

-- DUNNING_RETRY_INTERVALS_HOURS[n - 1] ?? 72
abbrev pub retry_hours : ℕ → ℕ
retry_hours n = if nat_eq n 1 then 0 else if nat_eq n 2 then 24 else 72

abbrev is_current_owner : String → Member → Bool
is_current_owner tenant m =
    (m.tenant_id == tenant) && (m.is_owner && (m.is_active && not m.is_deleted))

-- The notification reaches the first active owner; without one nothing is sent.
unfoldable pub notify_tenant_owner : String → NotificationType → Books → Books
notify_tenant_owner tenant kind s = elim (find (is_current_owner tenant) s.members) [
  | none ↦ s
  | some owner ↦ record s { notifications = (owner.id, kind) ∷ s.notifications }
]

abbrev pub into_grace : ℕ → Subscription → Subscription
into_grace ends sub = record sub { status = grace_period; grace_period_ends_at = some ends }

abbrev pub exhaust : Attempt → Attempt
exhaust a = record a { status = exhausted }

abbrev pub is_pending_of : String → Attempt → Bool
is_pending_of sub a = (a.subscription_id == sub) && is_pending a.status

unfoldable pub mark_exhausted : ℕ → String → String → Books → Books
mark_exhausted now sub tenant s =
    let ends = now + dunning_grace_period_days * day in
    notify_tenant_owner tenant subscription_expired (record s {
      subscriptions = update (λ (x : Subscription). x.id == sub) (into_grace ends) s.subscriptions;
      attempts = update (is_pending_of sub) exhaust s.attempts;
    })

-- The greatest attempt number of a subscription, 0 if there is none.
abbrev pub last_attempt_number : String → List Attempt → ℕ
last_attempt_number sub [] = 0
last_attempt_number sub (a ∷ ats) =
    let rest = last_attempt_number sub ats in
    if (a.subscription_id == sub) && ltb rest a.attempt_number then a.attempt_number else rest

abbrev pub scheduled : ℕ → ℕ → String → String → ℕ → Attempt
scheduled id n sub tenant now = record {
  id = id;
  tenant_id = tenant;
  subscription_id = sub;
  attempt_number = n;
  status = pending;
  next_retry_at = now + retry_hours n * hour;
  attempted_at = now;
  billing_invoice_id = none;
  error_message = none;
}

unfoldable pub handle_dunning_for_subscription : ℕ → String → String → Books → Books
handle_dunning_for_subscription now sub tenant s =
    let next = suc (last_attempt_number sub s.attempts) in
    if ltb dunning_max_attempts next then mark_exhausted now sub tenant s else record s {
      attempts = s.attempts ++ scheduled s.next_id next sub tenant now ∷ [];
      next_id = suc s.next_id;
    }

abbrev pub handle_all : ℕ → List Subscription → Books → Books
handle_all now [] s = s
handle_all now (sub ∷ subs) s =
    handle_all now subs (handle_dunning_for_subscription now sub.id sub.tenant_id s)

abbrev pub is_failed_sub : Subscription → Bool
is_failed_sub sub = is_past_due sub.status && not sub.is_deleted

unfoldable pub process_failed_payments : ℕ → Books → Books
process_failed_payments now s =
    if s.up then handle_all now (filter is_failed_sub s.subscriptions) s else s

abbrev pub is_open : InvoiceStatus → Bool
is_open open_invoice = true
is_open _ = false

-- The newest open invoice of a subscription.
abbrev newer : Invoice → Option Invoice → Option Invoice
newer i none = some i
newer i (some j) = if ltb i.created_at j.created_at then some j else some i

abbrev pub newest_open : String → List Invoice → Option Invoice
newest_open sub [] = none
newest_open sub (i ∷ is) =
    let rest = newest_open sub is in
    if (i.subscription_id == sub) && is_open i.status then newer i rest else rest

abbrev unknown_if_null : Option String → String
unknown_if_null none = "unknown"
unknown_if_null (some i) = i

abbrev pub charge_for : Attempt → String → Option Invoice → Charge
charge_for a customer none = record {
  tenant_id = a.tenant_id;
  provider_customer_id = customer;
  invoice_id = unknown_if_null a.billing_invoice_id;
  amount = 0;
  currency = "SAR";
}
charge_for a customer (some i) = record {
  tenant_id = a.tenant_id;
  provider_customer_id = customer;
  invoice_id = i.id;
  amount = i.total_amount;
  currency = i.currency;
}

abbrev pub with_status : AttemptStatus → Option String → Attempt → Attempt
with_status st message a = record a { status = st; error_message = or_else message a.error_message }

abbrev pub set_attempt : ℕ → AttemptStatus → Option String → List Attempt → List Attempt
set_attempt id st message ats =
    update (λ (x : Attempt). nat_eq x.id id) (with_status st message) ats

abbrev pub activated : Subscription → Subscription
activated sub = record sub { status = active }

abbrev message_of : Option String → String
message_of none = "Payment failed"
message_of (some m) = m

-- The `catch` of `retryAttempt`.
unfoldable pub attempt_failed : ℕ → Attempt → String → Books → Books
attempt_failed now a message s =
    let s' =
      notify_tenant_owner a.tenant_id payment_failed
        (record s { attempts = set_attempt a.id failed (some message) s.attempts }) in
    if leb dunning_max_attempts a.attempt_number
    then mark_exhausted now a.subscription_id a.tenant_id s'
    else s'

unfoldable pub attempt_succeeded : Attempt → Books → Books
attempt_succeeded a s = notify_tenant_owner a.tenant_id payment_success (record s {
  attempts = set_attempt a.id succeeded none s.attempts;
  subscriptions =
      update (λ (x : Subscription). x.id == a.subscription_id) activated s.subscriptions;
})

abbrev id_of_customer : Option Customer → Option String
id_of_customer none = none
id_of_customer (some c) = some c.provider_customer_id

abbrev pub customer_of : String → List Customer → Option String
customer_of tenant cs =
    truthy (id_of_customer (maybe_single (filter (λ (c : Customer). c.tenant_id == tenant) cs)))

module _ (create_payment : Charge → Outcome) (now : ℕ) where
  unfoldable pub settle : Attempt → Outcome → Books → Books
  settle a paid s = attempt_succeeded a s
  settle a (declined reason) s = attempt_failed now a (message_of reason) s
  settle a (threw message) s = attempt_failed now a message s

  unfoldable pub retry_attempt : Attempt → Books → Books
  retry_attempt a s = elim (customer_of a.tenant_id s.customers) [
    | none ↦ attempt_failed now a "No billing customer found" s
    | some customer ↦
        let c = charge_for a customer (newest_open a.subscription_id s.invoices) in
        settle a (create_payment c) (record s { charges = c ∷ s.charges })
  ]

  abbrev pub retry_all : List Attempt → Books → Books
  retry_all [] s = s
  retry_all (a ∷ ats) s = retry_all ats (retry_attempt a s)

  abbrev pub is_due : Attempt → Bool
  is_due a = is_pending a.status && leb a.next_retry_at now

  unfoldable pub retry_pending_attempts : Books → Books
  retry_pending_attempts s = if s.up then retry_all (filter is_due s.attempts) s else s

abbrev pub suspend_sub : ℕ → Subscription → Subscription
suspend_sub now sub = record sub { status = suspended; suspended_at = some now }

abbrev pub suspend : Tenant → Tenant
suspend t = record t { is_suspended = true }

unfoldable pub suspend_tenant : ℕ → String → Books → Books
suspend_tenant now tenant s = record s {
  tenants = update (λ (t : Tenant). t.id == tenant) suspend s.tenants;
  subscriptions =
      update (λ (x : Subscription). (x.tenant_id == tenant) && is_grace_period x.status)
        (suspend_sub now) s.subscriptions;
}

abbrev pub suspend_all : ℕ → List String → Books → Books
suspend_all now [] s = s
suspend_all now (t ∷ ts) s = suspend_all now ts (suspend_tenant now t s)

-- `new Set` of the tenants.
abbrev pub tenants_of : List Attempt → List String → List String
tenants_of [] acc = acc
tenants_of (a ∷ ats) acc = tenants_of ats (add a.tenant_id acc)

abbrev pub is_expired : ℕ → Attempt → Bool
is_expired now a =
    is_exhausted a.status && leb (a.attempted_at + dunning_grace_period_days * day) now

unfoldable pub suspend_expired_grace_periods : ℕ → Books → Books
suspend_expired_grace_periods now s =
    if s.up then suspend_all now (tenants_of (filter (is_expired now) s.attempts) []) s else s
