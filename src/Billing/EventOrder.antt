-- ===== src/Billing/EventOrder.antt =====
-- The order in which Stripe's events arrive decides what an invoice is, and an invoice that an event has
-- voided is not there for the retries of src/core/billing/dunning/dunning.service.ts.
use apiv.Prelude.{
  ℕ, String, Bool, true, false, ◌&&◌, Option, none, some, List, [], ◌∷◌, ◌==◌, update, truthy, All,
  ◌≡◌, refl, arith, eq_iff, inl, inr, Bool-cases, Option-cases,
}
use apiv.Billing.Tables.{Invoice, InvoiceStatus, paid_invoice, void, Books}
use apiv.Billing.Dunning.{is_open}
use apiv.Billing.Invoices.{mark_paid}
use apiv.Billing.Webhook.{
  PaymentIntent, Event, payment_failed, payment_succeeded, subscription_deleted, unhandled,
  void_invoice, handle_payment_failed, handle_payment_succeeded, handle_subscription_deleted,
  handle_event, handle_events,
}

abbrev is_named : String → Option String → Bool
is_named id none = false
is_named id (some i) = i == id

-- The event writes the invoice.
abbrev names : String → Event → Bool
names id (payment_failed o) = is_named id (truthy o.invoice_id)
names id (payment_succeeded o) = is_named id (truthy o.invoice_id)
names id _ = false

abbrev pub AllAre : String → InvoiceStatus → List Invoice → Type 0
AllAre id st = All λ (i : Invoice). (i.id == id) ≡ true → i.status ≡ st

AllAre-update_other :
    (id other : String) (st : InvoiceStatus) (f : Invoice → Invoice) (l : List Invoice)
    → (other == id) ≡ false
    → ((i : Invoice) → (f i).id ≡ i.id)
    → AllAre id st l
    → AllAre id st (update (λ (i : Invoice). i.id == other) f l)
AllAre-update_other id other st f [] ne keeps h = tt
AllAre-update_other id other st f (i ∷ is) ne keeps h = (
  ground (arith, keeps i, h.0, ne, eq_iff i.id other, eq_iff i.id id, eq_iff other id),
  AllAre-update_other id other st f is ne keeps h.1,
)

AllAre-update :
    (id : String) (st : InvoiceStatus) (f : Invoice → Invoice) (l : List Invoice)
    → ((i : Invoice) → (f i).id ≡ i.id)
    → ((i : Invoice) → (f i).status ≡ st)
    → AllAre id st (update (λ (i : Invoice). i.id == id) f l)
AllAre-update id st f [] keeps sets = tt
AllAre-update id st f (i ∷ is) keeps sets =
    (ground (arith, keeps i, sets i), AllAre-update id st f is keeps sets)

handle_event-up : (now : ℕ) (e : Event) (s : Books) → (handle_event now e s).up ≡ s.up
unfolding handle_event handle_payment_failed handle_payment_succeeded handle_subscription_deleted
handle_event-up now (payment_failed o) s = ground arith
handle_event-up now (payment_succeeded o) s = ground arith
handle_event-up now (subscription_deleted t) s = ground arith
handle_event-up now unhandled s = refl

handle_event-AllAre :
    (now : ℕ) (id : String) (st : InvoiceStatus) (e : Event) (s : Books)
    → names id e ≡ false
    → AllAre id st s.invoices
    → AllAre id st (handle_event now e s).invoices
unfolding handle_event handle_payment_failed handle_payment_succeeded handle_subscription_deleted
handle_event-AllAre now id st (payment_failed o) s n h = elim (Bool-cases s.up) [
  | inr e ↦ rw (e, handle_event) h
  | inl e ↦ elim (Option-cases (truthy o.invoice_id)) [
    | inl q ↦ rw (e, handle_event, q, handle_payment_failed) h
    | inr (i, q) ↦
        rw (e, handle_event, q, handle_payment_failed)
          (AllAre-update_other id i st void_invoice s.invoices (ground (arith, n, q)) (λ _. refl) h)
  ]
]
handle_event-AllAre now id st (payment_succeeded o) s n h = elim (Bool-cases s.up) [
  | inr e ↦ rw (e, handle_event) h
  | inl e ↦ elim (Option-cases (truthy o.invoice_id)) [
    | inl q ↦ rw (e, handle_event, q, handle_payment_succeeded) h
    | inr (i, q) ↦
        rw (e, handle_event, q, handle_payment_succeeded)
          (AllAre-update_other id i st (mark_paid now) s.invoices (ground (arith, n, q)) (λ _. refl)
            h)
  ]
]
handle_event-AllAre now id st (subscription_deleted t) s n h = ground (arith, h)
handle_event-AllAre now id st unhandled s n h = h

handle_events-AllAre :
    (id : String) (st : InvoiceStatus) (es : List (ℕ × Event)) (s : Books)
    → All (λ (x : ℕ × Event). names id x.1 ≡ false) es
    → AllAre id st s.invoices
    → AllAre id st (handle_events es s).invoices
handle_events-AllAre id st [] s n h = h
handle_events-AllAre id st ((now, e) ∷ es) s n h =
    handle_events-AllAre id st es (handle_event now e s) n.1
      (handle_event-AllAre now id st e s n.0 h)

-- In any state of a database that answers, an event of a failed payment makes the invoice that it names
-- void, and one of a succeeded payment makes it paid, and so it stays while the events that follow do
-- not name it: an event that is delivered late overrules the ones before.
pub handle_events_last :
    (now : ℕ) (id : String) (o : PaymentIntent) (later : List (ℕ × Event)) (s : Books)
    → s.up ≡ true
    → truthy o.invoice_id ≡ some id
    → All (λ (x : ℕ × Event). names id x.1 ≡ false) later
    → AllAre id void (handle_events ((now, payment_failed o) ∷ later) s).invoices
      × AllAre id paid_invoice (handle_events ((now, payment_succeeded o) ∷ later) s).invoices
unfolding handle_event handle_payment_failed handle_payment_succeeded
handle_events_last now id o later s up named n = (
  handle_events-AllAre id void later (handle_event now (payment_failed o) s) n (
      rw (up, handle_event, named, handle_payment_failed)
        (AllAre-update id void void_invoice s.invoices (λ _. refl) (λ _. refl))),
  handle_events-AllAre id paid_invoice later (handle_event now (payment_succeeded o) s) n (
      rw (up, handle_event, named, handle_payment_succeeded)
        (AllAre-update id paid_invoice (mark_paid now) s.invoices (λ _. refl) (λ _. refl))),
)

-- An open invoice of the subscription has the id.
abbrev OpenAre : String → String → List Invoice → Type 0
OpenAre id sub =
    All
      λ (i : Invoice). ((i.subscription_id == sub) && is_open i.status) ≡ true → (i.id == id) ≡ true
