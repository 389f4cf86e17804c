-- ===== src/Billing/PaidPeriods.antt =====
-- Which subscription a tenant has after its activation, whatever becomes of the invoice and the payment.
use mathlib.Core.Path.{subst}
use apiv.Prelude.{
  ◌∷◌, sym, ◌>>◌, ℕ, ◌+◌, ◌*◌, ◌≤◌, String, true, some, ◌==◌, ltb, find, ok, Option-cases, pure,
  ◌>>=◌, ◌≡◌, inl, inr, refl, arith, eq_iff,
}
use apiv.Prelude.Rules.{bind_keeps, bind_ok}
use apiv.Calendar.{day}
use apiv.Calendar.Months.{time_add_months_bounds}
use apiv.Billing.Tables.{Subscription, Plan, Books}
use apiv.Billing.Subscriptions.{get_active_subscription, is_subscription_active, get_plan_by_id}
use apiv.Billing.Expiry.{Below}
use apiv.Billing.Extension.{Key, renewed}
use apiv.Billing.Trial.{begun}
use apiv.Billing.Invoices.{PaymentProvider, NewIds}
use apiv.Billing.Untouched.{Same, invoice_subscription-Same}
use apiv.Billing.Activation.{
  Activation, months_of, period_end, paid_until, active_row, write_subscription, plan_of,
  invoice_subscription, activate_subscription,
}

-- At time `later` the tenant's subscription is of the plan that `dto` asks for, and active just in the
-- period.
abbrev pub IsPaidUntil : ℕ → ℕ → Activation → Books → Type 0
IsPaidUntil now later dto t =
    (sub : Subscription) × (get_active_subscription dto.tenant_id t ≡ some sub)
    × (sub.plan_id ≡ dto.plan_id)
    × (is_subscription_active later dto.tenant_id t ≡ ltb later (period_end now dto.cycle))

written :
    (now later : ℕ) (id : String) (dto : Activation) (s : Books)
    → s.up ≡ true
    → Below dto.tenant_id now s.subscriptions
    → ((sub : Subscription)
        → get_active_subscription dto.tenant_id s ≡ some sub
        → Key sub s.subscriptions)
    → ((sub : String) × ((write_subscription now id dto s).0 ≡ ok sub))
      × IsPaidUntil now later dto (write_subscription now id dto s).1
unfolding write_subscription is_subscription_active
written now later id dto s up b k = elim (Option-cases (get_active_subscription dto.tenant_id s)) [
  | inl e ↦
      let row = active_row now id dto in
      let r = begun dto.tenant_id row s up (ground (arith, eq_iff dto.tenant_id dto.tenant_id)) b in
      let inserted : write_subscription now id dto s
          ≡ (ok id, record s { subscriptions = row ∷ s.subscriptions }) =
        ground (arith, e, up) in
      rw inserted ((id, refl), (row, r, refl, rw (r, is_subscription_active) refl))
  | inr (sub, e) ↦
      let r =
        renewed (paid_until now dto) dto.tenant_id s sub (λ _. refl) (λ h. ground (arith, h)) e
          (k sub e) in
      rw (e, write_subscription)
        ((sub.id, refl), (paid_until now dto sub, r, refl, rw (r, is_subscription_active) refl))
]

-- Invoices and payments do not bear on it.
IsPaidUntil-Same :
    (now later : ℕ) (dto : Activation) (s t : Books)
    → Same s t
    → IsPaidUntil now later dto s
    → IsPaidUntil now later dto t
unfolding is_subscription_active get_active_subscription
IsPaidUntil-Same now later dto s t (e, u) h = rw (e, u) h

-- For a plan that exists, in a database that answers, where no live subscription of the tenant is from
-- the future and the one it lives on shares its id with no other row: whatever the provider answers,
-- and also where the call ends with an error, the tenant is then on the plan, active exactly until the
-- end of the period, and the period has 28 to 31 days for each of its months.
pub activate_subscription-IsPaidUntil :
    (provider : PaymentProvider) (prefix : String → String) (now later : ℕ) (ids : NewIds)
    (dto : Activation) (p : Plan) (s : Books)
    → s.up ≡ true
    → find (λ (q : Plan). q.id == dto.plan_id) s.plans ≡ some p
    → Below dto.tenant_id now s.subscriptions
    → ((sub : Subscription)
        → get_active_subscription dto.tenant_id s ≡ some sub
        → Key sub s.subscriptions)
    → IsPaidUntil now later dto (activate_subscription provider prefix now ids dto s).1
      × (now + 28 * months_of dto.cycle * day ≤ period_end now dto.cycle)
      × (period_end now dto.cycle ≤ now + 31 * months_of dto.cycle * day)
unfolding activate_subscription get_plan_by_id
activate_subscription-IsPaidUntil provider prefix now later ids dto p s up found b k =
    let (w, paid) = written now later ids.subscription dto s up b k in
    let plan_found : plan_of dto.plan_id s ≡ (ok p, s) = ground (arith, up, found) in
    let t = (write_subscription now ids.subscription dto s).1 in
    let P = IsPaidUntil now later dto in
    let rest =
      λ (sub : String). invoice_subscription provider prefix now ids dto p sub >> pure tt in
    (
      subst (λ r. P r.1)
          (sym (
            bind_ok (plan_of dto.plan_id)
              (λ q. write_subscription now ids.subscription dto >>= λ sub.
                invoice_subscription provider prefix now ids dto q sub >> pure tt)
              plan_found))
          (bind_keeps P (write_subscription now ids.subscription dto) rest s (λ _ _. paid)
            (λ sub _.
              let same =
                invoice_subscription-Same provider now prefix ids dto p sub t t (refl, refl) in
              let keeps =
                IsPaidUntil-Same now later dto t
                  (invoice_subscription provider prefix now ids dto p sub t).1 same paid in
              bind_keeps P (invoice_subscription provider prefix now ids dto p sub) (λ _. pure tt) t
                (λ _ _. keeps) (λ _ _. keeps))),
      (time_add_months_bounds (months_of dto.cycle) now).0,
      (time_add_months_bounds (months_of dto.cycle) now).1,
    )
