-- ===== src/Billing/Schedule.antt =====
-- What the scheduling pass does to the attempts of a subscription.
use apiv.Prelude.{
  ◌∙◌, filter, ℕ, suc, ◌+◌, ◌*◌, ◌≤◌, ◌<◌, String, List, [], ◌∷◌, ◌++◌, ◌==◌, update, ◌≡◌, refl,
  arith, eq_iff,
}
use apiv.Billing.Tables.{
  Subscription, Attempt, NotificationType, Books, day, dunning_max_attempts,
  dunning_grace_period_days,
}
use apiv.Billing.Dunning.{
  handle_all, is_failed_sub, process_failed_payments, notify_tenant_owner, into_grace, exhaust,
  is_pending_of, mark_exhausted, last_attempt_number, scheduled, handle_dunning_for_subscription,
}

-- Notifying an owner writes no table.
pub record Untouched (s t : Books) : Type 0 where
  pub subscriptions : t.subscriptions ≡ s.subscriptions
  pub attempts : t.attempts ≡ s.attempts
  pub tenants : t.tenants ≡ s.tenants
  pub charges : t.charges ≡ s.charges
  pub up : t.up ≡ s.up

pub notify_tenant_owner-Untouched :
    (tenant : String) (kind : NotificationType) (s : Books)
    → Untouched s (notify_tenant_owner tenant kind s)
unfolding notify_tenant_owner
notify_tenant_owner-Untouched tenant kind s = ground arith

last_attempt_number-append :
    (sub : String) (l : List Attempt) (a : Attempt)
    → a.subscription_id ≡ sub
    → last_attempt_number sub l < a.attempt_number
    → last_attempt_number sub (l ++ a ∷ []) ≡ a.attempt_number
last_attempt_number-append sub [] a e h = ground (arith, eq_iff a.subscription_id sub)
last_attempt_number-append sub (b ∷ l) a e h =
    ground (arith, last_attempt_number-append sub l a e, eq_iff a.subscription_id sub)

-- A pass by cases: below the limit it adds one pending attempt, numbered next and due after its interval; at the
-- limit it puts the subscription into its grace period and gives up what is still pending.
pub handle_dunning_lem :
    (now : ℕ) (sub tenant : String) (s : Books)
    → let n = last_attempt_number sub s.attempts in
      let t = handle_dunning_for_subscription now sub tenant s in
      (n < dunning_max_attempts
        → (t.attempts ≡ s.attempts ++ scheduled s.next_id (suc n) sub tenant now ∷ [])
          × (last_attempt_number sub t.attempts ≡ suc n)
          × (t.subscriptions ≡ s.subscriptions)
          × (t.charges ≡ s.charges))
      × (dunning_max_attempts ≤ n
          → (t.attempts ≡ update (is_pending_of sub) exhaust s.attempts)
            × (t.subscriptions
                ≡ update
                    (λ (x : Subscription). x.id == sub)
                    (into_grace (now + dunning_grace_period_days * day))
                    s.subscriptions)
            × (t.charges ≡ s.charges))
unfolding handle_dunning_for_subscription mark_exhausted
handle_dunning_lem now sub tenant s =
    let n = last_attempt_number sub s.attempts in
    let marked = record s {
      subscriptions =
          update (λ (x : Subscription). x.id == sub)
            (into_grace (now + dunning_grace_period_days * day)) s.subscriptions;
      attempts = update (is_pending_of sub) exhaust s.attempts;
    } in
    ground (
      arith,
      last_attempt_number-append sub s.attempts (scheduled s.next_id (suc n) sub tenant now) refl,
      notify_tenant_owner-Untouched tenant NotificationType.subscription_expired marked,
    )

-- Below the limit a pass adds one pending attempt, numbered next and due after its interval, and touches
-- neither the subscriptions nor the provider.
handle_dunning_schedules :
    (now : ℕ) (sub tenant : String) (s : Books)
    → last_attempt_number sub s.attempts < dunning_max_attempts
    → let n = last_attempt_number sub s.attempts in
      let t = handle_dunning_for_subscription now sub tenant s in
      (t.attempts ≡ s.attempts ++ scheduled s.next_id (suc n) sub tenant now ∷ [])
      × (last_attempt_number sub t.attempts ≡ suc n)
      × (t.subscriptions ≡ s.subscriptions)
      × (t.charges ≡ s.charges)
handle_dunning_schedules now sub tenant s h = (handle_dunning_lem now sub tenant s).0 h

handle_dunning_quiet :
    (now : ℕ) (sub tenant : String) (s : Books)
    → let t = handle_dunning_for_subscription now sub tenant s in
      (t.charges ≡ s.charges) × (t.tenants ≡ s.tenants)
unfolding handle_dunning_for_subscription mark_exhausted
handle_dunning_quiet now sub tenant s =
    let marked = record s {
      subscriptions =
          update (λ (x : Subscription). x.id == sub)
            (into_grace (now + dunning_grace_period_days * day)) s.subscriptions;
      attempts = update (is_pending_of sub) exhaust s.attempts;
    } in
    ground
      (arith, notify_tenant_owner-Untouched tenant NotificationType.subscription_expired marked)

handle_all_quiet :
    (now : ℕ) (subs : List Subscription) (s : Books)
    → ((handle_all now subs s).charges ≡ s.charges) × ((handle_all now subs s).tenants ≡ s.tenants)
handle_all_quiet now [] s = (refl, refl)
handle_all_quiet now (x ∷ xs) s =
    let first = handle_dunning_quiet now x.id x.tenant_id s in
    let rest = handle_all_quiet now xs (handle_dunning_for_subscription now x.id x.tenant_id s) in
    (rest.0 ∙ first.0, rest.1 ∙ first.1)

-- A scheduling pass over all subscriptions charges nobody and suspends no tenant.
process_failed_payments_quiet :
    (now : ℕ) (s : Books)
    → let t = process_failed_payments now s in (t.charges ≡ s.charges) × (t.tenants ≡ s.tenants)
unfolding process_failed_payments
process_failed_payments_quiet now s =
    ground (arith, handle_all_quiet now (filter is_failed_sub s.subscriptions) s)
