-- ===== src/Billing/Trial.antt =====
-- How a subscription begins and how it is cancelled.
use apiv.Prelude.{
  ℕ, ◌+◌, ◌*◌, String, true, ◌&&◌, some, List, [], ◌∷◌, ◌==◌, ltb, filter, find, update, All, ok,
  ◌≡◌, ◌≢◌, inl, inr, refl, arith, Option-cases, eq_iff,
}
use apiv.Billing.Tables.{Subscription, Plan, Books, day}
use apiv.Billing.Subscriptions.{
  is_live, is_live_of, newest, get_active_subscription, is_subscription_active, get_plan_by_id,
  trial_row, init_trial_subscription, cancel, cancel_subscription,
}
use apiv.Billing.Expiry.{Below, newest-bound}

-- A new live row is the tenant's subscription where no live one is later.
pub begun :
    (tenant : String) (row : Subscription) (s : Books)
    → s.up ≡ true
    → is_live_of tenant row ≡ true
    → Below tenant row.created_at s.subscriptions
    → get_active_subscription tenant (record s { subscriptions = row ∷ s.subscriptions }) ≡ some row
unfolding get_active_subscription
begun tenant row s up live b = elim (Option-cases (newest (is_live_of tenant) s.subscriptions)) [
  | inl e ↦ ground (arith, up, e, live)
  | inr (z, e) ↦
      ground (arith, up, e, live, newest-bound tenant row.created_at z s.subscriptions b e)
]

-- When the database answers and has the plan, and no live subscription of the tenant is from the future,
-- the new trial is the tenant's subscription, and the tenant is active exactly until the days of the
-- plan are over.
init_trial_subscription_lem :
    (now later : ℕ) (id tenant plan : String) (p : Plan) (s : Books)
    → s.up ≡ true
    → find (λ (q : Plan). q.id == plan) s.plans ≡ some p
    → Below tenant now s.subscriptions
    → let row = trial_row now id tenant plan p.trial_days in
      let t = (init_trial_subscription now id tenant plan s).1 in
      ((init_trial_subscription now id tenant plan s).0 ≡ ok row)
      × (get_active_subscription tenant t ≡ some row)
      × (is_subscription_active later tenant t ≡ ltb later (now + p.trial_days * day))
unfolding init_trial_subscription is_subscription_active get_plan_by_id
init_trial_subscription_lem now later id tenant plan p s up found b =
    let row = trial_row now id tenant plan p.trial_days in
    let r = begun tenant row s up (ground (arith, eq_iff tenant tenant)) b in
    let plan_found : get_plan_by_id plan s ≡ ok p = ground (arith, up, found) in
    rw (plan_found, init_trial_subscription) (refl, r, rw (r, is_subscription_active) refl)

cancelled_rows :
    (now : ℕ) (id : String) (l : List Subscription)
    → filter
        (λ (x : Subscription). (x.id == id) && is_live x.status)
        (update (λ (x : Subscription). x.id == id) (cancel now) l)
      ≡ []
cancelled_rows now id [] = refl
cancelled_rows now id (x ∷ xs) = ground (arith, cancelled_rows now id xs)

newest-cancel_ne :
    (now : ℕ) (id t u : String) (l : List Subscription)
    → All (λ (x : Subscription). (x.id == id) ≡ true → x.tenant_id ≡ t) l
    → t ≢ u
    → newest (is_live_of u) (update (λ (x : Subscription). x.id == id) (cancel now) l)
      ≡ newest (is_live_of u) l
newest-cancel_ne now id t u [] h ne = refl
newest-cancel_ne now id t u (x ∷ xs) h ne =
    ground (arith, h.0, newest-cancel_ne now id t u xs h.1 ne, eq_iff x.tenant_id u)

others_keep :
    (now : ℕ) (id t u : String) (s : Books)
    → All (λ (x : Subscription). (x.id == id) ≡ true → x.tenant_id ≡ t) s.subscriptions
    → t ≢ u
    → get_active_subscription u (record s {
      subscriptions = update (λ (x : Subscription). x.id == id) (cancel now) s.subscriptions;
    })
      ≡ get_active_subscription u s
unfolding get_active_subscription
others_keep now id t u s h ne = ground (arith, newest-cancel_ne now id t u s.subscriptions h ne)

-- For a tenant with a live subscription, where the rows with its id are the tenant's, cancelling
-- returns, leaves no live row with that id, and every other tenant keeps the subscription that it
-- had.
cancel_subscription_lem :
    (now : ℕ) (t u : String) (s : Books) (sub : Subscription)
    → get_active_subscription t s ≡ some sub
    → All (λ (x : Subscription). (x.id == sub.id) ≡ true → x.tenant_id ≡ t) s.subscriptions
    → t ≢ u
    → let s' = (cancel_subscription now t s).1 in
      ((cancel_subscription now t s).0 ≡ ok tt)
      × (filter (λ (x : Subscription). (x.id == sub.id) && is_live x.status) s'.subscriptions ≡ [])
      × (get_active_subscription u s' ≡ get_active_subscription u s)
unfolding cancel_subscription
cancel_subscription_lem now t u s sub e h ne =
    rw (e, cancel_subscription)
      (refl, cancelled_rows now sub.id s.subscriptions, others_keep now sub.id t u s h ne)
