-- ===== src/Billing/Subscriptions.antt =====
-- src/core/billing/billing.service.ts: the subscription a tenant lives on, its limits and its expiry.
-- `activateSubscription` is in Activation; `getActivePlans` is not modelled.
use apiv.Prelude.{
  ℕ, ◌+◌, ◌*◌, String, Bool, true, false, not, ◌&&◌, Option, none, some, List, [], ◌∷◌, ◌==◌, ltb,
  leb, length, filter, find, update, any, if◌then◌else◌, Result, ok, err, Error, forbidden,
  not_found, other,
}
use apiv.Billing.Tables.{
  Status, trial, active, grace_period, suspended, cancelled, monthly, Subscription, Plan, Member,
  Branch, Books, day,
}

abbrev pub is_trial : Status → Bool
is_trial trial = true
is_trial _ = false

-- in ('trial', 'active', 'grace_period')
abbrev pub is_live : Status → Bool
is_live trial = true
is_live active = true
is_live grace_period = true
is_live _ = false

abbrev pub is_live_of : String → Subscription → Bool
is_live_of tenant x = (x.tenant_id == tenant) && is_live x.status

-- The first of the rows with the greatest creation time, as `order … limit 1`.
abbrev newer : Subscription → Option Subscription → Option Subscription
newer x none = some x
newer x (some y) = if ltb x.created_at y.created_at then some y else some x

abbrev pub newest : (Subscription → Bool) → List Subscription → Option Subscription
newest p [] = none
newest p (x ∷ xs) = let rest = newest p xs in if p x then newer x rest else rest

unfoldable pub get_active_subscription : String → Books → Option Subscription
get_active_subscription tenant s = if s.up then newest (is_live_of tenant) s.subscriptions else none

-- `if (!end) return unset; return end > now`
abbrev pub is_after : Bool → Option ℕ → ℕ → Bool
is_after unset none now = unset
is_after unset (some ends) now = ltb now ends

abbrev pub is_current : ℕ → Status → Subscription → Bool
is_current now trial x = is_after true x.trial_ends_at now
is_current now active x = is_after true x.current_period_end now
is_current now grace_period x = is_after false x.grace_period_ends_at now
is_current now _ x = false

abbrev is_some_current : ℕ → Option Subscription → Bool
is_some_current now none = false
is_some_current now (some x) = is_current now x.status x

unfoldable pub is_subscription_active : ℕ → String → Books → Bool
is_subscription_active now tenant s = is_some_current now (get_active_subscription tenant s)

abbrev plan_result : Option Plan → Result Plan
plan_result none = err (other "Plan not found")
plan_result (some p) = ok p

unfoldable pub get_plan_by_id : String → Books → Result Plan
get_plan_by_id id s = plan_result (if s.up then find (λ (p : Plan). p.id == id) s.plans else none)

-- A limit is `none` where the source has -1.
pub record PlanLimits : Type 0 where
  pub max_users : Option ℕ
  pub max_branches : Option ℕ

abbrev pub limits_of : Result Plan → Result PlanLimits
limits_of (err e) = err e
limits_of (ok p) = ok (record { max_users = p.max_users; max_branches = p.max_branches })

unfoldable pub get_plan_limits : String → Books → Result PlanLimits
get_plan_limits tenant s = elim (get_active_subscription tenant s) [
  | none ↦ ok (record { max_users = some 0; max_branches = some 0 })
  | some sub ↦ limits_of (get_plan_by_id sub.plan_id s)
]

abbrev pub is_user_of : String → Member → Bool
is_user_of tenant m = (m.tenant_id == tenant) && (not m.is_deleted && m.is_active)

abbrev pub is_branch_of : String → Branch → Bool
is_branch_of tenant b = (b.tenant_id == tenant) && (not b.is_deleted && b.is_active)

-- A count that has reached its limit is refused; an error is thrown if the count cannot be read.
abbrev check_limit : Error → Bool → Option ℕ → ℕ → Result (Unit {0})
check_limit e up none count = ok tt
check_limit e up (some limit) count =
    if up then (if leb limit count then err e else ok tt) else err (other "count failed")

-- The limit that the message names is left out of it.
unfoldable pub check_user_limit : String → Books → Result (Unit {0})
check_user_limit tenant s = elim (get_plan_limits tenant s) [
  | err e ↦ err e
  | ok limits ↦
      check_limit (forbidden "User limit reached") s.up limits.max_users
        (length (filter (is_user_of tenant) s.members))
]

unfoldable pub check_branch_limit : String → Books → Result (Unit {0})
check_branch_limit tenant s = elim (get_plan_limits tenant s) [
  | err e ↦ err e
  | ok limits ↦
      check_limit (forbidden "Branch limit reached") s.up limits.max_branches
        (length (filter (is_branch_of tenant) s.branches))
]

-- The row that `initTrialSubscription` inserts; the database chooses `id`.
abbrev pub trial_row : ℕ → String → String → String → ℕ → Subscription
trial_row now id tenant plan days = record {
  id = id;
  tenant_id = tenant;
  plan_id = plan;
  status = trial;
  billing_cycle = monthly;
  is_deleted = false;
  created_at = now;
  trial_ends_at = some (now + days * day);
  current_period_start = none;
  current_period_end = none;
  grace_period_ends_at = none;
  suspended_at = none;
  cancelled_at = none;
}

unfoldable pub init_trial_subscription :
    ℕ → String → String → String → Books → Result Subscription × Books
init_trial_subscription now id tenant plan s = elim (get_plan_by_id plan s) [
  | err e ↦ (err e, s)
  | ok p ↦
      let row = trial_row now id tenant plan p.trial_days in
      (ok row, record s { subscriptions = row ∷ s.subscriptions })
]

abbrev pub current_end : ℕ → Option ℕ → ℕ
current_end now none = now
current_end now (some e) = e

abbrev pub extended : ℕ → Subscription → Subscription
extended ends x = record x { trial_ends_at = some ends; status = trial }

unfoldable pub extend_trial : ℕ → String → ℕ → Books → Result (Unit {0}) × Books
extend_trial now tenant days s = elim (get_active_subscription tenant s) [
  | none ↦ (err (other "No active subscription found"), s)
  | some sub ↦
      let ends = current_end now sub.trial_ends_at + days * day in
      (
        ok tt,
        record s {
          subscriptions =
              update (λ (x : Subscription). x.id == sub.id) (extended ends) s.subscriptions;
        },
      )
]

abbrev pub cancel : ℕ → Subscription → Subscription
cancel now x = record x { status = cancelled; cancelled_at = some now }

unfoldable pub cancel_subscription : ℕ → String → Books → Result (Unit {0}) × Books
cancel_subscription now tenant s = elim (get_active_subscription tenant s) [
  | none ↦ (err (other "No active subscription"), s)
  | some sub ↦ (
    ok tt,
    record s {
      subscriptions = update (λ (x : Subscription). x.id == sub.id) (cancel now) s.subscriptions;
    },
  )
]

unfoldable pub cancel_subscription_by_id : ℕ → String → Books → Result (Unit {0}) × Books
cancel_subscription_by_id now id s =
    if s.up
    then if any (λ (x : Subscription). x.id == id) s.subscriptions
      then (
        ok tt,
        record s {
          subscriptions = update (λ (x : Subscription). x.id == id) (cancel now) s.subscriptions;
        },
      )
      else (err (not_found "Subscription not found"), s)
    else (err (other "update failed"), s)

abbrev pub suspend_row : ℕ → Subscription → Subscription
suspend_row now x = record x { status = suspended; suspended_at = some now }

-- `lt` on a column: null is never less.
abbrev pub is_past : ℕ → Option ℕ → Bool
is_past now none = false
is_past now (some ends) = ltb ends now

abbrev pub is_grace : Status → Bool
is_grace grace_period = true
is_grace _ = false

unfoldable pub handle_subscription_expiry : ℕ → Books → Books
handle_subscription_expiry now s =
    if s.up
    then record s {
      subscriptions =
          update (λ (x : Subscription). is_grace x.status && is_past now x.grace_period_ends_at)
            (suspend_row now)
            (update (λ (x : Subscription). is_trial x.status && is_past now x.trial_ends_at)
              (suspend_row now) s.subscriptions);
    }
    else s
