-- ===== src/Billing/Limits.antt =====
-- When a tenant may add a user or a branch.
use apiv.Prelude.{
  ℕ, ◌<◌, String, true, Option, none, some, ◌==◌, length, filter, find, ok, err, other, ◌≡◌, ◌≢◌,
  ◌↔◌, inl, inr, refl, arith, Option-cases,
}
use apiv.Billing.Tables.{Subscription, Plan, Books}
use apiv.Billing.Subscriptions.{
  get_active_subscription, get_plan_by_id, get_plan_limits, check_user_limit, check_branch_limit,
  is_user_of, is_branch_of,
}

-- A count below a limit, or no limit.
abbrev pub Within : Option ℕ → ℕ → Type 0
Within none count = Unit
Within (some limit) count = count < limit

active_up :
    (tenant : String) (s : Books) (sub : Subscription)
    → get_active_subscription tenant s ≡ some sub
    → s.up ≡ true
unfolding get_active_subscription
active_up tenant s sub e = ground arith

get_plan_limits-none :
    (tenant : String) (s : Books)
    → get_active_subscription tenant s ≡ none
    → get_plan_limits tenant s ≡ ok (record { max_users = some 0; max_branches = some 0 })
unfolding get_plan_limits
get_plan_limits-none tenant s e = rw (e, get_plan_limits) refl

get_plan_limits-some :
    (tenant : String) (s : Books) (sub : Subscription)
    → get_active_subscription tenant s ≡ some sub
    → let found = find (λ (p : Plan). p.id == sub.plan_id) s.plans in
      (found ≡ none → get_plan_limits tenant s ≡ err (other "Plan not found"))
      × ((p : Plan)
          → found ≡ some p
          → get_plan_limits tenant s
            ≡ ok (record { max_users = p.max_users; max_branches = p.max_branches }))
unfolding get_plan_limits get_plan_by_id
get_plan_limits-some tenant s sub e =
    let up = active_up tenant s sub e in
    ((λ f. ground (arith, e, f, up)), λ p f. ground (arith, e, f, up))

-- What must hold for a count to be admitted: a live subscription whose plan exists and leaves room.
abbrev pub HasRoom : (Plan → Option ℕ) → ℕ → String → Books → Type 0
HasRoom limit count tenant s =
    (sub : Subscription) × (p : Plan) × (get_active_subscription tenant s ≡ some sub)
    × (find (λ (q : Plan). q.id == sub.plan_id) s.plans ≡ some p)
    × Within (limit p) count

user_limit_room :
    (tenant : String) (s : Books) (sub : Subscription) (p : Plan)
    → get_active_subscription tenant s ≡ some sub
    → find (λ (q : Plan). q.id == sub.plan_id) s.plans ≡ some p
    → check_user_limit tenant s ≡ ok tt
      ↔ Within p.max_users (length (filter (is_user_of tenant) s.members))
unfolding check_user_limit
user_limit_room tenant s sub p e f =
    let l = (get_plan_limits-some tenant s sub e).1 p f in
    let up = active_up tenant s sub e in
    elim (Option-cases p.max_users) [
      | inl unlimited ↦ rw (l, check_user_limit, unlimited) ((λ _. tt), λ _. refl)
      | inr (n, limited) ↦ rw (l, check_user_limit, limited, up) (ground arith)
    ]

branch_limit_room :
    (tenant : String) (s : Books) (sub : Subscription) (p : Plan)
    → get_active_subscription tenant s ≡ some sub
    → find (λ (q : Plan). q.id == sub.plan_id) s.plans ≡ some p
    → check_branch_limit tenant s ≡ ok tt
      ↔ Within p.max_branches (length (filter (is_branch_of tenant) s.branches))
unfolding check_branch_limit
branch_limit_room tenant s sub p e f =
    let l = (get_plan_limits-some tenant s sub e).1 p f in
    let up = active_up tenant s sub e in
    elim (Option-cases p.max_branches) [
      | inl unlimited ↦ rw (l, check_branch_limit, unlimited) ((λ _. tt), λ _. refl)
      | inr (n, limited) ↦ rw (l, check_branch_limit, limited, up) (ground arith)
    ]

-- Without a live subscription, or when its plan is gone, both checks throw.
no_subscription :
    (tenant : String) (s : Books)
    → get_active_subscription tenant s ≡ none
    → (check_user_limit tenant s ≢ ok tt) × (check_branch_limit tenant s ≢ ok tt)
unfolding check_user_limit check_branch_limit
no_subscription tenant s e =
    rw (get_plan_limits-none tenant s e, check_user_limit, check_branch_limit) (ground arith)

no_plan :
    (tenant : String) (s : Books) (sub : Subscription)
    → get_active_subscription tenant s ≡ some sub
    → find (λ (q : Plan). q.id == sub.plan_id) s.plans ≡ none
    → (check_user_limit tenant s ≢ ok tt) × (check_branch_limit tenant s ≢ ok tt)
unfolding check_user_limit check_branch_limit
no_plan tenant s sub e f =
    rw ((get_plan_limits-some tenant s sub e).0 f, check_user_limit, check_branch_limit)
      (ground arith)

-- A user may be added exactly if a live subscription's plan has no limit or one above the count of the
-- tenant's users that are active and not deleted.
check_user_limit_lem :
    (tenant : String) (s : Books)
    → check_user_limit tenant s ≡ ok tt
      ↔ HasRoom (λ p. p.max_users) (length (filter (is_user_of tenant) s.members)) tenant s
check_user_limit_lem tenant s = (
  (λ h. elim (Option-cases (get_active_subscription tenant s)) [
    | inl e ↦ absurd ((no_subscription tenant s e).0 h)
    | inr (sub, e) ↦ elim (Option-cases (find (λ (q : Plan). q.id == sub.plan_id) s.plans)) [
      | inl f ↦ absurd ((no_plan tenant s sub e f).0 h)
      | inr (p, f) ↦ (sub, p, e, f, (user_limit_room tenant s sub p e f).0 h)
    ]
  ]),
  λ (sub, p, e, f, w). (user_limit_room tenant s sub p e f).1 w,
)

-- A branch may be added exactly if a live subscription's plan has no limit or one above the count of the
-- tenant's branches that are active and not deleted.
check_branch_limit_lem :
    (tenant : String) (s : Books)
    → check_branch_limit tenant s ≡ ok tt
      ↔ HasRoom (λ p. p.max_branches) (length (filter (is_branch_of tenant) s.branches)) tenant s
check_branch_limit_lem tenant s = (
  (λ h. elim (Option-cases (get_active_subscription tenant s)) [
    | inl e ↦ absurd ((no_subscription tenant s e).1 h)
    | inr (sub, e) ↦ elim (Option-cases (find (λ (q : Plan). q.id == sub.plan_id) s.plans)) [
      | inl f ↦ absurd ((no_plan tenant s sub e f).1 h)
      | inr (p, f) ↦ (sub, p, e, f, (branch_limit_room tenant s sub p e f).0 h)
    ]
  ]),
  λ (sub, p, e, f, w). (branch_limit_room tenant s sub p e f).1 w,
)
