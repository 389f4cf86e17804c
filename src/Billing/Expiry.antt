-- ===== src/Billing/Expiry.antt =====
-- What expiry, extension and cancellation do to the subscription a tenant lives on.
use apiv.Prelude.{
  ℕ, ◌≤◌, String, Bool, true, false, ◌&&◌, none, some, List, [], ◌∷◌, filter, update, All, ◌≡◌, ◌⊎◌,
  inl, inr, refl, arith, Option-cases,
}
use apiv.Billing.Tables.{Subscription, Books}
use apiv.Billing.Subscriptions.{
  is_trial, is_grace, is_live, is_live_of, newest, get_active_subscription, is_current,
  is_subscription_active, is_past, suspend_row, handle_subscription_expiry,
}

-- Each row of the second list is that of the first, or no longer live where that was not current.
abbrev Swept : ℕ → List Subscription → List Subscription → Type 0
Swept now [] [] = Unit
Swept now [] (y ∷ ys) = ⊥
Swept now (x ∷ xs) [] = ⊥
Swept now (x ∷ xs) (y ∷ ys) =
    ((y ≡ x) ⊎ ((is_live y.status ≡ false) × (is_current now x.status x ≡ false))) × Swept now xs ys

abbrev sweep : ℕ → List Subscription → List Subscription
sweep now l =
    update (λ (x : Subscription). is_grace x.status && is_past now x.grace_period_ends_at)
      (suspend_row now)
      (update (λ (x : Subscription). is_trial x.status && is_past now x.trial_ends_at)
        (suspend_row now) l)

sweep-Swept : (now : ℕ) (l : List Subscription) → Swept now l (sweep now l)
sweep-Swept now [] = tt
sweep-Swept now (x ∷ xs) = (ground arith, sweep-Swept now xs)

-- Every live row of the tenant was created by `m`.
abbrev pub Below : String → ℕ → List Subscription → Type 0
Below tenant m = All λ (y : Subscription). is_live_of tenant y ≡ true → y.created_at ≤ m

Below-mono :
    (tenant : String) (m n : ℕ) (l : List Subscription)
    → m ≤ n
    → Below tenant m l
    → Below tenant n l
Below-mono tenant m n [] h b = tt
Below-mono tenant m n (x ∷ xs) h b = (ground (arith, b.0), Below-mono tenant m n xs h b.1)

newest-none :
    (now : ℕ) (tenant : String) (l k : List Subscription)
    → Swept now l k
    → newest (is_live_of tenant) l ≡ none
    → newest (is_live_of tenant) k ≡ none
newest-none now tenant [] [] w e = refl
newest-none now tenant [] (y ∷ ys) w e = elim w [ ]
newest-none now tenant (x ∷ xs) [] w e = elim w [ ]
newest-none now tenant (x ∷ xs) (y ∷ ys) w e = ground (arith, w.0, newest-none now tenant xs ys w.1)

Below-Swept :
    (now : ℕ) (tenant : String) (m : ℕ) (l k : List Subscription)
    → Swept now l k
    → Below tenant m l
    → Below tenant m k
Below-Swept now tenant m [] [] w b = tt
Below-Swept now tenant m [] (y ∷ ys) w b = elim w [ ]
Below-Swept now tenant m (x ∷ xs) [] w b = tt
Below-Swept now tenant m (x ∷ xs) (y ∷ ys) w b =
    (ground (arith, w.0, b.0), Below-Swept now tenant m xs ys w.1 b.1)

none-Below :
    (tenant : String) (m : ℕ) (l : List Subscription)
    → newest (is_live_of tenant) l ≡ none
    → Below tenant m l
none-Below tenant m [] e = tt
none-Below tenant m (x ∷ xs) e = elim (Option-cases (newest (is_live_of tenant) xs)) [
  | inl f ↦ (ground (arith, e, f), none-Below tenant m xs f)
  | inr (z, f) ↦ ground (arith, e, f)
]

newest-Below :
    (tenant : String) (z : Subscription) (l : List Subscription)
    → newest (is_live_of tenant) l ≡ some z
    → Below tenant z.created_at l
newest-Below tenant z [] e = tt
newest-Below tenant z (x ∷ xs) e = elim (Option-cases (newest (is_live_of tenant) xs)) [
  | inl f ↦ (ground (arith, e, f), none-Below tenant z.created_at xs f)
  | inr (y, f) ↦
      let le : y.created_at ≤ z.created_at = ground (arith, e, f) in
      (
        ground (arith, e, f),
        Below-mono tenant y.created_at z.created_at xs le (newest-Below tenant y xs f),
      )
]

pub newest-bound :
    (tenant : String) (m : ℕ) (z : Subscription) (l : List Subscription)
    → Below tenant m l
    → newest (is_live_of tenant) l ≡ some z
    → z.created_at ≤ m
newest-bound tenant m z [] b e = absurd (cc e)
newest-bound tenant m z (x ∷ xs) b e = elim (Option-cases (newest (is_live_of tenant) xs)) [
  | inl f ↦ ground (arith, e, f, b.0)
  | inr (y, f) ↦ ground (arith, e, f, b.0, newest-bound tenant m y xs b.1 f)
]

newest-Swept :
    (now : ℕ) (tenant : String) (z : Subscription) (l k : List Subscription)
    → Swept now l k
    → newest (is_live_of tenant) l ≡ some z
    → is_current now z.status z ≡ true
    → newest (is_live_of tenant) k ≡ some z
newest-Swept now tenant z [] [] w e c = absurd (cc e)
newest-Swept now tenant z [] (y ∷ ys) w e c = elim w [ ]
newest-Swept now tenant z (x ∷ xs) [] w e c = elim w [ ]
newest-Swept now tenant z (x ∷ xs) (y ∷ ys) w e c =
    elim (Option-cases (newest (is_live_of tenant) xs)) [
      | inl f ↦ ground (arith, e, f, w.0, c, newest-none now tenant xs ys w.1 f)
      | inr (u, f) ↦ elim (Option-cases (newest (is_live_of tenant) ys)) [
        | inl g ↦ ground (arith, e, f, g, w.0, c, newest-Swept now tenant u xs ys w.1 f)
        | inr (v, g) ↦
            let le =
              newest-bound tenant u.created_at v ys
                (Below-Swept now tenant u.created_at xs ys w.1 (newest-Below tenant u xs f)) g in
            ground (arith, e, f, g, w.0, c, le, newest-Swept now tenant u xs ys w.1 f)
      ]
    ]

-- The expiry pass never ends the subscription of a tenant that has a current one: whoever is active at
-- the time of the pass is active after it.
pub handle_subscription_expiry_keeps_active :
    (now : ℕ) (tenant : String) (s : Books)
    → is_subscription_active now tenant s ≡ true
    → is_subscription_active now tenant (handle_subscription_expiry now s) ≡ true
unfolding is_subscription_active get_active_subscription handle_subscription_expiry
handle_subscription_expiry_keeps_active now tenant s c =
    elim (Option-cases (newest (is_live_of tenant) s.subscriptions)) [
      | inl f ↦ ground (arith, f, c)
      | inr (z, f) ↦
          let current : is_current now z.status z ≡ true = ground (arith, f, c) in
          ground (
            arith,
            c,
            f,
            newest-Swept now tenant z s.subscriptions (sweep now s.subscriptions)
                (sweep-Swept now s.subscriptions) f current,
          )
    ]

abbrev pub overdue_trial : ℕ → Subscription → Bool
overdue_trial now x = is_trial x.status && is_past now x.trial_ends_at

abbrev pub overdue_grace : ℕ → Subscription → Bool
overdue_grace now x = is_grace x.status && is_past now x.grace_period_ends_at

sweep-overdue :
    (now : ℕ) (l : List Subscription)
    → (filter (overdue_trial now) (sweep now l) ≡ [])
      × (filter (overdue_grace now) (sweep now l) ≡ [])
sweep-overdue now [] = (refl, refl)
sweep-overdue now (x ∷ xs) = ground (arith, sweep-overdue now xs)

-- If the database answers, no trial and no grace period whose end has passed is left after the pass.
handle_subscription_expiry_none_overdue :
    (now : ℕ) (s : Books)
    → s.up ≡ true
    → let t = handle_subscription_expiry now s in
      (filter (overdue_trial now) t.subscriptions ≡ [])
      × (filter (overdue_grace now) t.subscriptions ≡ [])
unfolding handle_subscription_expiry
handle_subscription_expiry_none_overdue now s e =
    ground (arith, e, sweep-overdue now s.subscriptions)
