-- ===== src/Billing/Extension.antt =====
-- What extending a trial and cancelling do to the subscription a tenant lives on.
use mathlib.Core.Path.{subst}
use apiv.Prelude.{
  sym, ℕ, ◌+◌, ◌*◌, String, Bool, true, Option, none, some, List, [], ◌∷◌, ◌==◌, ltb, update, All,
  if◌then◌else◌, ok, ◌≡◌, inl, inr, refl, arith, Option-cases, eq_refl,
}
use apiv.Billing.Tables.{Subscription, Books, day}
use apiv.Billing.Subscriptions.{
  is_live_of, newest, get_active_subscription, is_subscription_active, extended, extend_trial,
  current_end,
}

-- No other row has the id of `x`.
abbrev pub Key : Subscription → List Subscription → Type 0
Key x = All λ (y : Subscription). (y.id == x.id) ≡ true → y ≡ x

abbrev map_some : (Subscription → Subscription) → Option Subscription → Option Subscription
map_some g none = none
map_some g (some y) = some (g y)

newest-update :
    (p q : Subscription → Bool) (g : Subscription → Subscription) (l : List Subscription)
    → ((y : Subscription) → (g y).created_at ≡ y.created_at)
    → All (λ y. q y ≡ true → (p y ≡ true) × (p (g y) ≡ true)) l
    → newest p (update q g l) ≡ map_some (λ y. if q y then g y else y) (newest p l)
newest-update p q g [] c h = refl
newest-update p q g (y ∷ ys) c h = elim (Option-cases (newest p ys)) [
  | inl e ↦ ground (arith, c y, h.0, e, newest-update p q g ys c h.1)
  | inr (z, e) ↦ ground (arith, c y, c z, h.0, e, newest-update p q g ys c h.1)
]

-- The row with the id of `x` is live before and after.
Key-live :
    (tenant : String) (g : Subscription → Subscription) (x : Subscription) (l : List Subscription)
    → is_live_of tenant (g x) ≡ true
    → Key x l
    → is_live_of tenant x ≡ true
    → All
        (λ (y : Subscription).
          (y.id == x.id) ≡ true → (is_live_of tenant y ≡ true) × (is_live_of tenant (g y) ≡ true))
        l
Key-live tenant g x [] stays k h = tt
Key-live tenant g x (y ∷ ys) stays k h = (
  λ e.
      let q = sym (k.0 e) in
      (
        subst (λ z. is_live_of tenant z ≡ true) q h,
        subst (λ z. is_live_of tenant (g z) ≡ true) q stays,
      ),
  Key-live tenant g x ys stays k.1 h,
)

newest-live :
    (tenant : String) (z : Subscription) (l : List Subscription)
    → newest (is_live_of tenant) l ≡ some z
    → is_live_of tenant z ≡ true
newest-live tenant z [] e = absurd (cc e)
newest-live tenant z (x ∷ xs) e = elim (Option-cases (newest (is_live_of tenant) xs)) [
  | inl f ↦ ground (arith, e, f)
  | inr (y, f) ↦ ground (arith, e, f, newest-live tenant y xs f)
]

active-newest :
    (tenant : String) (s : Books) (sub : Subscription)
    → get_active_subscription tenant s ≡ some sub
    → (s.up ≡ true) × (newest (is_live_of tenant) s.subscriptions ≡ some sub)
unfolding get_active_subscription
active-newest tenant s sub e = ground arith

-- A write to the live subscription of a tenant that leaves it live is what is read then.
pub renewed :
    (g : Subscription → Subscription) (tenant : String) (s : Books) (sub : Subscription)
    → ((y : Subscription) → (g y).created_at ≡ y.created_at)
    → (is_live_of tenant sub ≡ true → is_live_of tenant (g sub) ≡ true)
    → get_active_subscription tenant s ≡ some sub
    → Key sub s.subscriptions
    → get_active_subscription tenant (record s {
      subscriptions = update (λ (x : Subscription). x.id == sub.id) g s.subscriptions;
    })
      ≡ some (g sub)
unfolding get_active_subscription
renewed g tenant s sub created stays e k =
    let (up, n) = active-newest tenant s sub e in
    let live = newest-live tenant sub s.subscriptions n in
    ground (
      arith,
      up,
      eq_refl sub.id,
      n,
      newest-update (is_live_of tenant) (λ (x : Subscription). x.id == sub.id) g s.subscriptions
          created (Key-live tenant g sub s.subscriptions (stays live) k live),
    )

-- Where no other row has its id, extending turns the tenant's live subscription, whatever its
-- status, into a trial that ends the given days after its old trial end, or after now if it has
-- none, and from then on that end alone decides whether the tenant is active.
extend_trial_lem :
    (now later : ℕ) (tenant : String) (days : ℕ) (s : Books) (sub : Subscription)
    → get_active_subscription tenant s ≡ some sub
    → Key sub s.subscriptions
    → let ends = current_end now sub.trial_ends_at + days * day in
      let t = (extend_trial now tenant days s).1 in
      ((extend_trial now tenant days s).0 ≡ ok tt)
      × (get_active_subscription tenant t ≡ some (extended ends sub))
      × (is_subscription_active later tenant t ≡ ltb later ends)
unfolding extend_trial is_subscription_active
extend_trial_lem now later tenant days s sub e k =
    let ends = current_end now sub.trial_ends_at + days * day in
    let r = renewed (extended ends) tenant s sub (λ _. refl) (λ h. ground (arith, h)) e k in
    rw (e, extend_trial) (refl, r, rw (r, is_subscription_active) refl)
