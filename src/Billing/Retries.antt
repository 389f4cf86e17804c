-- ===== src/Billing/Retries.antt =====
-- What the retrying pass leaves: its charges, the attempts it settles and those that stay pending.
use mathlib.Core.Path.{subst}
use apiv.Prelude.{
  ℕ, suc, ◌+◌, ◌*◌, ◌≤◌, String, true, false, Option, none, some, List, [], ◌∷◌, ◌==◌, nat_eq,
  filter, update, any, All, length, ◌≡◌, ◌≢◌, ◌⊎◌, refl, sym, ◌∙◌, arith, Bool-cases, Option-cases,
  inl, inr,
}
use apiv.Billing.Tables.{
  Subscription, Attempt, AttemptStatus, failed, succeeded, Charge, Outcome, paid, declined, threw,
  Books, NotificationType, day, dunning_grace_period_days,
}
use apiv.Billing.Dunning.{
  notify_tenant_owner, is_pending, into_grace, exhaust, is_pending_of, mark_exhausted, is_due,
  set_attempt, attempt_failed, attempt_succeeded, settle, customer_of, charge_for, newest_open,
  activated, retry_attempt, retry_all, retry_pending_attempts,
}
use apiv.Billing.Schedule.{notify_tenant_owner-Untouched}

-- Each attempt of the second list is one of the first or no longer pending, and those with the id `n`
-- are no longer pending.
abbrev Kept : ℕ → List Attempt → List Attempt → Type 0
Kept n [] [] = Unit
Kept n [] (b ∷ bs) = ⊥
Kept n (a ∷ l) [] = ⊥
Kept n (a ∷ l) (b ∷ bs) =
    (b.id ≡ a.id) × ((is_pending b.status ≡ false) ⊎ ((b ≡ a) × (b.id ≢ n))) × Kept n l bs

set_attempt-Kept :
    (n : ℕ) (st : AttemptStatus) (m : Option String) (l : List Attempt)
    → is_pending st ≡ false
    → Kept n l (set_attempt n st m l)
set_attempt-Kept n st m [] e = tt
set_attempt-Kept n st m (a ∷ l) e = ground (arith, set_attempt-Kept n st m l e)

exhaust-Kept :
    (n : ℕ) (sub : String) (l k : List Attempt)
    → Kept n l k
    → Kept n l (update (is_pending_of sub) exhaust k)
exhaust-Kept n sub [] [] h = tt
exhaust-Kept n sub [] (b ∷ k) h = elim h [ ]
exhaust-Kept n sub (a ∷ l) [] h = elim h [ ]
exhaust-Kept n sub (a ∷ l) (b ∷ k) h = ground (arith, exhaust-Kept n sub l k h.2)

pub mark_exhausted_lem :
    (now : ℕ) (sub tenant : String) (s : Books)
    → let t = mark_exhausted now sub tenant s in
      (t.attempts ≡ update (is_pending_of sub) exhaust s.attempts)
      × (t.charges ≡ s.charges)
      × (t.up ≡ s.up)
unfolding mark_exhausted
mark_exhausted_lem now sub tenant s =
    let marked = record s {
      subscriptions =
          update (λ (x : Subscription). x.id == sub)
            (into_grace (now + dunning_grace_period_days * day)) s.subscriptions;
      attempts = update (is_pending_of sub) exhaust s.attempts;
    } in
    ground
      (arith, notify_tenant_owner-Untouched tenant NotificationType.subscription_expired marked)

-- What settling an attempt may change.
pub record Settled (a : Attempt) (s t : Books) : Type 0 where
  kept : Kept a.id s.attempts t.attempts
  pub charges : t.charges ≡ s.charges
  up : t.up ≡ s.up

attempt_failed-Settled :
    (now : ℕ) (a : Attempt) (message : String) (s : Books)
    → Settled a s (attempt_failed now a message s)
unfolding attempt_failed
attempt_failed-Settled now a message s =
    let l = set_attempt a.id failed (some message) s.attempts in
    let t =
      notify_tenant_owner a.tenant_id NotificationType.payment_failed (record s { attempts = l }) in
    ground (
      arith,
      set_attempt-Kept a.id failed (some message) s.attempts refl,
      exhaust-Kept a.id a.subscription_id s.attempts l
          (set_attempt-Kept a.id failed (some message) s.attempts refl),
      notify_tenant_owner-Untouched a.tenant_id NotificationType.payment_failed
          (record s { attempts = l }),
      mark_exhausted_lem now a.subscription_id a.tenant_id t,
    )

attempt_succeeded-Settled : (a : Attempt) (s : Books) → Settled a s (attempt_succeeded a s)
unfolding attempt_succeeded
attempt_succeeded-Settled a s =
    let l = set_attempt a.id succeeded none s.attempts in
    let paid_up = record s {
      attempts = l;
      subscriptions =
          update (λ (x : Subscription). x.id == a.subscription_id) activated s.subscriptions;
    } in
    ground (
      arith,
      set_attempt-Kept a.id succeeded none s.attempts refl,
      notify_tenant_owner-Untouched a.tenant_id NotificationType.payment_success paid_up,
    )

module _ (create_payment : Charge → Outcome) (now : ℕ) where
  pub settle-Settled :
      (a : Attempt) (o : Outcome) (s : Books) → Settled a s (settle create_payment now a o s)
  unfolding settle
  settle-Settled a paid s = attempt_succeeded-Settled a s
  settle-Settled a (declined reason) s = attempt_failed-Settled now a _ s
  settle-Settled a (threw message) s = attempt_failed-Settled now a message s

  -- A retry keeps the other attempts and makes at most one charge.
  record Retried (a : Attempt) (s t : Books) : Type 0 where
    kept : Kept a.id s.attempts t.attempts
    up : t.up ≡ s.up
    charges : length t.charges ≤ suc (length s.charges)

  retry_attempt-Retried :
      (a : Attempt) (s : Books) → Retried a s (retry_attempt create_payment now a s)
  unfolding retry_attempt
  retry_attempt-Retried a s = elim (Option-cases (customer_of a.tenant_id s.customers)) [
    | inl e ↦
        let x = attempt_failed-Settled now a "No billing customer found" s in
        rw (e, retry_attempt) (ground (arith, x))
    | inr (c, e) ↦
        let charge = charge_for a c (newest_open a.subscription_id s.invoices) in
        let x =
          settle-Settled a (create_payment charge) (record s { charges = charge ∷ s.charges }) in
        rw (e, retry_attempt) (ground (arith, x))
  ]

  -- Every attempt that is due has its id in `l`.
  abbrev Listed : List Attempt → List Attempt → Type 0
  Listed l =
      All λ (x : Attempt). is_due create_payment now x ≡ true → any (λ a. nat_eq a.id x.id) l ≡ true

  Listed-Kept :
      (a : Attempt) (l ats ats' : List Attempt)
      → Kept a.id ats ats'
      → Listed (a ∷ l) ats
      → Listed l ats'
  Listed-Kept a l [] [] k h = tt
  Listed-Kept a l [] (y ∷ ys) k h = elim k [ ]
  Listed-Kept a l (x ∷ xs) [] k h = elim k [ ]
  Listed-Kept a l (x ∷ xs) (y ∷ ys) k h =
      (ground (arith, k.0, k.1, h.0), Listed-Kept a l xs ys k.2 h.1)

  Listed-none : (ats : List Attempt) → Listed [] ats → filter (is_due create_payment now) ats ≡ []
  Listed-none [] h = refl
  Listed-none (a ∷ ats) h = ground (arith, h.0, Listed-none ats h.1)

  Listed-cons : (a : Attempt) (l ats : List Attempt) → Listed l ats → Listed (a ∷ l) ats
  Listed-cons a l [] h = tt
  Listed-cons a l (x ∷ xs) h = (ground (arith, h.0), Listed-cons a l xs h.1)

  nat_eq_refl : (n : ℕ) → nat_eq n n ≡ true
  nat_eq_refl n = ground arith

  Listed-self : (ats : List Attempt) → Listed (filter (is_due create_payment now) ats) ats
  Listed-self [] = tt
  Listed-self (a ∷ ats) =
      let due = filter (is_due create_payment now) ats in
      elim (Bool-cases (is_due create_payment now a)) [
        | inl e ↦
            let kept : filter (is_due create_payment now) (a ∷ ats) ≡ a ∷ due = rw (e) refl in
            subst (λ l. Listed l (a ∷ ats)) (sym kept)
              ((λ _. ground (arith, nat_eq_refl a.id)), Listed-cons a due ats (Listed-self ats))
        | inr e ↦
            let dropped : filter (is_due create_payment now) (a ∷ ats) ≡ due = rw (e) refl in
            subst (λ l. Listed l (a ∷ ats)) (sym dropped)
              ((λ d. absurd (cc (e, d))), Listed-self ats)
      ]

  retry_all_lem :
      (l : List Attempt) (s : Books)
      → Listed l s.attempts
      → let t = retry_all create_payment now l s in
        (filter (is_due create_payment now) t.attempts ≡ [])
        × (length t.charges ≤ length l + length s.charges)
        × (t.up ≡ s.up)
  retry_all_lem [] s h = (Listed-none s.attempts h, omega arith, refl)
  retry_all_lem (a ∷ l) s h =
      let t = retry_attempt create_payment now a s in
      let r = retry_attempt-Retried a s in
      let x = retry_all_lem l t (Listed-Kept a l s.attempts t.attempts r.kept h) in
      (x.0, omega (arith, x.1, r.charges), x.2 ∙ r.up)

  pass_up :
      (s : Books)
      → s.up ≡ true
      → retry_pending_attempts create_payment now s
        ≡ retry_all create_payment now (filter (is_due create_payment now) s.attempts) s
  unfolding retry_pending_attempts
  pass_up s e = ground (arith, e)

  pass_idle :
      (s : Books)
      → filter (is_due create_payment now) s.attempts ≡ []
      → retry_pending_attempts create_payment now s ≡ s
  unfolding retry_pending_attempts
  pass_idle s e = ground (arith, e)

-- When the database answers, a pass charges at most once for each attempt that is due, leaves no attempt
-- due, and a second pass at the same time changes nothing.
pub retry_pending_attempts_lem :
    (create_payment : Charge → Outcome) (now : ℕ) (s : Books)
    → s.up ≡ true
    → let t = retry_pending_attempts create_payment now s in
      (length t.charges ≤ length (filter (is_due create_payment now) s.attempts) + length s.charges)
      × (filter (is_due create_payment now) t.attempts ≡ [])
      × (retry_pending_attempts create_payment now t ≡ t)
retry_pending_attempts_lem create_payment now s e =
    let due = filter (is_due create_payment now) s.attempts in
    let x = retry_all_lem create_payment now due s (Listed-self create_payment now s.attempts) in
    rw (pass_up create_payment now s e)
      (x.1, x.0, pass_idle create_payment now (retry_all create_payment now due s) x.0)
