-- ===== src/Billing/Grace.antt =====
-- How a subscription reaches its grace period, and what ends it.
use apiv.Prelude.{
  ℕ, ◌+◌, ◌*◌, ◌≤◌, String, true, false, Option, some, List, [], ◌∷◌, ◌==◌, filter, update, any,
  All, ◌≡◌, refl, ap, ◌∙◌, arith,
}
use apiv.Billing.Tables.{
  Subscription, Attempt, failed, Books, NotificationType, day, dunning_max_attempts,
  dunning_grace_period_days,
}
use apiv.Billing.Dunning.{
  notify_tenant_owner, is_exhausted, is_expired, is_pending_of, exhaust, set_attempt,
  attempt_failed, into_grace, last_attempt_number, handle_dunning_for_subscription,
  suspend_expired_grace_periods,
}
use apiv.Billing.Schedule.{notify_tenant_owner-Untouched, handle_dunning_lem}
use apiv.Billing.Retries.{mark_exhausted_lem}

pending_exhausted :
    (sub : String) (l : List Attempt)
    → any (is_pending_of sub) (update (is_pending_of sub) exhaust l) ≡ false
pending_exhausted sub [] = refl
pending_exhausted sub (a ∷ l) = ground (arith, pending_exhausted sub l)

-- Four scheduling passes, whatever the times between them, give a subscription that has no attempts its
-- grace period without a charge, and leave none of its attempts pending.
four_passes_exhaust :
    (t1 t2 t3 t4 : ℕ) (sub tenant : String) (s : Books)
    → last_attempt_number sub s.attempts ≡ 0
    → let pass = λ (now : ℕ). handle_dunning_for_subscription now sub tenant in
      let t = pass t4 (pass t3 (pass t2 (pass t1 s))) in
      (t.charges ≡ s.charges)
      × (any (is_pending_of sub) t.attempts ≡ false)
      × (t.subscriptions
          ≡ update
              (λ (x : Subscription). x.id == sub)
              (into_grace (t4 + dunning_grace_period_days * day))
              s.subscriptions)
four_passes_exhaust t1 t2 t3 t4 sub tenant s e =
    let s1 = handle_dunning_for_subscription t1 sub tenant s in
    let s2 = handle_dunning_for_subscription t2 sub tenant s1 in
    let s3 = handle_dunning_for_subscription t3 sub tenant s2 in
    let x1 = handle_dunning_lem t1 sub tenant s in
    let y1 = x1.0 (omega (arith, e)) in
    let y2 = (handle_dunning_lem t2 sub tenant s1).0 (omega (arith, e, y1.1)) in
    let y3 = (handle_dunning_lem t3 sub tenant s2).0 (omega (arith, e, y1.1, y2.1)) in
    let y4 = (handle_dunning_lem t4 sub tenant s3).1 (omega (arith, e, y1.1, y2.1, y3.1)) in
    (
      y4.2 ∙ y3.3 ∙ y2.3 ∙ y1.3,
      ap (any (is_pending_of sub)) y4.0 ∙ pending_exhausted sub s3.attempts,
      y4.1
          ∙ ap
              (update (λ (x : Subscription). x.id == sub)
                (into_grace (t4 + dunning_grace_period_days * day)))
              (y3.2 ∙ y2.2 ∙ y1.2),
    )

-- Every pending attempt of the subscription has the id `n`.
abbrev OnlyPending : String → ℕ → List Attempt → Type 0
OnlyPending sub n = All λ (x : Attempt). is_pending_of sub x ≡ true → x.id ≡ n

none_expired :
    (now : ℕ) (l : List Attempt)
    → any (λ (a : Attempt). is_exhausted a.status) l ≡ false
    → filter (is_expired now) l ≡ []
none_expired now [] e = refl
none_expired now (a ∷ l) e = ground (arith, none_expired now l)

none_exhausted :
    (a : Attempt) (m : Option String) (sub : String) (l : List Attempt)
    → OnlyPending sub a.id l
    → any (λ (a : Attempt). is_exhausted a.status) l ≡ false
    → any
        (λ (a : Attempt). is_exhausted a.status)
        (update (is_pending_of sub) exhaust (set_attempt a.id failed m l))
      ≡ false
none_exhausted a m sub [] h e = refl
none_exhausted a m sub (b ∷ l) h e = ground (arith, none_exhausted a m sub l h.1, h.0)

nothing_expired :
    (later : ℕ) (t : Books)
    → filter (is_expired later) t.attempts ≡ []
    → suspend_expired_grace_periods later t ≡ t
unfolding suspend_expired_grace_periods
nothing_expired later t e = ground (arith, e)

final_failure_attempts :
    (now : ℕ) (a : Attempt) (message : String) (s : Books)
    → dunning_max_attempts ≤ a.attempt_number
    → (attempt_failed now a message s).attempts
      ≡ update
          (is_pending_of a.subscription_id)
          exhaust
          (set_attempt a.id failed (some message) s.attempts)
unfolding attempt_failed
final_failure_attempts now a message s big =
    let l = set_attempt a.id failed (some message) s.attempts in
    let t =
      notify_tenant_owner a.tenant_id NotificationType.payment_failed (record s { attempts = l }) in
    ground (
      arith,
      notify_tenant_owner-Untouched a.tenant_id NotificationType.payment_failed
          (record s { attempts = l }),
      mark_exhausted_lem now a.subscription_id a.tenant_id t,
    )

-- When the third or a later attempt fails, no other attempt of its subscription is pending and no
-- attempt at all is exhausted, the pass that suspends after the grace period does nothing,
-- however much later it runs.
pub final_failure_no_suspension :
    (now later : ℕ) (a : Attempt) (message : String) (s : Books)
    → dunning_max_attempts ≤ a.attempt_number
    → OnlyPending a.subscription_id a.id s.attempts
    → any (λ (x : Attempt). is_exhausted x.status) s.attempts ≡ false
    → let t = attempt_failed now a message s in suspend_expired_grace_periods later t ≡ t
final_failure_no_suspension now later a message s big only e =
    nothing_expired later (attempt_failed now a message s) (
      ap (filter (is_expired later)) (final_failure_attempts now a message s big)
      ∙ none_expired later
          (update (is_pending_of a.subscription_id) exhaust
            (set_attempt a.id failed (some message) s.attempts))
          (none_exhausted a (some message) a.subscription_id s.attempts only e))
