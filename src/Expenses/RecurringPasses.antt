-- ===== src/Expenses/RecurringPasses.antt =====
-- Two passes over the recurring templates: src/modules/expenses/expenses.service.ts,
-- processRecurringExpenses.
use mathlib.Core.Path.{subst}
use apiv.Prelude.{
  ℕ, suc, ◌≤◌, ◌<◌, String, Bool, true, false, ◌&&◌, Option, none, some, List, [], ◌∷◌, ◌++◌, ◌==◌,
  find, filter, update, any, All, ◌≡◌, ◌⊎◌, refl, sym, ap, ◌∙◌, arith, inl, inr, Bool-cases,
  Option-cases, eq_refl,
}
use apiv.Till.{Expense}
use apiv.Expenses.Recurring.{
  weekly, Template, Branch, User, Tables, or_default, calculate_next_run, is_due, is_branch_of,
  is_manager_of, run_again, generated, process_template, process_all, process_recurring_expenses,
}
use apiv.Expenses.NextRuns.{calculate_next_run-later}

-- The day of a template, unless it is weekly, is not 0.
abbrev pub HasDay : Template → Type 0
HasDay t = (1 ≤ or_default 1 t.recurrence_day) ⊎ (t.recurrence_type ≡ weekly)

abbrev is_some : {A : Type 0} → Option A → Bool
is_some none = false
is_some (some a) = true

-- The tenant has a branch and a user to run the template for.
abbrev is_ready : List Branch → List User → Template → Bool
is_ready bs us t =
    is_some (find (is_branch_of t.tenant_id) bs) && is_some (find (is_manager_of t.tenant_id) us)

abbrev is_same : Template → Template → Bool
is_same l t = t.id == l.id

-- Each template that could still run has its id in `r`, on a template that is ready.
abbrev Left : ℕ → List Branch → List User → List Template → List Template → Type 0
Left now bs us r = All λ (t : Template).
    (is_due now t && is_ready bs us t) ≡ true
    → any (λ (l : Template). is_same l t && is_ready bs us l) r ≡ true

abbrev Ended : ℕ → List Branch → List User → ℕ × Tables → Type 0
Ended now bs us (n, k) = (k.branches ≡ bs) × (k.users ≡ us) × Left now bs us [] k.templates

module _ (now : ℕ) (bs : List Branch) (us : List User) where
  Left-more :
      (x : Template) (r ts : List Template) → Left now bs us r ts → Left now bs us (x ∷ r) ts
  Left-more x r [] h = tt
  Left-more x r (t ∷ ts) h = (ground (arith, h.0), Left-more x r ts h.1)

  Left-filter : (ts : List Template) → Left now bs us (filter (is_due now) ts) ts
  Left-filter [] = tt
  Left-filter (t ∷ ts) =
      let r = filter (is_due now) ts in
      elim (Bool-cases (is_due now t)) [
        | inl e ↦
            let found : t ∷ r ≡ filter (is_due now) (t ∷ ts) = rw e refl in
            subst (λ k. Left now bs us k (t ∷ ts)) found
              (ground (arith, eq_refl t.id), Left-more t r ts (Left-filter ts))
        | inr e ↦
            let found : r ≡ filter (is_due now) (t ∷ ts) = rw e refl in
            subst (λ k. Left now bs us k (t ∷ ts)) found (ground (arith, e), Left-filter ts)
      ]

  Left-skip :
      (l : Template) (r ts : List Template)
      → is_ready bs us l ≡ false
      → Left now bs us (l ∷ r) ts
      → Left now bs us r ts
  Left-skip l r [] e h = tt
  Left-skip l r (t ∷ ts) e h = (ground (arith, h.0, e), Left-skip l r ts e h.1)

  Left-run :
      (l : Template) (next : ℕ) (r ts : List Template)
      → now < next
      → Left now bs us (l ∷ r) ts
      → Left now bs us r (update (is_same l) (run_again next) ts)
  Left-run l next r [] later h = tt
  Left-run l next r (t ∷ ts) later h = (ground (arith, h.0, later), Left-run l next r ts later h.1)

  -- With nothing left, a pass finds only templates that are not ready.
  Left-none :
      (ts : List Template)
      → Left now bs us [] ts
      → All (λ (t : Template). is_ready bs us t ≡ false) (filter (is_due now) ts)
  Left-none [] h = tt
  Left-none (t ∷ ts) h = ground (arith, h.0, Left-none ts h.1)

module _ (new_id : List Expense → String) (now : ℕ) where
  -- A turn of the loop either leaves all as it is, or moves the next run of the template on.
  turn :
      (t : Template) (n : ℕ) (s : Tables)
      → ((is_ready s.branches s.users t ≡ false) × (process_template new_id now t (n, s) ≡ (n, s)))
        ⊎ ((k : Tables) × (is_ready s.branches s.users t ≡ true)
            × (process_template new_id now t (n, s) ≡ (suc n, k))
            × (k.branches ≡ s.branches)
            × (k.users ≡ s.users)
            × (k.templates
                ≡ update
                    (is_same t)
                    (run_again (calculate_next_run now t.recurrence_type t.recurrence_day))
                    s.templates))
  unfolding process_template
  turn t n s = elim (Option-cases (find (is_branch_of t.tenant_id) s.branches)) [
    | inl e ↦ inl (ground (arith, e), rw (e, process_template) refl)
    | inr (b, e) ↦ elim (Option-cases (find (is_manager_of t.tenant_id) s.users)) [
      | inl f ↦ inl (ground (arith, e, f), rw (e, process_template, f) refl)
      | inr (u, f) ↦
          let next = calculate_next_run now t.recurrence_type t.recurrence_day in
          let k = record s {
            expenses = s.expenses ++ generated now (new_id s.expenses) t b.id u.id ∷ [];
            templates = update (is_same t) (run_again next) s.templates;
          } in
          inr (k, ground (arith, e, f), rw (e, process_template, f) refl, refl, refl, refl)
    ]
  ]

  none_left :
      (ts : List Template) (n : ℕ) (s : Tables)
      → All (λ (t : Template). is_ready s.branches s.users t ≡ false) ts
      → process_all new_id now ts (n, s) ≡ (n, s)
  none_left [] n s h = refl
  none_left (t ∷ ts) n s h = elim (turn t n s) [
    | inl (e, q) ↦ ap (process_all new_id now ts) q ∙ none_left ts n s h.1
    | inr (k, ready, _, _, _, _) ↦ absurd (cc (h.0, ready))
  ]

  process_all-Ended :
      (bs : List Branch) (us : List User) (ts : List Template) (n : ℕ) (s : Tables)
      → s.branches ≡ bs
      → s.users ≡ us
      → All HasDay ts
      → Left now bs us ts s.templates
      → Ended now bs us (process_all new_id now ts (n, s))
  process_all-Ended bs us [] n s e f d h = (e, f, h)
  process_all-Ended bs us (t ∷ ts) n s e f d h = elim (turn t n s) [
    | inl (q, r) ↦ subst (Ended now bs us) (sym (ap (process_all new_id now ts) r)) (
        process_all-Ended bs us ts n s e f d.1
          (Left-skip now bs us t ts s.templates (rw (e, f) at q) h))
    | inr (k, ready, r, kb, ku, kt) ↦
        let next = calculate_next_run now t.recurrence_type t.recurrence_day in
        let later = (calculate_next_run-later now t.recurrence_type t.recurrence_day d.0).0 in
        subst (Ended now bs us) (sym (ap (process_all new_id now ts) r)) (
          process_all-Ended bs us ts (suc n) k (kb ∙ e) (ku ∙ f) d.1
            (subst (Left now bs us ts) (sym kt) (Left-run now bs us t next ts s.templates later h)))
  ]

  HasDay-filter : (ts : List Template) → All HasDay ts → All HasDay (filter (is_due now) ts)
  HasDay-filter [] h = tt
  HasDay-filter (t ∷ ts) h = ground (arith, h.0, HasDay-filter ts h.1)

  -- Where no template but a weekly one is for day 0: a second pass at the same time creates nothing and
  -- changes nothing, also for templates whose tenant has no branch or no manager to run them for.
  pub process_recurring_expenses_again :
      (s : Tables)
      → All HasDay s.templates
      → let t = (process_recurring_expenses new_id now s).1 in
        process_recurring_expenses new_id now t ≡ (0, t)
  unfolding process_recurring_expenses
  process_recurring_expenses_again s d =
      let ts = filter (is_due now) s.templates in
      let t = (process_recurring_expenses new_id now s).1 in
      let (b, u, l) =
        process_all-Ended s.branches s.users ts 0 s refl refl (HasDay-filter s.templates d)
          (Left-filter now s.branches s.users s.templates) in
      let l' : Left now t.branches t.users [] t.templates = rw (b, u) l in
      none_left (filter (is_due now) t.templates) 0 t
        (Left-none now t.branches t.users t.templates l')
