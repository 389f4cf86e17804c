-- ===== src/Expenses/Stale.antt =====
-- The hourly pass leaves no pending expense past its time, and a cancellation that the table refuses.
use apiv.Prelude.{
  ℕ, ◌+◌, String, true, false, List, [], ◌∷◌, ◌≡◌, refl, ap, ◌∙◌, inl, inr, arith, err, Error,
  database, length, filter, update, maybe_single, All, Option-cases, Bool-cases, Result-cases,
}
use apiv.Prelude.Rules.{bind_ok, bind_err}
use apiv.Till.{ExpenseStatus, Expense, Till}
use apiv.Expenses.Service.{
  same, is_expired, is_row, find_one, write_one, cancelled_row, not_cancellable, cancel_found,
  cancel, is_stale, expired_row, expire_stale_expenses,
}
use apiv.Expenses.Stats.{with_status}

-- A pending expense that may still be approved.
abbrev pub InTime : ℕ → Expense → Type 0
InTime now e = same e.status ExpenseStatus.pending ≡ true → is_expired now e.expires_at ≡ false

-- The rows that are pending.
abbrev pub pending_rows : List Expense → List Expense
pending_rows rows = with_status ExpenseStatus.pending rows

All-InTime :
    (now : ℕ) (rows : List Expense) → All (InTime now) (update (is_stale now) expired_row rows)
unfolding is_expired
All-InTime now [] = tt
All-InTime now (e ∷ es) = elim (Bool-cases (is_stale now e)) [
  | inl q ↦ rw q ((λ h. absurd (cc)), All-InTime now es)
  | inr q ↦ rw q ((λ h. ground (arith, q, h)), All-InTime now es)
]

counted :
    (now : ℕ) (rows : List Expense)
    → length (filter (is_stale now) rows)
        + length (pending_rows (update (is_stale now) expired_row rows))
      ≡ length (pending_rows rows)
counted now [] = refl
counted now (e ∷ es) = ground (arith, counted now es)

-- After the hourly pass no pending expense of any tenant is past its time, so that none of them would
-- be refused for its age at that moment. The pass returns how many expenses are pending no longer.
pub expire_stale_expenses_lem :
    (now : ℕ) (t : Till)
    → let (count, t') = expire_stale_expenses now t in
      All (InTime now) t'.expenses
      × (count + length (pending_rows t'.expenses) ≡ length (pending_rows t.expenses))
unfolding expire_stale_expenses
expire_stale_expenses_lem now t = (All-InTime now t.expenses, counted now t.expenses)

-- The write of a cancellation, whatever it finds.
cancel_write_fails :
    (now : ℕ) (id tenant : String) (t : Till)
    → t.allows_cancelled ≡ false
    → write_one id tenant (cancelled_row now) t ≡ (err database, t)
unfolding write_one
cancel_write_fails now id tenant t h =
    elim (Option-cases (maybe_single (filter (is_row id tenant) t.expenses))) [
      | inl q ↦ rw (write_one, q) refl
      | inr (e, q) ↦ rw (write_one, q, h) refl
    ]

cancel_found_fails :
    (now : ℕ) (id tenant : String) (e : Expense) (t : Till)
    → t.allows_cancelled ≡ false
    → (x : Error) × (cancel_found now id tenant e t ≡ (err x, t))
unfolding cancel_found
cancel_found_fails now id tenant e t h = elim (Bool-cases (same e.status ExpenseStatus.pending)) [
  | inl q ↦ (database, rw q (cancel_write_fails now id tenant t h))
  | inr q ↦ (not_cancellable, rw q refl)
]

-- Where the table's CHECK does not know the status that it writes, the cancellation of an expense
-- never succeeds and changes nothing.
cancel_fails :
    (now : ℕ) (id tenant : String) (t : Till)
    → t.allows_cancelled ≡ false
    → (e : Error) × (cancel now id tenant t ≡ (err e, t))
unfolding cancel find_one
cancel_fails now id tenant t h = elim (Result-cases (find_one id tenant t).0) [
  | inl (e, q) ↦
      (e, bind_err (find_one id tenant) (cancel_found now id tenant) (ap (λ r. (r, t)) q))
  | inr (e, q) ↦
      let (x, p) = cancel_found_fails now id tenant e t h in
      (x, bind_ok (find_one id tenant) (cancel_found now id tenant) (ap (λ r. (r, t)) q) ∙ p)
]
