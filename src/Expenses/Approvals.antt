-- ===== src/Expenses/Approvals.antt =====
-- An approval that succeeds: the expense that it found, and the one row that it wrote.
use mathlib.Core.Path.{subst}
use apiv.Prelude.{
  ℕ, String, true, false, none, some, [], ◌∷◌, ◌≡◌, refl, sym, ap, ◌∙◌, inl, inr, Result, ok, err,
  database, filter, update, maybe_single, Bool-cases, Option-cases, Result-cases, if◌then◌else◌,
}
use apiv.Prelude.Filters.{filter_same_row}
use apiv.Prelude.Rules.{bind_ok, bind_err}
use apiv.Till.{ExpenseStatus, Expense, Till}
use apiv.Purchasing.Approval
use apiv.Purchasing.Approval.{can_approve}
use apiv.Expenses.Service.{
  same, is_allowed, is_expired, is_row, is_kept, find_one, write_one, mark_expired, approved_row,
  approve_pending, approve_found, approve,
}
use apiv.Expenses.Writes.{Found, found-ok, maybe_single-some}

-- What an approval that succeeds found and wrote.
pub record Approved (now : ℕ) (id tenant actor : String) (t : Till) (e : Expense) (e' : Expense)
    (t' : Till) : Type 0 where
  pub at_pending : same e.status ExpenseStatus.pending ≡ true
  pub in_time : is_expired now e.expires_at ≡ false
  pub row : filter (is_row id tenant) t.expenses ≡ e ∷ []
  pub result : e' ≡ approved_row (Approval.approve now actor) e
  pub written : t' ≡ record t {
    expenses = update (is_row id tenant) (approved_row (Approval.approve now actor)) t.expenses;
  }

-- What a write that succeeds found and wrote.
record Written (id tenant : String) (f : Expense → Expense) (t : Till) (e' : Expense) (t' : Till)
    : Type 0 where
  before : Expense
  row : filter (is_row id tenant) t.expenses ≡ before ∷ []
  result : e' ≡ f before
  after : t' ≡ record t { expenses = update (is_row id tenant) f t.expenses }

write_found :
    (id tenant : String) (f : Expense → Expense) (t : Till) (x : Expense)
    → maybe_single (filter (is_row id tenant) t.expenses) ≡ some x
    → let t' = record t { expenses = update (is_row id tenant) f t.expenses } in
      write_one id tenant f t
      ≡ (if is_allowed t.allows_cancelled (f x).status then (ok (f x), t') else (err database, t))
unfolding write_one
write_found id tenant f t x q = rw (write_one, q) refl

write_none :
    (id tenant : String) (f : Expense → Expense) (t : Till)
    → maybe_single (filter (is_row id tenant) t.expenses) ≡ none
    → write_one id tenant f t ≡ (err database, t)
unfolding write_one
write_none id tenant f t q = rw (write_one, q) refl

write_one-ok :
    (id tenant : String) (f : Expense → Expense) (t : Till) {e' : Expense}
    → (write_one id tenant f t).0 ≡ ok e'
    → Written id tenant f t e' (write_one id tenant f t).1
write_one-ok id tenant f t {e'} h =
    elim (Option-cases (maybe_single (filter (is_row id tenant) t.expenses))) [
      | inl q ↦ absurd (cc (rw (write_none id tenant f t q) at h))
      | inr (x, q) ↦ elim (Bool-cases (is_allowed t.allows_cancelled (f x).status)) [
        | inl a ↦
            let done : write_one id tenant f t
                ≡ (ok (f x), record t { expenses = update (is_row id tenant) f t.expenses }) =
              write_found id tenant f t x q ∙ rw a refl in
            record {
              before = x;
              row = maybe_single-some (filter (is_row id tenant) t.expenses) q;
              result = cc (rw done at h);
              after = ap (λ (r : Result Expense × Till). r.1) done;
            }
        | inr a ↦
            let failed : write_one id tenant f t ≡ (err database, t) =
              write_found id tenant f t x q ∙ rw a refl in
            absurd (cc (rw failed at h))
      ]
    ]

approve_pending-Approved :
    (now : ℕ) (id tenant actor : String) (e : Expense) (t : Till) {e' : Expense}
    → Found id tenant e t
    → same e.status ExpenseStatus.pending ≡ true
    → (approve_pending now id tenant actor e t).0 ≡ ok e'
    → Approved now id tenant actor t e e' (approve_pending now id tenant actor e t).1
unfolding approve_pending mark_expired
approve_pending-Approved now id tenant actor e t {e'} live pending h =
    elim (Bool-cases (is_expired now e.expires_at)) [
      | inl q ↦ absurd (cc (rw q at h))
      | inr q ↦
          let w =
            write_one-ok id tenant (approved_row (Approval.approve now actor)) t (rw q at h) in
          let found_it = filter_same_row (is_row id tenant) is_kept t.expenses w.row live in
          rw q (record {
            at_pending = pending;
            in_time = q;
            row = w.row ∙ ap (λ x. x ∷ []) found_it;
            result = w.result ∙ ap (approved_row (Approval.approve now actor)) found_it;
            written = w.after;
          })
    ]

approve_found-Approved :
    (now : ℕ) (id tenant actor : String) (e : Expense) (t : Till) {e' : Expense}
    → Found id tenant e t
    → (approve_found now id tenant actor e t).0 ≡ ok e'
    → Approved now id tenant actor t e e' (approve_found now id tenant actor e t).1
unfolding approve_found can_approve
approve_found-Approved now id tenant actor e t live h =
    elim (Bool-cases (same e.status ExpenseStatus.pending)) [
      | inl q ↦ rw q (approve_pending-Approved now id tenant actor e t live q (rw q at h))
      | inr q ↦ absurd (cc (rw q at h))
    ]

pub approve-Approved :
    (now : ℕ) (id tenant actor : String) (t : Till) {e' : Expense}
    → (approve now id tenant actor t).0 ≡ ok e'
    → (e : Expense) × Approved now id tenant actor t e e' (approve now id tenant actor t).1
unfolding approve find_one
approve-Approved now id tenant actor t {e'} h = elim (Result-cases (find_one id tenant t).0) [
  | inl (x, q) ↦
      absurd (
        cc (bind_err (find_one id tenant) (approve_found now id tenant actor) (ap (λ r. (r, t)) q)))
  | inr (e, q) ↦
      let same_call : approve now id tenant actor t ≡ approve_found now id tenant actor e t =
        bind_ok (find_one id tenant) (approve_found now id tenant actor) (ap (λ r. (r, t)) q) in
      (
        e,
        subst (λ (r : Result Expense × Till). Approved now id tenant actor t e e' r.1)
            (sym same_call)
            (approve_found-Approved now id tenant actor e t (found-ok _ q) (rw same_call at h)),
      )
]
