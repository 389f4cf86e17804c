-- ===== src/Expenses/Tests.antt =====
-- A pending expense of a session, and one of another tenant that is past its time.
use mathlib.Core.Path.{subst}
use apiv.Prelude.{
  Option, ◌*◌, ℕ, ◌+◌, ◌≤◌, eq_iff, String, true, false, none, some, List, [], ◌∷◌, ◌≡◌, refl,
  arith, ok, length, filter, All, ◌==◌, Bool-cases, inl, inr,
}
use apiv.Prelude.Int.{pos, ◌+ℤ◌}
use apiv.Prelude.Rules.{All2}
use apiv.Till.{ExpenseStatus, Expense, Till}
use apiv.Purchasing.Approval
use apiv.Purchasing.Approval.{can_approve}
use apiv.Expenses.Service.{
  same, is_expired, is_row, find_one, write_one, approve_pending, approve_found, approve,
  approved_row, expire_stale_expenses,
}
use apiv.Expenses.Writes.{Keyed}
use apiv.Expenses.Life.{
  Event, approving, rejecting, cancelling, hour, handle_all, Reaches, handle_all-Reaches,
}
use apiv.Expenses.Stale.{InTime, pending_rows, expire_stale_expenses_lem}
use apiv.Calendar.{day, day_number, date_of, days_in_month}
use apiv.Expenses.Recurring.{
  RecurrenceType, weekly, monthly, Template, Tables, calculate_next_run, process_recurring_expenses,
}
use apiv.Expenses.NextRuns.{calculate_next_run-monthly}
use apiv.Expenses.RecurringPasses.{process_recurring_expenses_again}
use apiv.Expenses.Drawer.{expected_cash, approve-expected_cash}

abbrev expense : String → String → ℕ → Expense
expense id tenant expires = record {
  id = id;
  tenant_id = tenant;
  branch_id = "b1";
  shift_id = some "s1";
  requested_by = "ana";
  approved_by = none;
  title = "Milk";
  notes = none;
  amount = pos 450;
  status = ExpenseStatus.pending;
  expires_at = expires;
  resolved_at = none;
  is_deleted = false;
}

abbrev till : Till
till = record {
  shifts = [];
  orders = [];
  expenses = expense "e1" "t1" 100 ∷ expense "e2" "t2" 5 ∷ [];
  audit = [];
  allows_cancelled = true;
}

till-Keyed : Keyed till.expenses
till-Keyed id = elim (Bool-cases ("e1" == id)) [
  | inl q ↦
      subst (λ (k : String). length (filter (λ (e : Expense). e.id == k) till.expenses) ≤ 1)
        ((eq_iff "e1" id).0 q) (omega arith)
  | inr q ↦ rw q (ground arith)
]

approves :
    (approve 10 "e1" "t1" "bob" till).0
    ≡ ok (approved_row (Approval.approve 10 "bob") (expense "e1" "t1" 100))
unfolding approve find_one approve_found can_approve approve_pending is_expired write_one
approves = refl

approve-expected_cash_example :
    let t' = (approve 10 "e1" "t1" "bob" till).1 in
    (e : Expense) × (filter (is_row "e1" "t1") till.expenses ≡ e ∷ [])
    × (same e.status ExpenseStatus.pending ≡ true)
    × (is_expired 10 e.expires_at ≡ false)
    × (expected_cash "s1" "t1" (pos 1000) (pos 0) t' +ℤ pos 450
        ≡ expected_cash "s1" "t1" (pos 1000) (pos 0) till)
approve-expected_cash_example =
    approve-expected_cash 10 "e1" "t1" "bob" "s1" (pos 1000) (pos 0) till approves refl

abbrev events : List Event
events =
    approving 10 "e2" "t2" "bob"
    ∷ approving 10 "e1" "t1" "bob"
    ∷ hour 20
    ∷ rejecting 30 "e1" "t1" "bob" "wrong amount"
    ∷ cancelling 40 "e1" "t1"
    ∷ []

handle_all-Reaches_example : All2 Reaches till.expenses (handle_all events till).expenses
handle_all-Reaches_example = handle_all-Reaches events till till-Keyed

expire_stale_expenses_lem_example :
    let (count, t') = expire_stale_expenses 10 till in
    All (InTime 10) t'.expenses
    × (count + length (pending_rows t'.expenses) ≡ length (pending_rows till.expenses))
expire_stale_expenses_lem_example = expire_stale_expenses_lem 10 till

abbrev rent : RecurrenceType → Option ℕ → Template
rent type target = record {
  id = "r1";
  tenant_id = "t1";
  name = "Rent";
  default_amount = some (pos 90000);
  recurrence_type = type;
  recurrence_day = target;
  next_run_at = some 5;
  is_pre_approved = true;
  expiry_hours = none;
  is_active = true;
  is_deleted = false;
}

abbrev month_end : Tables
month_end = record {
  templates = rent monthly (some 31) ∷ rent weekly (some 0) ∷ [];
  branches = record { id = "b1"; tenant_id = "t1"; is_deleted = false } ∷ [];
  users = record { id = "ana"; tenant_id = "t1"; role = "manager"; is_deleted = false } ∷ [];
  expenses = [];
}

-- 31 January 1970, a run on the 31st: the next is on 31 March.
calculate_next_run-monthly_example :
    let next = calculate_next_run (30 * day) monthly (some 31) in
    (next ≡ day_number next * day)
    × (date_of (day_number next) ≡ record { month = 2; day_of_month = 30 })
unfolding date_of days_in_month
calculate_next_run-monthly_example = calculate_next_run-monthly (30 * day) 31 (omega arith)

process_recurring_expenses_again_example :
    let t = (process_recurring_expenses (λ _. "e9") (30 * day) month_end).1 in
    process_recurring_expenses (λ _. "e9") (30 * day) t ≡ (0, t)
process_recurring_expenses_again_example =
    process_recurring_expenses_again (λ _. "e9") (30 * day) month_end
      (inl (omega arith), (inr refl, tt))
