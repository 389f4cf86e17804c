-- ===== src/Expenses/Recurring.antt =====
-- src/modules/expenses/expenses.service.ts, processRecurringExpenses and calculateNextRun: templates
-- that are due become expenses. The rows that `limit(1)` returns are the first; the ids of new rows are
-- a parameter. A day of recurrence is a number from 0. Local time is UTC.
use apiv.Prelude.{
  ℕ, suc, ◌+◌, ◌-◌, ◌*◌, ◌%◌, String, Bool, true, false, not, ◌&&◌, ◌||◌, Option, none, some, List,
  [], ◌∷◌, ◌++◌, ◌==◌, ltb, leb, nat_eq, find, filter, join, update, if◌then◌else◌,
}
use apiv.Prelude.Int.{ℤ, pos}
use apiv.Calendar.{day, date_of, day_number, weekday, first_of, days_in_month, add_months}
use apiv.Till.{Expense, ExpenseStatus}

pub data RecurrenceType : Type 0 where
  no_recurrence daily weekly monthly : RecurrenceType

-- expense_templates
pub record Template : Type 0 where
  pub id : String
  pub tenant_id : String
  pub name : String
  pub default_amount : Option ℤ
  pub recurrence_type : RecurrenceType
  pub recurrence_day : Option ℕ
  pub next_run_at : Option ℕ
  pub is_pre_approved : Bool
  pub expiry_hours : Option ℕ
  pub is_active : Bool
  pub is_deleted : Bool

pub record Branch : Type 0 where
  pub id : String
  pub tenant_id : String
  pub is_deleted : Bool

-- `role` is the text of the column.
pub record User : Type 0 where
  pub id : String
  pub tenant_id : String
  pub role : String
  pub is_deleted : Bool

pub record Tables : Type 0 where
  pub templates : List Template
  pub branches : List Branch
  pub users : List User
  pub expenses : List Expense

-- `x ?? d`
abbrev pub or_default : {A : Type 0} → A → Option A → A
or_default d none = d
or_default d (some a) = a

-- `(target - current + 7) % 7 || 7`
abbrev pub days_until : ℕ → ℕ → ℕ
days_until target current = let n = (target + 7 - current) % 7 in if nat_eq n 0 then 7 else n

abbrev pub min : ℕ → ℕ → ℕ
min a b = if ltb a b then a else b

-- `setMonth(getMonth() + 1)`, and then the day of that month, or its last one.
unfoldable pub monthly_run : ℕ → ℕ → ℕ
monthly_run n target =
    let d = date_of (add_months 1 n) in first_of d.month + min target (days_in_month d.month) - 1

unfoldable pub calculate_next_run : ℕ → RecurrenceType → Option ℕ → ℕ
calculate_next_run now daily d = suc (day_number now) * day
calculate_next_run now weekly d =
    (day_number now + days_until (or_default 0 d) (weekday (day_number now))) * day
calculate_next_run now monthly d = monthly_run (day_number now) (or_default 1 d) * day
calculate_next_run now no_recurrence d = now + day

abbrev pub is_recurring : RecurrenceType → Bool
is_recurring no_recurrence = false
is_recurring _ = true

-- `lte` on a column: null is never less.
abbrev pub is_reached : ℕ → Option ℕ → Bool
is_reached now none = false
is_reached now (some t) = leb t now

abbrev pub is_due : ℕ → Template → Bool
is_due now t =
    is_recurring t.recurrence_type
    && (t.is_active && (not t.is_deleted && is_reached now t.next_run_at))

abbrev pub is_branch_of : String → Branch → Bool
is_branch_of tenant b = (b.tenant_id == tenant) && not b.is_deleted

abbrev pub is_manager_of : String → User → Bool
is_manager_of tenant u =
    (u.tenant_id == tenant) && (((u.role == "owner") || (u.role == "manager")) && not u.is_deleted)

abbrev pub generated : ℕ → String → Template → String → String → Expense
generated now id t branch user = record {
  id = id;
  tenant_id = t.tenant_id;
  branch_id = branch;
  shift_id = none;
  requested_by = user;
  approved_by = none;
  title = t.name;
  notes = some (join ("Auto-generated from recurring template: " ∷ t.name ∷ []));
  amount = or_default (pos 0) t.default_amount;
  status = if t.is_pre_approved then ExpenseStatus.approved else ExpenseStatus.pending;
  expires_at = now + or_default 24 t.expiry_hours * 3600000;
  resolved_at = if t.is_pre_approved then some now else none;
  is_deleted = false;
}

abbrev pub run_again : ℕ → Template → Template
run_again next t = record t { next_run_at = some next }

module _ (new_id : List Expense → String) (now : ℕ) where
  -- One turn of the loop, with the number of expenses created so far.
  unfoldable pub process_template : Template → ℕ × Tables → ℕ × Tables
  process_template t (n, s) = elim (find (is_branch_of t.tenant_id) s.branches) [
    | none ↦ (n, s)
    | some branch ↦ elim (find (is_manager_of t.tenant_id) s.users) [
      | none ↦ (n, s)
      | some user ↦
          let next = calculate_next_run now t.recurrence_type t.recurrence_day in
          (
            suc n,
            record s {
              expenses = s.expenses ++ generated now (new_id s.expenses) t branch.id user.id ∷ [];
              templates = update (λ (x : Template). x.id == t.id) (run_again next) s.templates;
            },
          )
    ]
  ]

  abbrev pub process_all : List Template → ℕ × Tables → ℕ × Tables
  process_all [] x = x
  process_all (t ∷ ts) x = process_all ts (process_template t x)

  unfoldable pub process_recurring_expenses : Tables → ℕ × Tables
  process_recurring_expenses s = process_all (filter (is_due now) s.templates) (0, s)
