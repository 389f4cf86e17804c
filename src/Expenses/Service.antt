-- ===== src/Expenses/Service.antt =====
-- src/modules/expenses/expenses.service.ts, with the approval engine and the expense engine. Metrics and
-- notifications are left out; so are an expense's category, type, recurrence and photo. The ids of new
-- rows are the database's.
use apiv.Prelude.{
  ℕ, ◌+◌, ◌*◌, String, Bool, true, false, not, ◌&&◌, Option, none, some, [], ◌∷◌, ◌==◌, Run, Result,
  Error, ok, err, not_found, bad_request, database, throw, throw_if, ◌>>=◌, ◌>>◌, ltb, length,
  filter, update, maybe_single, join, truthy, if◌then◌else◌,
}
use apiv.Prelude.Int.{ℤ}
use apiv.Till.{ExpenseStatus, Expense, Till}
use apiv.Purchasing.Approval
use apiv.Purchasing.Approval.{ApprovalResult, can_approve, can_reject}

abbrev pub same : ExpenseStatus → ExpenseStatus → Bool
same ExpenseStatus.pending ExpenseStatus.pending = true
same ExpenseStatus.approved ExpenseStatus.approved = true
same ExpenseStatus.rejected ExpenseStatus.rejected = true
same ExpenseStatus.expired ExpenseStatus.expired = true
same ExpenseStatus.cancelled ExpenseStatus.cancelled = true
same _ _ = false

-- The CHECK of expenses.status (src/database/migrations/001_initial_schema.sql), as it was made or with
-- the status cancelled.
abbrev pub is_allowed : Bool → ExpenseStatus → Bool
is_allowed knows_cancelled ExpenseStatus.cancelled = knows_cancelled
is_allowed knows_cancelled _ = true

-- ExpenseEngine.isExpired
unfoldable pub is_expired : ℕ → ℕ → Bool
is_expired now expires_at = ltb expires_at now

abbrev pub is_row : String → String → Expense → Bool
is_row id tenant e = (e.id == id) && (e.tenant_id == tenant)

abbrev pub is_kept : Expense → Bool
is_kept e = not e.is_deleted

abbrev pub found : Option Expense → Result Expense
found none = err (not_found "Expense not found")
found (some e) = ok e

unfoldable pub find_one : String → String → Run Till Expense
find_one id tenant t =
    (found (maybe_single (filter (λ (e : Expense). is_row id tenant e && is_kept e) t.expenses)), t)

-- CreateExpenseDto
pub record CreateExpense : Type 0 where
  pub branch_id : String
  pub shift_id : Option String
  pub amount : ℤ
  pub description : Option String

abbrev pub or_empty : Option String → String
or_empty none = ""
or_empty (some s) = s

abbrev pub new_expense : ℕ → String → CreateExpense → String → String → Expense
new_expense now id dto tenant user = record {
  id = id;
  tenant_id = tenant;
  branch_id = dto.branch_id;
  shift_id = dto.shift_id;
  requested_by = user;
  approved_by = none;
  title = or_empty dto.description;
  notes = dto.description;
  amount = dto.amount;
  status = ExpenseStatus.pending;
  expires_at = now + 8760 * 3600000;
  resolved_at = none;
  is_deleted = false;
}

unfoldable pub create : ℕ → String → CreateExpense → String → String → Run Till Expense
create now id dto tenant user t =
    let e = new_expense now id dto tenant user in (ok e, record t { expenses = e ∷ t.expenses })

-- The update of a row by its id and tenant with `single()`: it writes nothing unless it writes one row
-- whose status the table allows.
unfoldable pub write_one : String → String → (Expense → Expense) → Run Till Expense
write_one id tenant f t = elim (maybe_single (filter (is_row id tenant) t.expenses)) [
  | none ↦ (err database, t)
  | some e ↦
      let t' = record t { expenses = update (is_row id tenant) f t.expenses } in
      if is_allowed t.allows_cancelled (f e).status then (ok (f e), t') else (err database, t)
]

abbrev pub expired_row : Expense → Expense
expired_row e = record e { status = ExpenseStatus.expired }

-- The update that `approve` runs on an expense past its time, before it throws.
unfoldable pub mark_expired : String → String → Run Till (Unit {0})
mark_expired id tenant t =
    (ok tt, record t { expenses = update (is_row id tenant) expired_row t.expenses })

abbrev pub resolved : ExpenseStatus → ApprovalResult → Option String → Expense → Expense
resolved status result notes e = record e {
  status = status;
  approved_by = some result.resolved_by;
  resolved_at = some result.resolved_at;
  notes = notes;
}

abbrev pub approved_row : ApprovalResult → Expense → Expense
approved_row result e = resolved ExpenseStatus.approved result e.notes e

abbrev pub too_late : Error
too_late = bad_request "Expense has expired and cannot be approved"

-- The part after the guard on the status; `expense` is what `findOne` found.
unfoldable pub approve_pending : ℕ → String → String → String → Expense → Run Till Expense
unfolding is_expired mark_expired write_one Approval.approve
approve_pending now id tenant approver expense t =
    if is_expired now expense.expires_at
    then (mark_expired id tenant >> throw too_late) t
    else write_one id tenant (approved_row (Approval.approve now approver)) t

abbrev pub not_approvable : Error
not_approvable = bad_request "Cannot approve expense in its status"

unfoldable pub approve_found : ℕ → String → String → String → Expense → Run Till Expense
unfolding can_approve approve_pending
approve_found now id tenant approver expense = do
  throw_if (not (can_approve same expense.status ExpenseStatus.pending)) not_approvable
  approve_pending now id tenant approver expense

unfoldable pub approve : ℕ → String → String → String → Run Till Expense
unfolding find_one approve_found
approve now id tenant approver = do
  expense ← find_one id tenant
  approve_found now id tenant approver expense

abbrev pub prefix_of : ExpenseStatus → String
prefix_of ExpenseStatus.approved = "Approval Reversed"
prefix_of _ = "Rejected"

abbrev pub rejection_note : Expense → String → String
rejection_note e reason = elim (truthy e.notes) [
  | none ↦ join (prefix_of e.status ∷ ": " ∷ reason ∷ [])
  | some n ↦ join (n ∷ " | " ∷ prefix_of e.status ∷ ": " ∷ reason ∷ [])
]

abbrev pub lift : {A : Type 0} → Result A → Run Till A
lift r t = (r, t)

abbrev pub rejected_row : Expense → ApprovalResult → Expense → Expense
rejected_row expense result e =
    resolved ExpenseStatus.rejected result (some (rejection_note expense (or_empty result.reason)))
      e

unfoldable pub reject_write : String → String → Expense → ApprovalResult → Run Till Expense
unfolding write_one
reject_write id tenant expense result = write_one id tenant (rejected_row expense result)

unfoldable pub reject_reasoned : ℕ → String → String → String → String → Expense → Run Till Expense
unfolding reject_write Approval.reject
reject_reasoned now id tenant approver reason expense = do
  result ← lift (Approval.reject now approver reason)
  reject_write id tenant expense result

abbrev pub not_rejectable : Error
not_rejectable = bad_request "Cannot reject expense in its status"

unfoldable pub reject_found : ℕ → String → String → String → String → Expense → Run Till Expense
unfolding can_reject reject_reasoned
reject_found now id tenant approver reason expense = do
  throw_if (not (can_reject same expense.status ExpenseStatus.pending ExpenseStatus.approved))
      not_rejectable
  reject_reasoned now id tenant approver reason expense

unfoldable pub reject : ℕ → String → String → String → String → Run Till Expense
unfolding find_one reject_found
reject now id tenant approver reason = do
  expense ← find_one id tenant
  reject_found now id tenant approver reason expense

abbrev pub cancelled_row : ℕ → Expense → Expense
cancelled_row now e = record e { status = ExpenseStatus.cancelled; resolved_at = some now }

abbrev pub not_cancellable : Error
not_cancellable = bad_request "Cannot cancel expense in its status"

unfoldable pub cancel_found : ℕ → String → String → Expense → Run Till Expense
unfolding write_one
cancel_found now id tenant expense = do
  throw_if (not (same expense.status ExpenseStatus.pending)) not_cancellable
  write_one id tenant (cancelled_row now)

unfoldable pub cancel : ℕ → String → String → Run Till Expense
unfolding find_one cancel_found
cancel now id tenant = do expense ← find_one id tenant; cancel_found now id tenant expense

abbrev pub is_stale : ℕ → Expense → Bool
is_stale now e = same e.status ExpenseStatus.pending && ltb e.expires_at now

-- The hourly pass: all tenants' pending expenses past their time, and how many there were.
unfoldable pub expire_stale_expenses : ℕ → Till → ℕ × Till
expire_stale_expenses now t = (
  length (filter (is_stale now) t.expenses),
  record t { expenses = update (is_stale now) expired_row t.expenses },
)
