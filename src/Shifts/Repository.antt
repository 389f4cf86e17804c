-- ===== src/Shifts/Repository.antt =====
-- src/modules/shifts/shifts.repository.ts. A read that fails gives no row there, so that only the
-- writes can throw.
use apiv.Prelude.{
  String, Bool, true, false, not, ◌&&◌, Option, none, some, List, [], ◌∷◌, ◌==◌, Run, throw, Error,
  ok, filter, update, maybe_single,
}
use apiv.Prelude.Int.{ℤ}
use apiv.Till.{ShiftStatus, Shift, OrderStatus, Order, Expense, Till}

abbrev pub is_open : ShiftStatus → Bool
is_open ShiftStatus.open_shift = true
is_open ShiftStatus.closed_shift = false

abbrev pub is_completed : OrderStatus → Bool
is_completed OrderStatus.completed = true
is_completed _ = false

-- `column = id`, where null equals nothing.
abbrev pub has_id : String → Option String → Bool
has_id id none = false
has_id id (some k) = k == id

abbrev pub is_open_of : String → String → Shift → Bool
is_open_of cashier tenant s =
    (s.tenant_id == tenant) && (s.cashier_id == cashier) && is_open s.status && not s.is_deleted

unfoldable pub find_open_by_user : String → String → Till → Option Shift
find_open_by_user cashier tenant t = maybe_single (filter (is_open_of cashier tenant) t.shifts)

abbrev pub is_shift : String → String → Shift → Bool
is_shift id tenant s = (s.id == id) && (s.tenant_id == tenant) && not s.is_deleted

unfoldable pub find_by_id : String → String → Till → Option Shift
find_by_id id tenant t = maybe_single (filter (is_shift id tenant) t.shifts)

-- The insert; the table's `id` is the database's.
unfoldable pub create : Shift → Run Till Shift
create shift t = (ok shift, record t { shifts = shift ∷ t.shifts })

abbrev pub is_row : String → String → Shift → Bool
is_row id tenant s = (s.id == id) && (s.tenant_id == tenant)

abbrev pub closed_with : ℤ → ℤ → ℤ → Shift → Shift
closed_with closing_cash expected_cash discrepancy s = record s {
  status = ShiftStatus.closed_shift;
  closing_cash = some closing_cash;
  expected_cash = some expected_cash;
  discrepancy = some discrepancy;
}

-- The update and its `single()`, which throws unless one row was written.
unfoldable pub close : String → String → ℤ → ℤ → ℤ → Run Till Shift
close id tenant closing_cash expected_cash discrepancy t =
    let written = closed_with closing_cash expected_cash discrepancy in
    elim (maybe_single (filter (is_row id tenant) t.shifts)) [
      | none ↦ throw (Error.other "JSON object requested, multiple (or no) rows returned") t
      | some s ↦ (ok (written s), record t { shifts = update (is_row id tenant) written t.shifts })
    ]

abbrev pub is_shift_invoice : String → String → Order → Bool
is_shift_invoice shift tenant o =
    has_id shift o.shift_id && (o.tenant_id == tenant) && is_completed o.status

unfoldable pub get_shift_invoices : String → String → Till → List Order
get_shift_invoices shift tenant t = filter (is_shift_invoice shift tenant) t.orders

abbrev pub is_shift_expense : String → String → Expense → Bool
is_shift_expense shift tenant e = has_id shift e.shift_id && (e.tenant_id == tenant)

unfoldable pub get_shift_expenses : String → String → Till → List Expense
get_shift_expenses shift tenant t = filter (is_shift_expense shift tenant) t.expenses

abbrev is_open_at : String → String → Shift → Bool
is_open_at branch tenant s =
    (s.tenant_id == tenant) && (s.branch_id == branch) && is_open s.status && not s.is_deleted

abbrev first : List Shift → Option Shift
first [] = none
first (s ∷ _) = some s

-- The newest row: a new row is put at the head, so that the list is ordered by `opened_at`.
unfoldable pub find_current_by_branch : String → String → Till → Option Shift
find_current_by_branch branch tenant t = first (filter (is_open_at branch tenant) t.shifts)
