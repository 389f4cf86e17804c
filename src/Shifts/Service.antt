-- ===== src/Shifts/Service.antt =====
-- src/modules/shifts/shifts.service.ts. Metrics and notifications, whose failure is swallowed, are left
-- out; an audit entry keeps its tenant, actor, action and resource.
use apiv.Prelude.{
  String, Bool, true, false, not, Option, none, some, ◌∷◌, ◌==◌, Run, Result, ok, err, not_found,
  bad_request, pure, throw, ◌>>=◌, ◌>>◌, truthy, if◌then◌else◌,
}
use apiv.Prelude.Int.{ℤ}
use apiv.Till.{ShiftStatus, Shift, Till}
use apiv.Shifts.Engine.{ShiftSummary, validate_no_double_shift, or_zero, build_shift_summary}
use apiv.Shifts.Repository.{
  is_open, find_open_by_user, find_by_id, create, close, get_shift_invoices, get_shift_expenses,
  find_current_by_branch,
}

pub record OpenShift : Type 0 where
  pub branch_id : String
  pub opening_cash : ℤ
  pub notes : Option String

unfoldable pub audit : String → String → String → String → Run Till (Unit {0})
audit tenant actor action resource t = (
  ok tt,
  record t {
    audit =
        record {
          tenant_id = tenant;
          actor_id = actor;
          action = action;
          resource_type = "shift";
          resource_id = resource;
        }
        ∷ t.audit;
  },
)

abbrev pub is_some : Option Shift → Bool
is_some none = false
is_some (some _) = true

abbrev pub lift : {A : Type 0} → Result A → Run Till A
lift r t = (r, t)

abbrev pub new_shift : String → String → String → OpenShift → Shift
new_shift id tenant actor dto = record {
  id = id;
  tenant_id = tenant;
  branch_id = dto.branch_id;
  cashier_id = actor;
  status = ShiftStatus.open_shift;
  opening_cash = dto.opening_cash;
  closing_cash = none;
  expected_cash = none;
  discrepancy = none;
  notes = dto.notes;
  is_deleted = false;
}

-- `id` is what the database gives the new row.
unfoldable pub open_shift : String → OpenShift → String → String → Run Till Shift
unfolding find_open_by_user validate_no_double_shift create audit
open_shift id dto tenant actor t =
    (do
      lift (validate_no_double_shift (is_some (find_open_by_user actor tenant t)))
      shift ← create (new_shift id tenant actor dto)
      audit tenant actor "shift.open" shift.id
      pure shift)
      t

-- The guards of `closeShift`, in its order.
unfoldable pub check_close : Option Shift → String → Result Shift
check_close none actor = err (not_found "Shift not found")
check_close (some shift) actor =
    if not (is_open shift.status)
    then err (bad_request "Shift already closed")
    else if not (shift.cashier_id == actor)
    then err (bad_request "Not your shift")
    else ok shift

-- The invoices and expenses are read by the id and the tenant that found the shift.
unfoldable pub close_shift : String → ℤ → String → String → Run Till (Shift × ShiftSummary)
unfolding find_by_id check_close close audit
close_shift shift_id closing_cash tenant actor t =
    (do
      shift ← lift (check_close (find_by_id shift_id tenant t) actor)
      let summary =
          build_shift_summary shift.opening_cash closing_cash (get_shift_invoices shift_id tenant t)
            (get_shift_expenses shift_id tenant t)
      closed ← close shift_id tenant closing_cash summary.expected_cash summary.discrepancy
      audit tenant actor "shift.close" shift_id
      pure (closed, summary))
      t

unfoldable pub log_drawer_open : String → String → Run Till String
unfolding find_open_by_user audit
log_drawer_open tenant actor t = elim (find_open_by_user actor tenant t) [
  | none ↦ throw (bad_request "No open shift — open a shift before opening the drawer") t
  | some shift ↦ (do audit tenant actor "pos.drawer_opened" shift.id; pure shift.id) t
]

unfoldable pub get_current_shift : String → String → Option String → Till → Option Shift
get_current_shift tenant actor branch t = elim (truthy branch) [
  | some b ↦ find_current_by_branch b tenant t
  | none ↦ find_open_by_user actor tenant t
]

unfoldable pub assert_open_session : String → Option String → Till → Result (Unit {0})
unfolding find_by_id
assert_open_session tenant shift_id t = elim (truthy shift_id) [
  | none ↦ err (bad_request "NO_ACTIVE_CASH_SESSION: no cash register session id was provided")
  | some id ↦ elim (find_by_id id tenant t) [
    | none ↦ err (bad_request "NO_ACTIVE_CASH_SESSION: cash register session is not open")
    | some shift ↦
        if is_open shift.status
        then ok tt
        else err (bad_request "NO_ACTIVE_CASH_SESSION: cash register session is not open")
  ]
]

unfoldable pub get_shift_summary : String → String → Till → Result (Shift × ShiftSummary)
unfolding find_by_id
get_shift_summary shift_id tenant t = elim (find_by_id shift_id tenant t) [
  | none ↦ err (not_found "Shift not found")
  | some shift ↦ ok (
    shift,
    build_shift_summary shift.opening_cash (or_zero shift.closing_cash)
        (get_shift_invoices shift_id tenant t) (get_shift_expenses shift_id tenant t),
  )
]
