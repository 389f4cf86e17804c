-- ===== src/Shifts/Closing.antt =====
-- What a session that was closed satisfied, and what its row and summary then say.
use apiv.Prelude.{
  String, true, not, Option, none, some, List, [], ◌∷◌, ◌==◌, ◌≡◌, refl, sym, ap, ◌∙◌, inl, inr,
  arith, Result, Error, ok, err, filter, update, maybe_single, Result-cases, Option-cases,
  Bool-cases,
}
use apiv.Prelude.Filters.{filter-update_commute, filter-fits, filter_same_row}
use apiv.Prelude.Int.{ℤ, ◌-ℤ◌}
use apiv.Till.{ShiftStatus, Shift, Order, Expense, Till}
use apiv.Shifts.Engine.{ShiftSummary, build_shift_summary}
use apiv.Shifts.Repository.{
  is_open, is_row, is_shift, find_by_id, close, closed_with, get_shift_invoices, get_shift_expenses,
}
use apiv.Shifts.Service.{close_shift, check_close, audit}
use apiv.Shifts.Counts.{expected_of, expected_cash_lem}

-- `shift` was an open session of the actor, and `closed` and `summary` hold its reconciliation.
pub record Closes (shift_id : String) (closing_cash : ℤ) (tenant actor : String) (t : Till)
    (shift closed : Shift) (summary : ShiftSummary) (t' : Till) : Type 0 where
  pub found : find_by_id shift_id tenant t ≡ some shift
  pub was_open : is_open shift.status ≡ true
  pub own : (shift.cashier_id == actor) ≡ true
  pub expected :
      summary.expected_cash
      ≡ expected_of shift.opening_cash
          (get_shift_invoices shift_id tenant t)
          (get_shift_expenses shift_id tenant t)
  pub difference : summary.discrepancy ≡ closing_cash -ℤ summary.expected_cash
  pub closed_row : closed ≡ record shift {
    status = ShiftStatus.closed_shift;
    closing_cash = some closing_cash;
    expected_cash = some summary.expected_cash;
    discrepancy = some summary.discrepancy;
  }
  pub stored : find_by_id shift_id tenant t' ≡ some closed
  pub others :
      filter (λ (x : Shift). not (is_row shift_id tenant x)) t'.shifts
      ≡ filter (λ (x : Shift). not (is_row shift_id tenant x)) t.shifts

check_close-ok :
    (o : Option Shift) (actor : String) {shift : Shift}
    → check_close o actor ≡ ok shift
    → (o ≡ some shift) × (is_open shift.status ≡ true) × ((shift.cashier_id == actor) ≡ true)
unfolding check_close
check_close-ok none actor h = cc
check_close-ok (some s) actor h = ground arith

module _ (id tenant : String) (t : Till) where
  row_of : (xs : List Shift) {s : Shift} → maybe_single xs ≡ some s → xs ≡ s ∷ []
  row_of [] h = absurd (cc)
  row_of (x ∷ []) h = cc
  row_of (x ∷ y ∷ xs) h = absurd (cc)

  -- The update writes the row that the guards looked at, and stores it under its id.
  close-ok :
      (a b d : ℤ) {shift closed : Shift}
      → find_by_id id tenant t ≡ some shift
      → (close id tenant a b d t).0 ≡ ok closed
      → (closed_with a b d shift ≡ closed)
        × ((close id tenant a b d t).1.shifts
            ≡ update (is_row id tenant) (closed_with a b d) t.shifts)
  unfolding close find_by_id
  close-ok a b d found h = elim (Option-cases (maybe_single (filter (is_row id tenant) t.shifts))) [
    | inl e ↦ absurd (ground (arith, e))
    | inr (row, e) ↦
        let same =
          filter_same_row (is_row id tenant) (λ (x : Shift). not x.is_deleted) t.shifts
            (row_of (filter (is_row id tenant) t.shifts) e)
            (row_of (filter (is_shift id tenant) t.shifts) found) in
        (rw (← same) (ground (arith, e)), ground (arith, e))
  ]

  stored_row :
      (a b d : ℤ) {shift : Shift}
      → find_by_id id tenant t ≡ some shift
      → maybe_single
          (filter (is_shift id tenant) (update (is_row id tenant) (closed_with a b d) t.shifts))
        ≡ some (closed_with a b d shift)
  unfolding find_by_id
  stored_row a b d {shift} found =
      let one = row_of (filter (is_shift id tenant) t.shifts) found in
      let fits = filter-fits (is_shift id tenant) t.shifts one in
      rw
        (
          filter-update_commute (is_row id tenant) (is_shift id tenant) (closed_with a b d)
              (λ x. refl) t.shifts,
          one,
        )
        (ground (arith, fits))

  others_kept :
      (a b d : ℤ) (xs : List Shift)
      → filter
          (λ (x : Shift). not (is_row id tenant x))
          (update (is_row id tenant) (closed_with a b d) xs)
        ≡ filter (λ (x : Shift). not (is_row id tenant x)) xs
  others_kept a b d [] = refl
  others_kept a b d (x ∷ xs) = elim (Bool-cases (is_row id tenant x)) [
    | inl q ↦ ground (arith, q, others_kept a b d xs)
    | inr q ↦ ground (arith, q, others_kept a b d xs)
  ]

find_rows :
    (id tenant : String) (t : Till) {xs : List Shift}
    → t.shifts ≡ xs
    → find_by_id id tenant t ≡ maybe_single (filter (is_shift id tenant) xs)
unfolding find_by_id
find_rows id tenant t h = ap (λ (ys : List Shift). maybe_single (filter (is_shift id tenant) ys)) h

difference :
    (opening closing : ℤ) (invoices : List Order) (expenses : List Expense)
    → let s = build_shift_summary opening closing invoices expenses in
      s.discrepancy ≡ closing -ℤ s.expected_cash
unfolding build_shift_summary
difference opening closing invoices expenses = refl

abbrev summary_of : String → ℤ → String → Till → Shift → ShiftSummary
summary_of id closing_cash tenant t shift =
    build_shift_summary shift.opening_cash closing_cash (get_shift_invoices id tenant t)
      (get_shift_expenses id tenant t)

abbrev with_summary : ShiftSummary → Result Shift → Result (Shift × ShiftSummary)
with_summary summary (ok closed) = ok (closed, summary)
with_summary summary (err e) = err e

close_shift_result :
    (id : String) (closing_cash : ℤ) (tenant actor : String) (t : Till) (shift : Shift)
    → check_close (find_by_id id tenant t) actor ≡ ok shift
    → let summary = summary_of id closing_cash tenant t shift in
      (close_shift id closing_cash tenant actor t).0
      ≡ with_summary summary
          (close id tenant closing_cash summary.expected_cash summary.discrepancy t).0
unfolding close_shift audit
close_shift_result id closing_cash tenant actor t shift q = rw q (ground arith)

close_shift_shifts :
    (id : String) (closing_cash : ℤ) (tenant actor : String) (t : Till) (shift : Shift)
    → check_close (find_by_id id tenant t) actor ≡ ok shift
    → let summary = summary_of id closing_cash tenant t shift in
      (close_shift id closing_cash tenant actor t).1.shifts
      ≡ (close id tenant closing_cash summary.expected_cash summary.discrepancy t).1.shifts
unfolding close_shift audit
close_shift_shifts id closing_cash tenant actor t shift q = rw q (ground arith)

close_shift_refused :
    (id : String) (closing_cash : ℤ) (tenant actor : String) (t : Till) (e : Error)
    → check_close (find_by_id id tenant t) actor ≡ err e
    → (close_shift id closing_cash tenant actor t).0 ≡ err e
unfolding close_shift
close_shift_refused id closing_cash tenant actor t e q = rw q

with_summary-ok :
    (sum : ShiftSummary) (r : Result Shift) {closed : Shift} {summary : ShiftSummary}
    → with_summary sum r ≡ ok (closed, summary)
    → (r ≡ ok closed) × (sum ≡ summary)
with_summary-ok sum (ok s) h = (cc, cc)
with_summary-ok sum (err e) h = absurd (cc)

-- A call of `closeShift` that succeeds was made for an open session of the actor. The expected cash is
-- what the drawer opened with, plus what the completed invoices of the session took in cash, minus its
-- approved expenses; the discrepancy is the counted cash minus the expected cash. The row stored under
-- the session's id is then the returned one, which is closed with these three amounts and otherwise as
-- before; and the rows of every other id or tenant are as before.
pub close_shift_lem :
    (id : String) (closing_cash : ℤ) (tenant actor : String) (t : Till) {closed : Shift}
    {summary : ShiftSummary}
    → (close_shift id closing_cash tenant actor t).0 ≡ ok (closed, summary)
    → (shift : Shift) × Closes id closing_cash tenant actor t shift closed summary
        (close_shift id closing_cash tenant actor t).1
close_shift_lem id closing_cash tenant actor t h =
    elim (Result-cases (check_close (find_by_id id tenant t) actor)) [
      | inl (e, q) ↦ absurd (cc (close_shift_refused id closing_cash tenant actor t e q))
      | inr (shift, q) ↦
          let sum = summary_of id closing_cash tenant t shift in
          let guards = check_close-ok (find_by_id id tenant t) actor q in
          let parts =
            with_summary-ok sum (close id tenant closing_cash sum.expected_cash sum.discrepancy t).0
              (sym (close_shift_result id closing_cash tenant actor t shift q) ∙ h) in
          let row =
            close-ok id tenant t closing_cash sum.expected_cash sum.discrepancy guards.0 parts.0 in
          let rows = close_shift_shifts id closing_cash tenant actor t shift q ∙ row.1 in
          (
            shift,
            record {
              found = guards.0;
              was_open = guards.1;
              own = guards.2;
              expected = rw (← parts.1) (expected_cash_lem shift.opening_cash closing_cash _ _);
              difference = rw (← parts.1) (difference shift.opening_cash closing_cash _ _);
              closed_row = rw (← row.0, ← parts.1) refl;
              stored =
                  find_rows id tenant (close_shift id closing_cash tenant actor t).1 rows
                  ∙ (stored_row id tenant t closing_cash sum.expected_cash sum.discrepancy guards.0
                      ∙ ap some row.0);
              others =
                  ap (filter (λ (x : Shift). not (is_row id tenant x))) rows
                  ∙ others_kept id tenant t closing_cash sum.expected_cash sum.discrepancy t.shifts;
            },
          )
    ]
