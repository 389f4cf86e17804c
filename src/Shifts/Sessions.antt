-- ===== src/Shifts/Sessions.antt =====
-- How many sessions a cashier has open, whatever sequence of calls is made.
use apiv.Prelude.{
  ℕ, suc, ◌≤◌, String, ◌&&◌, eq_iff, List, [], ◌∷◌, ◌==◌, ◌≡◌, refl, inl, inr, arith, Result, ok,
  err, bad_request, length, filter, update, maybe_single, nat_eq, Result-cases, if◌then◌else◌,
}
use apiv.Prelude.Int.{ℤ}
use apiv.Till.{Shift, Till}
use apiv.Shifts.Engine.{validate_no_double_shift, build_shift_summary}
use apiv.Shifts.Repository.{
  is_open_of, is_row, closed_with, find_open_by_user, find_by_id, close, create, get_shift_invoices,
  get_shift_expenses,
}
use apiv.Shifts.Service.{
  OpenShift, new_shift, is_some, open_shift, close_shift, log_drawer_open, audit, check_close,
}

-- The number of open sessions of a cashier in a tenant.
abbrev pub open_count : String → String → List Shift → ℕ
open_count cashier tenant shifts = length (filter (is_open_of cashier tenant) shifts)

-- No cashier has two open sessions in a tenant.
abbrev pub AtMostOne : Till → Type 0
AtMostOne t = (cashier tenant : String) → open_count cashier tenant t.shifts ≤ 1

abbrev pub refusal : Result Shift
refusal = err (bad_request "A shift is already open for this cashier")

is_some-maybe_single : (xs : List Shift) → is_some (maybe_single xs) ≡ nat_eq (length xs) 1
is_some-maybe_single [] = refl
is_some-maybe_single (x ∷ []) = refl
is_some-maybe_single (x ∷ y ∷ xs) = ground arith

open_shift_rows :
    (id : String) (dto : OpenShift) (tenant actor : String) (t : Till)
    → (open_shift id dto tenant actor t).1.shifts ≡ (
        if nat_eq (open_count actor tenant t.shifts) 1
        then t.shifts
        else new_shift id tenant actor dto ∷ t.shifts)
unfolding open_shift validate_no_double_shift create audit find_open_by_user
open_shift_rows id dto tenant actor t =
    ground (arith, is_some-maybe_single (filter (is_open_of actor tenant) t.shifts))

-- `openShift` refuses exactly when the cashier has one open session in the tenant; it opens the new
-- one when there is none, and also when there are two or more.
pub open_shift_lem :
    (id : String) (dto : OpenShift) (tenant actor : String) (t : Till)
    → ((open_shift id dto tenant actor t).0 ≡ (
        if nat_eq (open_count actor tenant t.shifts) 1
        then refusal
        else ok (new_shift id tenant actor dto)))
      × ((open_shift id dto tenant actor t).1.shifts ≡ (
          if nat_eq (open_count actor tenant t.shifts) 1
          then t.shifts
          else new_shift id tenant actor dto ∷ t.shifts))
unfolding open_shift validate_no_double_shift create audit find_open_by_user
open_shift_lem id dto tenant actor t = (
  ground (arith, is_some-maybe_single (filter (is_open_of actor tenant) t.shifts)),
  open_shift_rows id dto tenant actor t,
)

-- The new session counts for its own cashier and tenant only.
open_count-new :
    (c n id : String) (dto : OpenShift) (tenant actor : String) (shifts : List Shift)
    → open_count c n (new_shift id tenant actor dto ∷ shifts) ≤ (
        if (tenant == n) && (actor == c)
        then suc (open_count c n shifts)
        else open_count c n shifts)
open_count-new c n id dto tenant actor shifts = ground arith

open_shift-AtMostOne :
    (id : String) (dto : OpenShift) (tenant actor : String) (t : Till)
    → AtMostOne t
    → AtMostOne (open_shift id dto tenant actor t).1
open_shift-AtMostOne id dto tenant actor t h c n =
    rw (open_shift_rows id dto tenant actor t)
      (ground (arith, h c n, h actor tenant, eq_iff tenant n, eq_iff actor c))

open_count-close :
    (c n id tenant : String) (a b d : ℤ) (shifts : List Shift)
    → open_count c n (update (is_row id tenant) (closed_with a b d) shifts) ≤ open_count c n shifts
open_count-close c n id tenant a b d [] = omega arith
open_count-close c n id tenant a b d (s ∷ ss) =
    ground (arith, open_count-close c n id tenant a b d ss)

-- The row that a close writes is one of a session that is no longer open.
close-AtMostOne :
    (id tenant : String) (a b d : ℤ) (t : Till)
    → AtMostOne t
    → AtMostOne (close id tenant a b d t).1
unfolding close
close-AtMostOne id tenant a b d t h c n =
    ground (arith, h c n, open_count-close c n id tenant a b d t.shifts)

close_shift-AtMostOne :
    (id : String) (closing_cash : ℤ) (tenant actor : String) (t : Till)
    → AtMostOne t
    → AtMostOne (close_shift id closing_cash tenant actor t).1
unfolding close_shift audit
close_shift-AtMostOne id closing_cash tenant actor t h c n =
    let after = λ (shift : Shift).
      let sum =
        build_shift_summary shift.opening_cash closing_cash (get_shift_invoices id tenant t)
          (get_shift_expenses id tenant t) in
      close-AtMostOne id tenant closing_cash sum.expected_cash sum.discrepancy t h c n in
    elim (Result-cases (check_close (find_by_id id tenant t) actor)) [
      | inl (e, q) ↦ rw q (h c n)
      | inr (shift, q) ↦ rw q (ground (arith, after shift))
    ]

log_drawer_open_shifts :
    (tenant actor : String) (t : Till) → (log_drawer_open tenant actor t).1.shifts ≡ t.shifts
unfolding log_drawer_open audit
log_drawer_open_shifts tenant actor t = ground arith

-- A request to the service: a new session, the end of one, or the drawer.
pub data Call : Type 0 where
  opening : (id : String) → OpenShift → (tenant actor : String) → Call
  closing : (shift_id : String) → ℤ → (tenant actor : String) → Call
  drawer : (tenant actor : String) → Call

-- What a request leaves behind, whether it was refused or not.
unfoldable pub serve : Call → Till → Till
serve (opening id dto tenant actor) t = (open_shift id dto tenant actor t).1
serve (closing id closing_cash tenant actor) t = (close_shift id closing_cash tenant actor t).1
serve (drawer tenant actor) t = (log_drawer_open tenant actor t).1

unfoldable pub serve_all : List Call → Till → Till
serve_all [] t = t
serve_all (c ∷ cs) t = serve_all cs (serve c t)

serve-AtMostOne : (c : Call) (t : Till) → AtMostOne t → AtMostOne (serve c t)
unfolding serve
serve-AtMostOne (opening id dto tenant actor) t h = open_shift-AtMostOne id dto tenant actor t h
serve-AtMostOne (closing id cash tenant actor) t h = close_shift-AtMostOne id cash tenant actor t h
serve-AtMostOne (drawer tenant actor) t h =
    λ c n. rw (log_drawer_open_shifts tenant actor t) (h c n)

-- Where no cashier has two open sessions in a tenant, none has two after any sequence of requests to
-- open a session, close one or open the drawer, in any order and by any users.
pub serve_all-AtMostOne :
    (calls : List Call) (t : Till) → AtMostOne t → AtMostOne (serve_all calls t)
unfolding serve_all
serve_all-AtMostOne [] t h = h
serve_all-AtMostOne (c ∷ cs) t h = serve_all-AtMostOne cs (serve c t) (serve-AtMostOne c t h)
