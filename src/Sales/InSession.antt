-- ===== src/Sales/InSession.antt =====
-- What `assertOpenSession` (src/modules/shifts/shifts.service.ts) establishes of the rows.
use apiv.Prelude.{
  String, true, not, ◌&&◌, some, List, [], ◌∷◌, ◌==◌, filter, maybe_single, ◌≡◌, refl, arith, inl,
  inr, ok, Option-cases,
}
use apiv.Till.{ShiftStatus, Shift, Till}
use apiv.Shifts.Repository.{find_by_id, is_open}
use apiv.Shifts.Service.{assert_open_session}

-- The session of a sale: the only row of its id and tenant that is not deleted, and it is open.
pub record InSession (shift_id tenant : String) (t : Till) : Type 0 where
  pub shift : Shift
  pub found :
      filter
        (λ (x : Shift). (x.id == shift_id) && (x.tenant_id == tenant) && not x.is_deleted)
        t.shifts
      ≡ shift ∷ []
  pub in_progress : shift.status ≡ ShiftStatus.open_shift

opened : (st : ShiftStatus) → is_open st ≡ true → st ≡ ShiftStatus.open_shift
opened ShiftStatus.open_shift h = refl
opened ShiftStatus.closed_shift h = absurd (cc)

only_row : (xs : List Shift) {s : Shift} → maybe_single xs ≡ some s → xs ≡ s ∷ []
only_row [] h = absurd (cc)
only_row (x ∷ []) h = cc
only_row (x ∷ y ∷ xs) h = absurd (cc)

pub assert_open_session-InSession :
    (tenant shift_id : String) (t : Till)
    → assert_open_session tenant (some shift_id) t ≡ ok tt
    → InSession shift_id tenant t
unfolding assert_open_session find_by_id
assert_open_session-InSession tenant shift_id t e =
    elim (Option-cases (find_by_id shift_id tenant t)) [
      | inl q ↦ absurd (ground (arith, q))
      | inr (shift, q) ↦ record {
        shift = shift;
        found = only_row _ q;
        in_progress = opened shift.status (ground (arith, q));
      }
    ]
