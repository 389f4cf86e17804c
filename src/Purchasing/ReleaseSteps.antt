-- ===== src/Purchasing/ReleaseSteps.antt =====
-- src/modules/purchasing/releases.service.ts and its repository: the operations on a release that
-- exists.
use apiv.Prelude.{
  ℕ, String, Bool, true, not, ◌&&◌, ◌||◌, Option, none, some, ◌∷◌, ◌==◌, Run, Result, Error, ok,
  err, forbidden, not_found, bad_request, database, throw_if, ◌>>=◌, ◌>>◌, filter, update,
  maybe_single,
}
use apiv.Purchasing.Approval
use apiv.Purchasing.Approval.{ApprovalResult, HistoryEntry, can_approve, can_reject}
use apiv.Purchasing.Orders.{rejection_note, or_empty, or_kept}
use apiv.Purchasing.Agreements.{ReleaseStatus, Release, Books}
use apiv.Purchasing.Releases.{same, at_most_one}
use apiv.Purchasing.ReleaseCreation.{result}

abbrev pub is_row : String → String → Release → Bool
is_row id tenant r = (r.id == id) && (r.tenant_id == tenant)

abbrev pub is_live : String → String → Release → Bool
is_live id tenant r = is_row id tenant r && not r.is_deleted

abbrev found : Result (Option Release) → Result Release
found (err e) = err e
found (ok none) = err (not_found "Release not found")
found (ok (some r)) = ok r

unfoldable pub find_by_id : String → String → Run Books Release
find_by_id id tenant s = (found (at_most_one (filter (is_live id tenant) s.releases)), s)

-- An update and its `single()`.
unfoldable pub write_one : (Release → Bool) → (Release → Release) → Run Books Release
write_one p f s = elim (maybe_single (filter p s.releases)) [
  | none ↦ (err database, s)
  | some r ↦ (ok (f r), record s { releases = update p f s.releases })
]

abbrev pub is_at : ReleaseStatus → String → String → Release → Bool
is_at st id tenant r = is_row id tenant r && same r.status st

abbrev with_notes : Option String → Release → Release
with_notes notes r = record r { notes = or_kept notes r.notes }

unfoldable pub update_release : String → String → Option String → Run Books Release
update_release id tenant notes = do
  r ← find_by_id id tenant
  throw_if (not (same r.status ReleaseStatus.draft)) (forbidden "Only draft releases can be edited")
  write_one (is_at ReleaseStatus.draft id tenant) (with_notes notes)

-- `history`, and the row that the operation returns.
unfoldable pub recorded :
    String
    → String
    → String
    → String
    → ReleaseStatus
    → ReleaseStatus
    → Option String
    → Release
    → Run Books Release
recorded id tenant action actor before after reason row s = (
  ok row,
  record s {
    history =
        record {
          tenant_id = tenant;
          reference_id = id;
          action = action;
          actor_id = actor;
          previous_status = before;
          new_status = after;
          reason = reason;
        }
        ∷ s.history;
  },
)

abbrev pub with_status : ReleaseStatus → Release → Release
with_status st r = record r { status = st }

unfoldable pub submit : String → String → String → Run Books Release
submit id tenant actor = do
  r ← find_by_id id tenant
  row ← write_one (is_at ReleaseStatus.draft id tenant) (with_status ReleaseStatus.submitted)
  recorded id tenant "submitted" actor r.status ReleaseStatus.submitted none row

abbrev pub resolved : ReleaseStatus → ApprovalResult → Option String → Release → Release
resolved st result notes r = record r {
  status = st;
  approved_by = some result.resolved_by;
  approved_at = some result.resolved_at;
  notes = notes;
}

abbrev pub approved_row : ApprovalResult → Release → Release
approved_row result r = resolved ReleaseStatus.approved result r.notes r

abbrev pub not_approvable : Error
not_approvable = bad_request "Cannot approve release in its status"

unfoldable pub approve : ℕ → String → String → String → Run Books Release
approve now id tenant approved_by = do
  r ← find_by_id id tenant
  throw_if (not (can_approve same r.status ReleaseStatus.submitted)) not_approvable
  row ←
      write_one (is_at ReleaseStatus.submitted id tenant)
        (approved_row (Approval.approve now approved_by))
  recorded id tenant "approved" approved_by r.status ReleaseStatus.approved none row

abbrev pub rejected_row : Release → ApprovalResult → Release → Release
rejected_row r result =
    resolved ReleaseStatus.rejected result (some (rejection_note r.notes (or_empty result.reason)))

abbrev pub not_rejectable : Error
not_rejectable = bad_request "Cannot reject release in its status"

-- The update has no condition on the status.
unfoldable pub reject : ℕ → String → String → String → String → Run Books Release
reject now id tenant rejected_by reason = do
  r ← find_by_id id tenant
  throw_if (not (can_reject same r.status ReleaseStatus.submitted ReleaseStatus.approved))
      not_rejectable
  decision ← result (λ _. Approval.reject now rejected_by reason)
  row ← write_one (is_row id tenant) (rejected_row r decision)
  recorded id tenant "rejected" rejected_by r.status ReleaseStatus.rejected decision.reason row

abbrev can_cancel : String → String → Release → Bool
can_cancel id tenant r =
    is_row id tenant r
    && (same r.status ReleaseStatus.draft || same r.status ReleaseStatus.submitted)

unfoldable pub cancel : String → String → String → Run Books Release
cancel id tenant actor = do
  r ← find_by_id id tenant
  throw_if (same r.status ReleaseStatus.approved) (bad_request "Cannot cancel an approved release")
  row ← write_one (can_cancel id tenant) (with_status ReleaseStatus.cancelled)
  recorded id tenant "cancelled" actor r.status ReleaseStatus.cancelled none row

abbrev deleted : Release → Release
deleted r = record r { is_deleted = true }

-- The update of `softDelete` is content with no row.
unfoldable pub remove : String → String → Run Books (Unit {0})
remove id tenant = do
  r ← find_by_id id tenant
  throw_if (not (same r.status ReleaseStatus.draft))
      (forbidden "Only draft releases can be deleted")
  λ s. (
    ok tt,
    record s { releases = update (is_at ReleaseStatus.draft id tenant) deleted s.releases },
  )
