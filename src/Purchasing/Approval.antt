-- ===== src/Purchasing/Approval.antt =====
-- src/engines/approval-engine: the decisions and the history that every approved entity shares.
use apiv.Prelude.{
  ℕ, String, Bool, ◌||◌, Option, none, some, ◌==◌, Result, ok, err, bad_request, trim,
  if◌then◌else◌,
}

pub data ApprovalOutcome : Type 0 where
  approved rejected : ApprovalOutcome

pub record ApprovalResult : Type 0 where
  pub status : ApprovalOutcome
  pub resolved_at : ℕ
  pub resolved_by : String
  pub reason : Option String

unfoldable pub approve : ℕ → String → ApprovalResult
approve now approver = record {
  status = ApprovalOutcome.approved;
  resolved_at = now;
  resolved_by = approver;
  reason = none;
}

unfoldable pub reject : ℕ → String → String → Result ApprovalResult
reject now approver reason =
    if trim reason == ""
    then err (bad_request "Rejection reason is required")
    else ok (record {
      status = ApprovalOutcome.rejected;
      resolved_at = now;
      resolved_by = approver;
      reason = some (trim reason);
    })

-- The statuses of an entity are texts to the engine; here any type with a test for equality.
unfoldable pub can_approve : {S : Type 0} → (S → S → Bool) → S → S → Bool
can_approve same current pending_status = same current pending_status

unfoldable pub can_reject : {S : Type 0} → (S → S → Bool) → S → S → S → Bool
can_reject same current pending_status approved_status =
    same current pending_status || same current approved_status

-- approval_history, the newest first; the reference type is the entity's.
pub record HistoryEntry (S : Type 0) : Type 0 where
  pub tenant_id : String
  pub reference_id : String
  pub action : String
  pub actor_id : String
  pub previous_status : S
  pub new_status : S
  pub reason : Option String
