-- ===== src/Purchasing/Orders.antt =====
-- src/modules/purchasing/purchase-orders.service.ts and its repository, with the constraint on order
-- numbers of src/database/migrations/018_purchasing_and_ops.sql.
use apiv.Prelude.{
  ℕ, String, Bool, true, false, not, ◌&&◌, ◌||◌, Option, none, some, List, [], ◌∷◌, ◌==◌, Run,
  Result, Error, ok, err, forbidden, not_found, bad_request, database, pure, throw_if, ◌>>=◌, ◌>>◌,
  any, filter, update, maybe_single, join, truthy, if◌then◌else◌,
}
use apiv.Purchasing.Approval
use apiv.Purchasing.Approval.{ApprovalResult, HistoryEntry, can_approve, can_reject}

pub data Status : Type 0 where
  draft submitted approved rejected partially_received received cancelled : Status

abbrev pub same : Status → Status → Bool
same draft draft = true
same submitted submitted = true
same approved approved = true
same rejected rejected = true
same partially_received partially_received = true
same received received = true
same cancelled cancelled = true
same _ _ = false

pub record PurchaseOrder : Type 0 where
  pub id : String
  pub tenant_id : String
  pub order_number : String
  pub status : Status
  pub expected_date : Option String
  pub notes : Option String
  pub created_by : String
  pub approved_by : Option String
  pub approved_at : Option ℕ
  pub is_deleted : Bool

pub record Store : Type 0 where
  pub orders : List PurchaseOrder
  pub history : List (HistoryEntry Status)

abbrev pub is_row : String → String → PurchaseOrder → Bool
is_row id tenant o = (o.id == id) && (o.tenant_id == tenant)

abbrev pub is_live : String → String → PurchaseOrder → Bool
is_live id tenant o = is_row id tenant o && not o.is_deleted

-- `findById` of the service, over that of the repository, whose `maybeSingle` throws on two rows.
abbrev pub one : List PurchaseOrder → Result PurchaseOrder
one [] = err (not_found "Purchase order not found")
one (o ∷ []) = ok o
one (o ∷ p ∷ os) = err database

unfoldable pub find_by_id : String → String → Run Store PurchaseOrder
find_by_id id tenant s = (one (filter (is_live id tenant) s.orders), s)

-- An update and its `single()`, which throws, and writes nothing, unless it wrote one row.
unfoldable pub write_one :
    (PurchaseOrder → Bool) → (PurchaseOrder → PurchaseOrder) → Run Store PurchaseOrder
write_one p f s = elim (maybe_single (filter p s.orders)) [
  | none ↦ (err database, s)
  | some o ↦ (ok (f o), record s { orders = update p f s.orders })
]

unfoldable pub record_history : HistoryEntry Status → Run Store (Unit {0})
record_history e s = (ok tt, record s { history = e ∷ s.history })

abbrev pub with_status : Status → PurchaseOrder → PurchaseOrder
with_status st o = record o { status = st }

-- `create`: the header; the number of a live order is unique in its tenant. The lines, which no other
-- operation here reads, are left out.
abbrev pub has_number : String → String → PurchaseOrder → Bool
has_number tenant number o =
    (o.tenant_id == tenant) && (o.order_number == number) && not o.is_deleted

unfoldable pub create :
    String → String → String → Option String → Option String → String → Run Store PurchaseOrder
create id tenant number expected_date notes created_by s =
    if any (has_number tenant number) s.orders
    then (err database, s)
    else let o : PurchaseOrder = record {
      id = id;
      tenant_id = tenant;
      order_number = number;
      status = Status.draft;
      expected_date = expected_date;
      notes = notes;
      created_by = created_by;
      approved_by = none;
      approved_at = none;
      is_deleted = false;
    } in
      (ok o, record s { orders = o ∷ s.orders })

-- UpdatePurchaseOrderDto: a field that is absent is not written.
abbrev pub or_kept : Option String → Option String → Option String
or_kept none kept = kept
or_kept (some t) kept = some t

abbrev pub edited : Option String → Option String → PurchaseOrder → PurchaseOrder
edited expected_date notes o = record o {
  expected_date = or_kept expected_date o.expected_date;
  notes = or_kept notes o.notes;
}

abbrev pub is_at : Status → String → String → PurchaseOrder → Bool
is_at st id tenant o = is_row id tenant o && same o.status st

-- Each operation goes on from the order that `findById` found.
abbrev pub not_editable : Error
not_editable = forbidden "Only draft purchase orders can be edited"

unfoldable pub update_found :
    String → String → Option String → Option String → PurchaseOrder → Run Store PurchaseOrder
unfolding write_one
update_found id tenant expected_date notes po = do
  throw_if (not (same po.status Status.draft)) not_editable
  write_one (is_at Status.draft id tenant) (edited expected_date notes)

unfoldable pub update_order :
    String → String → Option String → Option String → Run Store PurchaseOrder
unfolding find_by_id update_found
update_order id tenant expected_date notes = do
  po ← find_by_id id tenant
  update_found id tenant expected_date notes po

unfoldable pub submit : String → String → Run Store PurchaseOrder
unfolding find_by_id write_one
submit id tenant = do
  po ← find_by_id id tenant
  write_one (is_at Status.draft id tenant) (with_status Status.submitted)

abbrev pub resolved : Status → ApprovalResult → Option String → PurchaseOrder → PurchaseOrder
resolved st result notes o = record o {
  status = st;
  approved_by = some result.resolved_by;
  approved_at = some result.resolved_at;
  notes = notes;
}

abbrev pub approved_row : ApprovalResult → PurchaseOrder → PurchaseOrder
approved_row result o = resolved Status.approved result o.notes o

abbrev pub entry :
    String → String → String → String → Status → Status → Option String → HistoryEntry Status
entry tenant id action actor before after reason = record {
  tenant_id = tenant;
  reference_id = id;
  action = action;
  actor_id = actor;
  previous_status = before;
  new_status = after;
  reason = reason;
}

-- The last two calls of a decision: the history, and the row.
unfoldable pub recorded : HistoryEntry Status → PurchaseOrder → Run Store PurchaseOrder
unfolding record_history
recorded e updated = do record_history e; pure updated

unfoldable pub approve_write :
    ℕ → String → String → String → PurchaseOrder → Run Store PurchaseOrder
unfolding write_one recorded Approval.approve
approve_write now id tenant approved_by po = do
  updated ←
      write_one (is_at Status.submitted id tenant) (approved_row (Approval.approve now approved_by))
  recorded (entry tenant id "approved" approved_by po.status Status.approved none) updated

abbrev pub not_approvable : Error
not_approvable = bad_request "Cannot approve purchase order in its status"

unfoldable pub approve_found :
    ℕ → String → String → String → PurchaseOrder → Run Store PurchaseOrder
unfolding can_approve approve_write
approve_found now id tenant approved_by po = do
  throw_if (not (can_approve same po.status Status.submitted)) not_approvable
  approve_write now id tenant approved_by po

unfoldable pub approve : ℕ → String → String → String → Run Store PurchaseOrder
unfolding find_by_id approve_found
approve now id tenant approved_by = do
  po ← find_by_id id tenant
  approve_found now id tenant approved_by po

abbrev pub or_empty : Option String → String
or_empty none = ""
or_empty (some t) = t

abbrev pub rejection_note : Option String → String → String
rejection_note notes reason = elim (truthy notes) [
  | none ↦ join ("Rejected: " ∷ reason ∷ [])
  | some n ↦ join (n ∷ " | Rejected: " ∷ reason ∷ [])
]

abbrev pub lift : {A : Type 0} → Result A → Run Store A
lift r s = (r, s)

abbrev pub rejected_row : PurchaseOrder → ApprovalResult → PurchaseOrder → PurchaseOrder
rejected_row po result o =
    resolved Status.rejected result (some (rejection_note po.notes (or_empty result.reason))) o

-- The update has no condition on the status.
unfoldable pub reject_write :
    String → String → String → PurchaseOrder → ApprovalResult → Run Store PurchaseOrder
unfolding write_one recorded
reject_write id tenant rejected_by po result = do
  updated ← write_one (is_row id tenant) (rejected_row po result)
  recorded (entry tenant id "rejected" rejected_by po.status Status.rejected result.reason) updated

abbrev pub not_rejectable : Error
not_rejectable = bad_request "Cannot reject purchase order in its status"

unfoldable pub reject_reasoned :
    ℕ → String → String → String → String → PurchaseOrder → Run Store PurchaseOrder
unfolding reject_write Approval.reject
reject_reasoned now id tenant rejected_by reason po = do
  result ← lift (Approval.reject now rejected_by reason)
  reject_write id tenant rejected_by po result

unfoldable pub reject_found :
    ℕ → String → String → String → String → PurchaseOrder → Run Store PurchaseOrder
unfolding can_reject reject_reasoned
reject_found now id tenant rejected_by reason po = do
  throw_if (not (can_reject same po.status Status.submitted Status.approved)) not_rejectable
  reject_reasoned now id tenant rejected_by reason po

unfoldable pub reject : ℕ → String → String → String → String → Run Store PurchaseOrder
unfolding find_by_id reject_found
reject now id tenant rejected_by reason = do
  po ← find_by_id id tenant
  reject_found now id tenant rejected_by reason po

abbrev pub is_cancellable : Status → Bool
is_cancellable st = same st Status.draft || (same st Status.submitted || same st Status.approved)

abbrev pub can_cancel : String → String → PurchaseOrder → Bool
can_cancel id tenant o = is_row id tenant o && is_cancellable o.status

unfoldable pub cancel : String → String → Run Store PurchaseOrder
unfolding find_by_id write_one
cancel id tenant = do
  po ← find_by_id id tenant
  write_one (can_cancel id tenant) (with_status Status.cancelled)

abbrev pub deleted : PurchaseOrder → PurchaseOrder
deleted o = record o { is_deleted = true }

-- The update of `softDelete` has no `single()`: it is content with no row.
unfoldable pub soft_delete : String → String → Run Store (Unit {0})
soft_delete id tenant s =
    (ok tt, record s { orders = update (is_at Status.draft id tenant) deleted s.orders })

abbrev pub not_removable : Error
not_removable = forbidden "Only draft purchase orders can be deleted"

unfoldable pub remove_found : String → String → PurchaseOrder → Run Store (Unit {0})
unfolding soft_delete
remove_found id tenant po = do
  throw_if (not (same po.status Status.draft)) not_removable
  soft_delete id tenant

unfoldable pub remove : String → String → Run Store (Unit {0})
unfolding find_by_id remove_found
remove id tenant = do po ← find_by_id id tenant; remove_found id tenant po
