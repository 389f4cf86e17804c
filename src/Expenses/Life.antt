-- ===== src/Expenses/Life.antt =====
-- The life of an expense: the requests to the service and the hourly pass, in any sequence, move a
-- status along the diagram alone.
use mathlib.Core.Path.{subst}
use apiv.Prelude.{
  ℕ, String, true, false, not, List, [], ◌∷◌, ◌≡◌, ◌⊎◌, refl, ◌∙◌, inl, inr, arith, Bool-cases,
}
use apiv.Prelude.Rules.{bind_keeps, guard_keeps, All2, All2-same, All2-trans, All2-update}
use apiv.Till.{ExpenseStatus, Expense, Till}
use apiv.Purchasing.Approval
use apiv.Purchasing.Approval.{ApprovalResult, can_approve, can_reject}
use apiv.Expenses.Service.{
  same, is_expired, write_one, mark_expired, approved_row, approve_pending, not_approvable,
  approve_found, approve, lift, rejected_row, reject_write, reject_reasoned, not_rejectable,
  reject_found, reject, cancelled_row, not_cancellable, cancel_found, cancel, is_stale, expired_row,
  expire_stale_expenses,
}
use apiv.Expenses.Writes.{
  ◌⟶◌, accept, refuse, lapse, drop, reverse, Moves, from, stays, RowsMove, rows_stay, Keyed, Found,
  find_one_keeps, write_one-Moves, mark_expired-Moves, RowsMove-Keyed,
}

same-pending : (s : ExpenseStatus) → same s ExpenseStatus.pending ≡ true → s ≡ ExpenseStatus.pending
same-pending ExpenseStatus.pending h = refl
same-pending _ h = absurd (cc)

approve_pending-Moves :
    (now : ℕ) (id tenant actor : String) (e : Expense) (t : Till)
    → Keyed t.expenses
    → Found id tenant e t
    → e.status ≡ ExpenseStatus.pending
    → RowsMove t (approve_pending now id tenant actor e t).1
unfolding approve_pending mark_expired
approve_pending-Moves now id tenant actor e t keyed live h =
    elim (Bool-cases (is_expired now e.expires_at)) [
      | inl q ↦ rw q (mark_expired-Moves id tenant e t keyed live h)
      | inr q ↦ rw q (
          write_one-Moves id tenant (approved_row (Approval.approve now actor)) e t live (λ a.
            record {
              same_id = refl;
              same_tenant = refl;
              same_shift = refl;
              same_amount = refl;
              status = inr (from h accept);
            }))
    ]

pub approve-Moves :
    (now : ℕ) (id tenant actor : String) (t : Till)
    → Keyed t.expenses
    → RowsMove t (approve now id tenant actor t).1
unfolding approve approve_found can_approve
approve-Moves now id tenant actor t keyed =
    find_one_keeps id tenant (approve_found now id tenant actor) t (λ e live.
      guard_keeps (RowsMove t) (not (can_approve same e.status ExpenseStatus.pending))
        not_approvable (λ _. approve_pending now id tenant actor e) t (rows_stay t)
        (λ g.
          approve_pending-Moves now id tenant actor e t keyed live
            (same-pending e.status (ground arith))))

reject_edge :
    (s : ExpenseStatus)
    → not (can_reject same s ExpenseStatus.pending ExpenseStatus.approved) ≡ false
    → s ⟶ ExpenseStatus.rejected
unfolding can_reject
reject_edge ExpenseStatus.pending h = refuse
reject_edge ExpenseStatus.approved h = reverse
reject_edge _ h = absurd (cc)

reject_write-Moves :
    (id tenant : String) (e : Expense) (result : ApprovalResult) (t : Till)
    → Found id tenant e t
    → e.status ⟶ ExpenseStatus.rejected
    → RowsMove t (reject_write id tenant e result t).1
unfolding reject_write
reject_write-Moves id tenant e result t live edge =
    write_one-Moves id tenant (rejected_row e result) e t live (λ a. record {
      same_id = refl;
      same_tenant = refl;
      same_shift = refl;
      same_amount = refl;
      status = inr edge;
    })

pub reject-Moves :
    (now : ℕ) (id tenant actor reason : String) (t : Till)
    → RowsMove t (reject now id tenant actor reason t).1
unfolding reject reject_found reject_reasoned
reject-Moves now id tenant actor reason t =
    find_one_keeps id tenant (reject_found now id tenant actor reason) t (λ e live.
      guard_keeps (RowsMove t)
        (not (can_reject same e.status ExpenseStatus.pending ExpenseStatus.approved)) not_rejectable
        (λ _. reject_reasoned now id tenant actor reason e) t (rows_stay t)
        (λ g.
          bind_keeps (RowsMove t) (lift (Approval.reject now actor reason))
            (reject_write id tenant e) t (λ x q. rows_stay t)
            (λ result q. reject_write-Moves id tenant e result t live (reject_edge e.status g))))

pub cancel-Moves : (now : ℕ) (id tenant : String) (t : Till) → RowsMove t (cancel now id tenant t).1
unfolding cancel cancel_found
cancel-Moves now id tenant t = find_one_keeps id tenant (cancel_found now id tenant) t (λ e live.
    guard_keeps (RowsMove t) (not (same e.status ExpenseStatus.pending)) not_cancellable
      (λ _. write_one id tenant (cancelled_row now)) t (rows_stay t)
      (λ g. write_one-Moves id tenant (cancelled_row now) e t live (λ a. record {
        same_id = refl;
        same_tenant = refl;
        same_shift = refl;
        same_amount = refl;
        status = inr (from (same-pending e.status (ground arith)) drop);
      })))

pub expire_stale_expenses-Moves : (now : ℕ) (t : Till) → RowsMove t (expire_stale_expenses now t).1
unfolding expire_stale_expenses
expire_stale_expenses-Moves now t =
    All2-update Moves stays (is_stale now) expired_row t.expenses (λ e h. record {
      same_id = refl;
      same_tenant = refl;
      same_shift = refl;
      same_amount = refl;
      status = inr (from (same-pending e.status (ground arith)) lapse);
    })

-- A request about an expense that exists, or the hourly pass.
pub data Event : Type 0 where
  approving : (now : ℕ) (id tenant actor : String) → Event
  rejecting : (now : ℕ) (id tenant actor reason : String) → Event
  cancelling : (now : ℕ) (id tenant : String) → Event
  hour : (now : ℕ) → Event

-- The till after it, refused or not.
unfoldable pub handle : Event → Till → Till
handle (approving now id tenant actor) t = (approve now id tenant actor t).1
handle (rejecting now id tenant actor reason) t = (reject now id tenant actor reason t).1
handle (cancelling now id tenant) t = (cancel now id tenant t).1
handle (hour now) t = (expire_stale_expenses now t).1

unfoldable pub handle_all : List Event → Till → Till
handle_all [] t = t
handle_all (e ∷ es) t = handle_all es (handle e t)

pub handle-Moves : (e : Event) (t : Till) → Keyed t.expenses → RowsMove t (handle e t)
unfolding handle
handle-Moves (approving now id tenant actor) t h = approve-Moves now id tenant actor t h
handle-Moves (rejecting now id tenant actor reason) t h = reject-Moves now id tenant actor reason t
handle-Moves (cancelling now id tenant) t h = cancel-Moves now id tenant t
handle-Moves (hour now) t h = expire_stale_expenses-Moves now t

infix 40 ◌⟶*◌
pub data ◌⟶*◌ : ExpenseStatus → ExpenseStatus → Type 0 where
  here : {s : ExpenseStatus} → s ⟶* s
  then_step : {s t u : ExpenseStatus} → s ⟶ t → t ⟶* u → s ⟶* u

-- A row keeps its id, tenant, session and amount, and its status is reached along the diagram.
pub record Reaches (e e' : Expense) : Type 0 where
  pub same_id : e'.id ≡ e.id
  pub same_tenant : e'.tenant_id ≡ e.tenant_id
  pub same_shift : e'.shift_id ≡ e.shift_id
  pub same_amount : e'.amount ≡ e.amount
  pub status : e.status ⟶* e'.status

step_first : {a b c : ExpenseStatus} → (b ≡ a) ⊎ (a ⟶ b) → b ⟶* c → a ⟶* c
step_first {c} (inl e) p = subst (λ x. x ⟶* c) e p
step_first (inr edge) p = then_step edge p

Moves-Reaches : (e f g : Expense) → Moves e f → Reaches f g → Reaches e g
Moves-Reaches e f g m r = record {
  same_id = r.same_id ∙ m.same_id;
  same_tenant = r.same_tenant ∙ m.same_tenant;
  same_shift = r.same_shift ∙ m.same_shift;
  same_amount = r.same_amount ∙ m.same_amount;
  status = step_first m.status r.status;
}

-- Where the ids of the expenses differ: whatever sequence of approvals, rejections, cancellations and
-- hourly passes is run, refused ones among them, every expense stays, with its id, tenant, session and
-- amount, and its status was reached from pending to approved, rejected, expired or cancelled, or from
-- approved to rejected.
pub handle_all-Reaches :
    (es : List Event) (t : Till)
    → Keyed t.expenses
    → All2 Reaches t.expenses (handle_all es t).expenses
unfolding handle_all
handle_all-Reaches [] t h =
    All2-same Reaches
      (λ e. record {
        same_id = refl;
        same_tenant = refl;
        same_shift = refl;
        same_amount = refl;
        status = here;
      })
      t.expenses
handle_all-Reaches (e ∷ es) t h =
    let moved = handle-Moves e t h in
    All2-trans Moves Reaches Reaches Moves-Reaches t.expenses (handle e t).expenses
      (handle_all es (handle e t)).expenses moved
      (handle_all-Reaches es (handle e t) (RowsMove-Keyed t.expenses (handle e t).expenses moved h))
