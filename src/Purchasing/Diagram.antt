-- ===== src/Purchasing/Diagram.antt =====
-- The life of a purchase order as a diagram, and the requests as steps along it.
use mathlib.Core.Path.{subst}
use apiv.Prelude.{
  ℕ, String, Bool, true, not, Option, none, ◌≡◌, ◌⊎◌, refl, sym, inl, inr, arith, Run, ok, filter,
  maybe_single, ◌>>=◌, Option-cases,
}
use apiv.Prelude.Rules.{bind_keeps, guard_keeps, All2, All2-same, All2-update}
use apiv.Purchasing.Approval
use apiv.Purchasing.Approval.{ApprovalResult, HistoryEntry, can_approve, can_reject}
use apiv.Purchasing.Orders.{
  Status, draft, submitted, approved, rejected, partially_received, received, cancelled, same,
  PurchaseOrder, Store, is_live, is_at, one, find_by_id, write_one, record_history, with_status,
  edited, update_order, submit, approve, approved_row, is_cancellable, cancel, deleted, soft_delete,
  remove, entry, recorded, update_found, approve_found, approve_write, remove_found, can_cancel,
  not_editable, not_approvable, not_removable,
}

infix 40 ◌⟶◌ ◌⟶*◌
pub data ◌⟶◌ : Status → Status → Type 0 where
  send : draft ⟶ submitted
  accept : submitted ⟶ approved
  refuse : submitted ⟶ rejected
  reverse : approved ⟶ rejected
  drop_draft : draft ⟶ cancelled
  drop_submitted : submitted ⟶ cancelled
  drop_approved : approved ⟶ cancelled

pub data ◌⟶*◌ : Status → Status → Type 0 where
  here : {s : Status} → s ⟶* s
  then_step : {s t u : Status} → s ⟶ t → t ⟶* u → s ⟶* u

-- A row keeps its id and tenant, and its status stays or follows an edge.
pub record Moves (o o' : PurchaseOrder) : Type 0 where
  pub id : o'.id ≡ o.id
  pub tenant : o'.tenant_id ≡ o.tenant_id
  pub status : (o'.status ≡ o.status) ⊎ (o.status ⟶ o'.status)

pub stays : (o : PurchaseOrder) → Moves o o
stays o = record { id = refl; tenant = refl; status = inl refl }

abbrev pub RowsMove : Store → Store → Type 0
RowsMove s t = All2 Moves s.orders t.orders

pub same-eq : (a b : Status) → same a b ≡ true → a ≡ b
same-eq draft draft h = refl
same-eq submitted submitted h = refl
same-eq approved approved h = refl
same-eq rejected rejected h = refl
same-eq partially_received partially_received h = refl
same-eq received received h = refl
same-eq cancelled cancelled h = refl
same-eq _ _ h = absurd (cc)

pub rows_stay : (s : Store) → RowsMove s s
rows_stay s = All2-same Moves stays s.orders

write_keeps :
    (p : PurchaseOrder → Bool) (f : PurchaseOrder → PurchaseOrder) (s : Store)
    → ((o : PurchaseOrder) → p o ≡ true → Moves o (f o))
    → RowsMove s (write_one p f s).1
unfolding write_one
write_keeps p f s h = elim (Option-cases (maybe_single (filter p s.orders))) [
  | inl q ↦ rw (write_one, q) (rows_stay s)
  | inr (o, q) ↦ rw (write_one, q) (All2-update Moves stays p f s.orders h)
]

-- A row that the condition of an update fits has the status that it names.
at_status : (st id tenant : _) (o : PurchaseOrder) → is_at st id tenant o ≡ true → o.status ≡ st
at_status st id tenant o h = same-eq o.status st (ground arith)

pub along :
    {a b : Status} (f : PurchaseOrder → PurchaseOrder) (o : PurchaseOrder)
    → a ⟶ b
    → o.status ≡ a
    → b ≡ (f o).status
    → o.id ≡ (f o).id
    → o.tenant_id ≡ (f o).tenant_id
    → Moves o (f o)
along {a} {b} f o edge from to same_id same_tenant = record {
  id = sym same_id;
  tenant = sym same_tenant;
  status = inr (subst (λ x. o.status ⟶ x) to (subst (λ x. x ⟶ b) (sym from) edge));
}

-- The first call of each operation.
pub found_keeps :
    {B : Type 0} (id tenant : String) (k : PurchaseOrder → Run Store B) (s : Store)
    → ((o : PurchaseOrder)
        → one (filter (is_live id tenant) s.orders) ≡ ok o
        → RowsMove s (k o s).1)
    → RowsMove s ((find_by_id id tenant >>= k) s).1
unfolding find_by_id
found_keeps id tenant k s h =
    bind_keeps (RowsMove s) (find_by_id id tenant) k s (λ e q. rows_stay s) (λ o q. h o q)

pub submit-Moves : (id tenant : String) (s : Store) → RowsMove s (submit id tenant s).1
unfolding submit
submit-Moves id tenant s =
    found_keeps id tenant (λ po. write_one (is_at draft id tenant) (with_status submitted)) s
      (λ po q. write_keeps (is_at draft id tenant) (with_status submitted) s (λ o h.
        along (with_status submitted) o send (at_status draft id tenant o h) refl refl refl))

pub update_order-Moves :
    (id tenant : String) (expected_date notes : Option String) (s : Store)
    → RowsMove s (update_order id tenant expected_date notes s).1
unfolding update_order update_found
update_order-Moves id tenant expected_date notes s =
    found_keeps id tenant (update_found id tenant expected_date notes) s (λ po q.
      guard_keeps (RowsMove s) (not (same po.status draft)) not_editable
        (λ _. write_one (is_at draft id tenant) (edited expected_date notes)) s (rows_stay s)
        (λ g.
          write_keeps (is_at draft id tenant) (edited expected_date notes) s
            (λ o h. record { id = refl; tenant = refl; status = inl refl })))

-- A decision that is recorded changes the rows as its write does.
pub recorded_keeps :
    (p : PurchaseOrder → Bool) (f : PurchaseOrder → PurchaseOrder) (e : HistoryEntry Status)
    (s : Store)
    → RowsMove s (write_one p f s).1
    → RowsMove s ((write_one p f >>= recorded e) s).1
unfolding recorded record_history
recorded_keeps p f e s h =
    bind_keeps (RowsMove s) (write_one p f) (recorded e) s (λ x w. h) (λ o w. h)

pub approve-Moves :
    (now : ℕ) (id tenant actor : String) (s : Store) → RowsMove s (approve now id tenant actor s).1
unfolding approve approve_found approve_write
approve-Moves now id tenant actor s =
    let row = approved_row (Approval.approve now actor) in
    found_keeps id tenant (approve_found now id tenant actor) s (λ po q.
      guard_keeps (RowsMove s) (not (can_approve same po.status submitted)) not_approvable
        (λ _. approve_write now id tenant actor po) s (rows_stay s)
        (λ g.
          recorded_keeps (is_at submitted id tenant) row
            (entry tenant id "approved" actor po.status approved none) s
            (write_keeps (is_at submitted id tenant) row s
              (λ o h. along row o accept (at_status submitted id tenant o h) refl refl refl))))

cancel_edge : (st : Status) → is_cancellable st ≡ true → st ⟶ cancelled
cancel_edge draft h = drop_draft
cancel_edge submitted h = drop_submitted
cancel_edge approved h = drop_approved
cancel_edge _ h = absurd (cc)

pub cancel-Moves : (id tenant : String) (s : Store) → RowsMove s (cancel id tenant s).1
unfolding cancel
cancel-Moves id tenant s =
    found_keeps id tenant (λ po. write_one (can_cancel id tenant) (with_status cancelled)) s
      (λ po q. write_keeps (can_cancel id tenant) (with_status cancelled) s (λ o h.
        along (with_status cancelled) o (cancel_edge o.status (ground arith)) refl refl refl refl))

pub remove-Moves : (id tenant : String) (s : Store) → RowsMove s (remove id tenant s).1
unfolding remove remove_found soft_delete
remove-Moves id tenant s = found_keeps id tenant (remove_found id tenant) s (λ po q.
    guard_keeps (RowsMove s) (not (same po.status draft)) not_removable (λ _. soft_delete id tenant)
      s (rows_stay s)
      (λ g.
        All2-update Moves stays (is_at draft id tenant) deleted s.orders
          (λ o h. record { id = refl; tenant = refl; status = inl refl })))
