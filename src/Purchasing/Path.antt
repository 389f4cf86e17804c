-- ===== src/Purchasing/Path.antt =====
-- The way of a draft to an approved order.
use apiv.Prelude.{
  ℕ, String, Bool, true, false, none, [], ◌∷◌, ◌≡◌, refl, ◌∙◌, Run, ◌>>=◌, ok, filter, update,
}
use apiv.Prelude.Filters.{filter-and}
use apiv.Prelude.Rules.{bind_ok}
use apiv.Purchasing.Approval
use apiv.Purchasing.Approval.{can_approve, HistoryEntry}
use apiv.Purchasing.Orders.{
  Status, draft, submitted, approved, same, PurchaseOrder, Store, is_row, is_live, is_at,
  find_by_id, write_one, record_history, recorded, with_status, approved_row, submit, approve,
  approve_found, approve_write, entry,
}
use apiv.Purchasing.Requests.{filter-live}

-- The order is the only one of its id and tenant, and not deleted.
pub record Alone (id tenant : String) (o : PurchaseOrder) (s : Store) : Type 0 where
  pub only : filter (is_row id tenant) s.orders ≡ o ∷ []
  pub kept : o.is_deleted ≡ false

module _ (id tenant : String) (o : PurchaseOrder) (s : Store) (alone : Alone id tenant o s) where
  live_row : filter (is_live id tenant) s.orders ≡ o ∷ []
  live_row = rw (filter-live id tenant s.orders, alone.only, alone.kept) refl

  row_at : (st : Status) → same o.status st ≡ true → filter (is_at st id tenant) s.orders ≡ o ∷ []
  row_at st h =
      rw
        (
          filter-and (is_row id tenant) (λ (x : PurchaseOrder). same x.status st) s.orders,
          alone.only,
          h,
        )
        refl

  abbrev written : (PurchaseOrder → Bool) → (PurchaseOrder → PurchaseOrder) → Store
  written p f = record s { orders = update p f s.orders }

  -- The first call finds the order, and an update with a condition that it fits writes it.
  found_alone :
      {B : Type 0} (k : PurchaseOrder → Run Store B) → (find_by_id id tenant >>= k) s ≡ k o s
  unfolding find_by_id
  found_alone k = rw (find_by_id, ◌>>=◌, live_row) refl

  write_alone :
      (p : PurchaseOrder → Bool) (f : PurchaseOrder → PurchaseOrder)
      → filter p s.orders ≡ o ∷ []
      → write_one p f s ≡ (ok (f o), written p f)
  unfolding write_one
  write_alone p f h = rw (write_one, h) refl

  pub submit_alone :
      same o.status draft ≡ true
      → submit id tenant s
        ≡ (ok (with_status submitted o), written (is_at draft id tenant) (with_status submitted))
  unfolding submit
  submit_alone h =
      found_alone (λ po. write_one (is_at draft id tenant) (with_status submitted))
      ∙ write_alone (is_at draft id tenant) (with_status submitted) (row_at draft h)

  guard_passed :
      (now : ℕ) (actor : String)
      → same o.status submitted ≡ true
      → approve_found now id tenant actor o s ≡ approve_write now id tenant actor o s
  unfolding approve_found can_approve
  guard_passed now actor h = rw (approve_found, h) refl

  pub approve_alone :
      (now : ℕ) (actor : String)
      → same o.status submitted ≡ true
      → let row = approved_row (Approval.approve now actor) in
        approve now id tenant actor s ≡ (
          ok (row o),
          record (written (is_at submitted id tenant) row) {
            history = entry tenant id "approved" actor o.status approved none ∷ s.history;
          },
        )
  unfolding approve approve_found approve_write can_approve recorded record_history
  approve_alone now actor h =
      let row = approved_row (Approval.approve now actor) in
      found_alone (approve_found now id tenant actor)
      ∙ (guard_passed now actor h
          ∙ bind_ok (write_one (is_at submitted id tenant) row)
              (recorded (entry tenant id "approved" actor o.status approved none))
              (write_alone (is_at submitted id tenant) row (row_at submitted h)))
