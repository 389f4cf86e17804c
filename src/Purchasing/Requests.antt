-- ===== src/Purchasing/Requests.antt =====
-- Rejection, and the requests to the service in any sequence.
use mathlib.Core.Path.{subst}
use apiv.Prelude.{
  ℕ, String, Bool, false, not, Option, some, List, [], ◌∷◌, ◌≡◌, ◌⊎◌, refl, sym, ap, ◌∙◌, inl, inr,
  ok, filter, maybe_single, Option-cases, Bool-cases,
}
use apiv.Prelude.Filters.{filter-and}
use apiv.Prelude.Rules.{bind_keeps, guard_keeps, All2, All2-same, All2-trans, All2-update_one}
use apiv.Purchasing.Approval
use apiv.Purchasing.Approval.{ApprovalResult, can_reject, can_approve}
use apiv.Purchasing.Orders.{
  Status, submitted, approved, rejected, same, PurchaseOrder, Store, is_row, is_live, one,
  write_one, reject, reject_found, reject_reasoned, reject_write, rejected_row, not_rejectable,
  submit, approve, update_order, cancel, remove, entry, lift,
}
use apiv.Purchasing.Diagram.{
  ◌⟶◌, ◌⟶*◌, here, then_step, refuse, reverse, Moves, RowsMove, stays, rows_stay, along,
  found_keeps, recorded_keeps, submit-Moves, update_order-Moves, approve-Moves, cancel-Moves,
  remove-Moves,
}

one-ok : (xs : List PurchaseOrder) {o : PurchaseOrder} → one xs ≡ ok o → xs ≡ o ∷ []
one-ok [] h = absurd (cc)
one-ok (x ∷ []) h = cc
one-ok (x ∷ y ∷ xs) h = absurd (cc)

maybe_single-some :
    (xs : List PurchaseOrder) {o : PurchaseOrder} → maybe_single xs ≡ some o → xs ≡ o ∷ []
maybe_single-some [] h = absurd (cc)
maybe_single-some (x ∷ []) h = cc
maybe_single-some (x ∷ y ∷ xs) h = absurd (cc)

abbrev pub is_kept : PurchaseOrder → Bool
is_kept o = not o.is_deleted

pub filter-live :
    (id tenant : String) (xs : List PurchaseOrder)
    → filter (is_live id tenant) xs ≡ filter is_kept (filter (is_row id tenant) xs)
filter-live id tenant xs = filter-and (is_row id tenant) is_kept xs

kept_only : (o po : PurchaseOrder) → filter is_kept (o ∷ []) ≡ po ∷ [] → o ≡ po
kept_only o po h = elim (Bool-cases (is_kept o)) [
  | inl e ↦ cc (rw e at h)
  | inr e ↦ absurd (cc (rw e at h))
]

-- The row that the update finds by id and tenant is the live one that the service found.
same_row :
    (id tenant : String) (xs : List PurchaseOrder) (o po : PurchaseOrder)
    → filter (is_row id tenant) xs ≡ o ∷ []
    → filter (is_live id tenant) xs ≡ po ∷ []
    → o ≡ po
same_row id tenant xs o po row live =
    kept_only o po (sym (ap (filter is_kept) row) ∙ (sym (filter-live id tenant xs) ∙ live))

reject_edge : (st : Status) → not (can_reject same st submitted approved) ≡ false → st ⟶ rejected
unfolding can_reject
reject_edge submitted h = refuse
reject_edge approved h = reverse
reject_edge _ h = absurd (cc)

reject_write-Moves :
    (id tenant actor : String) (po : PurchaseOrder) (result : ApprovalResult) (s : Store)
    → filter (is_live id tenant) s.orders ≡ po ∷ []
    → po.status ⟶ rejected
    → RowsMove s (reject_write id tenant actor po result s).1
unfolding reject_write write_one
reject_write-Moves id tenant actor po result s live edge =
    let row = rejected_row po result in
    recorded_keeps (is_row id tenant) row
      (entry tenant id "rejected" actor po.status rejected result.reason) s
      (elim (Option-cases (maybe_single (filter (is_row id tenant) s.orders))) [
        | inl q ↦ rw (write_one, q) (rows_stay s)
        | inr (o, q) ↦
            let found = maybe_single-some (filter (is_row id tenant) s.orders) q in
            rw (write_one, q)
              (All2-update_one Moves stays (is_row id tenant) row s.orders o found (
                subst (λ x. Moves x (row x)) (sym (same_row id tenant s.orders o po found live))
                  (along row po edge refl refl refl refl)))
      ])

reject-Moves :
    (now : ℕ) (id tenant actor reason : String) (s : Store)
    → RowsMove s (reject now id tenant actor reason s).1
unfolding reject reject_found reject_reasoned
reject-Moves now id tenant actor reason s =
    found_keeps id tenant (reject_found now id tenant actor reason) s (λ po q.
      guard_keeps (RowsMove s) (not (can_reject same po.status submitted approved)) not_rejectable
        (λ _. reject_reasoned now id tenant actor reason po) s (rows_stay s)
        (λ g.
          bind_keeps (RowsMove s) (lift (Approval.reject now actor reason))
            (reject_write id tenant actor po) s (λ e w. rows_stay s)
            (λ result w.
              reject_write-Moves id tenant actor po result s (one-ok _ q)
                (reject_edge po.status g))))

-- A request to the service about an order that exists.
pub data Request : Type 0 where
  updating : (id tenant : String) (expected_date notes : Option String) → Request
  submitting : (id tenant : String) → Request
  approving : (now : ℕ) (id tenant actor : String) → Request
  rejecting : (now : ℕ) (id tenant actor reason : String) → Request
  cancelling : (id tenant : String) → Request
  removing : (id tenant : String) → Request

-- The store after a request, refused or not.
unfoldable pub serve : Request → Store → Store
serve (updating id tenant expected_date notes) s = (update_order id tenant expected_date notes s).1
serve (submitting id tenant) s = (submit id tenant s).1
serve (approving now id tenant actor) s = (approve now id tenant actor s).1
serve (rejecting now id tenant actor reason) s = (reject now id tenant actor reason s).1
serve (cancelling id tenant) s = (cancel id tenant s).1
serve (removing id tenant) s = (remove id tenant s).1

-- Whatever a request does to the purchase orders, with success or without: every row stays, with its id
-- and tenant, and its status is as it was or follows one edge of the diagram.
pub serve-Moves : (r : Request) (s : Store) → RowsMove s (serve r s)
unfolding serve
serve-Moves (updating id tenant expected_date notes) s =
    update_order-Moves id tenant expected_date notes s
serve-Moves (submitting id tenant) s = submit-Moves id tenant s
serve-Moves (approving now id tenant actor) s = approve-Moves now id tenant actor s
serve-Moves (rejecting now id tenant actor reason) s = reject-Moves now id tenant actor reason s
serve-Moves (cancelling id tenant) s = cancel-Moves id tenant s
serve-Moves (removing id tenant) s = remove-Moves id tenant s

unfoldable pub serve_all : List Request → Store → Store
serve_all [] s = s
serve_all (r ∷ rs) s = serve_all rs (serve r s)

-- A row keeps its id and tenant, and its status is reached along the diagram.
pub record Reaches (o o' : PurchaseOrder) : Type 0 where
  pub id : o'.id ≡ o.id
  pub tenant : o'.tenant_id ≡ o.tenant_id
  pub status : o.status ⟶* o'.status

step_first : {a b c : Status} → (b ≡ a) ⊎ (a ⟶ b) → b ⟶* c → a ⟶* c
step_first {c} (inl e) p = subst (λ x. x ⟶* c) e p
step_first (inr edge) p = then_step edge p

Moves-Reaches : (o p q : PurchaseOrder) → Moves o p → Reaches p q → Reaches o q
Moves-Reaches o p q m r = record {
  id = r.id ∙ m.id;
  tenant = r.tenant ∙ m.tenant;
  status = step_first m.status r.status;
}

-- Whatever sequence of requests is served, refused ones among them: every row stays, with its id and
-- tenant, and its status was reached along the edges of the diagram.
pub serve_all-Reaches :
    (rs : List Request) (s : Store) → All2 Reaches s.orders (serve_all rs s).orders
unfolding serve_all
serve_all-Reaches [] s =
    All2-same Reaches (λ o. record { id = refl; tenant = refl; status = here }) s.orders
serve_all-Reaches (r ∷ rs) s =
    All2-trans Moves Reaches Reaches Moves-Reaches s.orders (serve r s).orders
      (serve_all rs (serve r s)).orders (serve-Moves r s) (serve_all-Reaches rs (serve r s))
