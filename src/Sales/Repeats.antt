-- ===== src/Sales/Repeats.antt =====
-- Sales that are sent twice or race, and sales that are refused.
use mathlib.Core.Path.{subst}
use apiv.Prelude.{
  String, false, Option, none, some, List, [], ◌∷◌, ◌≡◌, refl, sym, ap, ◌∙◌, inl, inr, arith,
  eq_refl, Result, ok, err, conflict, any, filter, Result-cases,
}
use apiv.Till.{Order}
use apiv.Sales.Tables.{CreateInvoiceDto, Shop, Outside}
use apiv.Sales.Orders.{InsertError, is_attempt, find_by_sale_attempt_id, write_sale}
use apiv.Sales.Checkout.{Caller, Sale, check_new_attempt, check_request, prepare}
use apiv.Sales.Create.{Created, order_of, redeem_for, created, settle, after_insert, commit, create}
use apiv.Sales.Writes.{OneOrderEach, any-filter_nil, write_sale-OneOrderEach}
use apiv.Sales.Sold.{with_customers, create-finish, commit_refused, commit-written, create_ok}

-- The one order of an attempt.
abbrev pub IsAttempt : String → String → Order → List Order → Type 0
IsAttempt tenant attempt o orders = filter (is_attempt tenant attempt) orders ≡ o ∷ []

prepare_repeated :
    (w : Outside) (c : Caller) (dto : CreateInvoiceDto) (s : Shop) {o : Order}
    → IsAttempt c.tenant_id dto.sale_attempt_id o s.till.orders
    → prepare w c dto s ≡ (err (conflict o.id), s.prices)
unfolding prepare check_request check_new_attempt find_by_sale_attempt_id
prepare_repeated w c dto s h = rw (h, prepare) refl

-- Where the tenant has one order of the attempt, `create` gives a conflict that names this order and
-- changes nothing, whatever else the request holds.
pub create_repeated :
    (w : Outside) (c : Caller) (dto : CreateInvoiceDto) (s : Shop) {o : Order}
    → IsAttempt c.tenant_id dto.sale_attempt_id o s.till.orders
    → create w c dto s ≡ (err (conflict o.id), s)
create_repeated w c dto s h = create-finish w c dto s ∙ rw (prepare_repeated w c dto s h) refl

stored-IsAttempt :
    (w : Outside) (c : Caller) (dto : CreateInvoiceDto) (sale : Sale) (orders : List Order)
    → any (is_attempt c.tenant_id dto.sale_attempt_id) orders ≡ false
    → IsAttempt c.tenant_id dto.sale_attempt_id
        (order_of w c dto sale)
        (order_of w c dto sale ∷ orders)
unfolding order_of
stored-IsAttempt w c dto sale orders fresh = ground (
  arith,
  any-filter_nil (is_attempt c.tenant_id dto.sale_attempt_id) orders fresh,
  eq_refl c.tenant_id,
  eq_refl dto.sale_attempt_id,
)

-- A sale that was made and is sent again, with the same attempt in the same tenant, by any caller and
-- with any other content, is refused with a conflict that names the order made, and changes nothing.
pub create_again :
    (w : Outside) (c : Caller) (dto : CreateInvoiceDto) (s : Shop) (w' : Outside) (c' : Caller)
    (dto' : CreateInvoiceDto) {r : Created}
    → (create w c dto s).0 ≡ ok r
    → c'.tenant_id ≡ c.tenant_id
    → dto'.sale_attempt_id ≡ dto.sale_attempt_id
    → let s' = (create w c dto s).1 in create w' c' dto' s' ≡ (err (conflict r.id), s')
unfolding created order_of
create_again w c dto s w' c' dto' h same_tenant same_attempt =
    let sold = create_ok w c dto s h in
    let found : IsAttempt c'.tenant_id dto'.sale_attempt_id (order_of w c dto sold.sale)
        (create w c dto s).1.till.orders =
      rw (same_tenant, same_attempt, sold.stored.orders)
        (stored-IsAttempt w c dto sold.sale s.till.orders sold.stored.fresh) in
    create_repeated w' c' dto' (create w c dto s).1 found
    ∙ ap (λ (i : String). (err (conflict i), (create w c dto s).1))
        (ap (λ (x : Created). x.id) sold.stored.result)

settle-OneOrderEach :
    (w : Outside) (c : Caller) (dto : CreateInvoiceDto) (sale : Sale) (f : Option InsertError)
    (u : Shop)
    → OneOrderEach u.till.orders
    → OneOrderEach (settle w c dto sale f u).1.till.orders
unfolding settle after_insert
settle-OneOrderEach w c dto sale (some e) u h = h
settle-OneOrderEach w c dto sale none u h = h

commit-OneOrderEach :
    (w : Outside) (c : Caller) (dto : CreateInvoiceDto) (sale : Sale) (t : Shop)
    → OneOrderEach t.till.orders
    → OneOrderEach (commit w c dto sale t).1.till.orders
commit-OneOrderEach w c dto sale t h = elim (Result-cases (redeem_for c dto t.customers)) [
  | inl (e, q) ↦ rw (commit_refused w c dto sale t e q) h
  | inr (customers, q) ↦
      let u = with_customers customers t in
      subst (λ (x : Result Created × Shop). OneOrderEach x.1.till.orders)
        (sym (commit-written w c dto sale t customers q))
        (settle-OneOrderEach w c dto sale (write_sale w (order_of w c dto sale) sale.lines u).0
          (write_sale w (order_of w c dto sale) sale.lines u).1
          (write_sale-OneOrderEach w (order_of w c dto sale) sale.lines u h))
]

-- A sale whose guards have run, waiting for its write.
pub record Pending : Type 0 where
  pub outside : Outside
  pub caller : Caller
  pub dto : CreateInvoiceDto
  pub sale : Sale

-- The writes of requests that run at once, in the order in which the database takes them.
unfoldable pub commit_all : List Pending → Shop → Shop
commit_all [] s = s
commit_all (p ∷ ps) s = commit_all ps (commit p.outside p.caller p.dto p.sale s).1

-- However many requests passed their guards on old states of the shop, and in whatever order their
-- writes then come, no tenant ever has two orders of one attempt, where it had none before.
pub commit_all-OneOrderEach :
    (requests : List Pending) (s : Shop)
    → OneOrderEach s.till.orders
    → OneOrderEach (commit_all requests s).till.orders
unfolding commit_all
commit_all-OneOrderEach [] s h = h
commit_all-OneOrderEach (p ∷ ps) s h =
    commit_all-OneOrderEach ps (commit p.outside p.caller p.dto p.sale s).1
      (commit-OneOrderEach p.outside p.caller p.dto p.sale s h)
