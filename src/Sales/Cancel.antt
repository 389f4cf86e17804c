-- ===== src/Sales/Cancel.antt =====
-- `InvoicesService.cancel`, and the orders that are held. The return of stock and serials is not
-- awaited and its failure is swallowed; metrics are left out.
use apiv.Prelude.{
  String, Bool, true, false, ◌&&◌, Option, none, some, List, [], ◌∷◌, ◌==◌, Result, ok, err,
  not_found, bad_request, database, filter, update, if◌then◌else◌,
}
use apiv.Prelude.Int.{ℤ, pos, ◌+ℤ◌}
use apiv.Till.{OrderStatus, Order, AuditEntry}
use apiv.Sales.Money.{scale}
use apiv.Sales.Engines.{InvoiceItem}
use apiv.Sales.Tables.{Shop}
use apiv.Sales.Orders.{in_scope, one_or_none, insert_order, with_orders}
use apiv.Sales.Create.{invalidate_list}

-- What a cancellation asks of the database: the reversal of the posting, and the test of its message
-- for "nothing to reverse".
pub record Reversal : Type 0 where
  pub pooled_writes : Bool
  pub reverse_sales_order : String → Option String
  pub is_nothing_to_reverse : String → Bool

abbrev pub is_order : Option String → String → Order → Bool
is_order tenant id o = (o.id == id) && in_scope tenant o

unfoldable pub find_by_id : Option String → String → List Order → Result (Option Order)
find_by_id tenant id orders = one_or_none (filter (is_order tenant id) orders)

abbrev pub is_cancelled_status : OrderStatus → Bool
is_cancelled_status OrderStatus.cancelled = true
is_cancelled_status _ = false

abbrev pub cancelled_row : Order → Order
cancelled_row o = record o { status = OrderStatus.cancelled }

-- The update alone; a row was found.
unfoldable pub cancel_order : Option String → String → List Order → List Order
cancel_order tenant id orders = update (is_order tenant id) cancelled_row orders

-- The update and the reversal in one transaction: only the message that there is nothing to reverse
-- is swallowed.
unfoldable pub cancel_pooled : Reversal → Option String → String → List Order → Result (List Order)
unfolding cancel_order
cancel_pooled w tenant id orders = elim (w.reverse_sales_order id) [
  | none ↦ ok (cancel_order tenant id orders)
  | some message ↦
      if w.is_nothing_to_reverse message then ok (cancel_order tenant id orders) else err database
]

-- The guards: the order exists and is not cancelled.
unfoldable pub check_cancel : Option String → String → List Order → Result Order
unfolding find_by_id
check_cancel tenant id orders = elim (find_by_id tenant id orders) [
  | err e ↦ err e
  | ok none ↦ err (not_found "Invoice not found")
  | ok (some before) ↦
      if is_cancelled_status before.status
      then err (bad_request "Invoice already cancelled")
      else ok before
]

unfoldable pub write_cancel : Reversal → Option String → String → List Order → Result (List Order)
unfolding cancel_pooled cancel_order
write_cancel w tenant id orders =
    if w.pooled_writes then cancel_pooled w tenant id orders else ok (cancel_order tenant id orders)

abbrev pub cancel_entry : String → String → String → AuditEntry
cancel_entry tenant actor id = record {
  tenant_id = tenant;
  actor_id = actor;
  action = "invoice.cancel";
  resource_type = "invoice";
  resource_id = id;
}

-- A caller with a tenant.
unfoldable pub cancel : Reversal → String → String → String → Shop → Result String × Shop
unfolding check_cancel write_cancel invalidate_list
cancel w tenant id actor s = elim (check_cancel (some tenant) id s.till.orders) [
  | err e ↦ (err e, s)
  | ok before ↦ elim (write_cancel w (some tenant) id s.till.orders) [
    | err e ↦ (err e, s)
    | ok orders ↦ (
      ok id,
      record s {
        till = record s.till {
          orders = orders;
          audit = cancel_entry tenant actor id ∷ s.till.audit;
        };
        lists = invalidate_list tenant s.lists;
      },
    )
  ]
]

-- HoldOrderDto
pub record HoldOrder : Type 0 where
  pub branch_id : String
  pub shift_id : Option String
  pub customer_id : Option String
  pub notes : Option String
  pub items : List InvoiceItem

hold_subtotal : ℤ → List InvoiceItem → ℤ
hold_subtotal sum [] = sum
hold_subtotal sum (i ∷ is) = hold_subtotal (sum +ℤ scale i.unit_price i.quantity) is

abbrev pub held_row : String → String → String → HoldOrder → ℤ → String → Order
held_row id tenant actor dto subtotal attempt = record {
  id = id;
  tenant_id = tenant;
  branch_id = dto.branch_id;
  shift_id = dto.shift_id;
  cashier_id = actor;
  customer_id = dto.customer_id;
  status = OrderStatus.pending;
  subtotal = subtotal;
  discount = pos 0;
  tax = pos 0;
  total = subtotal;
  payment_method = none;
  notes = dto.notes;
  coupon_code = none;
  sale_attempt_id = attempt;
  cash_amount = none;
  card_amount = none;
  held = true;
  is_deleted = false;
}

-- An insert into orders. `sale_attempt_id` is NOT NULL without a default
-- (src/database/migrations/187_sale_idempotency.sql), so that an insert without one fails.
unfoldable pub insert_row : Option String → (String → Order) → List Order → Option (List Order)
insert_row none row orders = none
insert_row (some attempt) row orders = insert_order (row attempt) orders

-- `holdOrder` up to its insert, whose payload has no `sale_attempt_id`; what follows it is reached by
-- no request.
unfoldable pub hold_order : String → String → String → HoldOrder → Shop → Result String × Shop
unfolding insert_row hold_subtotal
hold_order id tenant actor dto s =
    let row = held_row id tenant actor dto (hold_subtotal (pos 0) dto.items) in
    elim (insert_row none row s.till.orders) [
      | none ↦ (err database, s)
      | some orders ↦ (ok id, with_orders orders s)
    ]

abbrev pub is_held : Option String → String → Order → Bool
is_held tenant id o = (o.id == id) && o.held && in_scope tenant o

-- `getHeldOrder`
unfoldable pub get_held_order : Option String → String → List Order → Result Order
unfolding find_by_id
get_held_order tenant id orders = elim (find_by_id tenant id orders) [
  | err e ↦ err e
  | ok none ↦ err (not_found "Held order not found")
  | ok (some o) ↦ if o.held then ok o else err (not_found "Held order not found")
]

abbrev pub dropped_row : Order → Order
dropped_row o = record o { held = false; is_deleted = true }

-- `cancelHeldOrder`: the row is marked as deleted and no longer held.
unfoldable pub cancel_held_order : String → String → String → Shop → Result String × Shop
cancel_held_order tenant id actor s =
    elim (one_or_none (filter (is_held (some tenant) id) s.till.orders)) [
      | err e ↦ (err e, s)
      | ok none ↦ (err (not_found "Held order not found"), s)
      | ok (some o) ↦ (
        ok id,
        record s {
          till = record s.till {
            orders = update (is_held (some tenant) id) dropped_row s.till.orders;
            audit =
                record {
                  tenant_id = tenant;
                  actor_id = actor;
                  action = "invoice.hold_cancel";
                  resource_type = "invoice";
                  resource_id = id;
                }
                ∷ s.till.audit;
          };
        },
      )
    ]
