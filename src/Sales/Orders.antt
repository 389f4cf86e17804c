-- ===== src/Sales/Orders.antt =====
-- src/modules/invoices/repositories/invoices.repository.ts: the writes of a sale and of its end, with
-- the constraints of src/database/migrations/187_sale_idempotency.sql.
use apiv.Prelude.{
  String, Bool, true, ◌&&◌, Option, none, some, List, [], ◌∷◌, ◌++◌, ◌==◌, Result, ok, err, Error,
  database, any, filter, if◌then◌else◌,
}
use apiv.Prelude.Int.{ℤ}
use apiv.Till.{Order}
use apiv.Pricing.Types.{PriceResolutionResult, no_override, approved, rejected}
use apiv.Sales.Money.{scale}
use apiv.Sales.Tables.{OrderItem, OverrideAudit, Shop, Outside}
use apiv.Sales.Pricing.{PricedLine}

-- A null tenant is the superadmin's, which sees every tenant.
abbrev pub in_scope : Option String → Order → Bool
in_scope none o = true
in_scope (some tenant) o = o.tenant_id == tenant

abbrev pub is_attempt : String → String → Order → Bool
is_attempt tenant attempt o = (o.tenant_id == tenant) && (o.sale_attempt_id == attempt)

-- `maybeSingle`, whose error is thrown here.
abbrev pub one_or_none : List Order → Result (Option Order)
one_or_none [] = ok none
one_or_none (o ∷ []) = ok (some o)
one_or_none (o ∷ p ∷ os) = err database

unfoldable pub find_by_sale_attempt_id : String → String → List Order → Result (Option Order)
find_by_sale_attempt_id tenant attempt orders =
    one_or_none (filter (is_attempt tenant attempt) orders)

-- `none` is the violation of the unique constraint on the tenant and the attempt.
unfoldable pub insert_order : Order → List Order → Option (List Order)
insert_order order orders =
    if any (is_attempt order.tenant_id order.sale_attempt_id) orders
    then none
    else some (order ∷ orders)

abbrev pub official_of : PriceResolutionResult → ℤ
official_of (no_override official) = official
official_of (approved a) = a.official_unit_price
official_of (rejected official requested code role) = official

abbrev pub order_item : String → PricedLine → OrderItem
order_item order l = record {
  order_id = order;
  item_id = l.item.item_id;
  item_name = l.item.item_name;
  qty = l.item.quantity;
  price = l.item.unit_price;
  total_price = scale l.item.unit_price l.item.quantity;
  variant_id = l.item.variant_id;
  variant_name = l.item.variant_name;
  official_price_snapshot = official_of l.resolution;
}

abbrev pub order_items_of : String → List PricedLine → List OrderItem
order_items_of order [] = []
order_items_of order (l ∷ ls) = order_item order l ∷ order_items_of order ls

-- One audit row for each override.
abbrev pub override_rows : Order → List PricedLine → List OverrideAudit
override_rows order [] = []
override_rows order (l ∷ ls) = elim l.resolution [
  | approved a ↦
      record {
        tenant_id = order.tenant_id;
        branch_id = order.branch_id;
        order_id = order.id;
        actor_id = order.cashier_id;
        item_id = l.item.item_id;
        approval = a;
      }
      ∷ override_rows order ls
  | no_override _ ↦ override_rows order ls
  | rejected _ _ _ _ ↦ override_rows order ls
]

abbrev pub with_orders : List Order → Shop → Shop
with_orders orders s = record s { till = record s.till { orders = orders } }

abbrev pub with_order_items : List OrderItem → Shop → Shop
with_order_items items s = record s { order_items = items ++ s.order_items }

pub data InsertError : Type 0 where
  unique_violation : InsertError
  posting_failed : String → InsertError
  failed : Error → InsertError

-- One transaction: a failure leaves the shop as it was.
unfoldable pub create_with_items_pooled :
    Outside → Order → List PricedLine → Shop → Option InsertError × Shop
unfolding insert_order
create_with_items_pooled w order lines s =
    let items = order_items_of order.id lines in
    elim (insert_order order s.till.orders) [
      | none ↦ (some unique_violation, s)
      | some orders ↦ elim (w.insert_items items) [
        | some e ↦ (some (failed e), s)
        | none ↦ elim (w.post_sales_order order) [
          | some message ↦ (some (posting_failed message), s)
          | none ↦ (
            none,
            record (with_order_items items (with_orders orders s)) {
              override_audits = override_rows order lines ++ s.override_audits;
            },
          )
        ]
      ]
    ]

-- Two calls: the order stays where its items are refused.
unfoldable pub create_then_items :
    Outside → Order → List PricedLine → Shop → Option InsertError × Shop
unfolding insert_order
create_then_items w order lines s =
    let items = order_items_of order.id lines in
    elim (insert_order order s.till.orders) [
      | none ↦ (some unique_violation, s)
      | some orders ↦
          let s' = with_orders orders s in
          elim (w.insert_items items) [
            | some e ↦ (some (failed e), s')
            | none ↦ (none, with_order_items items s')
          ]
    ]

-- A flag picks the write.
unfoldable pub write_sale : Outside → Order → List PricedLine → Shop → Option InsertError × Shop
unfolding create_with_items_pooled create_then_items
write_sale w order lines s =
    if w.pooled_writes
    then create_with_items_pooled w order lines s
    else create_then_items w order lines s
