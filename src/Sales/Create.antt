-- ===== src/Sales/Create.antt =====
-- `InvoicesService.create`: the guards of `Checkout`, the redemption of points, the write, and what
-- follows it. Metrics and notifications, whose failure is swallowed, are left out.
use apiv.Prelude.{
  ℕ, suc, ◌*◌, ◌/◌, String, false, not, Option, none, some, List, ◌∷◌, ◌==◌, Result, ok, err, Error,
  bad_request, conflict, database, filter, truthy, if◌then◌else◌,
}
use apiv.Prelude.Int.{ℤ, pos, negsuc}
use apiv.Till.{PaymentMethod, Order, OrderStatus, AuditEntry}
use apiv.Sales.Tables.{CreateInvoiceDto, Customer, Coupon, CachedList, Shop, Outside}
use apiv.Sales.Coupons.{redeem}
use apiv.Sales.Loyalty.{
  redeem_points, award_points, calculate_points_earned, get_tier_multiplier, or_default,
  floor_negative,
}
use apiv.Sales.Orders.{InsertError, find_by_sale_attempt_id, write_sale}
use apiv.Sales.Checkout.{Caller, Sale, items_of, prepare}
use apiv.Sales.Warnings.{stock_warnings, serial_warnings}

pub record Created : Type 0 where
  pub id : String
  pub total : ℤ
  pub tax_rate : ℕ
  pub stock_warning : Option String

-- The stored breakdown: for a split alone.
abbrev pub persisted : PaymentMethod → Option ℤ → Option ℤ
persisted PaymentMethod.split amount = amount
persisted _ amount = none

abbrev pub code_of : Option Coupon → Option String
code_of none = none
code_of (some c) = some c.code

unfoldable pub order_of : Outside → Caller → CreateInvoiceDto → Sale → Order
order_of w c dto sale = record {
  id = w.order_id;
  tenant_id = c.tenant_id;
  branch_id = c.branch_id;
  shift_id = some c.shift_id;
  cashier_id = c.cashier_id;
  customer_id = dto.customer_id;
  status = OrderStatus.completed;
  subtotal = sale.built.subtotal;
  discount = sale.built.discount_amount;
  tax = sale.built.tax_amount;
  total = sale.built.total;
  payment_method = some dto.payment_method;
  notes = dto.notes;
  coupon_code = code_of sale.coupon;
  sale_attempt_id = dto.sale_attempt_id;
  cash_amount = persisted dto.payment_method dto.cash_amount;
  card_amount = persisted dto.payment_method dto.card_amount;
  held = false;
  is_deleted = false;
}

-- `if (dto.redeem_points)`: the balances after it. A missing customer finds no row.
unfoldable pub redeem_for : Caller → CreateInvoiceDto → List Customer → Result (List Customer)
redeem_for c dto customers =
    redeem_points c.tenant_id (or_default "" dto.customer_id) (or_default 0 dto.redeem_points)
      customers

-- The `catch` of the write.
unfoldable pub insert_error : Outside → Caller → CreateInvoiceDto → InsertError → Shop → Error
insert_error w c dto (InsertError.failed e) s = e
insert_error w c dto (InsertError.posting_failed message) s =
    if w.is_accounting_message message
    then bad_request "Accounting posting failed — sale was not created"
    else database
insert_error w c dto InsertError.unique_violation s =
    elim (find_by_sale_attempt_id c.tenant_id dto.sale_attempt_id s.till.orders) [
      | err e ↦ e
      | ok none ↦ database
      | ok (some existing) ↦ conflict existing.id
    ]

-- `Math.floor(basePoints * tierMultiplier)`, the multiplier in hundredths.
abbrev pub times : ℤ → ℕ → ℤ
times (pos n) k = pos (n * k / 100)
times (negsuc n) k = floor_negative (suc n * k * 100)

unfoldable pub award_for : Caller → CreateInvoiceDto → Sale → Shop → List Customer
award_for c dto sale s = elim (truthy dto.customer_id) [
  | none ↦ s.customers
  | some id ↦
      if sale.settings.enabled
      then award_points c.tenant_id id
          (times (calculate_points_earned sale.built.total sale.settings)
            (get_tier_multiplier c.tenant_id id s.customers s.tiers))
          s.customers
      else s.customers
]

abbrev pub redeem_coupon : Option Coupon → List Coupon → List Coupon
redeem_coupon none coupons = coupons
redeem_coupon (some c) coupons = redeem c.id coupons

abbrev pub entry : Caller → String → String → AuditEntry
entry c action order = record {
  tenant_id = c.tenant_id;
  actor_id = c.cashier_id;
  action = action;
  resource_type = "invoice";
  resource_id = order;
}

-- `cache.delByPrefix` of the tenant's lists.
unfoldable pub invalidate_list : String → List CachedList → List CachedList
invalidate_list tenant lists = filter (λ (l : CachedList). not (l.tenant_id == tenant)) lists

-- What follows the write.
unfoldable pub after_insert : Outside → Caller → CreateInvoiceDto → Sale → Shop → Shop
unfolding award_for invalidate_list
after_insert w c dto sale s = record s {
  till = record s.till { audit = entry c "invoice.create" w.order_id ∷ s.till.audit };
  coupons = redeem_coupon sale.coupon s.coupons;
  customers = award_for c dto sale s;
  lists = invalidate_list c.tenant_id s.lists;
}

unfoldable pub created : Outside → Caller → Sale → Created
created w c sale = record {
  id = w.order_id;
  total = sale.built.total;
  tax_rate = sale.tax_rate;
  stock_warning = serial_warnings w sale.lines (stock_warnings w c.branch_id (items_of sale.lines));
}

-- The outcome of the write, and what follows it.
unfoldable pub settle :
    Outside → Caller → CreateInvoiceDto → Sale → Option InsertError → Shop → Result Created × Shop
unfolding insert_error after_insert created
settle w c dto sale (some e) s = (err (insert_error w c dto e s), s)
settle w c dto sale none s = (ok (created w c sale), after_insert w c dto sale s)

-- The writes, on whatever the shop holds by then.
unfoldable pub commit : Outside → Caller → CreateInvoiceDto → Sale → Shop → Result Created × Shop
unfolding redeem_for order_of settle
commit w c dto sale s = elim (redeem_for c dto s.customers) [
  | err e ↦ (err e, s)
  | ok customers ↦
      let (failure, s') =
        write_sale w (order_of w c dto sale) sale.lines (record s { customers = customers }) in
      settle w c dto sale failure s'
]

abbrev pub finish : Outside → Caller → CreateInvoiceDto → Result Sale → Shop → Result Created × Shop
finish w c dto (err e) s = (err e, s)
finish w c dto (ok sale) s = commit w c dto sale s

unfoldable pub create : Outside → Caller → CreateInvoiceDto → Shop → Result Created × Shop
unfolding commit
create w c dto s =
    let (sale, prices) = prepare w c dto s in finish w c dto sale (record s { prices = prices })
