-- ===== src/Sales/Tests.antt =====
-- A small shop: a coffee at 10.00, an open session, and a sale of two with a discount of 10% and a tax
-- of 15%.
use apiv.Prelude.{
  ℕ, true, false, none, some, [], ◌∷◌, ◌≡◌, refl, arith, ok, err, bad_request, conflict,
}
use apiv.Prelude.Int.{pos, ◌+ℤ◌, ◌-ℤ◌}
use apiv.Till.{PaymentMethod, ShiftStatus, Shift}
use apiv.Shifts.Repository
use apiv.Shifts.Repository.{get_shift_invoices}
use apiv.Shifts.Engine.{build_shift_summary}
use apiv.Shifts.Service.{assert_open_session}
use apiv.Permissions.Cache.{State}
use apiv.Pricing.Types.{no_override}
use apiv.Pricing.Resolution.{resolve_price, resolve_official_price}
use apiv.Sales.Money.{scale, to_fixed, min_ℤ}
use apiv.Sales.Engines.{
  InvoiceItem, DiscountType, DiscountInput, build_invoice, calculate_subtotal, subtotal_from,
  apply_discount, discount_of, apply_tax, calculate_total, process_cash_payment,
  apply_percentage_discount,
}
use apiv.Sales.Tables.{CreateInvoiceDto, Shop, Outside}
use apiv.Sales.Loyalty.{get_settings, redeem_points}
use apiv.Sales.Pricing.{resolve_lines}
use apiv.Sales.Orders.{write_sale, create_with_items_pooled, insert_order, find_by_sale_attempt_id}
use apiv.Sales.Checkout.{
  Caller, prepare, check_request, check_new_attempt, check_customer, loyalty_discount, price_sale,
  get_tax_rate, find_coupon, combine, coupon_discount, check_payment, check_cash,
}
use apiv.Sales.Create.{
  Created, create, commit, settle, created, redeem_for, order_of, insert_error, after_insert,
}
use apiv.Sales.Warnings.{stock_warnings, serial_warnings}
use apiv.Sales.Sold.{Sold, create_ok}
use apiv.Sales.Repeats.{create_again, Pending, commit_all, commit_all-OneOrderEach}
use apiv.Sales.Writes.{OneOrderEach}
use apiv.Sales.Refusals.{Untouched, create_refused_lem}
use apiv.Sales.Sessions.{create-shift_summary}
use apiv.Sales.Totals.{Bounded, combine-Bounded}
use apiv.Sales.Cancel.{Reversal, cancel, cancel_pooled, cancel_order, check_cancel, write_cancel}
use apiv.Sales.Cancel
use apiv.Sales.Cancelled.{Cancelled, cancel_ok}

abbrev no_permissions : State
no_permissions = record {
  db = record {
    roles = some [];
    permissions = some [];
    role_permissions = some [];
    tenant_role_permissions = some [];
    user_roles = some [];
    overrides = some [];
    users = some [];
  };
  cache = [];
  cache_up = true;
  system_role_ids = [];
}

abbrev session : Shift
session = record {
  id = "s1";
  tenant_id = "t1";
  branch_id = "b1";
  cashier_id = "ana";
  status = ShiftStatus.open_shift;
  opening_cash = pos 10000;
  closing_cash = none;
  expected_cash = none;
  discrepancy = none;
  notes = none;
  is_deleted = false;
}

abbrev shop : Shop
shop = record {
  till = record {
    shifts = session ∷ [];
    orders = [];
    expenses = [];
    audit = [];
    allows_cancelled = true;
  };
  prices = record {
    permissions = no_permissions;
    items = some (
        record {
          id = "i1";
          tenant_id = "t1";
          price = pos 1000;
          is_active = true;
          is_deleted = false;
        }
        ∷ []);
    item_variants = some [];
    price_override_policies = some [];
  };
  order_items = [];
  override_audits = [];
  customers = [];
  coupons = [];
  tiers = [];
  tenants =
      record {
        id = "t1";
        tax_rate = some 1500;
        loyalty_points_per_currency = none;
        loyalty_redemption_value = none;
        loyalty_enabled = none;
        is_deleted = false;
      }
      ∷ [];
  lists = [];
}

abbrev coffee : InvoiceItem
coffee = record {
  item_id = "i1";
  item_name = "Coffee";
  variant_id = none;
  variant_name = none;
  quantity = 2;
  unit_price = pos 1000;
}

abbrev tenth : DiscountInput
tenth = record { type = DiscountType.percentage; value = 1000; max_allowed = none }

-- Two coffees, for so much cash.
abbrev asks : ℕ → CreateInvoiceDto
asks cash = record {
  sale_attempt_id = "a1";
  items =
      record {
        item_id = "i1";
        item_name = "Coffee";
        variant_id = none;
        variant_name = none;
        quantity = 2;
        unit_price = pos 1000;
        serial_id = none;
        reason = none;
      }
      ∷ [];
  discount = some tenth;
  customer_id = none;
  payment_method = PaymentMethod.cash;
  cash_tendered = some cash;
  cash_amount = none;
  card_amount = none;
  notes = none;
  redeem_points = none;
  coupon_code = none;
}

-- The database stores what it is given; there is no warehouse.
abbrev outside : Outside
outside = record {
  pooled_writes = true;
  now = 0;
  upper = λ s. s;
  order_id = "o1";
  insert_items = λ items. none;
  post_sales_order = λ order. none;
  is_accounting_message = λ message. false;
  default_warehouse = λ branch. none;
  check_holds = λ items. some [];
  check_expired_batches = λ items. some [];
  consume_for_sale = λ item. some false;
  deduct_stock_for_sale = λ items. none;
  sell_serial = λ serial. none;
}

abbrev ana : Caller
ana = record { tenant_id = "t1"; cashier_id = "ana"; branch_id = "b1"; shift_id = "s1" }

abbrev receipt : Created
receipt = record { id = "o1"; total = pos 2070; tax_rate = 1500; stock_warning = none }

run : (create outside ana (asks 3000) shop).0 ≡ ok receipt
unfolding create commit settle created redeem_for order_of insert_error after_insert prepare
    check_request check_new_attempt check_customer loyalty_discount price_sale get_tax_rate
    find_coupon combine check_payment check_cash process_cash_payment find_by_sale_attempt_id
    insert_order write_sale create_with_items_pooled resolve_lines get_settings redeem_points
    assert_open_session Repository.find_by_id resolve_price resolve_official_price build_invoice
    calculate_subtotal subtotal_from apply_discount discount_of apply_percentage_discount apply_tax
    calculate_total scale to_fixed min_ℤ ◌+ℤ◌ ◌-ℤ◌ stock_warnings serial_warnings
run = refl

create_ok_example :
    Sold outside ana (asks 3000) shop receipt (create outside ana (asks 3000) shop).1
create_ok_example = create_ok outside ana (asks 3000) shop run

create_again_example :
    let s' = (create outside ana (asks 3000) shop).1 in
    create outside ana (asks 5000) s' ≡ (err (conflict "o1"), s')
create_again_example =
    create_again outside ana (asks 3000) shop outside ana (asks 5000) run refl refl

refused : (create outside ana (asks 2000) shop).0 ≡ err (bad_request "Insufficient cash tendered")
unfolding create prepare check_request check_new_attempt check_customer loyalty_discount price_sale
    get_tax_rate find_coupon combine check_payment check_cash process_cash_payment
    find_by_sale_attempt_id resolve_lines get_settings assert_open_session Repository.find_by_id
    resolve_price resolve_official_price build_invoice calculate_subtotal subtotal_from
    apply_discount discount_of apply_percentage_discount apply_tax calculate_total scale to_fixed
    min_ℤ ◌+ℤ◌ ◌-ℤ◌
refused = refl

create_refused_lem_example : Untouched ana (asks 2000) shop (create outside ana (asks 2000) shop).1
create_refused_lem_example = create_refused_lem outside ana (asks 2000) shop refl refused

create-shift_summary_example :
    let before = get_shift_invoices "s1" "t1" shop.till in
    let after = get_shift_invoices "s1" "t1" (create outside ana (asks 3000) shop).1.till in
    let summary = build_shift_summary (pos 10000) (pos 12070) after [] in
    (summary.total_revenue
      ≡ pos 2070 +ℤ (build_shift_summary (pos 10000) (pos 12070) before []).total_revenue)
    × (summary.total_cash +ℤ summary.total_card ≡ summary.total_revenue)
unfolding get_shift_invoices
create-shift_summary_example =
    create-shift_summary outside ana (asks 3000) shop (pos 10000) (pos 12070) [] run refl tt

combine-Bounded_example :
    let manual = build_invoice (coffee ∷ []) (some tenth) 1500 in
    Bounded (combine manual (pos 50) (coupon_discount none manual.subtotal) 1500)
combine-Bounded_example =
    combine-Bounded (coffee ∷ []) (some tenth) 50 none 1500 (omega arith, tt) (omega arith)

-- Two requests of one attempt that both passed their guards.
abbrev pending : ℕ → Pending
pending cash = record {
  outside = outside;
  caller = ana;
  dto = asks cash;
  sale = record {
    lines = record { item = coffee; serial_id = none; resolution = no_override (pos 1000) } ∷ [];
    built = record {
      items = coffee ∷ [];
      subtotal = pos 2000;
      discount_amount = pos 200;
      tax_amount = pos 270;
      total = pos 2070;
    };
    coupon = none;
    tax_rate = 1500;
    settings = get_settings "t1" shop.tenants;
  };
}

commit_all-OneOrderEach_example :
    OneOrderEach (commit_all (pending 3000 ∷ pending 5000 ∷ []) shop).till.orders
commit_all-OneOrderEach_example =
    commit_all-OneOrderEach (pending 3000 ∷ pending 5000 ∷ []) shop (λ tenant attempt. omega arith)

-- The order of the sale above, alone in the shop.
abbrev sold_shop : Shop
sold_shop = record shop {
  till = record shop.till { orders = order_of outside ana (asks 3000) (pending 3000).sale ∷ [] };
}

abbrev reversal : Reversal
reversal = record {
  pooled_writes = true;
  reverse_sales_order = λ order. none;
  is_nothing_to_reverse = λ message. false;
}

cancels : (cancel reversal "t1" "o1" "ana" sold_shop).0 ≡ ok "o1"
unfolding cancel check_cancel write_cancel cancel_pooled cancel_order Cancel.find_by_id order_of
cancels = refl

cancel_ok_example : Cancelled "t1" "o1" sold_shop (cancel reversal "t1" "o1" "ana" sold_shop).1
cancel_ok_example = cancel_ok reversal "t1" "o1" "ana" sold_shop cancels
