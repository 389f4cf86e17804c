-- ===== src/Sales/Checkout.antt =====
-- `InvoicesService.create` up to its first write: the guards in their order, the prices, the discounts
-- and the payment. Messages that print an amount are shortened.
use apiv.Prelude.{
  ℕ, zero, suc, String, Bool, true, false, not, ◌&&◌, Option, none, some, List, [], ◌∷◌, ◌==◌,
  Result, ok, err, not_found, bad_request, conflict, ltb, any, filter, maybe_single, truthy,
  if◌then◌else◌,
}
use apiv.Prelude.Int.{ℤ, pos, ◌+ℤ◌, ltb_ℤ, eq_ℤ}
use apiv.Till.{PaymentMethod}
use apiv.Pricing.Types.{Tables}
use apiv.Shifts.Service.{assert_open_session}
use apiv.Sales.Money.{min_ℤ}
use apiv.Sales.Engines.{
  BuiltInvoice, build_invoice, apply_tax, calculate_total, process_cash_payment,
  process_split_payment, DiscountInput, InvoiceItem,
}
use apiv.Sales.Tables.{CreateInvoiceDto, Customer, Coupon, Tenant, Shop, Outside}
use apiv.Sales.Coupons.{validate, calculate_discount}
use apiv.Sales.Loyalty.{
  LoyaltySettings, get_settings, get_balance, calculate_redemption_value, or_default, is_customer,
}
use apiv.Sales.Pricing.{Seller, PricedLine, resolve_lines, is_override, item_of}
use apiv.Sales.Orders.{find_by_sale_attempt_id}

-- `>>=` on results.
infixl 5 ◌then_do◌
abbrev pub ◌then_do◌ : {A B : Type 0} → Result A → (A → Result B) → Result B
(ok a) then_do f = f a
(err e) then_do f = err e

-- The caller, and where the sale is made.
pub record Caller : Type 0 where
  pub tenant_id : String
  pub cashier_id : String
  pub branch_id : String
  pub shift_id : String

unfoldable pub check_new_attempt : String → CreateInvoiceDto → Shop → Result (Unit {0})
unfolding find_by_sale_attempt_id
check_new_attempt tenant dto s =
    find_by_sale_attempt_id tenant dto.sale_attempt_id s.till.orders then_do λ existing.
    elim existing [ none ↦ ok tt | some order ↦ err (conflict order.id) ]

unfoldable pub check_customer : String → CreateInvoiceDto → Shop → Result (Unit {0})
check_customer tenant dto s = elim (truthy dto.customer_id) [
  | none ↦ ok tt
  | some id ↦
      elim (maybe_single
        (filter (λ (c : Customer). is_customer id tenant c && not c.is_deleted) s.customers)) [
          | none ↦ err (not_found "Customer not found")
          | some c ↦ ok tt
        ]
]

unfoldable pub get_tax_rate : String → List Tenant → ℕ
get_tax_rate tenant tenants =
    elim (maybe_single (filter (λ (t : Tenant). (t.id == tenant) && not t.is_deleted) tenants)) [
      | none ↦ 0
      | some t ↦ or_default 0 t.tax_rate
    ]

-- The discount that the points are worth; `points` are not 0.
unfoldable pub check_redemption : String → ℕ → CreateInvoiceDto → LoyaltySettings → Shop → Result ℤ
check_redemption tenant points dto settings s =
    if not settings.enabled
    then err (bad_request "Loyalty program is disabled for this tenant")
    else elim (truthy dto.customer_id) [
      | none ↦ err (bad_request "customer_id required to redeem loyalty points")
      | some id ↦
          if ltb (get_balance tenant id s.customers) points
          then err (bad_request "Insufficient loyalty points balance")
          else ok (calculate_redemption_value points settings)
    ]

-- `if (dto.redeem_points)`
unfoldable pub loyalty_discount : String → CreateInvoiceDto → LoyaltySettings → Shop → Result ℤ
unfolding check_redemption
loyalty_discount tenant dto settings s = elim (or_default 0 dto.redeem_points) [
  | zero ↦ ok (pos 0)
  | suc p ↦ check_redemption tenant (suc p) dto settings s
]

unfoldable pub find_coupon : Outside → String → CreateInvoiceDto → ℤ → Shop → Result (Option Coupon)
find_coupon w tenant dto subtotal s = elim (truthy dto.coupon_code) [
  | none ↦ ok none
  | some code ↦
      validate w.upper w.now tenant code subtotal s.coupons then_do λ coupon. ok (some coupon)
]

abbrev pub coupon_discount : Option Coupon → ℤ → ℤ
coupon_discount none subtotal = pos 0
coupon_discount (some coupon) subtotal = calculate_discount coupon subtotal

-- The three discounts together, at most the subtotal, and the tax and the total that follow.
unfoldable pub combine : BuiltInvoice → ℤ → ℤ → ℕ → BuiltInvoice
combine manual loyalty coupon tax_rate =
    let discount = min_ℤ ((manual.discount_amount +ℤ loyalty) +ℤ coupon) manual.subtotal in
    let tax = apply_tax manual.subtotal discount tax_rate in
    record {
      items = manual.items;
      subtotal = manual.subtotal;
      discount_amount = discount;
      tax_amount = tax;
      total = calculate_total manual.subtotal discount tax;
    }

unfoldable pub check_cash : ℤ → ℕ → Result (Unit {0})
unfolding process_cash_payment
check_cash total zero = err (bad_request "cash_tendered required for cash payment")
check_cash total (suc n) = process_cash_payment total (pos (suc n)) then_do λ _. ok tt

unfoldable pub check_split : ℤ → Option ℤ → Option ℤ → Result (Unit {0})
unfolding process_split_payment
check_split total (some cash) (some card) = process_split_payment total cash card then_do λ _.
    if ltb_ℤ cash (pos 0)
    then err (bad_request "cash_amount and card_amount must not be negative")
    else if ltb_ℤ card (pos 0)
    then err (bad_request "cash_amount and card_amount must not be negative")
    else if eq_ℤ (cash +ℤ card) total
    then ok tt
    else err (bad_request "cash_amount + card_amount must equal the payable amount exactly")
check_split total (some cash) none =
    err (bad_request "cash_amount and card_amount required for split payment")
check_split total none card =
    err (bad_request "cash_amount and card_amount required for split payment")

unfoldable pub check_tab : Option String → Result (Unit {0})
check_tab none = err (bad_request "customer_id required for tab (open account) payment")
check_tab (some id) = ok tt

unfoldable pub check_payment : PaymentMethod → CreateInvoiceDto → ℤ → Result (Unit {0})
unfolding check_cash check_split check_tab
check_payment PaymentMethod.cash dto total = check_cash total (or_default 0 dto.cash_tendered)
check_payment PaymentMethod.split dto total = check_split total dto.cash_amount dto.card_amount
check_payment PaymentMethod.tab dto total = check_tab (truthy dto.customer_id)
check_payment _ dto total = ok tt

-- What the guards established.
pub record Sale : Type 0 where
  pub lines : List PricedLine
  pub built : BuiltInvoice
  pub coupon : Option Coupon
  pub tax_rate : ℕ
  pub settings : LoyaltySettings

abbrev pub items_of : List PricedLine → List InvoiceItem
items_of [] = []
items_of (l ∷ ls) = item_of l ∷ items_of ls

abbrev pub has_discount : Option DiscountInput → Bool
has_discount none = false
has_discount (some d) = true

abbrev pub seller_of : Caller → CreateInvoiceDto → Seller
seller_of c dto = record {
  cashier_id = c.cashier_id;
  tenant_id = c.tenant_id;
  branch_id = c.branch_id;
  has_invoice_level_discount = has_discount dto.discount;
}

-- The guards before the prices; the discount of the points.
unfoldable pub check_request : Caller → CreateInvoiceDto → Shop → Result ℤ
unfolding check_new_attempt check_customer loyalty_discount
check_request c dto s = check_new_attempt c.tenant_id dto s then_do λ _.
    assert_open_session c.tenant_id (some c.shift_id) s.till then_do λ _.
    check_customer c.tenant_id dto s then_do λ _.
    loyalty_discount c.tenant_id dto (get_settings c.tenant_id s.tenants) s

-- The part after the prices.
unfoldable pub price_sale :
    Outside → Caller → CreateInvoiceDto → Shop → ℤ → List PricedLine → Result Sale
unfolding get_tax_rate find_coupon combine check_payment
price_sale w c dto s loyalty lines =
    if any is_override lines && not w.pooled_writes
    then err
        (bad_request "Price override requires the atomic (pooled) write path, which is not enabled")
    else let tax_rate = get_tax_rate c.tenant_id s.tenants in
      let manual = build_invoice (items_of lines) dto.discount tax_rate in
      find_coupon w c.tenant_id dto manual.subtotal s then_do λ coupon.
      let built = combine manual loyalty (coupon_discount coupon manual.subtotal) tax_rate in
      check_payment dto.payment_method dto built.total then_do λ _. ok (record {
        lines = lines;
        built = built;
        coupon = coupon;
        tax_rate = tax_rate;
        settings = get_settings c.tenant_id s.tenants;
      })

-- The result, and the tables of the price resolution, whose caches it fills.
unfoldable pub prepare : Outside → Caller → CreateInvoiceDto → Shop → Result Sale × Tables
unfolding check_request price_sale
prepare w c dto s = elim (check_request c dto s) [
  | err e ↦ (err e, s.prices)
  | ok loyalty ↦
      let (lines, prices) = resolve_lines (seller_of c dto) dto.items none s.prices in
      (lines then_do price_sale w c dto s loyalty, prices)
]
