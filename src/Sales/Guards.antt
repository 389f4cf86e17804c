-- ===== src/Sales/Guards.antt =====
-- What the guards of a sale have established when none of them refused it.
use apiv.Prelude.{
  false, not, ◌&&◌, Option, none, some, List, ◌≡◌, refl, sym, ◌∙◌, inl, inr, Result, Error, ok, err,
  any, Bool-cases, Result-cases,
}
use mathlib.Core.Path.{subst}
use apiv.Prelude.Int.{ℤ}
use apiv.Shifts.Service.{assert_open_session}
use apiv.Sales.Engines.{BuiltInvoice, build_invoice}
use apiv.Sales.Tables.{CreateInvoiceDto, Coupon, Shop, Outside}
use apiv.Sales.Loyalty.{get_settings}
use apiv.Sales.Pricing.{PricedLine, resolve_lines, is_override}
use apiv.Sales.Checkout.{
  ◌then_do◌, Caller, Sale, check_new_attempt, check_customer, check_request, check_payment, combine,
  coupon_discount, find_coupon, get_tax_rate, items_of, loyalty_discount, prepare, price_sale,
  seller_of,
}

-- Inversion of a chain that succeeded.
pub then_do-ok :
    {A B : Type 0} (m : Result A) (f : A → Result B) {b : B}
    → (m then_do f) ≡ ok b
    → (a : A) × (m ≡ ok a) × (f a ≡ ok b)
then_do-ok (ok a) f h = (a, refl, h)
then_do-ok (err e) f h = absurd (cc)

-- The request is a new attempt in an open session.
pub check_request-ok :
    (c : Caller) (dto : CreateInvoiceDto) (s : Shop) {loyalty : ℤ}
    → check_request c dto s ≡ ok loyalty
    → (check_new_attempt c.tenant_id dto s ≡ ok tt)
      × (assert_open_session c.tenant_id (some c.shift_id) s.till ≡ ok tt)
      × (loyalty_discount c.tenant_id dto (get_settings c.tenant_id s.tenants) s ≡ ok loyalty)
unfolding check_request
check_request-ok c dto s h =
    let first = then_do-ok (check_new_attempt c.tenant_id dto s) _ h in
    let second = then_do-ok (assert_open_session c.tenant_id (some c.shift_id) s.till) _ first.2 in
    let third = then_do-ok (check_customer c.tenant_id dto s) _ second.2 in
    (first.1, second.1, third.2)

-- What a sale that was priced is made of.
pub record Priced (w : Outside) (c : Caller) (dto : CreateInvoiceDto) (s : Shop) (loyalty : ℤ)
    (lines : List PricedLine) (sale : Sale) : Type 0 where
  pub same_lines : sale.lines ≡ lines
  pub atomic : (any is_override lines && not w.pooled_writes) ≡ false
  pub rate : sale.tax_rate ≡ get_tax_rate c.tenant_id s.tenants
  pub built : sale.built ≡ (
      let manual = build_invoice (items_of lines) dto.discount sale.tax_rate in
      combine manual loyalty (coupon_discount sale.coupon manual.subtotal) sale.tax_rate)
  pub paid : check_payment dto.payment_method dto sale.built.total ≡ ok tt

pub ok-injective : {A : Type 0} {a b : A} → ok a ≡ ok b → a ≡ b
ok-injective h = cc

abbrev built_of :
    Outside → Caller → CreateInvoiceDto → Shop → ℤ → List PricedLine → Option Coupon → BuiltInvoice
built_of w c dto s loyalty lines coupon =
    let rate = get_tax_rate c.tenant_id s.tenants in
    let manual = build_invoice (items_of lines) dto.discount rate in
    combine manual loyalty (coupon_discount coupon manual.subtotal) rate

abbrev sale_of :
    Outside → Caller → CreateInvoiceDto → Shop → ℤ → List PricedLine → Option Coupon → Sale
sale_of w c dto s loyalty lines coupon = record {
  lines = lines;
  built = built_of w c dto s loyalty lines coupon;
  coupon = coupon;
  tax_rate = get_tax_rate c.tenant_id s.tenants;
  settings = get_settings c.tenant_id s.tenants;
}

with_coupon :
    (w : Outside) (c : Caller) (dto : CreateInvoiceDto) (s : Shop) (loyalty : ℤ)
    (lines : List PricedLine) (coupon : Option Coupon) {sale : Sale}
    → (any is_override lines && not w.pooled_writes) ≡ false
    → (check_payment dto.payment_method dto (built_of w c dto s loyalty lines coupon).total
        then_do λ _. ok (sale_of w c dto s loyalty lines coupon))
      ≡ ok sale
    → Priced w c dto s loyalty lines sale
with_coupon w c dto s loyalty lines coupon e h =
    let paid =
      then_do-ok
        (check_payment dto.payment_method dto (built_of w c dto s loyalty lines coupon).total) _
        h in
    subst (Priced w c dto s loyalty lines) (ok-injective paid.2)
      (record { same_lines = refl; atomic = e; rate = refl; built = refl; paid = paid.1 })

pub price_sale-ok :
    (w : Outside) (c : Caller) (dto : CreateInvoiceDto) (s : Shop) (loyalty : ℤ)
    (lines : List PricedLine) {sale : Sale}
    → price_sale w c dto s loyalty lines ≡ ok sale
    → Priced w c dto s loyalty lines sale
unfolding price_sale
price_sale-ok w c dto s loyalty lines h =
    elim (Bool-cases (any is_override lines && not w.pooled_writes)) [
      | inl e ↦ absurd (cc (rw e at h))
      | inr e ↦
          let rate = get_tax_rate c.tenant_id s.tenants in
          let manual = build_invoice (items_of lines) dto.discount rate in
          let found = then_do-ok (find_coupon w c.tenant_id dto manual.subtotal s) _ (rw e at h) in
          with_coupon w c dto s loyalty lines found.0 e found.2
    ]

-- What stands behind a sale that passed every guard: a new attempt in an open session, and lines that
-- the price resolution let through.
pub record Prepared (w : Outside) (c : Caller) (dto : CreateInvoiceDto) (s : Shop) (sale : Sale)
    : Type 0 where
  pub loyalty : ℤ
  pub lines : List PricedLine
  pub new_attempt : check_new_attempt c.tenant_id dto s ≡ ok tt
  pub session : assert_open_session c.tenant_id (some c.shift_id) s.till ≡ ok tt
  pub redeemed :
      loyalty_discount c.tenant_id dto (get_settings c.tenant_id s.tenants) s ≡ ok loyalty
  pub resolved : (resolve_lines (seller_of c dto) dto.items none s.prices).0 ≡ ok lines
  pub priced : Priced w c dto s loyalty lines sale

prepare_refused :
    (w : Outside) (c : Caller) (dto : CreateInvoiceDto) (s : Shop) (e : Error)
    → check_request c dto s ≡ err e
    → (prepare w c dto s).0 ≡ err e
unfolding prepare
prepare_refused w c dto s e q = rw (q, prepare)

prepare_priced :
    (w : Outside) (c : Caller) (dto : CreateInvoiceDto) (s : Shop) (loyalty : ℤ)
    → check_request c dto s ≡ ok loyalty
    → (prepare w c dto s).0 ≡ (
        (resolve_lines (seller_of c dto) dto.items none s.prices).0
        then_do price_sale w c dto s loyalty)
unfolding prepare
prepare_priced w c dto s loyalty q = rw (q, prepare)

pub prepare-ok :
    (w : Outside) (c : Caller) (dto : CreateInvoiceDto) (s : Shop) {sale : Sale}
    → (prepare w c dto s).0 ≡ ok sale
    → Prepared w c dto s sale
prepare-ok w c dto s h = elim (Result-cases (check_request c dto s)) [
  | inl (e, q) ↦ absurd (cc (prepare_refused w c dto s e q))
  | inr (loyalty, q) ↦
      let request = check_request-ok c dto s q in
      let lines =
        then_do-ok (resolve_lines (seller_of c dto) dto.items none s.prices).0 _
          (sym (prepare_priced w c dto s loyalty q) ∙ h) in
      record {
        loyalty = loyalty;
        lines = lines.0;
        new_attempt = request.0;
        session = request.1;
        redeemed = request.2;
        resolved = lines.1;
        priced = price_sale-ok w c dto s loyalty lines.0 lines.2;
      }
]
