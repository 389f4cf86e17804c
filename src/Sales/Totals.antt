-- ===== src/Sales/Totals.antt =====
-- The amounts of a sale: their order, their signs, and how they add up.
use apiv.Prelude.{ℕ, zero, suc, ◌≤◌, Option, none, some, List, [], ◌∷◌, ◌≡◌, refl, arith, All}
use apiv.Prelude.Int.{ℤ, pos, ◌+ℤ◌, ◌-ℤ◌}
use apiv.Prelude.Sums.{IsNonneg, ◌≤ℤ◌}
use apiv.Sales.Money.{
  scale, min_ℤ, min_ℤ-le_right, min_ℤ-IsNonneg, scale-IsNonneg, to_fixed-IsNonneg, share-le,
}
use apiv.Sales.Engines.{
  InvoiceItem, DiscountType, percentage, fixed, DiscountInput, BuiltInvoice, calculate_subtotal,
  subtotal_from, discount_of, apply_discount, apply_percentage_discount, apply_fixed_discount,
  check_max_discount, apply_tax, calculate_total, build_invoice,
}
use apiv.Sales.Tables.{Coupon}
use apiv.Sales.Coupons.{calculate_discount, capped}
use apiv.Sales.Checkout.{combine, coupon_discount}

add-IsNonneg : (a b : ℤ) → IsNonneg a → IsNonneg b → IsNonneg (a +ℤ b)
unfolding ◌+ℤ◌
add-IsNonneg a b ha hb = ground arith

minus-IsNonneg : (a b : ℤ) → b ≤ℤ a → IsNonneg (a -ℤ b)
unfolding ◌-ℤ◌
minus-IsNonneg a b h = ground arith

-- A line whose price is not negative.
abbrev pub HasPrice : InvoiceItem → Type 0
HasPrice i = IsNonneg i.unit_price

subtotal_from-IsNonneg :
    (acc : ℤ) (items : List InvoiceItem)
    → IsNonneg acc
    → All HasPrice items
    → IsNonneg (subtotal_from acc items)
unfolding subtotal_from
subtotal_from-IsNonneg acc [] h hs = h
subtotal_from-IsNonneg acc (i ∷ is) h hs =
    subtotal_from-IsNonneg (acc +ℤ scale i.unit_price i.quantity) is
      (add-IsNonneg acc (scale i.unit_price i.quantity) h
        (scale-IsNonneg i.unit_price i.quantity hs.0))
      hs.1

pub calculate_subtotal-IsNonneg :
    (items : List InvoiceItem) → All HasPrice items → IsNonneg (calculate_subtotal items)
unfolding calculate_subtotal
calculate_subtotal-IsNonneg items hs = subtotal_from-IsNonneg (pos 0) items (omega arith) hs

discount_of-IsNonneg :
    (t : DiscountType) (value : ℕ) (subtotal : ℤ)
    → IsNonneg subtotal
    → IsNonneg (discount_of t value subtotal)
unfolding discount_of apply_percentage_discount apply_fixed_discount
discount_of-IsNonneg percentage value subtotal h =
    to_fixed-IsNonneg (scale subtotal value) (scale-IsNonneg subtotal value h)
discount_of-IsNonneg fixed value subtotal h = min_ℤ-IsNonneg (pos value) subtotal (omega arith) h

apply_discount-IsNonneg :
    (subtotal : ℤ) (discount : Option DiscountInput)
    → IsNonneg subtotal
    → IsNonneg (apply_discount subtotal discount)
unfolding apply_discount check_max_discount
apply_discount-IsNonneg subtotal none h = omega arith
apply_discount-IsNonneg subtotal (some d) h =
    elim d.max_allowed
      as (λ m. IsNonneg (elim m [
        | none ↦ discount_of d.type d.value subtotal
        | some most ↦ check_max_discount (discount_of d.type d.value subtotal) (pos most)
      ])) [
        | none ↦ discount_of-IsNonneg d.type d.value subtotal h
        | some most ↦
            min_ℤ-IsNonneg (discount_of d.type d.value subtotal) (pos most)
              (discount_of-IsNonneg d.type d.value subtotal h) (omega arith)
      ]

capped-IsNonneg : (raw : ℤ) (most : Option ℕ) → IsNonneg raw → IsNonneg (capped raw most)
unfolding capped check_max_discount
capped-IsNonneg raw none h = h
capped-IsNonneg raw (some zero) h = h
capped-IsNonneg raw (some (suc m)) h = min_ℤ-IsNonneg raw (pos (suc m)) h (omega arith)

coupon_discount-IsNonneg :
    (coupon : Option Coupon) (subtotal : ℤ)
    → IsNonneg subtotal
    → IsNonneg (coupon_discount coupon subtotal)
unfolding calculate_discount check_max_discount
coupon_discount-IsNonneg none subtotal h = omega arith
coupon_discount-IsNonneg (some c) subtotal h =
    min_ℤ-IsNonneg
      (capped (discount_of c.discount_type c.discount_value subtotal) c.max_discount_amount)
      subtotal
      (capped-IsNonneg (discount_of c.discount_type c.discount_value subtotal) c.max_discount_amount
        (discount_of-IsNonneg c.discount_type c.discount_value subtotal h))
      h

-- Where no part is negative and the rate is at most the whole: the discount lies between nothing and
-- the subtotal, the tax between nothing and what is left, and so does the total, up to the tax.
pub record Bounded (b : BuiltInvoice) : Type 0 where
  pub discount_nonneg : IsNonneg b.discount_amount
  pub discount_le : b.discount_amount ≤ℤ b.subtotal
  pub tax_nonneg : IsNonneg b.tax_amount
  pub tax_le : b.tax_amount ≤ℤ b.subtotal -ℤ b.discount_amount
  pub total_nonneg : IsNonneg b.total

apply_tax-IsNonneg :
    (subtotal discount : ℤ) (rate : ℕ)
    → discount ≤ℤ subtotal
    → IsNonneg (apply_tax subtotal discount rate)
unfolding apply_tax
apply_tax-IsNonneg subtotal discount rate h =
    to_fixed-IsNonneg (scale (subtotal -ℤ discount) rate)
      (scale-IsNonneg (subtotal -ℤ discount) rate (minus-IsNonneg subtotal discount h))

apply_tax-le :
    (subtotal discount : ℤ) (rate : ℕ)
    → discount ≤ℤ subtotal
    → rate ≤ 10000
    → apply_tax subtotal discount rate ≤ℤ subtotal -ℤ discount
unfolding apply_tax
apply_tax-le subtotal discount rate h hr =
    share-le (subtotal -ℤ discount) rate (minus-IsNonneg subtotal discount h) hr

-- What a client, points and a coupon take off, whatever their signs, is never more than the subtotal,
-- and the total is the subtotal without the discount and with the tax.
pub combine_adds_up :
    (manual : BuiltInvoice) (loyalty coupon : ℤ) (rate : ℕ)
    → let b = combine manual loyalty coupon rate in
      (b.discount_amount ≤ℤ b.subtotal)
      × (b.total ≡ (b.subtotal -ℤ b.discount_amount) +ℤ b.tax_amount)
unfolding combine calculate_total
combine_adds_up manual loyalty coupon rate =
    (min_ℤ-le_right ((manual.discount_amount +ℤ loyalty) +ℤ coupon) manual.subtotal, refl)

-- For lines without a negative price, a tax rate of at most 1, and any discount, points and coupon:
-- the discount is between 0 and the subtotal, the tax is between 0 and the discounted subtotal, and
-- the total is not negative.
pub combine-Bounded :
    (items : List InvoiceItem) (discount : Option DiscountInput) (points : ℕ)
    (coupon : Option Coupon) (rate : ℕ)
    → All HasPrice items
    → rate ≤ 10000
    → let manual = build_invoice items discount rate in
      Bounded (combine manual (pos points) (coupon_discount coupon manual.subtotal) rate)
unfolding combine build_invoice calculate_total
combine-Bounded items discount points coupon rate hs hr =
    let subtotal = calculate_subtotal items in
    let positive = calculate_subtotal-IsNonneg items hs in
    let manual = apply_discount subtotal discount in
    let sum = (manual +ℤ pos points) +ℤ coupon_discount coupon subtotal in
    let sum_positive =
      add-IsNonneg (manual +ℤ pos points) (coupon_discount coupon subtotal)
        (add-IsNonneg manual (pos points) (apply_discount-IsNonneg subtotal discount positive)
          (omega arith))
        (coupon_discount-IsNonneg coupon subtotal positive) in
    let most = min_ℤ-le_right sum subtotal in
    let d = min_ℤ sum subtotal in
    record {
      discount_nonneg = min_ℤ-IsNonneg sum subtotal sum_positive positive;
      discount_le = most;
      tax_nonneg = apply_tax-IsNonneg subtotal d rate most;
      tax_le = apply_tax-le subtotal d rate most hr;
      total_nonneg =
          add-IsNonneg (subtotal -ℤ d) (apply_tax subtotal d rate) (minus-IsNonneg subtotal d most)
            (apply_tax-IsNonneg subtotal d rate most);
    }
