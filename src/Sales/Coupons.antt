-- ===== src/Sales/Coupons.antt =====
-- src/modules/coupons/coupons.service.ts and coupons.repository.ts: the checkout operations. A code is
-- compared in upper case; `upper` is `String.prototype.toUpperCase`, a parameter.
use apiv.Prelude.{
  ℕ, zero, suc, ◌+◌, String, Bool, false, not, ◌&&◌, Option, none, some, List, ◌==◌, Result, ok,
  err, bad_request, ltb, leb, filter, maybe_single, update, if◌then◌else◌,
}
use apiv.Prelude.Int.{ℤ, pos, ltb_ℤ}
use apiv.Sales.Engines.{check_max_discount, discount_of}
use apiv.Sales.Tables.{Coupon}

unfoldable pub find_by_code : (String → String) → String → String → List Coupon → Option Coupon
find_by_code upper tenant code coupons = maybe_single (
    filter (λ (c : Coupon). (c.code == upper code) && (c.tenant_id == tenant) && not c.is_deleted)
      coupons)

-- `coupon.valid_from && new Date(coupon.valid_from) > now`, and so on.
abbrev pub is_early : ℕ → Option ℕ → Bool
is_early now none = false
is_early now (some from) = ltb now from

abbrev pub is_late : ℕ → Option ℕ → Bool
is_late now none = false
is_late now (some to) = ltb to now

abbrev pub is_used_up : ℕ → Option ℕ → Bool
is_used_up used none = false
is_used_up used (some most) = leb most used

abbrev pub is_below : ℤ → Option ℕ → Bool
is_below subtotal none = false
is_below subtotal (some zero) = false
is_below subtotal (some (suc least)) = ltb_ℤ subtotal (pos (suc least))

unfoldable pub check_coupon : ℕ → ℤ → Coupon → Result Coupon
check_coupon now subtotal coupon =
    if not coupon.is_active
    then err (bad_request "This coupon is no longer active")
    else if is_early now coupon.valid_from
    then err (bad_request "This coupon is not valid yet")
    else if is_late now coupon.valid_to
    then err (bad_request "This coupon has expired")
    else if is_used_up coupon.used_count coupon.max_uses
    then err (bad_request "This coupon has reached its usage limit")
    else if is_below subtotal coupon.min_order_amount
    then err (bad_request "This coupon requires a minimum order")
    else ok coupon

unfoldable pub validate : (String → String) → ℕ → String → String → ℤ → List Coupon → Result Coupon
unfolding find_by_code check_coupon
validate upper now tenant code subtotal coupons = elim (find_by_code upper tenant code coupons) [
  | none ↦ err (bad_request "Invalid coupon code")
  | some coupon ↦ check_coupon now subtotal coupon
]

-- `coupon.max_discount_amount ? … : raw`: no amount, and 0, do not cap.
unfoldable pub capped : ℤ → Option ℕ → ℤ
capped raw none = raw
capped raw (some zero) = raw
capped raw (some (suc most)) = check_max_discount raw (pos (suc most))

unfoldable pub calculate_discount : Coupon → ℤ → ℤ
unfolding capped discount_of check_max_discount
calculate_discount coupon subtotal =
    check_max_discount
      (capped (discount_of coupon.discount_type coupon.discount_value subtotal)
        coupon.max_discount_amount)
      subtotal

-- `fn_redeem_coupon`: the use is counted unless the coupon is used up, inactive or gone.
abbrev pub is_redeemable : String → Coupon → Bool
is_redeemable id c =
    (c.id == id) && c.is_active && not c.is_deleted && not (is_used_up c.used_count c.max_uses)

unfoldable pub redeem : String → List Coupon → List Coupon
redeem id coupons =
    update (is_redeemable id) (λ (c : Coupon). record c { used_count = c.used_count + 1 }) coupons
