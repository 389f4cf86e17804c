-- ===== src/Sales/Engines.antt =====
-- src/engines/discount-engine, pos-engine and payment-engine.
use apiv.Prelude.{
  ℕ, String, Bool, true, Option, none, some, List, [], ◌∷◌, Result, ok, err, bad_request, contains,
  if◌then◌else◌,
}
use apiv.Prelude.Int.{ℤ, pos, ◌+ℤ◌, ◌-ℤ◌, ltb_ℤ}
use apiv.Sales.Money.{scale, to_fixed, min_ℤ}

unfoldable pub apply_percentage_discount : ℤ → ℕ → ℤ
apply_percentage_discount subtotal percent = to_fixed (scale subtotal percent)

-- Amounts are whole cents, so that the rounding of a minimum changes nothing.
unfoldable pub apply_fixed_discount : ℤ → ℤ → ℤ
apply_fixed_discount subtotal amount = min_ℤ amount subtotal

unfoldable pub check_max_discount : ℤ → ℤ → ℤ
check_max_discount discount max_allowed = min_ℤ discount max_allowed

pub record InvoiceItem : Type 0 where
  pub item_id : String
  pub item_name : String
  pub variant_id : Option String
  pub variant_name : Option String
  pub quantity : ℕ
  pub unit_price : ℤ

pub data DiscountType : Type 0 where
  percentage fixed : DiscountType

-- `value` is hundredths of a percent or cents; the request validation refuses negative ones.
pub record DiscountInput : Type 0 where
  pub type : DiscountType
  pub value : ℕ
  pub max_allowed : Option ℕ

pub record BuiltInvoice : Type 0 where
  pub items : List InvoiceItem
  pub subtotal : ℤ
  pub discount_amount : ℤ
  pub tax_amount : ℤ
  pub total : ℤ

unfoldable pub subtotal_from : ℤ → List InvoiceItem → ℤ
subtotal_from sum [] = sum
subtotal_from sum (item ∷ items) = subtotal_from (sum +ℤ scale item.unit_price item.quantity) items

unfoldable pub calculate_subtotal : List InvoiceItem → ℤ
unfolding subtotal_from
calculate_subtotal items = subtotal_from (pos 0) items

unfoldable pub discount_of : DiscountType → ℕ → ℤ → ℤ
unfolding apply_percentage_discount apply_fixed_discount
discount_of percentage value subtotal = apply_percentage_discount subtotal value
discount_of fixed value subtotal = apply_fixed_discount subtotal (pos value)

unfoldable pub apply_discount : ℤ → Option DiscountInput → ℤ
unfolding discount_of check_max_discount
apply_discount subtotal none = pos 0
apply_discount subtotal (some discount) =
    let amount = discount_of discount.type discount.value subtotal in
    elim discount.max_allowed [
      | none ↦ amount
      | some max_allowed ↦ check_max_discount amount (pos max_allowed)
    ]

unfoldable pub apply_tax : ℤ → ℤ → ℕ → ℤ
apply_tax subtotal discount_amount tax_rate =
    to_fixed (scale (subtotal -ℤ discount_amount) tax_rate)

unfoldable pub calculate_total : ℤ → ℤ → ℤ → ℤ
calculate_total subtotal discount_amount tax_amount = (subtotal -ℤ discount_amount) +ℤ tax_amount

unfoldable pub build_invoice : List InvoiceItem → Option DiscountInput → ℕ → BuiltInvoice
build_invoice items discount tax_rate =
    let subtotal = calculate_subtotal items in
    let discount_amount = apply_discount subtotal discount in
    let tax_amount = apply_tax subtotal discount_amount tax_rate in
    record {
      items = items;
      subtotal = subtotal;
      discount_amount = discount_amount;
      tax_amount = tax_amount;
      total = calculate_total subtotal discount_amount tax_amount;
    }

pub record PaymentResult : Type 0 where
  pub success : Bool
  pub change : Option ℤ
  pub method : String

unfoldable pub process_cash_payment : ℤ → ℤ → Result PaymentResult
process_cash_payment amount tendered =
    if ltb_ℤ tendered amount
    then err (bad_request "Insufficient cash tendered")
    else ok (record { success = true; change = some (tendered -ℤ amount); method = "cash" })

unfoldable pub process_card_payment : ℤ → Result PaymentResult
process_card_payment amount =
    if ltb_ℤ (pos 0) amount
    then ok (record { success = true; change = none; method = "card" })
    else err (bad_request "Invalid payment amount")

unfoldable pub process_split_payment : ℤ → ℤ → ℤ → Result PaymentResult
process_split_payment total cash_amount card_amount =
    let sum = cash_amount +ℤ card_amount in
    if ltb_ℤ sum total
    then err (bad_request "Split payment does not cover total")
    else ok (record { success = true; change = some (sum -ℤ total); method = "split" })

unfoldable pub validate_payment_method : String → List String → Bool
validate_payment_method method allowed = contains method allowed
