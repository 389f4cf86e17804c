-- ===== src/Sales/Pricing.antt =====
-- The loop of `InvoicesService.create` that prices the lines: each takes the official or the approved
-- price in place of the client's, and the first rejected line ends the sale.
use apiv.Prelude.{
  String, Bool, true, false, Option, none, some, List, [], ◌∷◌, Result, ok, err, Error, not_found,
  bad_request,
}
use apiv.Pricing.EffectiveRole.{EffectiveRole}
use apiv.Pricing.Types.{
  RejectionReasonCode, item_or_variant_not_found, PriceResolutionInput, PriceResolutionResult,
  no_override, approved, rejected, Tables,
}
use apiv.Pricing.Resolution.{resolve_price}
use apiv.Prelude.Int.{ℤ}
use apiv.Sales.Engines.{InvoiceItem}
use apiv.Sales.Tables.{InvoiceItemDto}

-- Who sells, and where.
pub record Seller : Type 0 where
  pub cashier_id : String
  pub tenant_id : String
  pub branch_id : String
  pub has_invoice_level_discount : Bool

pub record PricedLine : Type 0 where
  pub item : InvoiceItem
  pub serial_id : Option String
  pub resolution : PriceResolutionResult

abbrev pub input_for :
    Seller → InvoiceItemDto → Option (Option EffectiveRole) → PriceResolutionInput
input_for seller item cached = record {
  user_id = seller.cashier_id;
  tenant_id = seller.tenant_id;
  branch_id = seller.branch_id;
  item_id = item.item_id;
  variant_id = item.variant_id;
  requested_unit_price = item.unit_price;
  reason = item.reason;
  has_invoice_level_discount = seller.has_invoice_level_discount;
  effective_role = cached;
}

abbrev pub line_at : InvoiceItemDto → ℤ → PriceResolutionResult → PricedLine
line_at item price resolution = record {
  item = record {
    item_id = item.item_id;
    item_name = item.item_name;
    variant_id = item.variant_id;
    variant_name = item.variant_name;
    quantity = item.quantity;
    unit_price = price;
  };
  serial_id = item.serial_id;
  resolution = resolution;
}

abbrev pub rejection_error : RejectionReasonCode → Error
rejection_error item_or_variant_not_found = not_found "Item or variant not found"
rejection_error _ = bad_request "Price override rejected"

-- The role that the first approved line resolved serves the later lines.
abbrev pub keep_role : Option (Option EffectiveRole) → EffectiveRole → Option (Option EffectiveRole)
keep_role none role = some (some role)
keep_role (some cached) role = some cached

abbrev pub with_line : PricedLine → Result (List PricedLine) → Result (List PricedLine)
with_line l (ok ls) = ok (l ∷ ls)
with_line l (err e) = err e

unfoldable pub resolve_lines :
    Seller
    → List InvoiceItemDto
    → Option (Option EffectiveRole)
    → Tables
    → Result (List PricedLine) × Tables
resolve_lines seller [] cached t = (ok [], t)
resolve_lines seller (item ∷ items) cached t =
    let (result, t') = resolve_price (input_for seller item cached) t in
    elim result [
      | rejected official requested code role ↦ (err (rejection_error code), t')
      | no_override official ↦
          let (rest, t'') = resolve_lines seller items cached t' in
          (with_line (line_at item official (no_override official)) rest, t'')
      | approved a ↦
          let (rest, t'') = resolve_lines seller items (keep_role cached a.effective_role) t' in
          (with_line (line_at item a.approved_unit_price (approved a)) rest, t'')
    ]

abbrev pub is_override : PricedLine → Bool
is_override l = elim l.resolution [
  | approved _ ↦ true
  | no_override _ ↦ false
  | rejected _ _ _ _ ↦ false
]

abbrev pub item_of : PricedLine → InvoiceItem
item_of l = l.item
