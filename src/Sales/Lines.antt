-- ===== src/Sales/Lines.antt =====
-- What the loop over the lines of a sale lets through: each line stands for its item, at the official
-- price or at an approved one.
use apiv.Prelude.{
  Bool, true, false, Option, none, some, List, [], ◌∷◌, ◌≡◌, refl, sym, ◌∙◌, ap, inl, inr, arith,
  ok, err, ◌⊎◌, Result,
}
use mathlib.Core.Path.{subst}
use apiv.Prelude.Int.{ℤ}
use apiv.Pricing.EffectiveRole.{EffectiveRole, resolve_effective_role}
use apiv.Pricing.Types.{
  PriceResolutionInput, PriceResolutionResult, Approval, no_override, approved, rejected, Tables,
}
use apiv.Pricing.Resolution.{resolve_official_price, resolve_price, role_for}
use apiv.Pricing.Decision.{Approves, resolve_price_approved, no_override_iff}
use apiv.Pricing.Reading.{
  SameRows, SameRows-trans, resolve_official_price-SameRows, resolve_price-SameRows,
}
use apiv.Sales.Tables.{InvoiceItemDto}
use apiv.Sales.Guards.{ok-injective}
use apiv.Sales.Pricing.{Seller, PricedLine, input_for, keep_role, resolve_lines, with_line}

-- A line that stands for its item of the request, at a price.
abbrev pub sold_at : InvoiceItemDto → ℤ → PriceResolutionResult → PricedLine
sold_at item price resolution = record {
  item = record {
    item_id = item.item_id;
    item_name = item.item_name;
    variant_id = item.variant_id;
    variant_name = item.variant_name;
    quantity = item.quantity;
    unit_price = price;
  };
  serial_id = item.serial_id;
  resolution = resolution;
}

-- The request for a price that the seller makes for an item of the sale.
abbrev pub asked : Seller → InvoiceItemDto → PriceResolutionInput
asked seller item = record {
  user_id = seller.cashier_id;
  tenant_id = seller.tenant_id;
  branch_id = seller.branch_id;
  item_id = item.item_id;
  variant_id = item.variant_id;
  requested_unit_price = item.unit_price;
  reason = item.reason;
  has_invoice_level_discount = seller.has_invoice_level_discount;
  effective_role = none;
}

-- A line is at the official price, which is the one asked for; or at the price of an approval, which
-- all that an approval stands on allows, read off the rows that the sale began with.
pub data Fits (seller : Seller) (s : Tables) (item : InvoiceItemDto) (line : PricedLine)
    : Type 0 where
  at_official :
      (price : ℤ)
      → resolve_official_price item.item_id item.variant_id seller.tenant_id s ≡ some price
      → item.unit_price ≡ price
      → line ≡ sold_at item price (no_override price)
      → Fits seller s item line
  at_approved :
      (t : Tables) (a : Approval)
      → SameRows s t
      → Approves (asked seller item) t a
      → line ≡ sold_at item a.approved_unit_price (approved a)
      → Fits seller s item line

-- One line for each item, in the order of the request.
abbrev pub EachFits : Seller → Tables → List InvoiceItemDto → List PricedLine → Type 0
EachFits seller s [] [] = Unit {0}
EachFits seller s [] (line ∷ lines) = ⊥
EachFits seller s (item ∷ items) [] = ⊥
EachFits seller s (item ∷ items) (line ∷ lines) =
    Fits seller s item line × EachFits seller s items lines

-- The role that the loop keeps is the one that the rows give.
abbrev IsKept : Seller → Tables → Option (Option EffectiveRole) → Type 0
IsKept seller s none = Unit {0}
IsKept seller s (some role) = resolve_effective_role seller.cashier_id s.permissions.db ≡ role

abbrev refuses : PriceResolutionResult → Bool
refuses (rejected official requested code role) = true
refuses _ = false

PriceResolutionResult-cases :
    (r : PriceResolutionResult)
    → ((price : ℤ) × (r ≡ no_override price))
      ⊎ (((a : Approval) × (r ≡ approved a)) ⊎ (refuses r ≡ true))
PriceResolutionResult-cases (no_override price) = inl (price, refl)
PriceResolutionResult-cases (approved a) = inr (inl (a, refl))
PriceResolutionResult-cases (rejected official requested code role) = inr (inr refl)

with_line-ok :
    (line : PricedLine) (r : Result (List PricedLine)) {lines : List PricedLine}
    → with_line line r ≡ ok lines
    → (rest : List PricedLine) × (r ≡ ok rest) × (line ∷ rest ≡ lines)
with_line-ok line (ok rest) h = (rest, refl, cc)
with_line-ok line (err e) h = absurd (cc)

module _ (seller : Seller) (s : Tables) where
  role_for-IsKept :
      (item : InvoiceItemDto) (cached : Option (Option EffectiveRole)) (t : Tables)
      → SameRows s t
      → IsKept seller s cached
      → role_for (input_for seller item cached) t
        ≡ resolve_effective_role seller.cashier_id s.permissions.db
  role_for-IsKept item none t h k = ap (resolve_effective_role seller.cashier_id) h.database
  role_for-IsKept item (some role) t h k = sym k

  keep_role-IsKept :
      (cached : Option (Option EffectiveRole)) (role : EffectiveRole)
      → IsKept seller s cached
      → resolve_effective_role seller.cashier_id s.permissions.db ≡ some role
      → IsKept seller s (keep_role cached role)
  keep_role-IsKept none role k e = e
  keep_role-IsKept (some cached) role k e = k

  -- An approval with the kept role is one with the role that is read anew.
  without_cache :
      (item : InvoiceItemDto) (cached : Option (Option EffectiveRole)) (t : Tables) (a : Approval)
      → SameRows s t
      → IsKept seller s cached
      → Approves (input_for seller item cached) t a
      → Approves (asked seller item) t a
  without_cache item cached t a h k v = record {
    official = v.official;
    price = v.price;
    amount = v.amount;
    percent = v.percent;
    direction = v.direction;
    overrides = v.overrides;
    role = role_for-IsKept item none t h tt ∙ (sym (role_for-IsKept item cached t h k) ∙ v.role);
    permitted = v.permitted;
    policy = v.policy;
    allowed = v.allowed;
  }

  at_official-ok :
      (item : InvoiceItemDto) (cached : Option (Option EffectiveRole)) (t : Tables) (price : ℤ)
      → SameRows s t
      → (resolve_price (input_for seller item cached) t).0 ≡ no_override price
      → Fits seller s item (sold_at item price (no_override price))
  at_official-ok item cached t price h e =
      let (official, same) = (no_override_iff (input_for seller item cached) t price).0 e in
      at_official price
        (sym (resolve_official_price-SameRows item.item_id seller.tenant_id item.variant_id h)
          ∙ official)
        same refl

  at_approved-ok :
      (item : InvoiceItemDto) (cached : Option (Option EffectiveRole)) (t : Tables) (a : Approval)
      → SameRows s t
      → IsKept seller s cached
      → (resolve_price (input_for seller item cached) t).0 ≡ approved a
      → Fits seller s item (sold_at item a.approved_unit_price (approved a))
        × IsKept seller s (keep_role cached a.effective_role)
  at_approved-ok item cached t a h k e =
      let v = resolve_price_approved (input_for seller item cached) t a e in
      (
        at_approved t a h (without_cache item cached t a h k v) refl,
        keep_role-IsKept cached a.effective_role k
            (sym (role_for-IsKept item cached t h k) ∙ v.role),
      )

  -- Every line that the loop returns fits its item.
  pub resolve_lines-EachFits :
      (items : List InvoiceItemDto) (cached : Option (Option EffectiveRole)) (t : Tables)
      {lines : List PricedLine}
      → SameRows s t
      → IsKept seller s cached
      → (resolve_lines seller items cached t).0 ≡ ok lines
      → EachFits seller s items lines
  unfolding resolve_lines
  resolve_lines-EachFits [] cached t {lines} h k e =
      subst (EachFits seller s []) (ok-injective e) tt
  resolve_lines-EachFits (item ∷ items) cached t {lines} h k e =
      let input = input_for seller item cached in
      let h' = SameRows-trans h (resolve_price-SameRows input t) in
      let t' = (resolve_price input t).1 in
      elim (PriceResolutionResult-cases (resolve_price input t).0) [
        | inl (price, q) ↦
            let rest =
              with_line-ok (sold_at item price (no_override price))
                (resolve_lines seller items cached t').0 (sym (ground (arith, q)) ∙ e) in
            subst (EachFits seller s (item ∷ items)) rest.2 (
              at_official-ok item cached t price h q,
              resolve_lines-EachFits items cached t' h' k rest.1,
            )
        | inr (inl (a, q)) ↦
            let fits = at_approved-ok item cached t a h k q in
            let rest =
              with_line-ok (sold_at item a.approved_unit_price (approved a))
                (resolve_lines seller items (keep_role cached a.effective_role) t').0
                (sym (ground (arith, q)) ∙ e) in
            subst (EachFits seller s (item ∷ items)) rest.2 (
              fits.0,
              resolve_lines-EachFits items (keep_role cached a.effective_role) t' h' fits.1 rest.1,
            )
        | inr (inr refused) ↦ absurd (ground (arith, refused))
      ]
