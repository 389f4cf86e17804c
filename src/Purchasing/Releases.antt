-- ===== src/Purchasing/Releases.antt =====
-- src/modules/purchasing/releases.service.ts and its repository: what may be released from an agreement,
-- and at what price.
use apiv.Prelude.{
  ℕ, ◌+◌, ◌*◌, String, Bool, true, false, not, ◌&&◌, Option, none, some, List, [], ◌∷◌, ◌==◌,
  Result, Error, ok, err, bad_request, database, any, filter, find, ltb, leb, if◌then◌else◌,
}
use apiv.Prelude.Int.{ℤ, pos, ◌+ℤ◌, ◌-ℤ◌}
use apiv.Sales.Engines.{apply_percentage_discount}
use apiv.Purchasing.Agreements.{
  AgreementStatus, OveragePolicy, block, Agreement, AgreementItem, tiered, rule_based,
  AgreementPricing, PricingTier, ReleaseStatus, Release, ReleaseItem, Books,
}

pub record ReleaseLine : Type 0 where
  pub agreement_item_id : String
  pub released_quantity : ℕ
  pub notes : Option String

pub record CreateRelease : Type 0 where
  pub agreement_id : String
  pub release_number : String
  pub notes : Option String
  pub items : List ReleaseLine

abbrev pub same : ReleaseStatus → ReleaseStatus → Bool
same ReleaseStatus.draft ReleaseStatus.draft = true
same ReleaseStatus.submitted ReleaseStatus.submitted = true
same ReleaseStatus.approved ReleaseStatus.approved = true
same ReleaseStatus.rejected ReleaseStatus.rejected = true
same ReleaseStatus.cancelled ReleaseStatus.cancelled = true
same _ _ = false

abbrev pub is_approved_agreement : AgreementStatus → Bool
is_approved_agreement AgreementStatus.approved = true
is_approved_agreement _ = false

abbrev pub is_block : OveragePolicy → Bool
is_block block = true
is_block _ = false

-- `maybeSingle`, which throws on two rows.
abbrev pub at_most_one : {A : Type 0} → List A → Result (Option A)
at_most_one [] = ok none
at_most_one (x ∷ []) = ok (some x)
at_most_one (x ∷ y ∷ xs) = err database

abbrev pub is_agreement : String → String → Agreement → Bool
is_agreement id tenant a = (a.id == id) && ((a.tenant_id == tenant) && not a.is_deleted)

abbrev pub is_item : String → String → AgreementItem → Bool
is_item id tenant i = (i.id == id) && (i.tenant_id == tenant)

abbrev pub is_approved_id : String → List Release → Bool
is_approved_id id rs =
    any (λ (r : Release). (r.id == id) && same r.status ReleaseStatus.approved) rs

abbrev pub is_released : String → String → ReleaseItem → Bool
is_released item tenant i = (i.agreement_item_id == item) && (i.tenant_id == tenant)

-- The sum over the lines of an item whose release is approved.
abbrev pub sum_approved : (ReleaseItem → Bool) → List Release → List ReleaseItem → ℕ
sum_approved p rs [] = 0
sum_approved p rs (i ∷ is) =
    let rest = sum_approved p rs is in
    if p i && is_approved_id i.release_id rs then i.released_quantity + rest else rest

unfoldable pub get_approved_released_quantity : String → String → Books → ℕ
get_approved_released_quantity item tenant s =
    sum_approved (is_released item tenant) s.releases s.release_items

-- What is left of the committed quantity must cover the line; a policy other than block, or no committed
-- quantity, lets it pass.
abbrev pub within : OveragePolicy → Option ℕ → ℕ → ℕ → Result (Unit {0})
within policy none released quantity = ok tt
within policy (some committed) released quantity =
    if not (is_block policy)
    then ok tt
    else if ltb committed (quantity + released)
    then err (bad_request "Release quantity exceeds remaining committed quantity")
    else ok tt

abbrev not_of_agreement : Error
not_of_agreement = bad_request "agreement_item does not belong to agreement"

abbrev pub check_item :
    Agreement → ReleaseLine → ℕ → Result (Option AgreementItem) → Result (Unit {0})
check_item a line released (err e) = err e
check_item a line released (ok none) = err not_of_agreement
check_item a line released (ok (some i)) =
    if i.agreement_id == a.id
    then within a.overage_policy i.committed_quantity released line.released_quantity
    else err not_of_agreement

unfoldable pub validate_overage : ReleaseLine → Agreement → String → Books → Result (Unit {0})
validate_overage line a tenant s =
    check_item a line (get_approved_released_quantity line.agreement_item_id tenant s)
      (at_most_one (filter (is_item line.agreement_item_id tenant) s.agreement_items))

-- A price, its discount and the tier that it comes from.
pub record UnitPrice : Type 0 where
  pub unit_price : ℕ
  pub discount_percent : ℕ
  pub tier_id : Option String

abbrev or_zero : Option ℕ → ℕ
or_zero none = 0
or_zero (some n) = n

abbrev is_at_most : ℕ → Option ℕ → Bool
is_at_most n none = true
is_at_most n (some m) = leb n m

abbrev pub is_in_tier : ℕ → PricingTier → Bool
is_in_tier n t = leb t.min_quantity n && is_at_most n t.max_quantity

abbrev pub tier_price : Option PricingTier → Result UnitPrice
tier_price none = err (bad_request "No pricing tier matches quantity")
tier_price (some t) = ok (record {
  unit_price = t.unit_price;
  discount_percent = or_zero t.discount_percent;
  tier_id = some t.id;
})

abbrev pub plain_price : AgreementPricing → UnitPrice
plain_price p = record {
  unit_price = or_zero p.unit_price;
  discount_percent = or_zero p.discount_percent;
  tier_id = none;
}

abbrev pub is_tier_of : String → String → PricingTier → Bool
is_tier_of pricing tenant t = (t.agreement_pricing_id == pricing) && (t.tenant_id == tenant)

unfoldable pub price_of : ℕ → AgreementPricing → List PricingTier → Result UnitPrice
price_of quantity p tiers = elim p.pricing_type [
  | tiered ↦ tier_price (find (is_in_tier quantity) tiers)
  | rule_based ↦ err (bad_request "rule_based pricing is not yet supported for release creation")
  | _ ↦ ok (plain_price p)
]

abbrev tax_of : ℤ → Option ℕ → ℤ
tax_of net none = pos 0
tax_of net (some rate) = apply_percentage_discount net rate

unfoldable pub released_amount_of : ℕ → UnitPrice → Option ℕ → ℤ
released_amount_of quantity u tax_rate =
    let subtotal = pos (quantity * u.unit_price) in
    let net = subtotal -ℤ apply_percentage_discount subtotal u.discount_percent in
    net +ℤ tax_of net tax_rate

abbrev pub snapshot :
    ReleaseLine → String → String → String → AgreementPricing → UnitPrice → ReleaseItem
snapshot line tenant release currency p u = record {
  tenant_id = tenant;
  release_id = release;
  agreement_item_id = line.agreement_item_id;
  released_quantity = line.released_quantity;
  snapshot_unit_price = u.unit_price;
  snapshot_discount_percent = u.discount_percent;
  snapshot_currency = currency;
  snapshot_tax_rate = p.tax_rate;
  released_amount = released_amount_of line.released_quantity u p.tax_rate;
  source_pricing_tier_id = u.tier_id;
  notes = line.notes;
}
