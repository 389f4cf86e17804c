-- ===== src/Pricing/Types.antt =====
-- The inputs, outcomes and tables of src/core/pricing/price-resolution.service.ts. Prices are whole
-- units of the smallest currency step (NUMERIC(10,2)), and limits are hundredths of a percent
-- (NUMERIC(5,2)), so that every comparison is exact; the code's floats are not modelled.
use apiv.Prelude.{ℕ, String, Bool, false, Option, List, ◌*◌, ltb}
use apiv.Prelude.Int.{ℤ, pos, negsuc}
use apiv.Permissions.Cache.{State}
use apiv.Pricing.EffectiveRole.{EffectiveRole}

pub data RejectionReasonCode : Type 0 where
  item_or_variant_not_found official_price_zero_increase_not_supported : RejectionReasonCode
  no_effective_role no_effective_policy permission_denied : RejectionReasonCode
  discount_not_allowed increase_not_allowed limit_exceeded reason_required : RejectionReasonCode
  zero_price_not_allowed combine_with_discount_not_allowed : RejectionReasonCode

pub data ReasonPolicy : Type 0 where
  not_required always_required required_above_threshold optional : ReasonPolicy

pub record EffectivePolicy : Type 0 where
  pub allow_discount : Option Bool
  pub allow_increase : Option Bool
  pub allow_combine_with_discount : Option Bool
  pub max_discount_percent : Option ℕ
  pub max_increase_percent : Option ℕ
  pub reason_policy : Option ReasonPolicy
  pub reason_threshold_percent : Option ℕ
  pub allow_zero_price : Option Bool
  pub zero_price_requires_permission : Option Bool
  pub zero_price_requires_reason : Option Bool

pub record PolicyRow : Type 0 where
  pub tenant_id : String
  pub branch_id : Option String
  pub role_id : Option String
  pub policy : EffectivePolicy

pub record Item : Type 0 where
  pub id : String
  pub tenant_id : String
  pub price : ℤ
  pub is_active : Bool
  pub is_deleted : Bool

pub record Variant : Type 0 where
  pub id : String
  pub tenant_id : String
  pub item_id : String
  pub price_adjustment : ℤ
  pub is_active : Bool

-- `effective_role` is absent (undefined), null, or a role that an earlier line resolved.
pub record PriceResolutionInput : Type 0 where
  pub user_id : String
  pub tenant_id : String
  pub branch_id : String
  pub item_id : String
  pub variant_id : Option String
  pub requested_unit_price : ℤ
  pub reason : Option String
  pub has_invoice_level_discount : Bool
  pub effective_role : Option (Option EffectiveRole)

pub data Direction : Type 0 where
  discount increase : Direction

-- `differencePercent`: 100 * amount / official, kept as the two numbers.
pub record Percent : Type 0 where
  pub amount : ℕ
  pub official : ℤ

-- `differencePercent > limit`. Over a negative price the quotient is negative or zero.
abbrev pub exceeds : Percent → ℕ → Bool
exceeds p limit = elim p.official [ pos n ↦ ltb (limit * n) (p.amount * 10000) | negsuc _ ↦ false ]

pub record Approval : Type 0 where
  pub official_unit_price : ℤ
  pub approved_unit_price : ℤ
  pub difference_amount : ℕ
  pub difference_percent : Percent
  pub direction : Direction
  pub reason : Option String
  pub effective_role : EffectiveRole
  pub effective_policy_snapshot : EffectivePolicy

pub data PriceResolutionResult : Type 0 where
  no_override : (official_unit_price : ℤ) → PriceResolutionResult
  approved : Approval → PriceResolutionResult
  rejected :
      (official_unit_price requested_unit_price : ℤ)
      → RejectionReasonCode
      → (resolved_effective_role : Option (Option EffectiveRole)) → PriceResolutionResult

pub record Tables : Type 0 where
  pub permissions : State
  pub items : Option (List Item)
  pub item_variants : Option (List Variant)
  pub price_override_policies : Option (List PolicyRow)
