-- ===== src/Pricing/Tests.antt =====
-- Prices of a shop with one item: a discount that is approved, the official price, and a negative one.
use apiv.Prelude.{ℕ, ◌*◌, ◌≤◌, true, false, none, some, [], ◌∷◌, ◌≡◌, refl}
use apiv.Prelude.Int.{pos, ◌+ℤ◌, ◌-ℤ◌, distance}
use apiv.Store.{Role}
use apiv.Prelude.Strings.{trim}
use apiv.Permissions.Cache.{cache_get, cache_set}
use apiv.Permissions.Queries.{
  query_system_role_id, query_tenant_role_id, fetch_global_grants, fetch_tenant_overrides,
  fetch_user_overrides, fetch_user_role_names, fetch_all_tenant_permission_keys,
}
use apiv.Permissions.Resolve.{
  has_permission_for_user, get_granted_set_for_user, union_roles, get_role_permissions,
  get_granted_set, resolve_granted_keys, resolve_tenant, lookup_role_id, lookup_system_role_id,
  remember,
}
use apiv.Pricing.EffectiveRole.{resolve_effective_role, resolve_held}
use apiv.Pricing.Types.{
  EffectivePolicy, PriceResolutionInput, discount, Approval, approved, Tables,
  required_above_threshold,
}
use apiv.Pricing.Resolution.{
  refusal, resolve_price, resolve_official_price, resolve_override, resolve_effective_policy,
  decide_by_policy,
}
use apiv.Pricing.Decision.{Approves, limit_of, resolve_price_approved, approved_within_limit}

abbrev manager : Role
manager = record {
  id = "r2";
  name = "manager";
  description = none;
  tenant_id = none;
  is_system = true;
  priority = 60;
  is_hierarchy_participant = true;
}

abbrev policy : EffectivePolicy
policy = record {
  allow_discount = some true;
  allow_increase = some true;
  allow_combine_with_discount = some false;
  max_discount_percent = some 2000;
  max_increase_percent = some 500;
  reason_policy = some required_above_threshold;
  reason_threshold_percent = some 1500;
  allow_zero_price = some false;
  zero_price_requires_permission = none;
  zero_price_requires_reason = none;
}

abbrev shop : Tables
shop = record {
  permissions = record {
    db = record {
      roles = some (manager ∷ []);
      permissions = some [];
      role_permissions = some (
          record { role = "manager"; permission_key = "invoice.price_override"; is_granted = true }
          ∷ []);
      tenant_role_permissions = some [];
      user_roles = some (record { user_id = "ana"; role_id = "r2"; is_primary = true } ∷ []);
      overrides = some [];
      users = some [];
    };
    cache = [];
    cache_up = true;
    system_role_ids = [];
  };
  items = some (
      record {
        id = "i1";
        tenant_id = "t1";
        price = pos 10000;
        is_active = true;
        is_deleted = false;
      }
      ∷ []);
  item_variants = some [];
  price_override_policies =
      some (record { tenant_id = "t1"; branch_id = none; role_id = none; policy = policy } ∷ []);
}

abbrev asks : ℕ → PriceResolutionInput
asks price = record {
  user_id = "ana";
  tenant_id = "t1";
  branch_id = "b1";
  item_id = "i1";
  variant_id = none;
  requested_unit_price = pos price;
  reason = none;
  has_invoice_level_discount = false;
  effective_role = none;
}

abbrev granted : Approval
granted = record {
  official_unit_price = pos 10000;
  approved_unit_price = pos 9000;
  difference_amount = 1000;
  difference_percent = record { amount = 1000; official = pos 10000 };
  direction = discount;
  reason = none;
  effective_role = record { role_id = "r2"; role_name = "manager"; priority = 60 };
  effective_policy_snapshot = policy;
}

run : (resolve_price (asks 9000) shop).0 ≡ approved granted
unfolding resolve_price resolve_override resolve_official_price resolve_effective_policy
    resolve_effective_role resolve_held decide_by_policy refusal distance ◌+ℤ◌ ◌-ℤ◌
    has_permission_for_user get_granted_set_for_user union_roles get_role_permissions
    get_granted_set resolve_granted_keys resolve_tenant lookup_role_id lookup_system_role_id
    remember query_system_role_id query_tenant_role_id fetch_global_grants fetch_tenant_overrides
    fetch_user_overrides fetch_user_role_names fetch_all_tenant_permission_keys cache_get cache_set
    trim
run = refl

resolve_price_approved_example : Approves (asks 9000) shop granted
resolve_price_approved_example = resolve_price_approved (asks 9000) shop granted run

approved_within_limit_example :
    (limit : ℕ) × (limit_of discount policy ≡ some limit)
    × (10000000 ≤ limit * 10000)
    × (pos 10000 ≡ pos 9000 +ℤ pos 1000)
approved_within_limit_example = approved_within_limit (asks 9000) shop granted 10000 run refl

abbrev cashier : Role
cashier = record {
  id = "r1";
  name = "cashier";
  description = none;
  tenant_id = none;
  is_system = true;
  priority = 20;
  is_hierarchy_participant = true;
}
