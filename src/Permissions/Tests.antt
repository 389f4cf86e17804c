-- ===== src/Permissions/Tests.antt =====
-- Permission decisions on a small tenant: a cashier with an override, an owner, and a custom role.
use apiv.Prelude.{true, false, none, some, List, [], ◌∷◌, ok, ◌≡◌, ◌↔◌, refl, eq_iff}
use apiv.Store.{Role, Override, grant, deny}
use apiv.Permissions.Cache.{State, cache_get, cache_set}
use apiv.Permissions.Queries.{
  fetch_user_role_names, fetch_global_grants, fetch_user_overrides, fetch_tenant_overrides,
  query_system_role_id,
}
use apiv.Permissions.Resolve.{
  get_granted_set, resolve_granted_keys, resolve_tenant, lookup_role_id, lookup_system_role_id,
  has_permission, has_permission_for_user,
}
use apiv.Permissions.Overrides.{set_override}
use apiv.Permissions.Spec.{grants, tenant_override, role_id, user_grants, IsFresh, IsCoherent}
use apiv.Permissions.Users.{has_permission_for_user_lem}
use apiv.Permissions.Roles.{IsRoleCoherent, has_permission_lem}
use apiv.Permissions.Writes.{set_override_decides}
use apiv.Permissions.Guard.{JwtPayload, Env, can_activate}
use apiv.Permissions.GuardLaws.{can_activate_iff}

abbrev cashier : Role
cashier = record {
  id = "r1";
  name = "cashier";
  description = none;
  tenant_id = none;
  is_system = true;
  priority = 20;
  is_hierarchy_participant = true;
}

abbrev owner : Role
owner = record {
  id = "r0";
  name = "owner";
  description = none;
  tenant_id = none;
  is_system = true;
  priority = 100;
  is_hierarchy_participant = true;
}

abbrev overrides : List Override
overrides =
    record { user_id = "ana"; permission_key = "invoice.delete"; action = grant; is_active = true }
    ∷ []

abbrev shop : State
shop = record {
  db = record {
    roles = some (owner ∷ cashier ∷ []);
    permissions = some (
        record { name = "invoice.create"; resource = "invoice" }
        ∷ record { name = "invoice.delete"; resource = "invoice" }
        ∷ []);
    role_permissions =
        some
          (record { role = "cashier"; permission_key = "invoice.create"; is_granted = true } ∷ []);
    tenant_role_permissions = some (
        record {
          tenant_id = "t1";
          role_id = "r1";
          permission_key = "invoice.print";
          is_granted = true;
        }
        ∷ []);
    user_roles = some (
        record { user_id = "ana"; role_id = "r1"; is_primary = true }
        ∷ record { user_id = "omar"; role_id = "r0"; is_primary = true }
        ∷ []);
    overrides = some overrides;
    users = some [];
  };
  cache = [];
  cache_up = true;
  system_role_ids = ("cashier", "r1") ∷ [];
}

shop-IsFresh : IsFresh shop
unfolding query_system_role_id
shop-IsFresh = (refl, tt)

shop-IsCoherent : IsCoherent "ana" (some "t1") shop
unfolding cache_get
shop-IsCoherent keys e = absurd (cc e)

shop-IsRoleCoherent : IsRoleCoherent "cashier" (some "t1") shop
unfolding cache_get
shop-IsRoleCoherent keys e = absurd (cc e)

has_permission_for_user_lem_example :
    (has_permission_for_user "ana" "invoice.delete" (some "t1") shop).0 ≡ true
unfolding fetch_user_role_names user_grants fetch_user_overrides
has_permission_for_user_lem_example =
    has_permission_for_user_lem "ana" "invoice.delete" (some "t1") shop shop-IsFresh shop-IsCoherent

has_permission_lem_example : (has_permission "cashier" "invoice.print" (some "t1") shop).0 ≡ true
unfolding grants tenant_override role_id fetch_tenant_overrides fetch_global_grants
    query_system_role_id
has_permission_lem_example =
    has_permission_lem "cashier" "invoice.print" (some "t1") shop shop-IsFresh shop-IsRoleCoherent

set_override_decides_example :
    let (r, s') = set_override "ana" "invoice.create" deny (some "t1") shop in
    (r ≡ ok tt)
    × ((has_permission_for_user "ana" "invoice.create" (some "t1") s').0 ≡ false)
    × ((has_permission_for_user "ana" "invoice.delete" (some "t1") s').0 ≡ true)
unfolding fetch_user_role_names user_grants fetch_user_overrides
set_override_decides_example =
    set_override_decides "ana" "invoice.create" "invoice.delete" deny (some "t1") overrides shop
      refl shop-IsFresh (λ e. absurd (cc ((eq_iff "invoice.create" "invoice.delete").1 e)))

abbrev ana : JwtPayload
ana = record { sub = "ana"; tenant_id = some "t1"; role = "cashier"; roles = none }

abbrev enforcing : Env
enforcing = record { enforce_hybrid_permissions = true; hybrid_throws = false }

after_legacy-IsCoherent :
    IsCoherent "ana" (some "t1") (has_permission "cashier" "invoice.delete" (some "t1") shop).1
unfolding cache_get cache_set has_permission get_granted_set resolve_granted_keys resolve_tenant
    lookup_role_id lookup_system_role_id
after_legacy-IsCoherent keys e = absurd (cc e)

can_activate_iff_example :
    ((can_activate enforcing (some "invoice.delete") (some ana) shop).0 ≡ ok true) ↔ (true ≡ true)
unfolding fetch_user_role_names user_grants fetch_user_overrides
can_activate_iff_example =
    can_activate_iff enforcing ana "invoice.delete" shop
      (λ e. absurd (cc ((eq_iff "invoice.delete" "").1 e))) refl refl refl shop-IsFresh
      shop-IsRoleCoherent after_legacy-IsCoherent
