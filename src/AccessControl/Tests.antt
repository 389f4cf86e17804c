-- ===== src/AccessControl/Tests.antt =====
-- A tenant changes, resets and creates roles.
use apiv.Prelude.{true, false, none, some, [], ◌∷◌, ok, ◌≡◌, refl, eq_iff}
use apiv.Prelude.Strings.{trim}
use apiv.Store.{Role, User, TenantGrant}
use apiv.Permissions.Queries.{
  fetch_global_grants, query_system_role_id, query_tenant_role_id, fetch_user_role_names,
  fetch_user_overrides, fetch_tenant_overrides, fetch_all_tenant_permission_keys,
}
use apiv.Permissions.Resolve.{has_permission, has_permission_for_user}
use apiv.Permissions.Spec.{role_id, grants, tenant_override}
use apiv.Permissions.Guard.{JwtPayload}
use apiv.AccessControl.State.{Ac}
use apiv.AccessControl.Repository.{get_override, get_role_by_id, get_permission_by_key, fresh_role}
use apiv.AccessControl.Checks.{
  get_editable_role_or_throw, get_accessible_role_or_throw, assert_permission_is_customizable,
  require_tenant_id,
}
use apiv.AccessControl.Assignment.{
  Staff, add_role, find_one, find_accessible_role, count_user_roles, write_role, insert_user_role,
}
use apiv.AccessControl.Assigned.{add_role_decides}
use apiv.AccessControl.Service.{create_role, update_permission}
use apiv.AccessControl.Laws.{update_permission_decides, update_permission_refused}
use apiv.AccessControl.Names.{create_role_owner_grants_all, shadowed_role_ignores_overrides}

abbrev cashier : Role
cashier = record {
  id = "r1";
  name = "cashier";
  description = none;
  tenant_id = none;
  is_system = true;
  priority = 20;
  is_hierarchy_participant = true;
}

abbrev ana : User
ana = record { id = "ana"; tenant_id = some "t1"; is_deleted = false }

-- A user with no role yet, for whom an empty set of keys is cached.
abbrev bo : User
bo = record { id = "bo"; tenant_id = some "t1"; is_deleted = false }

-- A custom role with the name of a platform role.
abbrev shadow : Role
shadow = record {
  id = "r7";
  name = "cashier";
  description = none;
  tenant_id = some "t1";
  is_system = false;
  priority = 0;
  is_hierarchy_participant = false;
}

abbrev prints : TenantGrant
prints = record {
  tenant_id = "t1";
  role_id = "r1";
  permission_key = "invoice.print";
  is_granted = true;
}

abbrev shop : Ac
shop = record {
  permissions = record {
    db = record {
      roles = some (cashier ∷ shadow ∷ []);
      permissions = some (
          record { name = "invoice.create"; resource = "invoice" }
          ∷ record { name = "invoice.print"; resource = "invoice" }
          ∷ []);
      role_permissions =
          some (
            record { role = "cashier"; permission_key = "invoice.create"; is_granted = true } ∷ []);
      tenant_role_permissions = some (prints ∷ []);
      user_roles = some (record { user_id = "ana"; role_id = "r1"; is_primary = true } ∷ []);
      overrides = some [];
      users = some (ana ∷ bo ∷ []);
    };
    cache = [];
    cache_up = true;
    system_role_ids = [];
  };
  audits = [];
}

abbrev admin : JwtPayload
admin = record { sub = "ali"; tenant_id = some "t1"; role = "owner"; roles = none }

update_permission_decides_example :
    let (r, s') = update_permission "r1" "invoice.create" false (some "t1") admin shop in
    (r ≡ ok false)
    × ((has_permission "cashier" "invoice.create" (some "t1") s'.permissions).0 ≡ false)
unfolding get_editable_role_or_throw get_accessible_role_or_throw get_role_by_id get_override
    role_id query_system_role_id assert_permission_is_customizable get_permission_by_key
update_permission_decides_example =
    update_permission_decides "r1" "invoice.create" "t1" (some "t1") admin shop cashier
      (prints ∷ []) none refl refl refl refl tt refl false refl

update_permission_refused_example :
    (update_permission "r1" "invoice.create" false none admin shop).1 ≡ shop
unfolding update_permission require_tenant_id
update_permission_refused_example =
    update_permission_refused "r1" "invoice.create" false none admin shop _ refl

create_role_owner_grants_all_example :
    let (r, s') = create_role "new" " owner " none (some "t1") admin shop in
    let staff : Staff = record { permissions = s'.permissions; audits = [] } in
    let (added, staff') = add_role "ana" "new" (some "t1") "ali" staff in
    (r ≡ ok (fresh_role "new" "t1" "owner" none))
    × (added ≡ ok (record { user_id = "ana"; role_id = "new"; role_name = "owner" }))
    × ((has_permission_for_user "ana" "platform.tenants.delete" (some "t1") staff'.permissions).0
        ≡ true)
unfolding trim
create_role_owner_grants_all_example =
    create_role_owner_grants_all "new" "t1" " owner " "ana" "platform.tenants.delete" "ali" none
      admin shop [] (cashier ∷ shadow ∷ [])
      (record { user_id = "ana"; role_id = "r1"; is_primary = true } ∷ []) ana refl refl refl refl
      refl refl refl refl

shadowed_role_ignores_overrides_example :
    let (r, s') = update_permission "r7" "invoice.create" false (some "t1") admin shop in
    (r ≡ ok false)
    × ((has_permission "cashier" "invoice.create" (some "t1") s'.permissions).0 ≡ true)
unfolding get_editable_role_or_throw get_accessible_role_or_throw get_role_by_id get_override
    role_id query_system_role_id assert_permission_is_customizable get_permission_by_key
    fetch_global_grants
shadowed_role_ignores_overrides_example =
    shadowed_role_ignores_overrides "r7" "invoice.create" "t1" "r1" (some "t1") admin shop shadow
      (prints ∷ []) none false refl refl refl refl refl tt refl
      (λ e. absurd (cc ((eq_iff "r7" "r1").1 e)))

abbrev staff : Staff
staff = record {
  permissions = record shop.permissions { cache = ("permissions:user:bo:tenant:t1", []) ∷ [] };
  audits = [];
}

added :
    (add_role "bo" "r1" (some "t1") "ali" staff).0
    ≡ ok (record { user_id = "bo"; role_id = "r1"; role_name = "cashier" })
unfolding add_role find_one find_accessible_role count_user_roles write_role insert_user_role
added = refl

add_role_decides_example :
    (has_permission_for_user "bo" "invoice.create"
      (some "t1")
      (add_role "bo" "r1" (some "t1") "ali" staff).1.permissions).0
    ≡ true
unfolding fetch_user_role_names fetch_user_overrides grants tenant_override role_id
    query_system_role_id query_tenant_role_id fetch_global_grants fetch_tenant_overrides
    fetch_all_tenant_permission_keys
add_role_decides_example =
    add_role_decides "bo" "r1" "invoice.create" (some "t1") "ali" staff tt refl added
