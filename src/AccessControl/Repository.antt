-- ===== src/AccessControl/Repository.antt =====
-- src/modules/access-control/access-control.repository.ts: the queries, each of which throws when the
-- table answers with an error.
use apiv.Prelude.{
  ℕ, String, Bool, true, false, not, ◌&&◌, Option, none, some, List, [], ◌∷◌, ◌++◌, ◌==◌, map,
  filter, any, update, length, contains, if◌then◌else◌, Run, other, ◌>>=◌, ◌>>◌, pure, throw,
  modify,
}
use apiv.Store.{Role, Permission, TenantGrant, UserRole, User}
use apiv.AccessControl.State.{Ac, with_roles, with_grants, table, at_most_one}

abbrev pub hardcoded_platform_only_keys : List String
hardcoded_platform_only_keys = "analytics.view.all" ∷ "audit.view.all" ∷ []

-- The catalogue, without the platform's own permissions unless the caller is a superadmin.
unfoldable pub list_permissions_catalog : Bool → Run Ac (List Permission)
list_permissions_catalog include_superadmin = do
  rows ← table (λ db. db.permissions)
  pure (
      if include_superadmin
      then rows
      else filter (λ (p : Permission). not (contains p.name hardcoded_platform_only_keys))
          (filter (λ (p : Permission). not (p.resource == "superadmin")) rows))

abbrev pub belongs_to : String → Option String → Bool
belongs_to tenant none = false
belongs_to tenant (some t) = t == tenant

abbrev visible_to : String → Option String → Bool
visible_to tenant none = true
visible_to tenant (some t) = t == tenant

-- Without the `order by name`.
unfoldable pub list_roles_for_tenant : String → Run Ac (List Role)
list_roles_for_tenant tenant = do
  rows ← table (λ db. db.roles)
  pure (filter (λ (r : Role). visible_to tenant r.tenant_id && not (r.name == "superadmin")) rows)

unfoldable pub get_role_by_id : String → Run Ac (Option Role)
get_role_by_id id = do
  rows ← table (λ db. db.roles)
  at_most_one (filter (λ (r : Role). r.id == id) rows)

abbrev pub is_named : String → String → Role → Bool
is_named tenant name r = belongs_to tenant r.tenant_id && (r.name == name)

abbrev pub fresh_role : String → String → String → Option String → Role
fresh_role id tenant name description = record {
  id = id;
  name = name;
  description = description;
  tenant_id = some tenant;
  is_system = false;
  priority = 0;
  is_hierarchy_participant = false;
}

-- The database gives the id; idx_roles_tenant_name_unique refuses a second role of the name.
unfoldable pub create_role : String → String → String → Option String → Run Ac Role
create_role id tenant name description = do
  rows ← table (λ db. db.roles)
  if any (is_named tenant name) rows
      then throw (other "DUPLICATE_ROLE_NAME")
      else modify (with_roles (rows ++ fresh_role id tenant name description ∷ []))
        >> pure (fresh_role id tenant name description)

abbrev pub is_role_of : String → String → Role → Bool
is_role_of tenant id r = (r.id == id) && belongs_to tenant r.tenant_id

unfoldable pub delete_role : String → String → Run Ac (Unit {0})
delete_role tenant id = do
  rows ← table (λ db. db.roles)
  modify (with_roles (filter (λ (r : Role). not (is_role_of tenant id r)) rows))

unfoldable pub get_permission_by_key : String → Run Ac (Option Permission)
get_permission_by_key key = do
  rows ← table (λ db. db.permissions)
  at_most_one (filter (λ (p : Permission). p.name == key) rows)

-- The inner join with `users`, on the user's tenant and `deleted_at is null`.
abbrev live_in : String → List User → UserRole → Bool
live_in tenant users u =
    any (λ (x : User). (x.id == u.user_id) && (belongs_to tenant x.tenant_id && not x.is_deleted))
      users

unfoldable pub get_users_by_role : String → String → Run Ac (List String)
get_users_by_role role_id tenant = do
  users ← table (λ db. db.users)
  rows ← table (λ db. db.user_roles)
  pure (
      map (λ (u : UserRole). u.user_id)
        (filter (λ (u : UserRole). (u.role_id == role_id) && live_in tenant users u) rows))

unfoldable pub count_users_for_role : String → String → Run Ac ℕ
count_users_for_role role_id tenant = do
  users ← table (λ db. db.users)
  rows ← table (λ db. db.user_roles)
  pure (length (filter (λ (u : UserRole). (u.role_id == role_id) && live_in tenant users u) rows))

abbrev pub is_grant_of : String → String → TenantGrant → Bool
is_grant_of tenant role_id g = (g.tenant_id == tenant) && (g.role_id == role_id)

abbrev pub is_grant_for : String → String → String → TenantGrant → Bool
is_grant_for tenant role_id key g =
    (g.tenant_id == tenant) && ((g.role_id == role_id) && (g.permission_key == key))

unfoldable pub count_customized_permissions : String → String → Run Ac ℕ
count_customized_permissions tenant role_id = do
  rows ← table (λ db. db.tenant_role_permissions)
  pure (length (filter (is_grant_of tenant role_id) rows))

unfoldable pub get_override : String → String → String → Run Ac (Option TenantGrant)
get_override tenant role_id key = do
  rows ← table (λ db. db.tenant_role_permissions)
  at_most_one (filter (is_grant_for tenant role_id key) rows)

unfoldable pub list_overrides_for_role : String → String → Run Ac (List TenantGrant)
list_overrides_for_role tenant role_id = do
  rows ← table (λ db. db.tenant_role_permissions)
  pure (filter (is_grant_of tenant role_id) rows)

abbrev pub granted_as : Bool → TenantGrant → TenantGrant
granted_as b g = record g { is_granted = b }

-- `ON CONFLICT (tenant_id, role_id, permission_key)`: the row is updated, or inserted.
unfoldable pub upsert_rows : String → String → String → Bool → List TenantGrant → List TenantGrant
upsert_rows tenant role_id key b rows =
    if any (is_grant_for tenant role_id key) rows
    then update (is_grant_for tenant role_id key) (granted_as b) rows
    else rows
      ++ record { tenant_id = tenant; role_id = role_id; permission_key = key; is_granted = b } ∷ []

unfoldable pub upsert_override : String → String → String → Bool → Run Ac (Unit {0})
upsert_override tenant role_id key b = do
  rows ← table (λ db. db.tenant_role_permissions)
  modify (with_grants (upsert_rows tenant role_id key b rows))

unfoldable pub delete_override : String → String → String → Run Ac (Unit {0})
delete_override tenant role_id key = do
  rows ← table (λ db. db.tenant_role_permissions)
  modify (with_grants (filter (λ (g : TenantGrant). not (is_grant_for tenant role_id key g)) rows))

unfoldable pub delete_all_overrides_for_role : String → String → Run Ac (Unit {0})
delete_all_overrides_for_role tenant role_id = do
  rows ← table (λ db. db.tenant_role_permissions)
  modify (with_grants (filter (λ (g : TenantGrant). not (is_grant_of tenant role_id g)) rows))
