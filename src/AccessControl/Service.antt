-- ===== src/AccessControl/Service.antt =====
-- src/modules/access-control/access-control.service.ts: each endpoint, guard by guard (Checks).
use apiv.Prelude.{
  ℕ, String, Bool, true, false, not, ltb, Option, none, some, List, [], ◌∷◌, ◌==◌, map, length,
  contains, lookup, join, trim, if◌then◌else◌, Run, Result, ok, err, other, forbidden, ◌>>=◌, ◌>>◌,
  pure, throw_if,
}
use apiv.Store.{Role, Permission, TenantGrant}
use apiv.Permissions.Resolve.{has_permission, get_role_permissions, get_resolution_detail}
use apiv.Permissions.Guard.{JwtPayload}
use apiv.AccessControl.State.{granted, denied, inherited_default, role_data, Ac, log}
use apiv.AccessControl.Repository.{
  list_permissions_catalog, list_roles_for_tenant, create_role as insert_role, belongs_to,
  delete_role as remove_role, get_users_by_role as find_users_by_role, count_users_for_role,
  count_customized_permissions, get_override, list_overrides_for_role, upsert_override,
  delete_override, delete_all_overrides_for_role,
}
use apiv.AccessControl.Checks.{
  state_from_override, require_tenant_id, get_accessible_role_or_throw, get_editable_role_or_throw,
  assert_permission_is_customizable, change_entry, role_entry, on_permissions, invalidate,
}

unfoldable pub list_permissions : JwtPayload → Run Ac (List Permission)
list_permissions actor = list_permissions_catalog (actor.role == "superadmin")

pub record RoleCard : Type 0 where
  pub role : Role
  pub user_count : ℕ
  pub permission_count : ℕ
  pub customized_permission_count : ℕ

-- The loop over the roles; the code awaits the three counts of a role together.
role_cards : String → List Role → Run Ac (List RoleCard)
role_cards tenant [] = pure []
role_cards tenant (role ∷ roles) = do
  users ← count_users_for_role role.id tenant
  keys ← on_permissions (get_role_permissions role.name (some tenant))
  customized ← count_customized_permissions tenant role.id
  cards ← role_cards tenant roles
  pure (
      record {
        role = role;
        user_count = users;
        permission_count = length keys;
        customized_permission_count = customized;
      }
      ∷ cards)

unfoldable pub list_roles : Option String → Run Ac (List RoleCard)
unfolding role_cards
list_roles tenant = do
  t ← require_tenant_id tenant
  roles ← list_roles_for_tenant t
  role_cards t roles

unfoldable pub get_users_by_role : String → Option String → Run Ac (List String)
get_users_by_role role_id tenant = do
  t ← require_tenant_id tenant
  get_accessible_role_or_throw role_id t
  find_users_by_role role_id t

-- The `catch` of `createRole`: a duplicate name is forbidden, any other error goes on.
abbrev rename_duplicate : String → Result Role → Result Role
rename_duplicate name (ok r) = ok r
rename_duplicate name (err (other m)) =
    if m == "DUPLICATE_ROLE_NAME"
    then err
        (forbidden (join ("A role named \"" ∷ name ∷ "\" already exists for this tenant" ∷ [])))
    else err (other m)
rename_duplicate name (err e) = err e

abbrev pub insert_named : String → String → String → Option String → Run Ac Role
insert_named id tenant name description s =
    let (r, s') = insert_role id tenant name description s in (rename_duplicate name r, s')

-- `id` is the one that the database chooses for the row.
unfoldable pub create_role :
    String → String → Option String → Option String → JwtPayload → Run Ac Role
create_role id name description tenant actor = do
  t ← require_tenant_id tenant
  let trimmed = trim name
  throw_if (trimmed == "") (forbidden "Role name is required")
  role ← insert_named id t trimmed description
  log (
      role_entry tenant actor "role.created" role.id none
        (some (role_data role.name role.description)))
  pure role

unfoldable pub delete_role : String → Option String → JwtPayload → Run Ac (Unit {0})
delete_role role_id tenant actor = do
  t ← require_tenant_id tenant
  role ← get_accessible_role_or_throw role_id t
  throw_if (not (belongs_to t role.tenant_id)) (forbidden "System roles cannot be deleted")
  count ← count_users_for_role role_id t
  throw_if (ltb 0 count)
      (forbidden (join ("Cannot delete role \"" ∷ role.name ∷ "\": users are still assigned" ∷ [])))
  delete_all_overrides_for_role t role_id
  remove_role t role_id
  invalidate role.name t
  log (
      role_entry tenant actor "role.deleted" role_id (some (role_data role.name role.description))
        none)

-- `source`: 'tenant_override' or 'global'.
pub data Source : Type 0 where
  tenant_override global : Source

pub record Entry : Type 0 where
  pub permission_key : String
  pub granted : Bool
  pub source : Source

abbrev source_of : Option Bool → Source
source_of (some _) = tenant_override
source_of none = global

unfoldable pub get_role_permissions_view : String → Option String → JwtPayload → Run Ac (List Entry)
get_role_permissions_view role_id tenant actor = do
  t ← require_tenant_id tenant
  role ← get_accessible_role_or_throw role_id t
  catalog ← list_permissions actor
  detail ← on_permissions (get_resolution_detail role.name (some t))
  pure (
      map
        (λ (p : Permission). record {
          permission_key = p.name;
          granted = contains p.name detail.granted_keys;
          source = source_of (lookup p.name detail.overrides);
        })
        catalog)

abbrev pub change_action : Bool → String
change_action true = "role_permission.granted"
change_action false = "role_permission.revoked"

unfoldable pub update_permission : String → String → Bool → Option String → JwtPayload → Run Ac Bool
update_permission role_id key is_granted tenant actor = do
  t ← require_tenant_id tenant
  role ← get_editable_role_or_throw role_id t
  assert_permission_is_customizable key
  before ← get_override t role_id key
  upsert_override t role_id key is_granted
  invalidate role.name t
  log (
      change_entry tenant actor (change_action is_granted) role_id key (state_from_override before)
        (if is_granted then granted else denied))
  pure is_granted

-- Returns the decision after the reset.
unfoldable pub reset_permission : String → String → Option String → JwtPayload → Run Ac Bool
reset_permission role_id key tenant actor = do
  t ← require_tenant_id tenant
  role ← get_editable_role_or_throw role_id t
  before ← get_override t role_id key
  delete_override t role_id key
  invalidate role.name t
  log (
      change_entry tenant actor "role_permission.reset" role_id key (state_from_override before)
        inherited_default)
  on_permissions (has_permission role.name key (some t))

unfoldable pub log_resets :
    Option String → JwtPayload → String → List TenantGrant → Run Ac (Unit {0})
log_resets tenant actor role_id [] = pure tt
log_resets tenant actor role_id (g ∷ gs) = do
  log (
      change_entry tenant actor "role_permission.reset" role_id g.permission_key
        (if g.is_granted then granted else denied) inherited_default)
  log_resets tenant actor role_id gs

-- Returns how many overrides were taken back.
unfoldable pub reset_role : String → Option String → JwtPayload → Run Ac ℕ
unfolding log_resets
reset_role role_id tenant actor = do
  t ← require_tenant_id tenant
  role ← get_editable_role_or_throw role_id t
  overrides ← list_overrides_for_role t role_id
  delete_all_overrides_for_role t role_id
  invalidate role.name t
  log_resets tenant actor role_id overrides
  pure (length overrides)
