-- ===== src/AccessControl/Checks.antt =====
-- The service's private helpers: its guards, the entries of the audit log and the calls of
-- `PermissionsService`.
use apiv.Prelude.{
  String, Bool, true, false, not, Option, none, some, List, [], ◌∷◌, ◌==◌, contains, join, truthy,
  if◌then◌else◌, Run, ok, forbidden, not_found, ◌>>=◌, ◌>>◌, pure, throw, throw_if,
}
use apiv.Store.{Role, TenantGrant}
use apiv.Permissions.Cache.{State}
use apiv.Permissions.Overrides.{invalidate_role}
use apiv.Permissions.Guard.{JwtPayload}
use apiv.AccessControl.State.{
  PermissionState, granted, denied, inherited_default, AuditData, state_data, AuditEntry, Ac,
  with_state,
}
use apiv.AccessControl.Repository.{
  hardcoded_platform_only_keys, get_role_by_id, get_permission_by_key,
}

abbrev pub protected_role_names : List String
protected_role_names = "owner" ∷ "superadmin" ∷ []

abbrev pub state_from_override : Option TenantGrant → PermissionState
state_from_override none = inherited_default
state_from_override (some g) = if g.is_granted then granted else denied

unfoldable pub require_tenant_id : Option String → Run Ac String
require_tenant_id tenant = elim (truthy tenant) [
  | none ↦ throw (forbidden "Tenant context required for access-control management")
  | some t ↦ pure t
]

-- `role.tenant_id !== null && role.tenant_id !== tenantId`
abbrev pub is_foreign : String → Option String → Bool
is_foreign tenant none = false
is_foreign tenant (some t) = not (t == tenant)

unfoldable pub get_accessible_role_or_throw : String → String → Run Ac Role
get_accessible_role_or_throw role_id tenant = do
  found ← get_role_by_id role_id
  elim found [
    | none ↦ throw (not_found "Role not found")
    | some role ↦
        throw_if (is_foreign tenant role.tenant_id)
          (forbidden "Cannot access another tenant's role")
        >> pure role
  ]

unfoldable pub get_editable_role_or_throw : String → String → Run Ac Role
get_editable_role_or_throw role_id tenant = do
  role ← get_accessible_role_or_throw role_id tenant
  throw_if (contains role.name protected_role_names)
      (forbidden (join ("Role \"" ∷ role.name ∷ "\" is protected and cannot be modified" ∷ [])))
  pure role

unfoldable pub assert_permission_is_customizable : String → Run Ac (Unit {0})
assert_permission_is_customizable key = do
  found ← get_permission_by_key key
  elim found [
    | none ↦ throw (not_found "Permission not found")
    | some p ↦
        throw_if
          (if p.resource == "superadmin" then true else contains key hardcoded_platform_only_keys)
          (forbidden "Platform-level permissions cannot be granted to a tenant role")
  ]

abbrev pub change_entry :
    Option String
    → JwtPayload
    → String
    → String
    → String
    → PermissionState
    → PermissionState
    → AuditEntry
change_entry tenant actor action role_id key before after = record {
  tenant_id = tenant;
  actor_id = actor.sub;
  actor_role = actor.role;
  action = action;
  resource_type = "role_permission";
  resource_id = join (role_id ∷ ":" ∷ key ∷ []);
  before_data = some (state_data key before);
  after_data = some (state_data key after);
}

abbrev pub role_entry :
    Option String → JwtPayload → String → String → Option AuditData → Option AuditData → AuditEntry
role_entry tenant actor action id before after = record {
  tenant_id = tenant;
  actor_id = actor.sub;
  actor_role = actor.role;
  action = action;
  resource_type = "role";
  resource_id = id;
  before_data = before;
  after_data = after;
}

-- A call of `PermissionsService` from here.
abbrev pub on_permissions : {A : Type 0} → (State → A × State) → Run Ac A
on_permissions f s = let (a, p) = f s.permissions in (ok a, with_state p s)

abbrev pub invalidate : String → String → Run Ac (Unit {0})
invalidate role tenant s = (ok tt, with_state (invalidate_role role (some tenant) s.permissions) s)
