-- ===== src/Permissions/Queries.antt =====
-- The reads of `PermissionsService`: each answers an error with an empty result.
use apiv.Prelude.{
  String, Bool, true, false, not, ◌&&◌, Option, none, some, List, [], ◌∷◌, map, ◌==◌, if◌then◌else◌,
  filter, find, maybe_single,
}
use apiv.Store.{
  Database, Role, RoleGrant, TenantGrant, Permission, UserRole, Override, OverrideAction, grant,
  deny,
}

-- `error || !data ? [] : data`
abbrev pub rows : {A : Type 0} → Option (List A) → List A
rows none = []
rows (some xs) = xs

unfoldable pub fetch_global_grants : String → Database → List String
fetch_global_grants role db =
    map (λ (r : RoleGrant). r.permission_key)
      (filter (λ (r : RoleGrant). (r.role == role) && r.is_granted) (rows db.role_permissions))

unfoldable pub fetch_all_tenant_permission_keys : Database → List String
fetch_all_tenant_permission_keys db =
    map (λ (p : Permission). p.name)
      (filter (λ (p : Permission). not (p.resource == "superadmin")) (rows db.permissions))

unfoldable pub fetch_tenant_overrides : String → String → Database → List (String × Bool)
fetch_tenant_overrides tenant role_id db =
    map (λ (r : TenantGrant). (r.permission_key, r.is_granted))
      (filter (λ (r : TenantGrant). (r.tenant_id == tenant) && (r.role_id == role_id))
        (rows db.tenant_role_permissions))

abbrev pub is_grant : OverrideAction → Bool
is_grant grant = true
is_grant deny = false

unfoldable pub fetch_user_overrides : String → Database → List (String × Bool)
fetch_user_overrides user db =
    map (λ (o : Override). (o.permission_key, is_grant o.action))
      (filter (λ (o : Override). (o.user_id == user) && o.is_active) (rows db.overrides))

-- The embedded `role:roles!user_roles_role_id_fkey(name)`; rows with no role, or an empty name, go.
abbrev pub role_names : List Role → List UserRole → List String
role_names roles [] = []
role_names roles (u ∷ us) =
    let rest = role_names roles us in
    elim (find (λ (r : Role). r.id == u.role_id) roles) [
      | none ↦ rest
      | some r ↦ if r.name == "" then rest else r.name ∷ rest
    ]

-- The join fails when either table does.
unfoldable pub fetch_user_role_names : String → Database → List String
fetch_user_role_names user db = elim db.roles [
  | none ↦ []
  | some roles ↦
      role_names roles (filter (λ (u : UserRole). u.user_id == user) (rows db.user_roles))
]

abbrev is_global : Option String → Bool
is_global none = true
is_global (some _) = false

abbrev is_of : String → Option String → Bool
is_of tenant none = false
is_of tenant (some t) = t == tenant

abbrev id_of : Option Role → Option String
id_of none = none
id_of (some r) = some r.id

-- The query of `lookupSystemRoleId`.
unfoldable pub query_system_role_id : String → Database → Option String
query_system_role_id role db = id_of (
    maybe_single (filter (λ (r : Role). (r.name == role) && is_global r.tenant_id) (rows db.roles)))

-- The query of `lookupRoleId`, for a role that a tenant made.
unfoldable pub query_tenant_role_id : String → String → Database → Option String
query_tenant_role_id role tenant db = id_of (
    maybe_single
      (filter (λ (r : Role). (r.name == role) && is_of tenant r.tenant_id) (rows db.roles)))
