-- ===== src/Permissions/Guard.antt =====
-- src/core/permissions/permission-resolution.util.ts and permission.guard.ts. The two answers that the
-- code awaits together are taken one after the other; their caches have different keys.
use apiv.Prelude.{
  String, Bool, true, false, Option, none, some, List, [], ◌∷◌, ◌==◌, if◌then◌else◌, contains, join,
  ok, err, forbidden, Run,
}
use apiv.Permissions.Cache.{State}
use apiv.Permissions.Resolve.{has_permission, has_permission_for_user}

-- `JwtPayload` (src/shared/types/jwt-payload.type.ts): `roles` is an array or absent.
pub record JwtPayload : Type 0 where
  pub sub : String
  pub tenant_id : Option String
  pub role : String
  pub roles : Option (List String)

-- ENFORCE_HYBRID_PERMISSIONS, and whether the database client throws in the second check.
pub record Env : Type 0 where
  pub enforce_hybrid_permissions : Bool
  pub hybrid_throws : Bool

abbrev unrestricted_test_tenant_ids : List String
unrestricted_test_tenant_ids = "9bcd3369-d664-47c8-b297-3bc9b429aacf" ∷ []

abbrev pub is_test_tenant : Option String → Bool
is_test_tenant none = false
is_test_tenant (some t) = contains t unrestricted_test_tenant_ids

abbrev pub roles_of : JwtPayload → List String
roles_of user = elim user.roles [
  | some roles ↦ roles
  | none ↦ if user.role == "" then [] else user.role ∷ []
]

-- A throw is logged and answers null.
unfoldable pub safe_has_permission_for_user :
    Env → String → String → Option String → State → Option Bool × State
safe_has_permission_for_user env user key tenant s =
    if env.hybrid_throws
    then (none, s)
    else (let (granted, s') = has_permission_for_user user key tenant s in (some granted, s'))

-- The legacy answer, unless the flag is on and the hybrid one is not null.
abbrev pub choose : Bool → Bool → Option Bool → Bool
choose enforce legacy none = legacy
choose enforce legacy (some hybrid) = if enforce then hybrid else legacy

unfoldable pub resolve_user_permission : Env → Option JwtPayload → String → Run State Bool
resolve_user_permission env none key s = (err (forbidden "No authenticated user"), s)
resolve_user_permission env (some user) key s =
    if contains "superadmin" (roles_of user)
    then (ok true, s)
    else if is_test_tenant user.tenant_id
    then (ok true, s)
    else let (legacy, s1) = has_permission user.role key user.tenant_id s in
      let (hybrid, s2) = safe_has_permission_for_user env user.sub key user.tenant_id s1 in
      (ok (choose env.enforce_hybrid_permissions legacy hybrid), s2)

-- `PermissionGuard.canActivate`; `required` is the route's metadata, null where there is none.
unfoldable pub can_activate : Env → Option String → Option JwtPayload → Run State Bool
can_activate env none user s = (ok true, s)
can_activate env (some required) user s =
    if required == ""
    then (ok true, s)
    else let (granted, s') = resolve_user_permission env user required s in
      elim granted [
        | err e ↦ (err e, s')
        | ok b ↦
            if b
            then (ok true, s')
            else (err (forbidden (join ("Permission denied: " ∷ required ∷ []))), s')
      ]
