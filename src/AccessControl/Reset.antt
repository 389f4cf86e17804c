-- ===== src/AccessControl/Reset.antt =====
-- What resetting a whole role returns and leaves.
use apiv.Prelude.{
  String, not, Option, some, List, [], ◌∷◌, filter, length, contains, truthy, ok, ◌≡◌, refl, ap,
  ◌∙◌, arith,
}
use apiv.Store.{Role, TenantGrant}
use apiv.Permissions.Queries.{fetch_global_grants}
use apiv.Permissions.Resolve.{has_permission}
use apiv.Permissions.Spec.{decide, last_for, role_id, IsFresh}
use apiv.Permissions.Guard.{JwtPayload}
use apiv.AccessControl.State.{Ac, db_of, with_state, with_grants}
use apiv.AccessControl.Repository.{
  is_grant_of, list_overrides_for_role, delete_all_overrides_for_role,
}
use apiv.AccessControl.Grants.{read}
use apiv.AccessControl.Checks.{get_editable_role_or_throw}
use apiv.AccessControl.Service.{log_resets, reset_role}
use apiv.AccessControl.Reads.{
  require_tenant_id_lem, get_editable_role_or_throw-Reads, get_editable_role_or_throw_ok,
}
use apiv.AccessControl.Laws.{after, after_decides, not_owner, truthy_twice}

log_resets_lem :
    (tenant : Option String) (actor : JwtPayload) (id : String) (gs : List TenantGrant) (s : Ac)
    → ((log_resets tenant actor id gs s).0 ≡ ok tt)
      × ((log_resets tenant actor id gs s).1.permissions ≡ s.permissions)
unfolding log_resets
log_resets_lem tenant actor id [] s = (refl, refl)
log_resets_lem tenant actor id (g ∷ gs) s = log_resets_lem tenant actor id gs _

read-rest :
    (t id : String) (gs : List TenantGrant)
    → read t id (filter (λ (g : TenantGrant). not (is_grant_of t id g)) gs) ≡ []
read-rest t id [] = refl
read-rest t id (g ∷ gs) = ground (arith, read-rest t id gs)

reset_role_result :
    (id t : String) (tenant : Option String) (actor : JwtPayload) (s : Ac) (role : Role)
    (gs : List TenantGrant)
    → truthy tenant ≡ some t
    → (get_editable_role_or_throw id t s).0 ≡ ok role
    → s.permissions.db.tenant_role_permissions ≡ some gs
    → ((reset_role id tenant actor s).0 ≡ ok (length (filter (is_grant_of t id) gs)))
      × ((reset_role id tenant actor s).1.permissions
          ≡ after role.name t (filter (λ (g : TenantGrant). not (is_grant_of t id g)) gs) s)
unfolding reset_role list_overrides_for_role delete_all_overrides_for_role
reset_role_result id t tenant actor s role gs live editable eg =
    let rest = filter (λ (g : TenantGrant). not (is_grant_of t id g)) gs in
    let cleared = with_state (after role.name t rest s) (with_grants rest s) in
    ground (
      arith,
      require_tenant_id_lem tenant t s live,
      get_editable_role_or_throw-Reads id t s,
      log_resets_lem tenant actor id (filter (is_grant_of t id) gs) cleared,
    )

-- `resetRole` with a tenant, an editable role and grants that can be read returns how many
-- overrides the role had, and from then on each decision on the role is the global grant,
-- whatever the caches held, where the role's name leads to its id and the per-process role ids
-- agree with the table.
reset_role_decides :
    (id t key : String) (tenant : Option String) (actor : JwtPayload) (s : Ac) (role : Role)
    (gs : List TenantGrant)
    → truthy tenant ≡ some t
    → (get_editable_role_or_throw id t s).0 ≡ ok role
    → s.permissions.db.tenant_role_permissions ≡ some gs
    → IsFresh s.permissions
    → truthy (role_id role.name (some t) (db_of s)) ≡ some id
    → let (r, s') = reset_role id tenant actor s in
      (r ≡ ok (length (filter (is_grant_of t id) gs)))
      × ((has_permission role.name key (some t) s'.permissions).0
          ≡ contains key (fetch_global_grants role.name (db_of s)))
reset_role_decides id t key tenant actor s role gs live editable eg h named =
    let (returned, state) = reset_role_result id t tenant actor s role gs live editable eg in
    let (open_name, _) =
      get_editable_role_or_throw_ok id t s role (get_editable_role_or_throw id t s).1
        (λ i. (editable i, (get_editable_role_or_throw id t s).1)) in
    (
      returned,
      rw state (
          after_decides role.name t (filter (λ (g : TenantGrant). not (is_grant_of t id g)) gs) s id
            key h (not_owner role.name open_name) (truthy_twice tenant t live) named
          ∙ ap
              (λ l.
                decide (last_for key l) (contains key (fetch_global_grants role.name (db_of s))))
              (read-rest t id gs)),
    )
