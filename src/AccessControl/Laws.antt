-- ===== src/AccessControl/Laws.antt =====
-- What a change of a role's permission does to the next decision, and what a refusal leaves.
use apiv.Prelude.{
  String, Bool, false, not, Option, none, some, List, ◌==◌, filter, contains, truthy, ok, err,
  Error, ◌≡◌, inl, inr, refl, ap, ◌∙◌, arith, Bool-cases,
}
use apiv.Store.{Role, TenantGrant}
use apiv.Permissions.Cache.{State, cache_key, cache_del, cache_get-del, cache_del-db}
use apiv.Permissions.Queries.{
  fetch_tenant_overrides, fetch_global_grants, query_system_role_id, query_tenant_role_id,
}
use apiv.Permissions.Resolve.{has_permission}
use apiv.Permissions.Overrides.{invalidate_role}
use apiv.Permissions.Spec.{decide, last_for, role_id, tenant_override, grants, IsFresh}
use apiv.Permissions.Roles.{IsRoleCoherent, has_permission_lem}
use apiv.Permissions.Guard.{JwtPayload}
use apiv.AccessControl.State.{Ac, db_of, with_grants}
use apiv.AccessControl.Repository.{
  upsert_rows, upsert_override, delete_override, get_override, is_grant_for,
}
use apiv.AccessControl.Grants.{read, last_for-upsert, last_for-delete}
use apiv.AccessControl.Reads.{
  require_tenant_id-Reads, get_editable_role_or_throw-Reads, get_override-Reads,
  assert_permission_is_customizable-Reads, get_editable_role_or_throw_ok,
}
use apiv.AccessControl.Checks.{
  require_tenant_id, get_editable_role_or_throw, assert_permission_is_customizable,
  protected_role_names,
}
use apiv.AccessControl.Service.{update_permission, reset_permission}

role_id-with_grants :
    (name : String) (t : Option String) (gs : List TenantGrant) (s : Ac)
    → role_id name t (db_of (with_grants gs s)) ≡ role_id name t (db_of s)
unfolding role_id query_system_role_id query_tenant_role_id
role_id-with_grants name t gs s = refl

-- A tenant's override is read from the new rows.
grants-with_grants :
    (name t id k : String) (gs : List TenantGrant) (s : Ac)
    → (name == "owner") ≡ false
    → truthy (some t) ≡ some t
    → truthy (role_id name (some t) (db_of s)) ≡ some id
    → grants name (some t) k (db_of (with_grants gs s))
      ≡ decide (last_for k (read t id gs)) (contains k (fetch_global_grants name (db_of s)))
unfolding grants tenant_override fetch_tenant_overrides fetch_global_grants
grants-with_grants name t id k gs s other live found =
    ground (arith, role_id-with_grants name (some t) gs s)

-- The permissions' state after new rows and the invalidation of one role.
module _ (name t : String) (gs : List TenantGrant) (s : Ac) where
  abbrev pub after : State
  after = invalidate_role name (some t) (with_grants gs s).permissions

  after-db : after.db ≡ db_of (with_grants gs s)
  unfolding invalidate_role
  after-db = cache_del-db (cache_key name (some t)) (with_grants gs s).permissions

  after-IsRoleCoherent : IsRoleCoherent name (some t) after
  unfolding invalidate_role
  after-IsRoleCoherent keys e =
      cc (cache_get-del (cache_key name (some t)) (with_grants gs s).permissions)

  after-IsFresh : IsFresh s.permissions → IsFresh after
  unfolding invalidate_role cache_del query_system_role_id
  after-IsFresh h = elim (Bool-cases s.permissions.cache_up) [
    | inl up ↦ rw up h
    | inr down ↦ rw down h
  ]

  -- The next decision on a role that is not the owner's comes from the new rows.
  pub after_decides :
      (id k : String)
      → IsFresh s.permissions
      → (name == "owner") ≡ false
      → truthy (some t) ≡ some t
      → truthy (role_id name (some t) (db_of s)) ≡ some id
      → (has_permission name k (some t) after).0
        ≡ decide (last_for k (read t id gs)) (contains k (fetch_global_grants name (db_of s)))
  after_decides id k h other live found =
      has_permission_lem name k (some t) after (after-IsFresh h) after-IsRoleCoherent
      ∙ (rw (after-db, other) (grants-with_grants name t id k gs s other live found))

pub truthy_twice : (o : Option String) (t : String) → truthy o ≡ some t → truthy (some t) ≡ some t
truthy_twice none t h = cc
truthy_twice (some u) t h = ground arith

pub not_owner :
    (name : String) → contains name protected_role_names ≡ false → (name == "owner") ≡ false
not_owner name h = ground arith

-- Where the old override was read, the table answers.
get_override_read :
    (t id key : String) (s : Ac) (o : Option TenantGrant)
    → (get_override t id key s).0 ≡ ok o
    → (gs : List TenantGrant) × (s.permissions.db.tenant_role_permissions ≡ some gs)
unfolding get_override
get_override_read t id key s o h = ground arith

-- A change whose checks pass: the tenant, the role, the permission and the old override.
module _ (id key t : String) (tenant : Option String) (actor : JwtPayload) (s : Ac) (role : Role)
    (gs : List TenantGrant) (before : Option TenantGrant) (live : truthy tenant ≡ some t)
    (editable : (get_editable_role_or_throw id t s).0 ≡ ok role)
    (old : (get_override t id key s).0 ≡ ok before)
    (grants_read : s.permissions.db.tenant_role_permissions ≡ some gs) where
  pub update_permission_lem :
      (b : Bool)
      → (assert_permission_is_customizable key s).0 ≡ ok tt
      → ((update_permission id key b tenant actor s).0 ≡ ok b)
        × ((update_permission id key b tenant actor s).1.permissions
            ≡ after role.name t (upsert_rows t id key b gs) s)
  unfolding update_permission require_tenant_id upsert_override
  update_permission_lem b customizable = ground (
    arith,
    get_editable_role_or_throw-Reads id t s,
    get_override-Reads t id key s,
    assert_permission_is_customizable-Reads key s,
  )

  reset_permission_lem :
      let after_reset = after role.name t (filter (λ g. not (is_grant_for t id key g)) gs) s in
      ((reset_permission id key tenant actor s).0
        ≡ ok (has_permission role.name key (some t) after_reset).0)
  unfolding reset_permission require_tenant_id delete_override
  reset_permission_lem =
      ground (arith, get_editable_role_or_throw-Reads id t s, get_override-Reads t id key s)

  module _ (h : IsFresh s.permissions)
      (named : truthy (role_id role.name (some t) (db_of s)) ≡ some id) where
    decides :
        (rows' : List TenantGrant)
        → (has_permission role.name key (some t) (after role.name t rows' s)).0
          ≡ decide
              (last_for key (read t id rows'))
              (contains key (fetch_global_grants role.name (db_of s)))
    decides rows' =
        let (open_name, _) =
          get_editable_role_or_throw_ok id t s role (get_editable_role_or_throw id t s).1
            (λ i. (editable i, (get_editable_role_or_throw id t s).1)) in
        after_decides role.name t rows' s id key h (not_owner role.name open_name)
          (truthy_twice tenant t live) named

    -- `updatePermission` with a tenant, an editable role, a customizable permission and grants that
    -- can be read returns the value, and the role's next decision on the key is the value that was
    -- set, whatever the caches held, where the role's name leads to the role's id and the per-process
    -- role ids agree with the table.
    pub update_permission_decides :
        (b : Bool)
        → (assert_permission_is_customizable key s).0 ≡ ok tt
        → let (r, s') = update_permission id key b tenant actor s in
          (r ≡ ok b) × ((has_permission role.name key (some t) s'.permissions).0 ≡ b)
    update_permission_decides b customizable =
        let (returned, state) = update_permission_lem b customizable in
        let base = contains key (fetch_global_grants role.name (db_of s)) in
        (
          returned,
          rw state (
              decides (upsert_rows t id key b gs)
              ∙ ap (λ o. decide o base) (last_for-upsert t id key b gs)),
        )

    -- `resetPermission` with a tenant, an editable role and grants that can be read returns the
    -- global grant of the key, where the role's name leads to the role's id and the per-process role
    -- ids agree with the table.
    reset_permission_decides :
        (reset_permission id key tenant actor s).0
        ≡ ok (contains key (fetch_global_grants role.name (db_of s)))
    reset_permission_decides =
        let base = contains key (fetch_global_grants role.name (db_of s)) in
        reset_permission_lem
        ∙ ap ok (
            decides (filter (λ g. not (is_grant_for t id key g)) gs)
            ∙ ap (λ o. decide o base) (last_for-delete t id key gs))

-- A change that is refused, for whatever reason, changes no table, no cache and no audit log.
pub update_permission_refused :
    (id key : String) (b : Bool) (tenant : Option String) (actor : JwtPayload) (s : Ac) (x : Error)
    → (update_permission id key b tenant actor s).0 ≡ err x
    → (update_permission id key b tenant actor s).1 ≡ s
unfolding update_permission upsert_override
update_permission_refused id key b tenant actor s x h = grind (
  arith, require_tenant_id-Reads, get_editable_role_or_throw-Reads, get_override-Reads,
  get_override_read, assert_permission_is_customizable-Reads,
)
