-- ===== src/AccessControl/Deletion.antt =====
-- When a role is deleted, and what a refusal leaves.
use apiv.Prelude.{
  String, Bool, not, Option, none, some, List, [], ◌∷◌, filter, truthy, forbidden, database, ok,
  err, Error, ◌≡◌, Option-cases, inl, inr, refl, arith,
}
use apiv.Permissions.Cache.{cache_del}
use apiv.Permissions.Overrides.{invalidate_role}
use apiv.Permissions.Guard.{JwtPayload}
use apiv.AccessControl.State.{Ac, db_of}
use apiv.AccessControl.Repository.{
  get_role_by_id, count_users_for_role, is_role_of, is_grant_of, delete_all_overrides_for_role,
  delete_role as remove_role,
}
use apiv.AccessControl.Reads.{Reads, require_tenant_id_lem, get_accessible_role_or_throw-Reads}
use apiv.AccessControl.Checks.{require_tenant_id, get_accessible_role_or_throw}
use apiv.AccessControl.Service.{delete_role}

count_users_for_role-Reads : (id t : String) → Reads (count_users_for_role id t)
unfolding count_users_for_role
count_users_for_role-Reads id t s = ground arith

-- No role is read from a table that cannot be read.
no_roles :
    (id t : String) (s : Ac)
    → s.permissions.db.roles ≡ none
    → (get_accessible_role_or_throw id t s).0 ≡ err database
unfolding get_accessible_role_or_throw get_role_by_id
no_roles id t s e = ground (arith, e)

no_tenant :
    (tenant : Option String) (s : Ac)
    → truthy tenant ≡ none
    → require_tenant_id tenant s
      ≡ (err (forbidden "Tenant context required for access-control management"), s)
unfolding require_tenant_id
no_tenant tenant s e = rw (e, require_tenant_id) refl

-- A deletion that is refused, for whatever reason, changes no table, no cache and no audit log.
delete_role_refused :
    (id : String) (tenant : Option String) (actor : JwtPayload) (s : Ac) (x : Error)
    → (delete_role id tenant actor s).0 ≡ err x
    → (delete_role id tenant actor s).1 ≡ s
unfolding delete_role delete_all_overrides_for_role remove_role
delete_role_refused id tenant actor s x h = elim (Option-cases (truthy tenant)) [
  | inl e ↦ ground (arith, no_tenant tenant s e)
  | inr (t, e) ↦ ground (
    arith,
    require_tenant_id_lem tenant t s e,
    get_accessible_role_or_throw-Reads id t s,
    count_users_for_role-Reads id t s,
    no_roles id t s,
  )
]

filter_twice : {A : Type 0} (p : A → Bool) (l : List A) → filter p (filter (λ a. not (p a)) l) ≡ []
filter_twice p [] = refl
filter_twice p (a ∷ l) = ground (arith, filter_twice p l)

-- The rows of a table that can be read; none of those that pass the test is left.
abbrev pub Gone : {A : Type 0} → (A → Bool) → Option (List A) → Type 0
Gone p none = ⊥
Gone p (some l) = filter p l ≡ []

-- A deletion with a tenant that returns found no user of the role, and leaves no row of the
-- tenant's role and no override of the tenant for it.
delete_role_ok :
    (id t : String) (tenant : Option String) (actor : JwtPayload) (s : Ac)
    → truthy tenant ≡ some t
    → (delete_role id tenant actor s).0 ≡ ok tt
    → let db' = db_of (delete_role id tenant actor s).1 in
      ((count_users_for_role id t s).0 ≡ ok 0)
      × Gone (is_role_of t id) db'.roles
      × Gone (is_grant_of t id) db'.tenant_role_permissions
unfolding delete_role delete_all_overrides_for_role remove_role invalidate_role cache_del
delete_role_ok id t tenant actor s e h = elim (Option-cases s.permissions.db.roles) [
  | inl e' ↦ absurd (ground (arith, require_tenant_id_lem tenant t s e, no_roles id t s e'))
  | inr (rs, e') ↦ elim (Option-cases s.permissions.db.tenant_role_permissions) [
    | inl e'' ↦ absurd (
        ground (
          arith,
          require_tenant_id_lem tenant t s e,
          get_accessible_role_or_throw-Reads id t s,
          count_users_for_role-Reads id t s,
        ))
    | inr (gs, e'') ↦ ground (
      arith,
      require_tenant_id_lem tenant t s e,
      get_accessible_role_or_throw-Reads id t s,
      count_users_for_role-Reads id t s,
      filter_twice (is_role_of t id) rs,
      filter_twice (is_grant_of t id) gs,
    )
  ]
]
