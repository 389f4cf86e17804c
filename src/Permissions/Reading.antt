-- ===== src/Permissions/Reading.antt =====
-- The decisions of `PermissionsService` write no table: what they change are the caches.
use apiv.Prelude.{
  String, Option, none, some, List, [], ◌∷◌, ◌≡◌, refl, ◌∙◌, arith, Option-cases, inl, inr,
  set_from,
}
use apiv.Permissions.Cache.{State, user_cache_key, cache_get, cache_set-db}
use apiv.Permissions.Queries.{fetch_user_role_names, fetch_global_grants, query_system_role_id}
use apiv.Permissions.Resolve.{
  remember, lookup_system_role_id, lookup_role_id, resolve_tenant, resolve_granted_keys,
  union_roles, get_granted_set_for_user, has_permission_for_user,
}

remember-db : (role : String) (s : State) (q : Option String) → (remember role s q).1.db ≡ s.db
unfolding remember
remember-db role s none = refl
remember-db role s (some id) = refl

lookup_system_role_id-db : (role : String) (s : State) → (lookup_system_role_id role s).1.db ≡ s.db
unfolding lookup_system_role_id
lookup_system_role_id-db role s =
    ground (arith, remember-db role s (query_system_role_id role s.db))

lookup_role_id-db :
    (role : String) (tenant : Option String) (s : State)
    → (lookup_role_id role tenant s).1.db ≡ s.db
unfolding lookup_role_id
lookup_role_id-db role tenant s = ground (arith, lookup_system_role_id-db role s)

resolve_tenant-db :
    (role : String) (tenant : Option String) (keys : List String) (s : State)
    → (resolve_tenant role tenant keys s).1.db ≡ s.db
unfolding resolve_tenant
resolve_tenant-db role tenant keys s = ground (arith, lookup_role_id-db role tenant s)

resolve_granted_keys-db :
    (role : String) (tenant : Option String) (s : State)
    → (resolve_granted_keys role tenant s).1.db ≡ s.db
unfolding resolve_granted_keys
resolve_granted_keys-db role tenant s =
    ground (arith, resolve_tenant-db role tenant (fetch_global_grants role s.db) s)

union_roles-db :
    (roles : List String) (tenant : Option String) (merged : List String) (s : State)
    → (union_roles roles tenant merged s).1.db ≡ s.db
unfolding union_roles
union_roles-db [] tenant merged s = refl
union_roles-db (role ∷ roles) tenant merged s =
    let (keys, s') = resolve_granted_keys role tenant s in
    union_roles-db roles tenant (set_from merged keys) s' ∙ resolve_granted_keys-db role tenant s

get_granted_set_for_user-db :
    (user : String) (roles : List String) (tenant : Option String) (s : State)
    → (get_granted_set_for_user user roles tenant s).1.db ≡ s.db
unfolding get_granted_set_for_user
get_granted_set_for_user-db user roles tenant s =
    elim (Option-cases (cache_get (user_cache_key user tenant) s)) [
      | inl e ↦
          rw (e, get_granted_set_for_user)
            (cache_set-db (user_cache_key user tenant) _ _ ∙ union_roles-db roles tenant [] s)
      | inr (keys, e) ↦ rw (e, get_granted_set_for_user) refl
    ]

pub has_permission_for_user-db :
    (user key : String) (tenant : Option String) (s : State)
    → (has_permission_for_user user key tenant s).1.db ≡ s.db
unfolding has_permission_for_user
has_permission_for_user-db user key tenant s =
    ground (arith, get_granted_set_for_user-db user (fetch_user_role_names user s.db) tenant s)
