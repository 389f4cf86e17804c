-- ===== src/Permissions/Roles.antt =====
-- Decisions for one role: `hasPermission` through its cache, and the administrator's view.
use apiv.Prelude.{
  String, Bool, ◌||◌, Option, none, some, List, [], ◌∷◌, ◌==◌, if◌then◌else◌, contains, to_set, add,
  delete, truthy, lookup, or_else, contains-to_set, ◌≡◌, ◌∙◌, refl, arith, eq_iff, Option-cases,
  Bool-cases, inl, inr,
}
use apiv.Permissions.Cache.{State, cache_key, cache_get}
use apiv.Permissions.Queries.{fetch_global_grants, fetch_tenant_overrides}
use apiv.Permissions.Resolve.{
  merge, get_granted_set, has_permission, map_set, detail, resolve_tenant_detail,
  get_resolution_detail,
}
use apiv.Permissions.Spec.{last_for, decide, role_id, tenant_override, grants, IsFresh}
use apiv.Permissions.Laws.{contains-merge, lookup_role_id_lem, resolve_granted_keys_lem}

-- What the cache holds for the role and the tenant, if anything, answers as the tables do.
abbrev pub IsRoleCoherent : String → Option String → State → Type 0
IsRoleCoherent role tenant s =
    (keys : List String)
    → cache_get (cache_key role tenant) s ≡ some keys
    → (key : String) → contains key keys ≡ grants role tenant key s.db

pub get_granted_set_lem :
    (role : String) (tenant : Option String) (key : String) (s : State)
    → IsFresh s
    → IsRoleCoherent role tenant s
    → contains key (get_granted_set role tenant s).0 ≡ grants role tenant key s.db
unfolding get_granted_set
get_granted_set_lem role tenant key s h c =
    elim (Option-cases (cache_get (cache_key role tenant) s)) [
      | inl e ↦
          rw (e, get_granted_set)
            (contains-to_set key _ ∙ (resolve_granted_keys_lem role tenant key s h).0)
      | inr (keys, e) ↦ rw (e, get_granted_set) (contains-to_set key keys ∙ c keys e key)
    ]

-- While the caches and the per-process role ids agree with the tables, a role has a permission
-- when it is the owner, or when the tenant's override says so, or when there is none and the
-- global grant says so.
pub has_permission_lem :
    (role key : String) (tenant : Option String) (s : State)
    → IsFresh s
    → IsRoleCoherent role tenant s
    → (has_permission role key tenant s).0 ≡ ((role == "owner") || grants role tenant key s.db)
unfolding has_permission
has_permission_lem role key tenant s h c = ground (arith, get_granted_set_lem role tenant key s h c)

lookup-map_set :
    (k j : String) (v : Bool) (m : List (String × Bool))
    → lookup k (map_set j v m) ≡ (if k == j then some v else lookup k m)
lookup-map_set k j v [] = refl
lookup-map_set k j v ((i, w) ∷ m) =
    ground (arith, lookup-map_set k j v m, eq_iff k i, eq_iff k j, eq_iff j i)

detail-merge :
    (os : List (String × Bool)) (keys : List String) (seen : List (String × Bool))
    → (detail os keys seen).granted_keys ≡ merge os keys
detail-merge [] keys seen = refl
detail-merge ((k, g) ∷ os) keys seen =
    detail-merge os (if g then add k keys else delete k keys) (map_set k g seen)

detail-lookup :
    (k : String) (os : List (String × Bool)) (keys : List String) (seen : List (String × Bool))
    → lookup k (detail os keys seen).overrides ≡ or_else (last_for k os) (lookup k seen)
detail-lookup k [] keys seen = refl
detail-lookup k ((j, g) ∷ os) keys seen = ground (
  arith,
  detail-lookup k os (if g then add j keys else delete j keys) (map_set j g seen),
  lookup-map_set k j g seen,
)

or_else-none : {A : Type 0} (o : Option A) → or_else o none ≡ o
or_else-none none = refl
or_else-none (some a) = refl

resolve_tenant_detail_lem :
    (role : String) (tenant : Option String) (key : String) (s : State)
    → IsFresh s
    → let d = (resolve_tenant_detail role tenant (to_set (fetch_global_grants role s.db)) s).0 in
      (contains key d.granted_keys
        ≡ decide
            (tenant_override role tenant key s.db)
            (contains key (fetch_global_grants role s.db)))
      × (lookup key d.overrides ≡ tenant_override role tenant key s.db)
unfolding resolve_tenant_detail tenant_override
resolve_tenant_detail_lem role tenant key s h =
    let keys = to_set (fetch_global_grants role s.db) in
    let plain = contains-to_set key (fetch_global_grants role s.db) in
    elim (Option-cases (truthy tenant)) [
      | inl e ↦ rw (e, resolve_tenant_detail, tenant_override) (plain, refl)
      | inr (t, e) ↦ elim (Option-cases (truthy (role_id role tenant s.db))) [
        | inl e' ↦ ground (arith, lookup_role_id_lem role tenant s h, plain)
        | inr (id, e') ↦
            let os = fetch_tenant_overrides t id s.db in
            ground (
              arith,
              lookup_role_id_lem role tenant s h,
              plain,
              detail-merge os keys [],
              contains-merge key os keys,
              detail-lookup key os keys [],
              or_else-none (last_for key os),
            )
      ]
    ]

-- Where the per-process role ids agree with the table, the administrator's view of a role shows
-- exactly the keys that the tables grant, and, but for the owner, marks as overridden exactly the
-- keys that the tenant overrides.
get_resolution_detail_lem :
    (role : String) (tenant : Option String) (key : String) (s : State)
    → IsFresh s
    → let d = (get_resolution_detail role tenant s).0 in
      (contains key d.granted_keys ≡ grants role tenant key s.db)
      × (lookup key d.overrides
          ≡ (if role == "owner" then none else tenant_override role tenant key s.db))
unfolding get_resolution_detail grants
get_resolution_detail_lem role tenant key s h = elim (Bool-cases (role == "owner")) [
  | inl owner ↦ rw owner (contains-to_set key _, refl)
  | inr other ↦ rw other (resolve_tenant_detail_lem role tenant key s h)
]
