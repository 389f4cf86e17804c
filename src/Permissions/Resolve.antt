-- ===== src/Permissions/Resolve.antt =====
-- The decisions of `PermissionsService`. Reading changes only the two caches.
use apiv.Prelude.{
  String, Bool, true, Option, none, some, List, [], ◌∷◌, ◌==◌, if◌then◌else◌, contains, add, delete,
  to_set, set_from, truthy, lookup, erase,
}
use apiv.Permissions.Cache.{State, cache_key, user_cache_key, cache_get, cache_set}
use apiv.Permissions.Queries.{
  fetch_global_grants, fetch_all_tenant_permission_keys, fetch_tenant_overrides,
  fetch_user_overrides, fetch_user_role_names, query_system_role_id, query_tenant_role_id,
}

-- The row of the query is kept for the next call.
unfoldable pub remember : String → State → Option String → Option String × State
remember role s none = (none, s)
remember role s (some id) =
    (some id, record s { system_role_ids = (role, id) ∷ erase role s.system_role_ids })

unfoldable pub lookup_system_role_id : String → State → Option String × State
lookup_system_role_id role s = elim (truthy (lookup role s.system_role_ids)) [
  | some id ↦ (some id, s)
  | none ↦ remember role s (query_system_role_id role s.db)
]

unfoldable pub lookup_role_id : String → Option String → State → Option String × State
lookup_role_id role tenant s =
    let (system_id, s') = lookup_system_role_id role s in
    elim (truthy system_id) [
      | some id ↦ (some id, s')
      | none ↦ elim (truthy tenant) [
        | none ↦ (none, s')
        | some t ↦ (query_tenant_role_id role t s'.db, s')
      ]
    ]

-- The merge loops: a granted key is added, a revoked one deleted.
abbrev pub merge : List (String × Bool) → List String → List String
merge [] keys = keys
merge ((k, granted) ∷ os) keys = merge os (if granted then add k keys else delete k keys)

-- With no override the array of the query is returned as it is.
abbrev pub merge_overrides : List (String × Bool) → List String → List String
merge_overrides [] global_keys = global_keys
merge_overrides (o ∷ os) global_keys = merge (o ∷ os) (to_set global_keys)

-- The part of `resolveGrantedKeys` that needs a tenant.
unfoldable pub resolve_tenant : String → Option String → List String → State → List String × State
resolve_tenant role tenant global_keys s = elim (truthy tenant) [
  | none ↦ (global_keys, s)
  | some t ↦
      let (role_id, s') = lookup_role_id role tenant s in
      elim (truthy role_id) [
        | none ↦ (global_keys, s')
        | some id ↦ (merge_overrides (fetch_tenant_overrides t id s'.db) global_keys, s')
      ]
]

unfoldable pub resolve_granted_keys : String → Option String → State → List String × State
resolve_granted_keys role tenant s =
    if role == "owner"
    then (fetch_all_tenant_permission_keys s.db, s)
    else resolve_tenant role tenant (fetch_global_grants role s.db) s

unfoldable pub get_granted_set : String → Option String → State → List String × State
get_granted_set role tenant s = elim (cache_get (cache_key role tenant) s) [
  | some keys ↦ (to_set keys, s)
  | none ↦
      let (keys, s') = resolve_granted_keys role tenant s in
      (to_set keys, cache_set (cache_key role tenant) keys s')
]

unfoldable pub has_permission : String → String → Option String → State → Bool × State
has_permission role key tenant s =
    if role == "owner"
    then (true, s)
    else let (granted, s') = get_granted_set role tenant s in (contains key granted, s')

unfoldable pub get_role_permissions : String → Option String → State → List String × State
get_role_permissions role tenant s = get_granted_set role tenant s

-- The loop over the roles that a user holds.
unfoldable pub union_roles : List String → Option String → List String → State → List String × State
union_roles [] tenant merged s = (merged, s)
union_roles (role ∷ roles) tenant merged s =
    let (keys, s') = resolve_granted_keys role tenant s in
    union_roles roles tenant (set_from merged keys) s'

unfoldable pub get_granted_set_for_user :
    String → List String → Option String → State → List String × State
get_granted_set_for_user user roles tenant s =
    let key = user_cache_key user tenant in
    elim (cache_get key s) [
      | some keys ↦ (to_set keys, s)
      | none ↦
          let (merged, s') = union_roles roles tenant [] s in
          let result = merge (fetch_user_overrides user s'.db) merged in
          (result, cache_set key result s')
    ]

unfoldable pub has_permission_for_user : String → String → Option String → State → Bool × State
has_permission_for_user user key tenant s =
    let roles = fetch_user_role_names user s.db in
    if contains "owner" roles
    then (true, s)
    else let (granted, s') = get_granted_set_for_user user roles tenant s in
      (contains key granted, s')

-- `Map.set`, for the overrides shown to an administrator.
abbrev pub map_set : String → Bool → List (String × Bool) → List (String × Bool)
map_set k v [] = (k, v) ∷ []
map_set k v ((j, w) ∷ m) = if k == j then (j, v) ∷ m else (j, w) ∷ map_set k v m

pub record Detail : Type 0 where
  pub granted_keys : List String
  pub overrides : List (String × Bool)

-- The loop of `getResolutionDetail`, which fills the set and the map side by side.
abbrev pub detail : List (String × Bool) → List String → List (String × Bool) → Detail
detail [] keys seen = record { granted_keys = keys; overrides = seen }
detail ((k, granted) ∷ os) keys seen =
    detail os (if granted then add k keys else delete k keys) (map_set k granted seen)

-- The part of `getResolutionDetail` after the owner's case.
unfoldable pub resolve_tenant_detail : String → Option String → List String → State → Detail × State
resolve_tenant_detail role tenant global_keys s =
    let plain : Detail = record { granted_keys = global_keys; overrides = [] } in
    elim (truthy tenant) [
      | none ↦ (plain, s)
      | some t ↦
          let (role_id, s') = lookup_role_id role tenant s in
          elim (truthy role_id) [
            | none ↦ (plain, s')
            | some id ↦ (detail (fetch_tenant_overrides t id s'.db) global_keys [], s')
          ]
    ]

unfoldable pub get_resolution_detail : String → Option String → State → Detail × State
get_resolution_detail role tenant s =
    if role == "owner"
    then (
      record { granted_keys = to_set (fetch_all_tenant_permission_keys s.db); overrides = [] },
      s,
    )
    else resolve_tenant_detail role tenant (to_set (fetch_global_grants role s.db)) s
