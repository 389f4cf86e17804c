-- ===== src/Permissions/Spec.antt =====
-- What a permission decision should be, as a function of the tables alone: no cache, no loop.
use apiv.Prelude.{
  String, Bool, false, ◌||◌, Option, none, some, List, [], ◌∷◌, ◌==◌, if◌then◌else◌, contains,
  truthy, or_else, All, ◌≡◌,
}
use apiv.Store.{Database}
use apiv.Permissions.Cache.{State, user_cache_key, cache_get}
use apiv.Permissions.Queries.{
  fetch_global_grants, fetch_all_tenant_permission_keys, fetch_tenant_overrides,
  fetch_user_overrides, fetch_user_role_names, query_system_role_id, query_tenant_role_id,
}

-- The last entry for a key wins.
abbrev pub last_for : String → List (String × Bool) → Option Bool
last_for k [] = none
last_for k ((j, g) ∷ os) = or_else (last_for k os) (if k == j then some g else none)

abbrev pub decide : Option Bool → Bool → Bool
decide none base = base
decide (some b) base = b

-- The id of a role by its name: the platform's role, or else the tenant's own.
unfoldable pub role_id : String → Option String → Database → Option String
role_id role tenant db = elim (truthy (query_system_role_id role db)) [
  | some id ↦ some id
  | none ↦ elim (truthy tenant) [ none ↦ none | some t ↦ query_tenant_role_id role t db ]
]

unfoldable pub tenant_override : String → Option String → String → Database → Option Bool
tenant_override role tenant key db = elim (truthy tenant) [
  | none ↦ none
  | some t ↦ elim (truthy (role_id role tenant db)) [
    | none ↦ none
    | some id ↦ last_for key (fetch_tenant_overrides t id db)
  ]
]

-- The tenant's override if there is one, or else the global grant; the owner has every tenant key.
unfoldable pub grants : String → Option String → String → Database → Bool
grants role tenant key db =
    if role == "owner"
    then contains key (fetch_all_tenant_permission_keys db)
    else decide (tenant_override role tenant key db) (contains key (fetch_global_grants role db))

abbrev pub any_grants : List String → Option String → String → Database → Bool
any_grants [] tenant key db = false
any_grants (role ∷ roles) tenant key db =
    grants role tenant key db || any_grants roles tenant key db

-- The per-process ids agree with the table (platform roles never change).
abbrev pub IsFresh : State → Type 0
IsFresh s = All (λ e. query_system_role_id e.0 s.db ≡ some e.1) s.system_role_ids

-- The keys of a user who is no owner: the user's own overrides on top of what the roles grant.
unfoldable pub user_grants : String → String → Option String → Database → Bool
user_grants user key tenant db =
    decide (last_for key (fetch_user_overrides user db))
      (any_grants (fetch_user_role_names user db) tenant key db)

-- What the cache holds for the user and the tenant, if anything, answers as the tables do.
abbrev pub IsCoherent : String → Option String → State → Type 0
IsCoherent user tenant s =
    (keys : List String)
    → cache_get (user_cache_key user tenant) s ≡ some keys
    → (key : String) → contains key keys ≡ user_grants user key tenant s.db
