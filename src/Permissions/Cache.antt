-- ===== src/Permissions/Cache.antt =====
-- The state of `PermissionsService` and `RedisCacheService` (src/core/cache/redis-cache.service.ts).
-- A cache that is down reads as empty and swallows writes. Expiry is an entry that is gone.
use apiv.Prelude.{
  String, Bool, Option, none, some, List, [], ◌∷◌, ◌≡◌, arith, if◌then◌else◌, join, truthy, lookup,
  erase, lookup-erase_self,
}
use apiv.Store.{Database}

pub record State : Type 0 where
  pub db : Database
  pub cache : List (String × List String)
  pub cache_up : Bool
  pub system_role_ids : List (String × String)

abbrev pub cache_key : String → Option String → String
cache_key role tenant = elim (truthy tenant) [
  | some t ↦ join ("permissions:tenant:" ∷ t ∷ ":role:" ∷ role ∷ [])
  | none ↦ join ("permissions:role:" ∷ role ∷ [])
]

abbrev pub user_cache_key : String → Option String → String
user_cache_key user tenant = elim (truthy tenant) [
  | some t ↦ join ("permissions:user:" ∷ user ∷ ":tenant:" ∷ t ∷ [])
  | none ↦ join ("permissions:user:" ∷ user ∷ [])
]

unfoldable pub cache_get : String → State → Option (List String)
cache_get k s = if s.cache_up then lookup k s.cache else none

unfoldable pub cache_set : String → List String → State → State
cache_set k v s = if s.cache_up then record s { cache = (k, v) ∷ erase k s.cache } else s

unfoldable pub cache_del : String → State → State
cache_del k s = if s.cache_up then record s { cache = erase k s.cache } else s

pub cache_get-del : (k : String) (s : State) → cache_get k (cache_del k s) ≡ none
unfolding cache_get cache_del
cache_get-del k s = ground (arith, lookup-erase_self k s.cache)

pub cache_del-db : (k : String) (s : State) → (cache_del k s).db ≡ s.db
unfolding cache_del
cache_del-db k s = ground arith

pub cache_set-db : (k : String) (v : List String) (s : State) → (cache_set k v s).db ≡ s.db
unfolding cache_set
cache_set-db k v s = ground arith
