-- ===== src/Permissions/Writes.antt =====
-- Overrides of one user's permissions: what each write does to the rows, and to every later decision.
use apiv.Prelude.{
  String, ◌||◌, Option, some, List, [], ◌∷◌, update, contains, ok, ◌≡◌, ◌≢◌, ◌∙◌, sym, refl, ap,
  Bool-cases, inl, inr,
}
use apiv.Store.{Override, OverrideAction}
use apiv.Permissions.Cache.{State, user_cache_key, cache_del, cache_get-del, cache_del-db}
use apiv.Permissions.Queries.{
  is_grant, rows, fetch_user_overrides, fetch_user_role_names, fetch_global_grants,
  fetch_all_tenant_permission_keys, fetch_tenant_overrides, query_system_role_id,
  query_tenant_role_id,
}
use apiv.Permissions.Resolve.{has_permission_for_user}
use apiv.Permissions.Overrides.{
  is_active_of, is_active_for, disabled, with_overrides, upsert, set_override, remove_override,
  reset_all_overrides, invalidate_user_permissions,
}
use apiv.Permissions.Spec.{
  last_for, decide, role_id, tenant_override, grants, any_grants, IsFresh, user_grants, IsCoherent,
}
use apiv.Permissions.Users.{has_permission_for_user_lem}
use apiv.Permissions.OverrideRows.{
  read, last_for-upsert, last_for-upsert_ne, last_for-disabled, read-disabled,
}

-- The rows of another user are not read differently.
any_grants-with_overrides :
    (roles : List String) (t : Option String) (k : String) (os : List Override) (s : State)
    → any_grants roles t k (with_overrides os s).db ≡ any_grants roles t k s.db
unfolding grants tenant_override role_id fetch_global_grants fetch_all_tenant_permission_keys
    fetch_tenant_overrides query_system_role_id query_tenant_role_id
any_grants-with_overrides [] t k os s = refl
any_grants-with_overrides (r ∷ rs) t k os s =
    ap (λ b. grants r t k s.db || b) (any_grants-with_overrides rs t k os s)

user_grants-with_overrides :
    (u k : String) (t : Option String) (os : List Override) (s : State)
    → user_grants u k t (with_overrides os s).db
      ≡ decide (last_for k (read u os)) (any_grants (fetch_user_role_names u s.db) t k s.db)
unfolding user_grants fetch_user_overrides fetch_user_role_names
user_grants-with_overrides u k t os s =
    ap (decide (last_for k (read u os)))
      (any_grants-with_overrides (fetch_user_role_names u s.db) t k os s)

-- A write ends with the user's cache entry gone, so the caches agree with the new rows.
module _ (u : String) (t : Option String) (os : List Override) (s : State) where
  abbrev after : State
  after = invalidate_user_permissions u t (with_overrides os s)

  after-db : after.db ≡ (with_overrides os s).db
  unfolding invalidate_user_permissions
  after-db = cache_del-db (user_cache_key u t) (with_overrides os s)

  after-IsCoherent : IsCoherent u t after
  unfolding invalidate_user_permissions
  after-IsCoherent keys e = cc (cache_get-del (user_cache_key u t) (with_overrides os s))

  after-IsFresh : IsFresh s → IsFresh after
  unfolding invalidate_user_permissions cache_del query_system_role_id
  after-IsFresh h = elim (Bool-cases s.cache_up) [ inl up ↦ rw up h | inr down ↦ rw down h ]

  -- Every decision after the write is made from the new rows.
  after_decides :
      (k : String)
      → IsFresh s
      → (has_permission_for_user u k t after).0 ≡ (
          contains "owner" (fetch_user_role_names u s.db)
          || decide (last_for k (read u os)) (any_grants (fetch_user_role_names u s.db) t k s.db))
  unfolding fetch_user_role_names
  after_decides k h =
      has_permission_for_user_lem u k t after (after-IsFresh h) after-IsCoherent
      ∙ (rw after-db (
          ap (λ b. contains "owner" (fetch_user_role_names u s.db) || b)
            (user_grants-with_overrides u k t os s)))

-- What each write returns and leaves, when the table answers.
set_override_lem :
    (u k : String) (a : OverrideAction) (t : Option String) (os : List Override) (s : State)
    → s.db.overrides ≡ some os
    → set_override u k a t s ≡ (ok tt, after u t (upsert u k a os) s)
unfolding set_override
set_override_lem u k a t os s e = rw (e, set_override)

remove_override_lem :
    (u k : String) (t : Option String) (os : List Override) (s : State)
    → s.db.overrides ≡ some os
    → remove_override u k t s ≡ (ok tt, after u t (update (is_active_for u k) disabled os) s)
unfolding remove_override
remove_override_lem u k t os s e = rw (e, remove_override)

reset_all_overrides_lem :
    (u : String) (t : Option String) (os : List Override) (s : State)
    → s.db.overrides ≡ some os
    → reset_all_overrides u t s ≡ (ok tt, after u t (update (is_active_of u) disabled os) s)
unfolding reset_all_overrides
reset_all_overrides_lem u t os s e = rw (e, reset_all_overrides)

user_grants_lem :
    (u k : String) (t : Option String) (os : List Override) (s : State)
    → s.db.overrides ≡ some os
    → user_grants u k t s.db
      ≡ decide (last_for k (read u os)) (any_grants (fetch_user_role_names u s.db) t k s.db)
unfolding user_grants fetch_user_overrides
user_grants_lem u k t os s e =
    ap
      (λ o.
        decide (last_for k (read u (rows o))) (any_grants (fetch_user_role_names u s.db) t k s.db))
      e

-- `setOverride`, where the overrides can be read and the per-process role ids agree with the
-- table: whatever the cache held for the user, the next decision on the key is the action that
-- was set (or an owner's yes), and the decision on any other key is the one that the tables gave
-- before.
pub set_override_decides :
    (u k j : String) (a : OverrideAction) (t : Option String) (os : List Override) (s : State)
    → s.db.overrides ≡ some os
    → IsFresh s
    → k ≢ j
    → let (r, s') = set_override u k a t s in
      let owner = contains "owner" (fetch_user_role_names u s.db) in
      (r ≡ ok tt)
      × ((has_permission_for_user u k t s').0 ≡ (owner || is_grant a))
      × ((has_permission_for_user u j t s').0 ≡ (owner || user_grants u j t s.db))
set_override_decides u k j a t os s e h ne =
    let rows' = upsert u k a os in
    let owner = contains "owner" (fetch_user_role_names u s.db) in
    let roles = any_grants (fetch_user_role_names u s.db) t in
    rw (set_override_lem u k a t os s e) (
      refl,
      after_decides u t rows' s k h
          ∙ ap (λ o. owner || decide o (roles k s.db)) (last_for-upsert u k a os),
      after_decides u t rows' s j h
          ∙ ap (λ o. owner || decide o (roles j s.db)) (last_for-upsert_ne u k j a os ne)
          ∙ ap (λ b. owner || b) (sym (user_grants_lem u j t os s e)),
    )

-- `removeOverride`, where the overrides can be read and the per-process role ids agree with the
-- table: the next decision on the key falls back to what the user's roles grant.
remove_override_decides :
    (u k : String) (t : Option String) (os : List Override) (s : State)
    → s.db.overrides ≡ some os
    → IsFresh s
    → let (r, s') = remove_override u k t s in
      let roles = fetch_user_role_names u s.db in
      (r ≡ ok tt)
      × ((has_permission_for_user u k t s').0
          ≡ (contains "owner" roles || any_grants roles t k s.db))
remove_override_decides u k t os s e h =
    let roles = fetch_user_role_names u s.db in
    rw (remove_override_lem u k t os s e) (
      refl,
      after_decides u t (update (is_active_for u k) disabled os) s k h
          ∙ ap (λ o. contains "owner" roles || decide o (any_grants roles t k s.db))
              (last_for-disabled u k os),
    )

-- `resetAllOverrides`, where the overrides can be read and the per-process role ids agree with
-- the table: the next decision on every key falls back to what the user's roles grant.
reset_all_overrides_decides :
    (u k : String) (t : Option String) (os : List Override) (s : State)
    → s.db.overrides ≡ some os
    → IsFresh s
    → let (r, s') = reset_all_overrides u t s in
      let roles = fetch_user_role_names u s.db in
      (r ≡ ok tt)
      × ((has_permission_for_user u k t s').0
          ≡ (contains "owner" roles || any_grants roles t k s.db))
reset_all_overrides_decides u k t os s e h =
    let roles = fetch_user_role_names u s.db in
    rw (reset_all_overrides_lem u t os s e) (
      refl,
      after_decides u t (update (is_active_of u) disabled os) s k h
          ∙ ap (λ l. contains "owner" roles || decide (last_for k l) (any_grants roles t k s.db))
              (read-disabled u os),
    )
