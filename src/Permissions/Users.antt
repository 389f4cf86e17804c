-- ===== src/Permissions/Users.antt =====
-- `hasPermissionForUser` against its specification, through the cache, and after each write.
use apiv.Prelude.{
  String, ◌||◌, Option, List, [], contains, contains-to_set, ◌≡◌, ◌∙◌, ap, arith, Option-cases, inl,
  inr,
}
use apiv.Permissions.Cache.{State, user_cache_key, cache_get}
use apiv.Permissions.Queries.{fetch_user_overrides, fetch_user_role_names}
use apiv.Permissions.Resolve.{merge, union_roles, get_granted_set_for_user, has_permission_for_user}
use apiv.Permissions.Spec.{last_for, decide, IsFresh, user_grants, IsCoherent}
use apiv.Permissions.Laws.{contains-merge, union_roles_lem}

-- The keys that a cache miss computes and stores.
computed : (user : String) (tenant : Option String) (s : State) → List String
computed user tenant s =
    let (merged, s') = union_roles (fetch_user_role_names user s.db) tenant [] s in
    merge (fetch_user_overrides user s'.db) merged

computed_lem :
    (user : String) (tenant : Option String) (key : String) (s : State)
    → IsFresh s
    → contains key (computed user tenant s) ≡ user_grants user key tenant s.db
unfolding computed user_grants
computed_lem user tenant key s h =
    let roles = fetch_user_role_names user s.db in
    let (merged, s') = union_roles roles tenant [] s in
    let (same, keeps) = union_roles_lem roles tenant key [] s h in
    contains-merge key (fetch_user_overrides user s'.db) merged
    ∙ (rw (keeps.db) (ap (decide (last_for key (fetch_user_overrides user s.db))) same))

pub get_granted_set_for_user_lem :
    (user : String) (tenant : Option String) (key : String) (s : State)
    → IsFresh s
    → IsCoherent user tenant s
    → contains key (get_granted_set_for_user user (fetch_user_role_names user s.db) tenant s).0
      ≡ user_grants user key tenant s.db
unfolding get_granted_set_for_user
get_granted_set_for_user_lem user tenant key s h c =
    elim (Option-cases (cache_get (user_cache_key user tenant) s)) [
      | inl e ↦
          rw (e, get_granted_set_for_user) (unfold computed in computed_lem user tenant key s h)
      | inr (keys, e) ↦ rw (e, get_granted_set_for_user) (contains-to_set key keys ∙ c keys e key)
    ]

-- While the caches and the per-process role ids agree with the tables, the decision for a user is
-- the specification's: an owner has every permission, and any other user has what the last own
-- override says, or else what some role grants.
pub has_permission_for_user_lem :
    (user key : String) (tenant : Option String) (s : State)
    → IsFresh s
    → IsCoherent user tenant s
    → (has_permission_for_user user key tenant s).0
      ≡ (contains "owner" (fetch_user_role_names user s.db) || user_grants user key tenant s.db)
unfolding has_permission_for_user
has_permission_for_user_lem user key tenant s h c =
    ground (arith, get_granted_set_for_user_lem user tenant key s h c)
