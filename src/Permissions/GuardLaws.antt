-- ===== src/Permissions/GuardLaws.antt =====
-- What the guard lets through.
use apiv.Prelude.{
  String, Bool, true, false, ◌||◌, Option, some, List, ◌==◌, if◌then◌else◌, contains, ok, ◌≡◌, ◌≢◌,
  ◌∙◌, ◌↔◌, refl, arith, eq_iff, Option-cases, Bool-cases, inl, inr,
}
use apiv.Permissions.Cache.{State, cache_key, cache_get, cache_set, cache_set-db}
use apiv.Permissions.Queries.{fetch_user_role_names}
use apiv.Permissions.Resolve.{resolve_granted_keys, get_granted_set, has_permission}
use apiv.Permissions.Spec.{grants, IsFresh, user_grants, IsCoherent}
use apiv.Permissions.Laws.{resolve_granted_keys_lem}
use apiv.Permissions.Users.{has_permission_for_user_lem}
use apiv.Permissions.Roles.{IsRoleCoherent, has_permission_lem}
use apiv.Permissions.Guard.{
  JwtPayload, Env, is_test_tenant, roles_of, safe_has_permission_for_user, resolve_user_permission,
  can_activate,
}

record Stays (s t : State) : Type 0 where
  db : t.db ≡ s.db
  fresh : IsFresh t

cache_set-IsFresh :
    (k : String) (v : List String) (s : State) → IsFresh s → IsFresh (cache_set k v s)
unfolding cache_set
cache_set-IsFresh k v s h = elim (Bool-cases s.cache_up) [ inl up ↦ rw up h | inr down ↦ rw down h ]

get_granted_set-Stays :
    (role : String) (tenant : Option String) (s : State)
    → IsFresh s
    → Stays s (get_granted_set role tenant s).1
unfolding get_granted_set
get_granted_set-Stays role tenant s h =
    let (keys, s') = resolve_granted_keys role tenant s in
    let keeps = (resolve_granted_keys_lem role tenant "" s h).1 in
    elim (Option-cases (cache_get (cache_key role tenant) s)) [
      | inl e ↦
          rw (e, get_granted_set)
            (record {
              db = cache_set-db (cache_key role tenant) keys s' ∙ keeps.db;
              fresh = cache_set-IsFresh (cache_key role tenant) keys s' keeps.fresh;
            })
      | inr (keys, e) ↦ rw (e, get_granted_set) (record { db = refl; fresh = h })
    ]

has_permission-Stays :
    (role key : String) (tenant : Option String) (s : State)
    → IsFresh s
    → Stays s (has_permission role key tenant s).1
unfolding has_permission
has_permission-Stays role key tenant s h = elim (Bool-cases (role == "owner")) [
  | inl owner ↦ rw owner (record { db = refl; fresh = h })
  | inr other ↦ rw other (get_granted_set-Stays role tenant s h)
]

-- The tables' answer for a role, and for a user with all the roles that the user holds.
abbrev pub legacy_answer : JwtPayload → String → State → Bool
legacy_answer user key s = (user.role == "owner") || grants user.role user.tenant_id key s.db

abbrev pub hybrid_answer : JwtPayload → String → State → Bool
hybrid_answer user key s =
    contains "owner" (fetch_user_role_names user.sub s.db)
    || user_grants user.sub key user.tenant_id s.db

resolve_user_permission_lem :
    (env : Env) (user : JwtPayload) (key : String) (s : State)
    → contains "superadmin" (roles_of user) ≡ false
    → is_test_tenant user.tenant_id ≡ false
    → env.hybrid_throws ≡ false
    → IsFresh s
    → IsRoleCoherent user.role user.tenant_id s
    → IsCoherent user.sub user.tenant_id (has_permission user.role key user.tenant_id s).1
    → (resolve_user_permission env (some user) key s).0
      ≡ ok (
          if env.enforce_hybrid_permissions
          then hybrid_answer user key s
          else legacy_answer user key s)
unfolding resolve_user_permission safe_has_permission_for_user
resolve_user_permission_lem env user key s plain live calm h c c' =
    let t = user.tenant_id in
    let s1 = (has_permission user.role key t s).1 in
    let stays = has_permission-Stays user.role key t s h in
    let legacy = has_permission_lem user.role key t s h c in
    let hybrid = has_permission_for_user_lem user.sub key t s1 stays.fresh c' in
    ground (arith, legacy, hybrid, stays.db)

-- For a route with a permission key that is not empty, while the caches and the per-process role
-- ids agree with the tables and the second check does not throw: a user who is neither a
-- superadmin nor of the test tenant passes the guard exactly when the tables grant the
-- permission, to the user's own role, or, under the flag, to all that the user holds.
pub can_activate_iff :
    (env : Env) (user : JwtPayload) (key : String) (s : State)
    → key ≢ ""
    → contains "superadmin" (roles_of user) ≡ false
    → is_test_tenant user.tenant_id ≡ false
    → env.hybrid_throws ≡ false
    → IsFresh s
    → IsRoleCoherent user.role user.tenant_id s
    → IsCoherent user.sub user.tenant_id (has_permission user.role key user.tenant_id s).1
    → ((can_activate env (some key) (some user) s).0 ≡ ok true) ↔ (
        (if env.enforce_hybrid_permissions
          then hybrid_answer user key s
          else legacy_answer user key s)
        ≡ true)
unfolding can_activate
can_activate_iff env user key s ne plain live calm h c c' =
    ground (arith, eq_iff key "", resolve_user_permission_lem env user key s plain live calm h c c')
