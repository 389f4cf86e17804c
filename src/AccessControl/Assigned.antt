-- ===== src/AccessControl/Assigned.antt =====
-- `addRole` that succeeded: what it found, what it stored, and what follows from the rows.
use apiv.Prelude.{
  String, Bool, true, false, Option, some, List, [], ◌∷◌, ◌++◌, ◌==◌, length, nat_eq, filter, any,
  find, ◌||◌, contains, eq_refl, maybe_single, ok, ◌≡◌, refl, ap, ◌∙◌, arith, inl, inr,
  Option-cases, Bool-cases,
}
use apiv.Store.{Database, Role, UserRole, User}
use apiv.Permissions.Cache.{State, user_cache_key, cache_del, cache_del-db, cache_get-del}
use apiv.Permissions.Users.{has_permission_for_user_lem}
use apiv.Permissions.Resolve.{has_permission_for_user}
use apiv.Permissions.Queries.{
  rows, role_names, fetch_user_role_names, fetch_user_overrides, fetch_tenant_overrides,
  query_system_role_id, query_tenant_role_id, fetch_global_grants, fetch_all_tenant_permission_keys,
}
use apiv.Permissions.Spec.{
  decide, last_for, grants, any_grants, user_grants, IsFresh, role_id, tenant_override,
}
use apiv.Permissions.Overrides.{invalidate_user_permissions}
use apiv.AccessControl.Assignment.{
  AddedRole, Staff, is_user, find_one, is_other_tenants, find_accessible_role, count_user_roles,
  holds, with_user_roles, insert_user_role, write_role, add_role,
}

-- The rows that `addRole` of a role found, and the one that it added.
pub record Assigned (user id : String) (tenant : Option String) (s : Staff) (added : AddedRole)
    (s' : Staff) : Type 0 where
  pub member : User
  pub role : Role
  pub before : List UserRole
  pub primary : Bool
  pub in_tenant :
      maybe_single (filter (is_user user tenant) (rows s.permissions.db.users)) ≡ some member
  pub found :
      maybe_single (filter (λ (r : Role). r.id == id) (rows s.permissions.db.roles)) ≡ some role
  pub accessible : is_other_tenants tenant role ≡ false
  pub stored : s.permissions.db.user_roles ≡ some before
  pub new : any (holds user id) before ≡ false
  pub result : added ≡ record { user_id = user; role_id = id; role_name = role.name }
  pub written :
      s'.permissions
      ≡ invalidate_user_permissions user tenant
          (with_user_roles
            (before ++ record { user_id = user; role_id = id; is_primary = primary } ∷ [])
            s).permissions

add_role-ok :
    (user id : String) (tenant : Option String) (actor : String) (s : Staff) {added : AddedRole}
    → (add_role user id tenant actor s).0 ≡ ok added
    → Assigned user id tenant s added (add_role user id tenant actor s).1
unfolding add_role find_one find_accessible_role count_user_roles write_role insert_user_role
add_role-ok user id tenant actor s h =
    elim (Option-cases
      (maybe_single (filter (is_user user tenant) (rows s.permissions.db.users)))) [
        | inl e ↦ absurd (ground (arith, e))
        | inr (u, e) ↦
            elim (Option-cases
              (maybe_single (filter (λ (r : Role). r.id == id) (rows s.permissions.db.roles)))) [
                | inl e' ↦ absurd (ground (arith, e, e'))
                | inr (r, e') ↦ elim (Bool-cases (is_other_tenants tenant r)) [
                  | inl foreign ↦ absurd (ground (arith, e, e', foreign))
                  | inr accessible ↦ elim (Option-cases s.permissions.db.user_roles) [
                    | inl e'' ↦ absurd (ground (arith, e, e', accessible, e''))
                    | inr (us, e'') ↦ elim (Bool-cases (any (holds user id) us)) [
                      | inl held ↦ absurd (ground (arith, e, e', accessible, e'', held))
                      | inr free ↦ record {
                        member = u;
                        role = r;
                        before = us;
                        primary =
                            nat_eq (length (filter (λ (x : UserRole). x.user_id == user) us)) 0;
                        in_tenant = e;
                        found = e';
                        accessible = accessible;
                        stored = e'';
                        new = free;
                        result = ground (arith, e, e', accessible, e'', free);
                        written = ground (arith, e, e', accessible, e'', free);
                      }
                    ]
                  ]
                ]
              ]
      ]

role_names-append :
    (roles : List Role) (us : List UserRole) (u : UserRole) (role : Role)
    → find (λ (r : Role). r.id == u.role_id) roles ≡ some role
    → (role.name == "") ≡ false
    → role_names roles (us ++ u ∷ []) ≡ role_names roles us ++ role.name ∷ []
role_names-append roles [] u role found named = rw (role_names, found, named) refl
role_names-append roles (x ∷ us) u role found named =
    ground (arith, role_names-append roles us u role found named)

filter-append :
    (user : String) (us : List UserRole) (u : UserRole)
    → (u.user_id == user) ≡ true
    → filter (λ (x : UserRole). x.user_id == user) (us ++ u ∷ [])
      ≡ filter (λ (x : UserRole). x.user_id == user) us ++ u ∷ []
filter-append user [] u own = ground (arith, own)
filter-append user (x ∷ us) u own = ground (arith, filter-append user us u own)

find-filter :
    (id : String) (roles : List Role) {role : Role}
    → maybe_single (filter (λ (r : Role). r.id == id) roles) ≡ some role
    → find (λ (r : Role). r.id == id) roles ≡ some role
find-filter id [] h = absurd (cc)
find-filter id (r ∷ roles) h = elim (Bool-cases (r.id == id)) [
  | inl own ↦ rw own (ground (arith, own))
  | inr other ↦ rw other (find-filter id roles (rw other at h))
]

any_grants-append :
    (names : List String) (name : String) (tenant : Option String) (key : String) (db : Database)
    → any_grants (names ++ name ∷ []) tenant key db
      ≡ (any_grants names tenant key db || grants name tenant key db)
any_grants-append [] name tenant key db = ground arith
any_grants-append (x ∷ names) name tenant key db =
    ground (arith, any_grants-append names name tenant key db)

module _ (user id : String) (us : List UserRole) (primary : Bool) where
  abbrev row : UserRole
  row = record { user_id = user; role_id = id; is_primary = primary }

  abbrev stored_in : State → State
  stored_in s = record s { db = record s.db { user_roles = some (us ++ row ∷ []) } }

  names_after :
      (s : State) (role : Role)
      → maybe_single (filter (λ (r : Role). r.id == id) (rows s.db.roles)) ≡ some role
      → (role.name == "") ≡ false
      → s.db.user_roles ≡ some us
      → fetch_user_role_names user (stored_in s).db
        ≡ fetch_user_role_names user s.db ++ role.name ∷ []
  unfolding fetch_user_role_names
  names_after s role found named eu = elim (Option-cases s.db.roles) [
    | inl e ↦ absurd (ground (arith, e))
    | inr (roles, e) ↦
        let one = find-filter id roles (ground (arith, e)) in
        rw (e, eu)
          (ap (role_names roles) (filter-append user us row (eq_refl user))
            ∙ role_names-append roles (filter (λ (x : UserRole). x.user_id == user) us) row role one
                named)
  ]

  any_grants-stored :
      (names : List String) (tenant : Option String) (key : String) (s : State)
      → any_grants names tenant key (stored_in s).db ≡ any_grants names tenant key s.db
  unfolding grants tenant_override role_id fetch_tenant_overrides query_system_role_id
      query_tenant_role_id fetch_global_grants fetch_all_tenant_permission_keys
  any_grants-stored [] tenant key s = refl
  any_grants-stored (name ∷ names) tenant key s =
      ap (λ b. grants name tenant key s.db || b) (any_grants-stored names tenant key s)

  stored-IsFresh :
      (tenant : Option String) (s : State)
      → IsFresh s
      → IsFresh (invalidate_user_permissions user tenant (stored_in s))
  unfolding invalidate_user_permissions cache_del query_system_role_id
  stored-IsFresh tenant s h = elim (Bool-cases s.cache_up) [
    | inl up ↦ rw up h
    | inr down ↦ rw down h
  ]

  stored_decides :
      (tenant : Option String) (key : String) (s : State)
      → IsFresh s
      → (has_permission_for_user user key tenant
          (invalidate_user_permissions user tenant (stored_in s))).0
        ≡ (contains "owner" (fetch_user_role_names user (stored_in s).db)
            || user_grants user key tenant (stored_in s).db)
  unfolding invalidate_user_permissions
  stored_decides tenant key s h =
      let after = invalidate_user_permissions user tenant (stored_in s) in
      has_permission_for_user_lem user key tenant after (stored-IsFresh tenant s h)
        (λ keys e. cc (cache_get-del (user_cache_key user tenant) (stored_in s)))
      ∙ rw (cache_del-db (user_cache_key user tenant) (stored_in s)) refl

-- `addRole` that succeeds, of a role with a name: the next decision on any key is made from the rows
-- as they are then, whatever the cache held. The user has the key if the new role or one held before
-- is the owner's; or else by the last own override on the key; or else if the new role or one held
-- before grants it.
pub add_role_decides :
    (user id key : String) (tenant : Option String) (actor : String) (s : Staff) {added : AddedRole}
    → IsFresh s.permissions
    → (added.role_name == "") ≡ false
    → (add_role user id tenant actor s).0 ≡ ok added
    → let db = s.permissions.db in
      let names = fetch_user_role_names user db ++ added.role_name ∷ [] in
      (has_permission_for_user user key tenant (add_role user id tenant actor s).1.permissions).0
      ≡ (contains "owner" names
          || decide (last_for key (fetch_user_overrides user db)) (
              any_grants (fetch_user_role_names user db) tenant key db
              || grants added.role_name tenant key db))
unfolding user_grants fetch_user_overrides
add_role_decides user id key tenant actor s {added} h named ok_now =
    let a = add_role-ok user id tenant actor s ok_now in
    let p = s.permissions in
    let same_name : added.role_name ≡ a.role.name = ap (λ (x : AddedRole). x.role_name) a.result in
    let names =
      names_after user id a.before a.primary p a.role a.found (rw same_name at named) a.stored in
    let held = fetch_user_role_names user p.db in
    rw a.written (
      stored_decides user id a.before a.primary tenant key p h
      ∙ rw (names, same_name)
          (ap
            (λ b.
              contains "owner" (held ++ a.role.name ∷ [])
              || decide (last_for key (fetch_user_overrides user p.db)) b)
            (any_grants-stored user id a.before a.primary (held ++ a.role.name ∷ []) tenant key p
              ∙ any_grants-append held a.role.name tenant key p.db)))
