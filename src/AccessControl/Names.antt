-- ===== src/AccessControl/Names.antt =====
-- What a custom role's name can do: the resolution of roles goes by name, and `createRole` checks only
-- the names of the tenant's own roles.
use apiv.Prelude.{
  String, Bool, true, false, Option, none, some, List, [], ◌∷◌, ◌++◌, ◌==◌, filter, find, any,
  contains, trim, truthy, if◌then◌else◌, ok, ◌≡◌, ◌≢◌, refl, ap, ◌∙◌, arith, eq_iff, eq_refl,
  Bool-cases, inl, inr,
}
use apiv.Store.{Database, Role, UserRole, User, TenantGrant}
use apiv.Permissions.Cache.{State, user_cache_key, cache_del-db}
use apiv.Permissions.Queries.{rows, fetch_user_role_names, fetch_global_grants, role_names}
use apiv.Permissions.Resolve.{has_permission, has_permission_for_user}
use apiv.Permissions.Spec.{decide, last_for, role_id, IsFresh}
use apiv.Permissions.Guard.{JwtPayload}
use apiv.AccessControl.State.{Ac, db_of, with_roles}
use apiv.AccessControl.Repository.{
  create_role as insert_role, is_named, fresh_role, upsert_rows, get_override,
}
use apiv.AccessControl.Grants.{read, read-upsert_role_ne}
use apiv.AccessControl.Checks.{get_editable_role_or_throw, assert_permission_is_customizable}
use apiv.AccessControl.Service.{create_role, update_permission}
use apiv.Prelude.{nat_eq}
use apiv.AccessControl.AddedRoles.{count, write_role_lem, add_role_lem}
use apiv.AccessControl.Assignment.{Staff, RoleAudit, add_role, holds, is_user}
use apiv.Permissions.Overrides.{invalidate_user_permissions}
use apiv.AccessControl.Reads.{require_tenant_id_lem, get_editable_role_or_throw_ok}
use apiv.AccessControl.Laws.{after_decides, update_permission_lem, not_owner, truthy_twice}

module _ (id t : String) (d : Option String) where
  find-fresh :
      (rs : List Role)
      → find (λ (r : Role). r.id == id) rs ≡ none
      → find (λ (r : Role). r.id == id) (rs ++ fresh_role id t "owner" d ∷ [])
        ≡ some (fresh_role id t "owner" d)
  find-fresh [] h = ground (arith, eq_refl id)
  find-fresh (r ∷ rs) h = ground (arith, find-fresh rs)

  role_names-owner :
      (roles : List Role) (us : List UserRole) (user : String)
      → find (λ (r : Role). r.id == id) roles ≡ some (fresh_role id t "owner" d)
      → any (λ (u : UserRole). if u.user_id == user then u.role_id == id else false) us ≡ true
      → contains "owner" (role_names roles (filter (λ (u : UserRole). u.user_id == user) us)) ≡ true
  role_names-owner roles [] user e h = cc
  role_names-owner roles (u ∷ us) user e h = elim (Bool-cases (u.user_id == user)) [
    | inl mine ↦ elim (Bool-cases (u.role_id == id)) [
      | inl owner ↦
          let same =
            ap (λ q. find (λ (r : Role). r.id == q) roles) ((eq_iff u.role_id id).0 owner) in
          rw (mine, role_names) (rw (same ∙ e) refl)
      | inr other ↦ ground (arith, role_names-owner roles us user e)
    ]
    | inr others ↦ ground (arith, role_names-owner roles us user e)
  ]

-- `createRole` with a name that is not empty and new among the tenant's own roles.
create_role_lem :
    (id t name n : String) (d tenant : Option String) (actor : JwtPayload) (s : Ac) (rs : List Role)
    → truthy tenant ≡ some t
    → trim name ≡ n
    → (n == "") ≡ false
    → (db_of s).roles ≡ some rs
    → any (is_named t n) rs ≡ false
    → ((create_role id name d tenant actor s).0 ≡ ok (fresh_role id t n d))
      × ((create_role id name d tenant actor s).1.permissions
          ≡ (with_roles (rs ++ fresh_role id t n d ∷ []) s).permissions)
unfolding create_role insert_role
create_role_lem id t name n d tenant actor s rs live trimmed full er fresh_name = ground (
  arith,
  require_tenant_id_lem tenant t s live,
  ap (λ m. any (is_named t m) rs) trimmed,
  ap (λ m. m == "") trimmed,
)

module _ (id t user : String) (d : Option String) where
  filter-fresh :
      (rs : List Role)
      → find (λ (r : Role). r.id == id) rs ≡ none
      → filter (λ (r : Role). r.id == id) (rs ++ fresh_role id t "owner" d ∷ [])
        ≡ fresh_role id t "owner" d ∷ []
  filter-fresh [] h = ground (arith, eq_refl id)
  filter-fresh (r ∷ rs) h = ground (arith, filter-fresh rs)

  held_after :
      (us : List UserRole) (primary : Bool)
      → any
          (holds user id)
          (us ++ record { user_id = user; role_id = id; is_primary = primary } ∷ [])
        ≡ true
  held_after [] primary = ground (arith, eq_refl user, eq_refl id)
  held_after (u ∷ us) primary = ground (arith, held_after us primary)

owner_granted :
    (user key : String) (tenant scope : Option String) (s : State)
    → contains "owner" (fetch_user_role_names user s.db) ≡ true
    → (has_permission_for_user user key tenant (invalidate_user_permissions user scope s)).0 ≡ true
unfolding has_permission_for_user invalidate_user_permissions
owner_granted user key tenant scope s h = ground (arith, cache_del-db (user_cache_key user scope) s)

names_owner :
    (id t user : String) (d : Option String) (db : Database) (rs : List Role) (us : List UserRole)
    (primary : Bool)
    → find (λ (r : Role). r.id == id) rs ≡ none
    → contains "owner" (
        fetch_user_role_names user (record db {
          roles = some (rs ++ fresh_role id t "owner" d ∷ []);
          user_roles =
              some (us ++ record { user_id = user; role_id = id; is_primary = primary } ∷ []);
        }))
      ≡ true
unfolding fetch_user_role_names
names_owner id t user d db rs us primary fresh_id =
    role_names-owner id t d (rs ++ fresh_role id t "owner" d ∷ [])
      (us ++ record { user_id = user; role_id = id; is_primary = primary } ∷ []) user
      (find-fresh id t d rs fresh_id) (held_after id t user d us primary)

-- A tenant with no role named "owner" of its own may create one, by a name that trims to it, and give
-- it to a user of the tenant whom no row gives a role of that new id: both calls succeed, and the
-- next decision on any permission key, those of the platform included, grants it to the user.
pub create_role_owner_grants_all :
    (id t name user key actor_id : String) (d : Option String) (actor : JwtPayload) (s : Ac)
    (audits : List RoleAudit) (rs : List Role) (us : List UserRole) (u : User)
    → (t == "") ≡ false
    → trim name ≡ "owner"
    → (db_of s).roles ≡ some rs
    → any (is_named t "owner") rs ≡ false
    → find (λ (r : Role). r.id == id) rs ≡ none
    → (db_of s).user_roles ≡ some us
    → any (holds user id) us ≡ false
    → filter (is_user user (some t)) (rows (db_of s).users) ≡ u ∷ []
    → let (r, s') = create_role id name d (some t) actor s in
      let staff : Staff = record { permissions = s'.permissions; audits = audits } in
      let (added, staff') = add_role user id (some t) actor_id staff in
      (r ≡ ok (fresh_role id t "owner" d))
      × (added ≡ ok (record { user_id = user; role_id = id; role_name = "owner" }))
      × ((has_permission_for_user user key (some t) staff'.permissions).0 ≡ true)
create_role_owner_grants_all id t name user key actor_id d actor s audits rs us u full trimmed er
      fresh_name fresh_id eu free one =
    let roles = rs ++ fresh_role id t "owner" d ∷ [] in
    let role = fresh_role id t "owner" d in
    let (returned, state) =
      create_role_lem id t name "owner" d (some t) actor s rs (rw full refl) trimmed refl er
        fresh_name in
    let staff : Staff = record {
      permissions = (with_roles roles s).permissions;
      audits = audits;
    } in
    let same =
      add_role_lem id t user actor_id staff role us u one (filter-fresh id t user d rs fresh_id)
        refl eu in
    let (added, after) = write_role_lem id t user actor_id staff role us u eu free in
    let grants = owner_granted user key (some t) (some t) _ (
      names_owner id t user d (db_of s) rs us (nat_eq (count id t user actor_id staff role us u) 0)
        fresh_id) in
    (returned, rw (state, same) added, rw (state, same, after) grants)

-- A custom role that has the name of a platform role: `updatePermission` whose checks pass
-- returns the value as set, and, where the per-process role ids agree with the table, the next
-- decision on the role is made without it, from the rows that the platform role's id has and the
-- global grants, since the name leads to the platform role's id.
pub shadowed_role_ignores_overrides :
    (id key t system : String) (tenant : Option String) (actor : JwtPayload) (s : Ac) (role : Role)
    (gs : List TenantGrant) (before : Option TenantGrant) (b : Bool)
    → truthy tenant ≡ some t
    → (get_editable_role_or_throw id t s).0 ≡ ok role
    → (get_override t id key s).0 ≡ ok before
    → s.permissions.db.tenant_role_permissions ≡ some gs
    → (assert_permission_is_customizable key s).0 ≡ ok tt
    → IsFresh s.permissions
    → truthy (role_id role.name (some t) (db_of s)) ≡ some system
    → id ≢ system
    → let (r, s') = update_permission id key b tenant actor s in
      (r ≡ ok b)
      × ((has_permission role.name key (some t) s'.permissions).0
          ≡ decide
              (last_for key (read t system gs))
              (contains key (fetch_global_grants role.name (db_of s))))
shadowed_role_ignores_overrides id key t system tenant actor s role gs before b live editable old eg
      customizable h found ne =
    let (returned, state) =
      update_permission_lem id key t tenant actor s role gs before live editable old eg b
        customizable in
    let (open_name, _) =
      get_editable_role_or_throw_ok id t s role (get_editable_role_or_throw id t s).1
        (λ i. (editable i, (get_editable_role_or_throw id t s).1)) in
    let global = contains key (fetch_global_grants role.name (db_of s)) in
    (
      returned,
      rw state (
          after_decides role.name t (upsert_rows t id key b gs) s system key h
            (not_owner role.name open_name) (truthy_twice tenant t live) found
          ∙ ap (λ l. decide (last_for key l) global) (read-upsert_role_ne t id key system b ne gs)),
    )
