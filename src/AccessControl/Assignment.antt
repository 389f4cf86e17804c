-- ===== src/AccessControl/Assignment.antt =====
-- The assignment of a further role to a user: `addRole` of src/modules/users/users.service.ts, with its
-- queries (users.repository.ts) and the scope of them (src/core/tenant/scoped.repository.ts).
use apiv.Prelude.{
  String, Bool, true, false, not, ◌&&◌, ◌==◌, Option, none, some, List, [], ◌∷◌, ◌++◌, length,
  nat_eq, ℕ, filter, any, maybe_single, truthy, join, if◌then◌else◌, Run, Result, Error, ok, err,
  other, database, not_found, conflict, ◌>>=◌, ◌>>◌, pure, throw,
}
use apiv.Store.{Role, UserRole, User}
use apiv.Permissions.Cache.{State}
use apiv.Permissions.Queries.{rows}
use apiv.Permissions.Overrides.{invalidate_user_permissions}

-- The result of `addRole`, and what it hands to the audit log as `after_data`.
pub record AddedRole : Type 0 where
  pub user_id : String
  pub role_id : String
  pub role_name : String

-- An entry of the log with the action 'user.role_added'.
pub record RoleAudit : Type 0 where
  pub tenant_id : Option String
  pub actor_id : String
  pub added : AddedRole

-- What the service works on; `audits` has the last entry first.
pub record Staff : Type 0 where
  pub permissions : State
  pub audits : List RoleAudit

-- `.eq('tenant_id', tenantId)`, left out when there is no tenant.
abbrev pub in_scope : Option String → Option String → Bool
in_scope tenant owner = elim (truthy tenant) [
  | none ↦ true
  | some t ↦ elim owner [ none ↦ false | some o ↦ o == t ]
]

abbrev pub is_user : String → Option String → User → Bool
is_user id tenant u = (u.id == id) && (not u.is_deleted && in_scope tenant u.tenant_id)

-- A query that fails finds no user.
unfoldable pub find_one : String → Option String → Run Staff User
find_one id tenant s =
    elim (maybe_single (filter (is_user id tenant) (rows s.permissions.db.users))) [
      | none ↦ (err (not_found "User not found"), s)
      | some u ↦ (ok u, s)
    ]

-- `data.tenant_id !== null && data.tenant_id !== tenantId`
abbrev pub is_other_tenants : Option String → Role → Bool
is_other_tenants tenant r = elim r.tenant_id [
  | none ↦ false
  | some owner ↦ elim tenant [ none ↦ true | some t ↦ not (owner == t) ]
]

unfoldable pub find_accessible_role : String → Option String → Run Staff (Option Role)
find_accessible_role role_id tenant s =
    elim (maybe_single (filter (λ (r : Role). r.id == role_id) (rows s.permissions.db.roles))) [
      | none ↦ (ok none, s)
      | some r ↦ (ok (if is_other_tenants tenant r then none else some r), s)
    ]

unfoldable pub count_user_roles : String → Run Staff ℕ
count_user_roles user s = elim s.permissions.db.user_roles [
  | none ↦ (err database, s)
  | some us ↦ (ok (length (filter (λ (u : UserRole). u.user_id == user) us)), s)
]

abbrev pub unique_violation : Error
unique_violation = other "23505"

-- The row of the primary key (user_id, role_id) of migration 086.
abbrev pub holds : String → String → UserRole → Bool
holds user role u = if u.user_id == user then u.role_id == role else false

abbrev pub with_user_roles : List UserRole → Staff → Staff
with_user_roles us s = record s {
  permissions = record s.permissions { db = record s.permissions.db { user_roles = some us } };
}

unfoldable pub insert_user_role : String → String → Bool → Run Staff (Unit {0})
insert_user_role user role primary s = elim s.permissions.db.user_roles [
  | none ↦ (err database, s)
  | some us ↦ if any (holds user role) us then (err unique_violation, s) else (
    ok tt,
    with_user_roles (us ++ record { user_id = user; role_id = role; is_primary = primary } ∷ []) s,
  )
]

-- The `catch` of `addRole`: a second row of the role is a conflict, any other error goes on.
abbrev pub already_held : String → Error → Error
already_held name (other m) =
    if m == "23505"
    then conflict (join ("User already has the \"" ∷ name ∷ "\" role" ∷ []))
    else other m
already_held name e = e

abbrev pub on_error : {A : Type 0} → (Error → Error) → Result A → Result A
on_error f (ok a) = ok a
on_error f (err e) = err (f e)

abbrev pub caught : {A : Type 0} → (Error → Error) → Run Staff A → Run Staff A
caught f m s = let (r, s') = m s in (on_error f r, s')

abbrev pub drop_cached : String → Option String → Run Staff (Unit {0})
drop_cached user tenant s =
    (ok tt, record s { permissions = invalidate_user_permissions user tenant s.permissions })

abbrev pub log_added : Option String → String → AddedRole → Run Staff (Unit {0})
log_added tenant actor added s = (
  ok tt,
  record s { audits = record { tenant_id = tenant; actor_id = actor; added = added } ∷ s.audits },
)

-- After the guards: the row, the user's cache and the log.
unfoldable pub write_role :
    String → String → String → ℕ → Option String → String → Run Staff AddedRole
unfolding insert_user_role
write_role user role_id name count tenant actor = do
  let added : AddedRole = record { user_id = user; role_id = role_id; role_name = name }
  caught (already_held name) (insert_user_role user role_id (nat_eq count 0))
  drop_cached user tenant
  log_added tenant actor added
  pure added

unfoldable pub add_role : String → String → Option String → String → Run Staff AddedRole
unfolding find_one find_accessible_role count_user_roles write_role
add_role user role_id tenant actor = do
  found ← find_one user tenant
  role ← find_accessible_role role_id tenant
  elim role [
    | none ↦ throw (not_found "Role not found")
    | some r ↦ do count ← count_user_roles user; write_role user role_id r.name count tenant actor
  ]
