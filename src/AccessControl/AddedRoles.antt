-- ===== src/AccessControl/AddedRoles.antt =====
-- `addRole` that no guard refuses: what it writes.
use apiv.Prelude.{
  ℕ, String, false, some, List, [], ◌∷◌, ◌++◌, ◌==◌, length, nat_eq, filter, any, ok, ◌≡◌, refl,
  arith, eq_refl,
}
use apiv.Store.{Role, UserRole, User}
use apiv.Permissions.Queries.{rows}
use apiv.Permissions.Overrides.{invalidate_user_permissions}
use apiv.AccessControl.Assignment.{
  Staff, is_user, find_one, find_accessible_role, count_user_roles, holds, with_user_roles,
  insert_user_role, write_role, add_role,
}

module _ (id t user actor : String) (s : Staff) (role : Role) (us : List UserRole) (u : User) where
  abbrev pub count : ℕ
  count = length (filter (λ (x : UserRole). x.user_id == user) us)

  abbrev new_row : UserRole
  new_row = record { user_id = user; role_id = id; is_primary = nat_eq count 0 }

  find_one_lem :
      filter (is_user user (some t)) (rows s.permissions.db.users) ≡ u ∷ []
      → find_one user (some t) s ≡ (ok u, s)
  unfolding find_one
  find_one_lem one = rw (find_one, one) refl

  find_accessible_role_lem :
      filter (λ (r : Role). r.id == id) (rows s.permissions.db.roles) ≡ role ∷ []
      → role.tenant_id ≡ some t
      → find_accessible_role id (some t) s ≡ (ok (some role), s)
  unfolding find_accessible_role
  find_accessible_role_lem found own = rw (find_accessible_role, found, own, eq_refl t) refl

  count_user_roles_lem :
      s.permissions.db.user_roles ≡ some us → count_user_roles user s ≡ (ok count, s)
  unfolding count_user_roles
  count_user_roles_lem eu = ground arith

  pub write_role_lem :
      s.permissions.db.user_roles ≡ some us
      → any (holds user id) us ≡ false
      → let (r, s') = write_role user id role.name count (some t) actor s in
        (r ≡ ok (record { user_id = user; role_id = id; role_name = role.name }))
        × (s'.permissions
            ≡ invalidate_user_permissions user
                (some t)
                (with_user_roles (us ++ new_row ∷ []) s).permissions)
  unfolding write_role insert_user_role
  write_role_lem eu free = (ground arith, ground arith)

  -- `addRole` of a role that the tenant may give and that the user does not hold stores the row.
  pub add_role_lem :
      filter (is_user user (some t)) (rows s.permissions.db.users) ≡ u ∷ []
      → filter (λ (r : Role). r.id == id) (rows s.permissions.db.roles) ≡ role ∷ []
      → role.tenant_id ≡ some t
      → s.permissions.db.user_roles ≡ some us
      → add_role user id (some t) actor s ≡ write_role user id role.name count (some t) actor s
  unfolding add_role
  add_role_lem one found own eu =
      ground (arith, find_one_lem one, find_accessible_role_lem found own, count_user_roles_lem eu)
