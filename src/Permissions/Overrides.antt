-- ===== src/Permissions/Overrides.antt =====
-- The writes of `PermissionsService`: overrides of one user's permissions, and invalidation.
use apiv.Prelude.{
  String, Bool, true, false, ◌&&◌, Option, none, some, List, [], ◌∷◌, ◌++◌, ◌==◌, if◌then◌else◌,
  any, update, ok, err, database, Run,
}
use apiv.Store.{Override, OverrideAction}
use apiv.Permissions.Cache.{State, cache_key, user_cache_key, cache_del}

unfoldable pub invalidate_role : String → Option String → State → State
invalidate_role role tenant s = cache_del (cache_key role tenant) s

unfoldable pub invalidate_user_permissions : String → Option String → State → State
invalidate_user_permissions user tenant s = cache_del (user_cache_key user tenant) s

-- The filters `.eq('user_id', …).eq('is_active', true)`, without and with `.eq('permission_key', …)`.
abbrev pub is_active_of : String → Override → Bool
is_active_of user o = (o.user_id == user) && o.is_active

abbrev pub is_active_for : String → String → Override → Bool
is_active_for user key o = (o.user_id == user) && ((o.permission_key == key) && o.is_active)

abbrev pub with_action : OverrideAction → Override → Override
with_action action o = record o { action = action }

abbrev pub disabled : Override → Override
disabled o = record o { is_active = false }

abbrev pub with_overrides : List Override → State → State
with_overrides os s = record s { db = record s.db { overrides = some os } }

-- The update of the active row, and the insert where no row was updated.
unfoldable pub upsert : String → String → OverrideAction → List Override → List Override
upsert user key action os =
    if any (is_active_for user key) os
    then update (is_active_for user key) (with_action action) os
    else os
      ++ record { user_id = user; permission_key = key; action = action; is_active = true } ∷ []

unfoldable pub set_override :
    String → String → OverrideAction → Option String → Run State (Unit {0})
set_override user key action tenant s = elim s.db.overrides [
  | none ↦ (err database, s)
  | some os ↦ (
    ok tt,
    invalidate_user_permissions user tenant (with_overrides (upsert user key action os) s),
  )
]

unfoldable pub remove_override : String → String → Option String → Run State (Unit {0})
remove_override user key tenant s = elim s.db.overrides [
  | none ↦ (err database, s)
  | some os ↦ (
    ok tt,
    invalidate_user_permissions user tenant
        (with_overrides (update (is_active_for user key) disabled os) s),
  )
]

unfoldable pub reset_all_overrides : String → Option String → Run State (Unit {0})
reset_all_overrides user tenant s = elim s.db.overrides [
  | none ↦ (err database, s)
  | some os ↦ (
    ok tt,
    invalidate_user_permissions user tenant
        (with_overrides (update (is_active_of user) disabled os) s),
  )
]
