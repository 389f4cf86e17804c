-- ===== src/AccessControl/State.antt =====
-- The state that the access-control service works on, and the rows of the audit log that it asks for.
use apiv.Prelude.{String, Option, List, none, some, [], ◌∷◌, Run, ok, err, database}
use apiv.Store.{Database, Role, TenantGrant}
use apiv.Permissions.Cache.{State}

pub data PermissionState : Type 0 where
  granted denied inherited_default : PermissionState

-- `before_data` and `after_data` of an audit entry.
pub data AuditData : Type 0 where
  role_data : (name : String) (description : Option String) → AuditData
  state_data : (permission_key : String) (state : PermissionState) → AuditData

pub record AuditEntry : Type 0 where
  pub tenant_id : Option String
  pub actor_id : String
  pub actor_role : String
  pub action : String
  pub resource_type : String
  pub resource_id : String
  pub before_data : Option AuditData
  pub after_data : Option AuditData

-- `audits` holds the entries handed to `AuditService.log`, the last first. Whether the log keeps one
-- has no effect here: the call's failure is swallowed.
pub record Ac : Type 0 where
  pub permissions : State
  pub audits : List AuditEntry

abbrev pub db_of : Ac → Database
db_of s = s.permissions.db

abbrev pub with_state : State → Ac → Ac
with_state p s = record s { permissions = p }

abbrev pub with_roles : List Role → Ac → Ac
with_roles rs s = record s {
  permissions = record s.permissions { db = record s.permissions.db { roles = some rs } };
}

abbrev pub with_grants : List TenantGrant → Ac → Ac
with_grants gs s = record s {
  permissions = record s.permissions {
    db = record s.permissions.db { tenant_role_permissions = some gs };
  };
}

abbrev pub log : AuditEntry → Run Ac (Unit {0})
log e s = (ok tt, record s { audits = e ∷ s.audits })

-- `if (error) throw error` after a query: its rows.
abbrev pub table : {A : Type 0} → (Database → Option (List A)) → Run Ac (List A)
table f s = elim (f (db_of s)) [ none ↦ (err database, s) | some rows ↦ (ok rows, s) ]

-- `maybeSingle` with `if (error) throw error`: two rows are an error.
abbrev pub at_most_one : {A : Type 0} → List A → Run Ac (Option A)
at_most_one [] s = (ok none, s)
at_most_one (x ∷ []) s = (ok (some x), s)
at_most_one (x ∷ y ∷ xs) s = (err database, s)
