-- ===== src/Store.antt =====
-- The tables that permissions, access control and pricing read: src/database/migrations, as the
-- Supabase client shows them. A table that is `none` answers every query with an error.
use apiv.Prelude.{ℕ, String, Bool, Option, List}

pub record Role : Type 0 where
  pub id : String
  pub name : String
  pub description : Option String
  pub tenant_id : Option String
  pub is_system : Bool
  pub priority : ℕ
  pub is_hierarchy_participant : Bool

pub record Permission : Type 0 where
  pub name : String
  pub resource : String

-- role_permissions
pub record RoleGrant : Type 0 where
  pub role : String
  pub permission_key : String
  pub is_granted : Bool

-- tenant_role_permissions
pub record TenantGrant : Type 0 where
  pub tenant_id : String
  pub role_id : String
  pub permission_key : String
  pub is_granted : Bool

pub record UserRole : Type 0 where
  pub user_id : String
  pub role_id : String
  pub is_primary : Bool

pub data OverrideAction : Type 0 where
  grant deny : OverrideAction

-- user_permissions_override
pub record Override : Type 0 where
  pub user_id : String
  pub permission_key : String
  pub action : OverrideAction
  pub is_active : Bool

pub record User : Type 0 where
  pub id : String
  pub tenant_id : Option String
  pub is_deleted : Bool

pub record Database : Type 0 where
  pub roles : Option (List Role)
  pub permissions : Option (List Permission)
  pub role_permissions : Option (List RoleGrant)
  pub tenant_role_permissions : Option (List TenantGrant)
  pub user_roles : Option (List UserRole)
  pub overrides : Option (List Override)
  pub users : Option (List User)
