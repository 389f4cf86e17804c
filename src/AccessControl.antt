-- ===== src/AccessControl.antt =====
-- src/modules/access-control: roles of a tenant and the permissions that it gives them.
pub mod State
pub mod Repository
pub mod Checks
pub mod Service
pub mod Reads
pub mod Grants
pub mod Laws
pub mod Assignment
pub mod AddedRoles
pub mod Assigned
pub mod Names
pub mod Deletion
pub mod Reset
mod Tests
