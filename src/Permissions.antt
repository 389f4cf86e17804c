-- ===== src/Permissions.antt =====
-- src/core/permissions/permissions.service.ts: the caches, the queries and the decisions.
pub mod Cache
pub mod Queries
pub mod Resolve
pub mod Overrides
pub mod Spec
pub mod Laws
pub mod Users
pub mod OverrideRows
pub mod Writes
pub mod Roles
pub mod Guard
pub mod GuardLaws
pub mod Reading
mod Tests
