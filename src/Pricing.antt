-- ===== src/Pricing.antt =====
-- src/core/pricing: the official price of a line and the override of it.
pub mod EffectiveRole
pub mod Types
pub mod Resolution
pub mod Decision
pub mod RoleOrder
pub mod Reading
mod Tests
