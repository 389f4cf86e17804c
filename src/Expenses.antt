-- ===== src/Expenses.antt =====
-- The expenses of a branch: src/modules/expenses/expenses.service.ts and src/engines/expense-engine.
pub mod Service
pub mod Stats
pub mod Writes
pub mod Life
pub mod Recurring
pub mod NextRuns
pub mod RecurringPasses
pub mod Stale
pub mod Approvals
pub mod Drawer
mod Tests
