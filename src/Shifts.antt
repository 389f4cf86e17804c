-- ===== src/Shifts.antt =====
-- Cash register sessions: src/modules/shifts and src/engines/shift-engine.
pub mod Engine
pub mod Repository
pub mod Service
pub mod Sessions
pub mod Counts
pub mod Closing
mod Tests
