-- ===== src/Purchasing.antt =====
-- Purchase orders and their approval: src/modules/purchasing and src/engines/approval-engine.
pub mod Approval
pub mod Orders
pub mod Diagram
pub mod Requests
pub mod Path
pub mod Agreements
pub mod Releases
pub mod ReleaseCreation
pub mod ReleaseSteps
pub mod ReleasedQuantities
pub mod ReleaseCounts
pub mod ReleaseLedger
mod Tests
mod ReleaseTests
