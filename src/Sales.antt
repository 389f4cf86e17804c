-- ===== src/Sales.antt =====
-- Sales at the till: src/engines, src/modules/invoices, src/modules/coupons and src/core/loyalty.
pub mod Money
pub mod Engines
pub mod Tables
pub mod Coupons
pub mod Loyalty
pub mod Pricing
pub mod Orders
pub mod Checkout
pub mod Warnings
pub mod Create
pub mod Totals
pub mod Guards
pub mod Payments
pub mod Writes
pub mod InSession
pub mod Lines
pub mod Sold
pub mod Repeats
pub mod Refusals
pub mod Sessions
pub mod Cancel
pub mod Cancelled
mod Tests
