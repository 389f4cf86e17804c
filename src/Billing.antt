-- ===== src/Billing.antt =====
-- src/core/billing: subscriptions, their limits, their invoices and the retries of failed payments.
pub mod Tables
pub mod Dunning
pub mod Schedule
pub mod Retries
pub mod Grace
pub mod Subscriptions
pub mod Suspension
pub mod Limits
pub mod Expiry
pub mod Extension
pub mod Trial
mod Tests
mod InvoiceTests
pub mod Invoices
pub mod Activation
pub mod Untouched
pub mod PaidPeriods
pub mod Payments
pub mod Providers
pub mod Webhook
pub mod EventOrder
