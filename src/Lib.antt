-- ===== src/Lib.antt =====
-- A model of the authorization, pricing, till, purchasing and billing core of the API, with its laws.
--
-- The parts and how they interact. A request reaches `PermissionGuard` (src/core/permissions),
-- which asks `PermissionsService` whether a role or a user has a permission key. That service reads
-- the tables of roles, grants and overrides, and keeps the answers in a cache.
-- `AccessControlService` (src/modules/access-control) changes roles and the tenant's grants, drops
-- the cached answers that it touches and asks for audit entries; `addRole` of `UsersService`
-- (src/modules/users) gives a user a further role and drops the user's. `PriceResolutionService`
-- (src/core/pricing) decides whether a line may be sold at another price than the official one,
-- with a permission and a role from the parts above. `BillingService` and `DunningService`
-- (src/core/billing) keep a tenant's subscription and the invoices for its periods, which a payment
-- provider charges and whose events `StripeWebhookController` hears. At the till `ShiftsService`
-- opens and closes a cashier's session, and `InvoicesService` sells within one: it asks for the
-- open session, resolves the price of each line, takes off discounts, points and a coupon, checks
-- the payment, redeems the points, and writes the order with its items. When a session is closed
-- its orders and its approved expenses (`ExpensesService`) are counted against the cash.
-- `PurchaseOrdersService` moves purchase orders and `ReleasesService` the releases from an
-- agreement through their approval, and `ItemBarcodesService` generates barcodes.
--
-- Files.
--   Prelude        texts, sets as lists, tests, results that thread a state, signed integers
--   Store          the tables, as the database client shows them
--   Permissions    src/core/permissions/permissions.service.ts: Cache (the keys and
--                  src/core/cache/redis-cache.service.ts), Queries, Resolve (`hasPermission`,
--                  `hasPermissionForUser`, `getResolutionDetail`), Overrides (the writes);
--                  Guard is permission-resolution.util.ts and permission.guard.ts. Spec says what a
--                  decision should be as a function of the tables; Laws, Users, Roles,
--                  OverrideRows, Writes and GuardLaws compare the code with it.
--   AccessControl  src/modules/access-control: State (tables, caches, audit entries), Repository,
--                  Checks, Service, and Assignment (`addRole` of src/modules/users); Reads, Grants,
--                  Laws, AddedRoles, Assigned, Deletion, Reset and Names hold the proofs.
--   Pricing        src/core/pricing: EffectiveRole (effective-role.resolver.ts), Types and Resolution
--                  (price-resolution.service.ts); Decision, Reading and RoleOrder hold the proofs.
--   Calendar       the dates of JavaScript in UTC; Months holds the proofs
--   Till           the tables of shifts, orders, expenses and audit entries
--   Shifts         Engine (src/engines/shift-engine), Repository and Service (src/modules/shifts);
--                  Counts, Sessions and Closing hold the proofs.
--   Sales          Money; Engines (src/engines: discount-engine, pos-engine, payment-engine); Tables;
--                  Coupons (src/modules/coupons); Loyalty (src/core/loyalty); and of
--                  src/modules/invoices: Pricing, Checkout, Create and Warnings (`create`), Orders (the
--                  repository's writes), Cancel (`cancel` and held orders). Totals, Guards, InSession,
--                  Lines, Payments, Writes, Sold, Repeats, Refusals, Sessions and Cancelled hold
--                  the proofs.
--   Purchasing     Approval (src/engines/approval-engine), Orders
--                  (src/modules/purchasing/purchase-orders.service.ts and its repository); Agreements
--                  (tables), Releases, ReleaseCreation and ReleaseSteps (releases.service.ts and its
--                  repository); Diagram, Requests, Path, ReleasedQuantities, ReleaseCounts and
--                  ReleaseLedger hold the proofs.
--   Expenses       Service, Stats and Recurring (src/modules/expenses/expenses.service.ts,
--                  isExpired of src/engines/expense-engine); Writes, Life, Stale, Approvals, Drawer,
--                  NextRuns and RecurringPasses hold the proofs.
--   Barcodes       src/modules/items: Ean13 (utils/ean13.util.ts), Csv (utils/csv.util.ts), Service
--                  (item-barcodes.service.ts); Checksum, Detection, CsvRoundTrip and Generation hold
--                  the proofs.
--   Billing        src/core/billing: Tables (billing.types.ts, dunning.constants.ts), Dunning
--                  (dunning/dunning.service.ts), Subscriptions and Activation (billing.service.ts),
--                  Invoices (billing-invoice.service.ts and repositories), Providers, Webhook
--                  (stripe-webhook.controller.ts); Schedule, Retries, Grace, Suspension, Limits,
--                  Expiry, Extension, Trial, Untouched, PaidPeriods, Payments and EventOrder hold the
--                  proofs.
--   Tests of each  the components on small data.
--
-- State and operations. A service is a function of the tables and the caches that returns a result and
-- the new state; what was written before an error stays written. A table that cannot be read answers
-- each query with an error. Names are the source's, in snake case.
--
-- Bounds. Every loop runs over the rows of a query or the lines of a request, so that the functions
-- are structural and use no fuel; the generation of a barcode has the source's five attempts.
-- Prices are whole numbers of the smallest currency step (cents) and percentages hundredths of a
-- percent; a tax rate is in ten-thousandths, and quantities and points are whole. Rounding to cents
-- is the decimal one: the error of the code's floats is not modelled. The hash of a barcode's
-- prefix wraps around at 2 ^ 32. Role priorities are natural numbers; times are milliseconds, days
-- have 24 hours, and the server's time zone is UTC.
--
-- Outside the model. Calls that the code awaits together are taken one after the other. Requests
-- are interleaved only in the writes of sales (Sales/Repeats). The payment provider or Stripe's
-- client behind it, the verification of its events, the ids of new rows, the insert of items, the
-- posting of a sale and its reversal, the stock, holds, serials and settings are parameters of the
-- functions that ask for them. In the till, purchasing, expenses and barcodes the database answers
-- every query. A cache entry that expired is an entry that is gone. The delivery of audit entries
-- and notifications, metrics, the failure of a single query in the middle of a billing pass, of an
-- activation or of an event, the text of invoice items, the lists of orders, the lines of purchase
-- orders and the other modules are left out. Messages that print a number, an id or the text of a
-- database error are shortened.
pub mod Prelude
pub mod Store
pub mod Calendar
pub mod Permissions
pub mod AccessControl
pub mod Pricing
pub mod Till
pub mod Shifts
pub mod Sales
pub mod Purchasing
pub mod Expenses
pub mod Barcodes
pub mod Billing
