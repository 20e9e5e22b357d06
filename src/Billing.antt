-- ===== src/Billing.antt =====
-- src/billing/mod.rs: money, price catalogs, the chain of cost sources and the run's cost ledger.
-- `rust_decimal::Decimal` is third-party code: it is a type with the operations of `Decimals`.
-- A message is a value with one constructor for each `format!` and its arguments.
pub mod Money
pub mod Metric
pub mod Attempt
pub mod Chain
pub mod Reported
pub mod Catalog
pub mod Pricing
pub mod Tracker
