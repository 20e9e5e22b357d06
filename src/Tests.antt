-- ===== src/Tests.antt =====
-- Concrete inputs: runs of the definitions, and each general theorem applied to one.
pub mod Fixtures
pub mod Runs
pub mod Bounds
pub mod Gates
pub mod Prices
pub mod Parsing
pub mod Events
