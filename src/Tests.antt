-- ===== src/Tests.antt =====
-- Runs of the definitions on concrete inputs, and the theorems applied to concrete inputs.
pub mod Orders
pub mod Journals
pub mod Guards
pub mod Perpetuals
pub mod Leases
pub mod Settlements
pub mod Starts
pub mod Feeds
pub mod Exchanges
pub mod Signals
pub mod Markets
pub mod Supervisors
