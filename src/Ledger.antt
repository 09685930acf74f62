-- ===== src/Ledger.antt =====
-- src/crypto_trader/ledger: the double-entry journal, and the projections replayed from it.
pub mod Journal
pub mod Service
pub mod Projections
