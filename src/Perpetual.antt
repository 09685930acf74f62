-- ===== src/Perpetual.antt =====
-- src/crypto_trader/perpetual: margin, funding and liquidation of perpetual contracts, the futures
-- ledger, the projection that is rebuilt from it, and the paper engine.
pub mod Contract
pub mod Calculators
pub mod FuturesLedger
pub mod Projection
pub mod Engine
