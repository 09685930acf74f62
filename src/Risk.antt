-- ===== src/Risk.antt =====
-- src/crypto_trader/risk: the kill switch, the gate against reversals, and the risk engine.
pub mod KillSwitch
pub mod Reversal
pub mod Engine
