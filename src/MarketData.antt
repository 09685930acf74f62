-- ===== src/MarketData.antt =====
-- The market data that a feed delivers: the order book and the service that keeps it in sequence.
pub mod Book
pub mod Service
pub mod NewRiskGate
