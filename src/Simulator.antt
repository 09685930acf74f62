-- ===== src/Simulator.antt =====
-- The simulated exchange, through which the paper modes and the tests trade.
pub mod Matching
pub mod Exchange
pub mod SymbolMapper
pub mod RealMarketPaper
