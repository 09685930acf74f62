-- ===== src/Execution.antt =====
-- src/crypto_trader/execution: the last gate before an order leaves the core, the guard against
-- price gaps between exchanges, and the rate limiter.
pub mod RateLimiter
pub mod Authority
pub mod CrossExchange
