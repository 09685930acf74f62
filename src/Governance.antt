-- ===== src/Governance.antt =====
-- The advice on sizes and leverage that stands before the risk engine, and the guards that may block
-- new risk.
pub mod Leverage
pub mod Allocation
pub mod Drawdown
pub mod Guards
use crypto_auto_trading_syst.Base.{ℕ, ◌*◌, ◌/◌}
use crypto_auto_trading_syst.Int.{pos}
use crypto_auto_trading_syst.Decimal.{Decimal, Context}

-- The literal n / d.
abbrev pub literal : Context → ℕ → ℕ → Decimal
literal c n d = pos (n * c.unit / d)
