-- ===== src/Perpetual/Contract.antt =====
-- src/crypto_trader/perpetual/domain.py: contracts and positions. Of a position the fields are kept
-- that the package reads; the margin mode is always the default and only copied.
use crypto_auto_trading_syst.Base.{Bool, true, false, ◌||◌, Option, ◌==◌}
use crypto_auto_trading_syst.Decimal.{Decimal, Context, mul, abs, is_zero}
use crypto_auto_trading_syst.Domain.Enums.{PositionSide, long, short, flat}
use crypto_auto_trading_syst.Domain.Models.{Text}

pub record PerpetualContract : Type 0 where
  pub symbol : Text
  pub base : Text
  pub quote : Text
  pub contract_size : Decimal
  pub tick_size : Decimal
  pub quantity_step : Decimal
  pub margin_asset : Text
  pub max_leverage : Decimal
  pub taker_fee_rate : Decimal

pub record MarginPosition : Type 0 where
  pub symbol : Text
  pub side : PositionSide
  pub quantity : Decimal
  pub avg_entry_price : Decimal
  pub leverage : Decimal
  pub initial_margin : Decimal
  pub maintenance_margin : Decimal
  pub mark_price : Decimal
  pub liquidation_price : Option Decimal
  pub unrealized_pnl : Decimal
  pub realized_pnl : Decimal
  pub funding_paid : Decimal
  pub funding_received : Decimal

abbrev pub is_flat_side : PositionSide → Bool
is_flat_side flat = true
is_flat_side _ = false

abbrev pub is_long : PositionSide → Bool
is_long long = true
is_long _ = false

abbrev pub is_short : PositionSide → Bool
is_short short = true
is_short _ = false

abbrev pub is_flat : MarginPosition → Bool
is_flat p = is_flat_side p.side || is_zero p.quantity

unfoldable pub notional : Context → MarginPosition → Decimal
notional c p = mul c (abs c p.quantity) p.avg_entry_price

abbrev pub position_of : Text → MarginPosition → Bool
position_of symbol p = p.symbol == symbol
