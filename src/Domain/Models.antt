-- ===== src/Domain/Models.antt =====
-- src/crypto_trader/domain/models.py: the records that the core passes around. Free-form payloads
-- that nothing reads are left out; of an intent's metadata the core reads only `reduce_only`.
use crypto_auto_trading_syst.Base.{ℕ, Bool, Option}
use crypto_auto_trading_syst.Decimal.{Decimal}
use crypto_auto_trading_syst.Domain.Enums.{
  MarketType, PositionSide, OrderSide, OrderType, TimeInForce, OrderStatus, OrderEventType,
  TradingMode, ExecutionDecision,
}

-- An identifier or another text that is only compared; 0 is the empty text.
abbrev pub Text : Type 0
Text = ℕ

abbrev pub Time : Type 0
Time = ℕ

pub record Instrument : Type 0 where
  pub symbol : Text
  pub base_asset : Text
  pub quote_asset : Text
  pub status : Text
  pub tick_size : Decimal
  pub step_size : Decimal
  pub min_qty : Decimal
  pub min_notional : Decimal

pub record OrderIntent : Type 0 where
  pub client_order_id : Text
  pub symbol : Text
  pub side : OrderSide
  pub order_type : OrderType
  pub time_in_force : TimeInForce
  pub price : Option Decimal
  pub quantity : Decimal
  pub quote_order_qty : Option Decimal
  pub strategy_id : Text
  pub run_id : Option Text
  pub expires_at : Option Time
  pub market_type : MarketType
  pub position_side : PositionSide
  pub reduce_only : Bool
  pub metadata_reduce_only : Bool

pub record OrderEvent : Type 0 where
  pub event_id : Text
  pub order_id : Text
  pub client_order_id : Text
  pub exchange_order_id : Option Text
  pub event_type : OrderEventType
  pub status_after : OrderStatus
  pub timestamp : Time

pub record Order : Type 0 where
  pub internal_order_id : Text
  pub client_order_id : Text
  pub exchange_order_id : Option Text
  pub symbol : Text
  pub side : OrderSide
  pub order_type : OrderType
  pub time_in_force : TimeInForce
  pub price : Option Decimal
  pub quantity : Decimal
  pub filled_quantity : Decimal
  pub avg_fill_price : Option Decimal
  pub status : OrderStatus
  pub trading_mode : TradingMode
  pub strategy_id : Text
  pub run_id : Option Text
  pub created_at : Time
  pub updated_at : Time
  pub expires_at : Option Time
  pub rejection_reason : Option Text
  pub last_event_id : Option Text
  pub market_type : MarketType
  pub position_side : PositionSide
  pub reduce_only : Bool

pub record Fill : Type 0 where
  pub fill_id : Text
  pub trade_id : Option Text
  pub order_id : Text
  pub client_order_id : Option Text
  pub exchange_order_id : Option Text
  pub symbol : Text
  pub side : OrderSide
  pub price : Decimal
  pub quantity : Decimal
  pub fee : Decimal
  pub fee_currency : Option Text
  pub timestamp : Time

pub record Position : Type 0 where
  pub symbol : Text
  pub quantity : Decimal
  pub avg_entry_price : Option Decimal
  pub cost_basis : Decimal
  pub realized_pnl : Decimal

pub record RiskDecision : Type 0 where
  pub order_id : Option Text
  pub client_order_id : Text
  pub symbol : Text
  pub side : OrderSide
  pub decision : ExecutionDecision
  pub timestamp : Time
  pub run_id : Option Text

pub record SignalIntent : Type 0 where
  pub signal_id : Text
  pub strategy_id : Text
  pub symbol : Text
  pub side : OrderSide
  pub quantity : Decimal
  pub limit_price : Option Decimal
  pub order_type : OrderType
  pub time_in_force : TimeInForce
  pub expires_at : Option Time
  pub run_id : Option Text
  pub market_type : MarketType
  pub position_side : PositionSide
  pub reduce_only : Bool
  pub metadata_reduce_only : Bool
