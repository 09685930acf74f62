-- ===== src/Domain/Enums.antt =====
-- src/crypto_trader/domain/enums.py: the enumerations, and the two sets of order statuses.
use crypto_auto_trading_syst.Base.{Bool, true, false}

pub data MarketType : Type 0 where
  spot perpetual : MarketType

pub data PositionSide : Type 0 where
  long short flat : PositionSide

pub data OrderSide : Type 0 where
  buy sell : OrderSide

pub data OrderType : Type 0 where
  market limit : OrderType

pub data TimeInForce : Type 0 where
  gtc ioc fok : TimeInForce

pub data OrderStatus : Type 0 where
  created validated submitting submitted acknowledged open_order partially_filled : OrderStatus
  filled cancel_pending cancelled rejected expired unknown : OrderStatus

abbrev pub is_active : OrderStatus → Bool
is_active created = true
is_active validated = true
is_active submitting = true
is_active submitted = true
is_active acknowledged = true
is_active open_order = true
is_active partially_filled = true
is_active cancel_pending = true
is_active _ = false

abbrev pub is_terminal : OrderStatus → Bool
is_terminal filled = true
is_terminal cancelled = true
is_terminal rejected = true
is_terminal expired = true
is_terminal _ = false

pub data OrderEventType : Type 0 where
  order_created order_validated order_submitting order_submitted : OrderEventType
  order_acknowledged order_opened order_partially_filled order_filled : OrderEventType
  order_cancel_pending order_cancelled order_rejected order_expired : OrderEventType
  order_unknown order_recovered : OrderEventType

pub data LedgerEntryType : Type 0 where
  trade fee deposit withdrawal transfer funding interest : LedgerEntryType
  realized_pnl margin_change futures_margin_post futures_margin_release : LedgerEntryType
  funding_payment funding_receipt futures_realized_pnl : LedgerEntryType
  futures_trading_fee liquidation_fee margin_adjustment : LedgerEntryType

pub data LedgerDirection : Type 0 where
  debit credit : LedgerDirection

pub data TradingMode : Type 0 where
  paper live shadow : TradingMode

pub data ExecutionDecision : Type 0 where
  approve hold reject : ExecutionDecision

pub MarketType-discrete : Discrete MarketType
MarketType-discrete = hlevel

pub OrderStatus-discrete : Discrete OrderStatus
OrderStatus-discrete = hlevel

pub OrderEventType-discrete : Discrete OrderEventType
OrderEventType-discrete = hlevel

abbrev pub side_eq : OrderSide → OrderSide → Bool
side_eq buy buy = true
side_eq sell sell = true
side_eq _ _ = false

abbrev pub order_type_eq : OrderType → OrderType → Bool
order_type_eq market market = true
order_type_eq limit limit = true
order_type_eq _ _ = false

abbrev pub position_side_eq : PositionSide → PositionSide → Bool
position_side_eq long long = true
position_side_eq short short = true
position_side_eq flat flat = true
position_side_eq _ _ = false

abbrev pub is_spot : MarketType → Bool
is_spot spot = true
is_spot perpetual = false

abbrev pub is_buy : OrderSide → Bool
is_buy buy = true
is_buy sell = false

abbrev pub is_debit : LedgerDirection → Bool
is_debit debit = true
is_debit credit = false

abbrev pub is_approve : ExecutionDecision → Bool
is_approve approve = true
is_approve _ = false
