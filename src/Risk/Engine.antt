-- ===== src/Risk/Engine.antt =====
-- src/crypto_trader/risk/engine.py: `RiskEngine.check`. Of a decision the verdict and its reason are
-- kept; the report of passed checks is left out.
pub mod Limits
use crypto_auto_trading_syst.Base.{
  ℕ, Bool, true, false, not, ◌&&◌, ◌||◌, Option, none, some, List, [], ◌∷◌, find, Result, ok, err,
  attribute_error, leb, ◌==◌, if◌then◌else◌,
}
use crypto_auto_trading_syst.Int.{pos, ltb_ℤ, leb_ℤ}
use crypto_auto_trading_syst.Decimal.{
  Decimal, Context, add, mul, div, neg, abs, is_positive, is_zero,
}
use crypto_auto_trading_syst.Domain.Enums.{
  MarketType, OrderSide, is_buy, ExecutionDecision, approve, reject,
}
use crypto_auto_trading_syst.Domain.Models.{Text, OrderIntent, SignalIntent, Position}
use crypto_auto_trading_syst.Order.Manager.{or_zero}
use crypto_auto_trading_syst.Risk.KillSwitch.{KillSwitch}
use crypto_auto_trading_syst.Risk.Reversal.{
  Reason, check_no_reversal, global_kill_switch, invalid_quantity, invalid_price,
  max_order_notional, max_open_orders, max_consecutive_failures, max_daily_loss, max_drawdown,
  max_symbol_exposure, max_account_exposure, max_exchange_exposure, max_position_notional,
  max_leverage, risk_pass,
}

pub record RiskConfig : Type 0 where
  pub max_order_notional : Decimal
  pub max_position_notional : Decimal
  pub max_account_exposure : Decimal
  pub max_open_orders : ℕ
  pub max_daily_loss : Decimal
  pub max_drawdown : Decimal
  pub max_leverage : Decimal
  pub max_symbol_exposure : Decimal
  pub max_exchange_exposure : Decimal
  pub max_consecutive_failures : ℕ

pub record RiskEngine : Type 0 where
  pub config : RiskConfig
  pub kill_switch : KillSwitch

-- The arguments of `check` beside the intent.
pub record CheckArgs : Type 0 where
  pub equity : Decimal
  pub positions : List Position
  pub market_price : Decimal
  pub open_order_count : ℕ
  pub daily_pnl : Decimal
  pub drawdown : Decimal
  pub consecutive_failures : ℕ
  pub current_signed_qty : Option Decimal

-- `check` is annotated to take either intent.
pub data Intent : Type 0 where
  signal : SignalIntent → Intent
  order : OrderIntent → Intent

-- Verdict and reason.
abbrev pub Verdict : Type 0
Verdict = ExecutionDecision × Reason

abbrev pub fail : Reason → Verdict
fail reason = (reject, reason)

abbrev pub for_symbol : Text → Position → Bool
for_symbol symbol p = p.symbol == symbol

abbrev pub quantity_of : Option Position → Decimal
quantity_of none = pos 0
quantity_of (some p) = p.quantity

abbrev pub cost_of : Option Position → Decimal
cost_of none = pos 0
cost_of (some p) = p.cost_basis

-- `a or b` on decimals: zero counts as absent.
abbrev pub price_or : Option Decimal → Decimal → Decimal
price_or none market = market
price_or (some x) market = if is_zero x then market else x

abbrev pub or_given : Option Decimal → Decimal → Decimal
or_given none d = d
or_given (some x) d = x

module _ (c : Context) where
  unfoldable pub sum_costs : Decimal → List Position → Decimal
  sum_costs acc [] = acc
  sum_costs acc (p ∷ ps) = sum_costs (add c acc p.cost_basis) ps

  -- `-abs(limit)`
  abbrev pub floor_of : Decimal → Decimal
  floor_of limit = neg c (abs c limit)

  module _ (config : RiskConfig) (args : CheckArgs) where
    abbrev pub signed_quantity : Text → Decimal
    signed_quantity symbol =
        or_given args.current_signed_qty (quantity_of (find (for_symbol symbol) args.positions))

    -- The order widens the position of its symbol.
    unfoldable pub increasing : Text → OrderSide → Decimal → Bool
    increasing symbol side qty =
        let signed = signed_quantity symbol in
        let delta = if is_buy side then qty else neg c qty in
        ltb_ℤ (abs c signed) (abs c (add c signed delta))

    -- The limits on exposure, which bind orders that widen a position.
    unfoldable pub exposure_check : Text → Decimal → Verdict
    exposure_check symbol notional =
        let existing = sum_costs (pos 0) args.positions in
        let symbol_notional =
          add c (abs c (cost_of (find (for_symbol symbol) args.positions))) notional in
        let projected_exposure = add c existing notional in
        if ltb_ℤ config.max_symbol_exposure symbol_notional
        then fail max_symbol_exposure
        else if ltb_ℤ config.max_account_exposure projected_exposure
        then fail max_account_exposure
        else if ltb_ℤ config.max_exchange_exposure existing
        then fail max_exchange_exposure
        else if ltb_ℤ config.max_position_notional projected_exposure
        then fail max_position_notional
        else if is_positive args.equity
            && ltb_ℤ config.max_leverage (div c projected_exposure args.equity)
        then fail max_leverage
        else (approve, risk_pass)

    -- The limits that bind every order, then those on exposure.
    unfoldable pub limits_check : Text → OrderSide → Decimal → Decimal → Verdict
    limits_check symbol side qty notional =
        if ltb_ℤ config.max_order_notional notional
        then fail max_order_notional
        else if leb config.max_open_orders args.open_order_count
        then fail max_open_orders
        else if leb config.max_consecutive_failures args.consecutive_failures
        then fail max_consecutive_failures
        else if ltb_ℤ args.daily_pnl (floor_of config.max_daily_loss)
        then fail max_daily_loss
        else if ltb_ℤ args.drawdown (floor_of config.max_drawdown)
        then fail max_drawdown
        else if increasing symbol side qty
        then exposure_check symbol notional
        else (approve, risk_pass)

    abbrev pub after_gate : Bool × Reason → Verdict → Verdict
    after_gate (true, reason) rest = rest
    after_gate (false, reason) rest = fail reason

    unfoldable pub signal_check : SignalIntent → Verdict
    signal_check s =
        let price = price_or s.limit_price args.market_price in
        if leb_ℤ s.quantity (pos 0)
        then fail invalid_quantity
        else if leb_ℤ price (pos 0)
        then fail invalid_price
        else after_gate
            (check_no_reversal c s.market_type s.side s.quantity
              (s.reduce_only || s.metadata_reduce_only) (signed_quantity s.symbol))
            (limits_check s.symbol s.side s.quantity (mul c price s.quantity))

  -- An order intent has no field `limit_price`, so reading it raises.
  unfoldable pub check : RiskEngine → Intent → CheckArgs → Result Verdict
  check e (signal s) args =
      if e.kill_switch.enabled
      then ok (fail global_kill_switch)
      else ok (signal_check e.config args s)
  check e (order o) args =
      if e.kill_switch.enabled then ok (fail global_kill_switch) else err attribute_error
