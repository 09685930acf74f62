-- ===== src/Runtime/Signal.antt =====
-- src/crypto_trader/runtime/engine.py: what `process_signal` reads and makes of a signal: the reference
-- price, the arguments of the risk engine, the intent, and the context of the execution authority. The
-- answers of the portfolio, of the feeds (after their refresh), of the leases and of the exchange's
-- table of instruments are read at their time and given as `Observed`.
pub mod Process
use crypto_auto_trading_syst.Base.{
  ℕ, Bool, true, false, not, ◌&&◌, ◌||◌, ◌/◌, ◌^◌, Option, none, some, List, [], ◌∷◌, ◌++◌, find,
  Result, Error, Done, ok, err, ◌==◌, if◌then◌else◌,
}
use crypto_auto_trading_syst.Int.{pos, leb_ℤ}
use crypto_auto_trading_syst.Decimal.{Decimal, Context}
use crypto_auto_trading_syst.Domain.Enums.{
  MarketType, spot, perpetual, created, TradingMode, ExecutionDecision, approve, hold, reject,
}
use crypto_auto_trading_syst.Domain.Models.{
  Text, Time, Instrument, Order, OrderIntent, Position, RiskDecision, SignalIntent,
}
use crypto_auto_trading_syst.Order.Store.{Store, OtherTasks, get_by_client}
use crypto_auto_trading_syst.Order.Lifecycle.{count_open}
use crypto_auto_trading_syst.Ledger.Journal.{Journal}
use crypto_auto_trading_syst.Risk.Reversal.{Reason}
use crypto_auto_trading_syst.Risk.Engine as Risk
use crypto_auto_trading_syst.Risk.Engine.{RiskEngine, CheckArgs, signal, check}
use crypto_auto_trading_syst.Execution.Authority.{Verdict, AuthorizationContext, authorize}
use crypto_auto_trading_syst.Perpetual.Contract.{PerpetualContract}
use crypto_auto_trading_syst.Perpetual.Engine.{PerpetualPaperEngine, contract_for}
use crypto_auto_trading_syst.MarketData.Book.{mid_price}
use crypto_auto_trading_syst.MarketData.Service.{Feed, is_fresh, is_healthy}
use crypto_auto_trading_syst.Runtime.Lease.{Lease, LeaseTable, is_held}
use crypto_auto_trading_syst.Runtime.Submission.{submit_intent}
use crypto_auto_trading_syst.Runtime.ExecutionSymbols.{reference_symbol_for}
use crypto_auto_trading_syst.Runtime.PerpetualRoute.{
  Tables, on_orders, Route, current_signed_quantity, execute_perpetual_order,
}

-- The engine, with its settings; `client_id` makes a client id of a strategy's and a signal's.
pub record Setup : Type 0 where
  pub risk_engine : RiskEngine
  pub perpetual_engine : Option PerpetualPaperEngine
  pub require_lease : Bool
  pub lease_key : Text
  pub lease : Option Lease
  pub mode : TradingMode
  pub live_trading_enabled : Bool
  pub market_data_max_age : Time
  pub orderbook_max_age : Time
  pub reconciliation_halted : Bool
  pub has_portfolio : Bool
  pub consecutive_failures : ℕ
  pub references : List Text
  pub perp : Text → Text
  pub client_id : Text → Text → Text
  pub run_id : Option Text
  pub trading : Text
  pub unknown : Text

-- What the engine reads, and what other tasks commit before it counts the open orders.
pub record Observed : Type 0 where
  pub equity : Decimal
  pub positions : List Position
  pub feeds : Text → Option Feed
  pub leases : LeaseTable
  pub instruments : List Instrument
  pub connected : Bool
  pub now : Time
  pub meanwhile : OtherTasks

-- The tables of orders, of the ledger and of risk decisions.
pub record World : Type 0 where
  pub tables : Tables
  pub decisions : List RiskDecision

-- What `process_signal` returns: none for a repetition, the engine's own refusal for want of a price,
-- the decision of the risk engine, or that of the execution authority.
pub data Answer : Type 0 where
  no_decision : Answer
  price_unavailable : Answer
  by_risk : Risk.Verdict → Answer
  by_authority : Verdict → Answer

abbrev pub for_instrument : Text → Instrument → Bool
for_instrument symbol i = i.symbol == symbol

abbrev pub mid_or_zero : Option Decimal → Decimal
mid_or_zero none = pos 0
mid_or_zero (some x) = x

abbrev pub token_of : Option Lease → Option Text
token_of none = none
token_of (some l) = some l.token

-- The risk engine has no client id of a signal, and takes the signal's.
abbrev pub signal_id_or : Text → SignalIntent → Text
signal_id_or unknown s = if s.signal_id == 0 then unknown else s.signal_id

abbrev pub decision_row :
    Text → SignalIntent → ExecutionDecision → Time → Option Text → RiskDecision
decision_row client s decision now run_id = record {
  order_id = none;
  client_order_id = client;
  symbol = s.symbol;
  side = s.side;
  decision = decision;
  timestamp = now;
  run_id = run_id;
}

-- `_persist_risk`
abbrev pub persist_risk : RiskDecision → World → World
persist_risk d w = record w { decisions = w.decisions ++ d ∷ [] }

module _ (c : Context) (e : Setup) (o : Observed) (s : SignalIntent) where
  abbrev pub client_order_id : Text
  client_order_id = e.client_id s.strategy_id s.signal_id

  -- The decision of the risk engine on the signal.
  abbrev pub risk_row : ExecutionDecision → RiskDecision
  risk_row decision = decision_row (signal_id_or e.unknown s) s decision o.now e.run_id

  unfoldable pub reference_symbol : MarketType → Text
  unfolding reference_symbol_for
  reference_symbol perpetual = reference_symbol_for e.perp e.references s.symbol
  reference_symbol spot = s.symbol

  abbrev pub mid_of_feed : Option Feed → Decimal
  mid_of_feed none = pos 0
  mid_of_feed (some f) = mid_or_zero (mid_price c f.book)

  abbrev pub reference_feed : Option Feed
  reference_feed = o.feeds (reference_symbol s.market_type)

  abbrev pub market_price : Decimal
  market_price = mid_of_feed reference_feed

  -- The hard gate on the reference price.
  unfoldable pub has_no_price : MarketType → Bool
  has_no_price spot = false
  has_no_price perpetual = leb_ℤ market_price (pos 0)

  -- The daily profit and the drawdown are left at the defaults of `check`.
  abbrev pub check_args : ℕ → Decimal → CheckArgs
  check_args open_orders signed = record {
    equity = o.equity;
    positions = o.positions;
    market_price = market_price;
    open_order_count = open_orders;
    daily_pnl = pos 0;
    drawdown = pos 0;
    consecutive_failures = e.consecutive_failures;
    current_signed_qty = some signed;
  }

  -- An instrument that is made of a registered contract, with the defaults of `Instrument`.
  abbrev pub instrument_of : PerpetualContract → Instrument
  instrument_of k = record {
    symbol = s.symbol;
    base_asset = k.base;
    quote_asset = k.quote;
    status = e.trading;
    tick_size = k.tick_size;
    step_size = k.quantity_step;
    min_qty = pos (c.unit / 10 ^ 8);
    min_notional = pos (c.unit / 10 ^ 8);
  }

  abbrev pub of_contract : Option PerpetualContract → Option Instrument
  of_contract none = none
  of_contract (some k) = some (instrument_of k)

  unfoldable pub instrument_or :
      Option Instrument → MarketType → Option PerpetualPaperEngine → Option Instrument
  unfolding contract_for
  instrument_or (some i) market_type engine = some i
  instrument_or none perpetual (some p) = of_contract (contract_for s.symbol p)
  instrument_or none _ _ = none

  unfoldable pub instrument : Option Instrument
  unfolding instrument_or
  instrument =
      instrument_or (find (for_instrument s.symbol) o.instruments) s.market_type e.perpetual_engine

  abbrev pub is_tradeable : Option Instrument → Bool
  is_tradeable none = false
  is_tradeable (some i) = i.status == e.trading

  unfoldable pub lease_held : Bool
  unfolding is_held
  lease_held = e.require_lease && is_held e.lease_key (token_of e.lease) o.now o.leases

  abbrev pub reduce_only : Bool
  reduce_only = s.reduce_only || s.metadata_reduce_only

  abbrev pub intent : OrderIntent
  intent = record {
    client_order_id = client_order_id;
    symbol = s.symbol;
    side = s.side;
    order_type = s.order_type;
    time_in_force = s.time_in_force;
    price = s.limit_price;
    quantity = s.quantity;
    quote_order_qty = none;
    strategy_id = s.strategy_id;
    run_id = e.run_id;
    expires_at = s.expires_at;
    market_type = s.market_type;
    position_side = s.position_side;
    reduce_only = reduce_only;
    metadata_reduce_only = s.metadata_reduce_only;
  }

  -- The field of the rate limiter keeps its default, which is none.
  unfoldable pub authorization_context : RiskDecision → Decimal → AuthorizationContext Unit
  unfolding lease_held instrument is_fresh is_healthy
  authorization_context d signed = record {
    now = o.now;
    trading_mode = e.mode;
    live_enabled = e.live_trading_enabled;
    lease_held = lease_held || not e.require_lease;
    kill_switch = some e.risk_engine.kill_switch;
    order_status = created;
    market_data_fresh = is_fresh e.market_data_max_age o.now reference_feed;
    orderbook_fresh = is_fresh e.orderbook_max_age o.now reference_feed;
    orderbook_healthy = is_healthy reference_feed;
    symbol_tradeable = is_tradeable instrument;
    exchange_connected = o.connected;
    balance_fresh = e.has_portfolio;
    risk_decision = some d;
    instrument = instrument;
    duplicate_client_order = false;
    reconciliation_halted = e.reconciliation_halted;
    rate_limiter = none;
    min_notional_ok = true;
    current_signed_qty = signed;
  }
