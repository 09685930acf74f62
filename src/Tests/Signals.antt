-- ===== src/Tests/Signals.antt =====
-- Signals: an approved one that becomes an order, other limits on losses and on failures, a
-- reduce-only order without a position side, and the symbols of contracts.
use crypto_auto_trading_syst.Base.{
  ◌≡◌, refl, ◌⊎◌, ◌+◌, true, false, none, some, List, [], ◌∷◌, ok, err, arith, order_rejected,
}
use crypto_auto_trading_syst.Int.{pos}
use crypto_auto_trading_syst.Domain.Enums.{paper, sell, flat, short, perpetual}
use crypto_auto_trading_syst.Domain.Models.{Text, OrderIntent}
use crypto_auto_trading_syst.MarketData.Book.{OrderBook, new_book}
use crypto_auto_trading_syst.MarketData.Service.{Feed}
use crypto_auto_trading_syst.MarketData.Book.{healthy}
use crypto_auto_trading_syst.Perpetual.Engine.{chosen}
use crypto_auto_trading_syst.Runtime.Lease.{new_row, lease_of}
use crypto_auto_trading_syst.Runtime.ExecutionSymbols.{
  reference_symbol_for, execution_symbol_for, is_paper_perpetual_symbol, perp_to_reference,
}
use crypto_auto_trading_syst.Runtime.ExecutionSymbols.Names.{
  reference_symbol_for-execution_symbol_for,
}
use crypto_auto_trading_syst.Runtime.PerpetualRoute.{Tables, Route, execute_perpetual_order}
use crypto_auto_trading_syst.Runtime.PerpetualRoute.Closings.{
  HoldsOther, execute_perpetual_order-journal,
}
use crypto_auto_trading_syst.Runtime.Submission.{Call, Calls}
use crypto_auto_trading_syst.Runtime.Signal.{Setup, Observed, World}
use crypto_auto_trading_syst.Runtime.Signal.Process.{Venue, process_signal}
use crypto_auto_trading_syst.Runtime.Signal.Process.Guarded.{
  IsPassed, IsUntouched, process_signal-IsPassed,
}
use crypto_auto_trading_syst.Runtime.Signal.Process.LossLimits.{
  with_loss_limits, process_signal-loss_limits,
}
use crypto_auto_trading_syst.Runtime.Tick.{StrategyRun, failed, gave, tick}
use crypto_auto_trading_syst.Runtime.Tick.Failures.{with_limit, tick-with_limit}
use crypto_auto_trading_syst.Runtime.Signal.Process.Repeated.{process_signal-process_signal}
use crypto_auto_trading_syst.Runtime.Submission.Kept.{KeepsAll}
use crypto_auto_trading_syst.Runtime.Signal as Sig
use crypto_auto_trading_syst.Runtime.Signal.{
  client_order_id, by_risk, no_decision, has_no_price, reference_symbol, authorization_context,
  lease_held, instrument_or,
}
use crypto_auto_trading_syst.Runtime.Signal.Process.{
  unless_known, judge, after_quantity, after_risk, after_authority, execute_signal,
}
use crypto_auto_trading_syst.Runtime.PerpetualRoute.{current_signed_quantity}
use crypto_auto_trading_syst.Runtime.Submission.{
  submit_intent, submit_created, after_submit, follow_exchange,
}
use crypto_auto_trading_syst.Runtime.Lease.{is_held}
use crypto_auto_trading_syst.Risk.Reversal.{risk_pass, check_no_reversal}
use crypto_auto_trading_syst.Risk.Engine.{
  check, signal_check, limits_check, increasing, exposure_check, sum_costs,
}
use crypto_auto_trading_syst.Execution.Authority.{authorize, status_guards, size_guards}
use crypto_auto_trading_syst.Domain.Money.{
  round_tick, floor_to_step, quantize, last_place, half_up, integral,
}
use crypto_auto_trading_syst.Decimal.{
  add, sub, mul, div, neg, abs, round, round_ratio, excess, half_even,
}
use crypto_auto_trading_syst.Int.{◌+ℤ◌, ◌-ℤ◌}
use crypto_auto_trading_syst.Order.Store.{get, get_by_client, get_event}
use crypto_auto_trading_syst.Order.StateMachine.{transition as machine, transitions}
use crypto_auto_trading_syst.Order.Manager.{
  create_from_intent, insert_order, transition, record_event,
}
use crypto_auto_trading_syst.Order.Lifecycle.{
  count_open, list_open, validate, submitting_order, submitted_order, ack,
}
use crypto_auto_trading_syst.MarketData.Book.{mid_price, best_bid, best_ask}
use crypto_auto_trading_syst.MarketData.Service.{is_fresh, is_healthy}
use crypto_auto_trading_syst.Domain.Enums.{approve}
use crypto_auto_trading_syst.Tests.Orders.{context, intent, empty_store}
use crypto_auto_trading_syst.Tests.Guards.{config, engine, opening, instrument}
use crypto_auto_trading_syst.Tests.Leases.{request}
use crypto_auto_trading_syst.Tests.Perpetuals as Held

abbrev suffixed : Text → Text
suffixed symbol = symbol + 1000

suffixed_injective : (a b : Text) → suffixed a ≡ suffixed b → a ≡ b
suffixed_injective a b h = omega arith

reference_symbol_for-execution_symbol_for_example :
    reference_symbol_for suffixed (5 ∷ 6 ∷ []) (execution_symbol_for suffixed (5 ∷ 6 ∷ []) 6) ≡ 6
unfolding is_paper_perpetual_symbol perp_to_reference
reference_symbol_for-execution_symbol_for_example =
    reference_symbol_for-execution_symbol_for suffixed suffixed_injective (5 ∷ 6 ∷ []) 6 refl

abbrev setup : Setup
setup = record {
  risk_engine = engine;
  perpetual_engine = some Held.engine;
  require_lease = true;
  lease_key = 1;
  lease = some (lease_of request 20 100 1);
  mode = paper;
  live_trading_enabled = false;
  market_data_max_age = 30;
  orderbook_max_age = 30;
  reconciliation_halted = false;
  has_portfolio = true;
  consecutive_failures = 0;
  references = 5 ∷ [];
  perp = suffixed;
  client_id = λ strategy signal. strategy + signal;
  run_id = none;
  trading = 6;
  unknown = 77;
}

-- The book of the symbol is at 2.
abbrev book : OrderBook
book = record new_book {
  sequence = some 1;
  bids = record { price = pos 199000000; quantity = pos 100000000 } ∷ [];
  asks = record { price = pos 201000000; quantity = pos 100000000 } ∷ [];
  updated_at = some 95;
}

abbrev feed : Feed
feed = record { book = book; status = healthy; buffer = []; errors = 0 }

abbrev observed : Observed
observed = record {
  equity = pos 1000000000000;
  positions = [];
  feeds = λ symbol. some feed;
  leases = new_row request 20 20 100 ∷ [];
  instruments = instrument ∷ [];
  connected = true;
  now = 110;
  meanwhile = λ s. s;
}

abbrev call : Text → Call
call id = record { event_id = id; now = 110; others = λ s. s }

abbrev calls : Calls
calls = record {
  order_id = 1;
  creation = call 60;
  validation = call 61;
  submitting = call 62;
  submitted = call 63;
  outcome = call 64;
  status = call 65;
  reason = λ e. 6;
  rejected_on_exchange = 7;
}

abbrev route : Route
route = record {
  calls = calls;
  transaction_id = 93;
  fill_id = 94;
  trade_id = 95;
  ids = record { last_event = 96; event = 97; trade = 98 };
  now = 110;
  leverage = pos 100000000;
  usdt = 9;
  paper_perp = λ id. id + 5000;
  others = λ j. j;
}

abbrev accepting : Venue
accepting = record {
  submit_order = λ o. ok (record o { exchange_order_id = some 50 });
  recover = λ s. (ok tt, s);
}

abbrev rejecting : Venue
rejecting = record { submit_order = λ o. err order_rejected; recover = λ s. (ok tt, s) }

abbrev world : World
world = record { tables = record { orders = empty_store; journal = [] }; decisions = [] }

process_signal-IsPassed_example :
    IsUntouched context setup observed route opening accepting rejecting world.tables
      (process_signal context setup observed route accepting opening world)
      (process_signal context setup observed route rejecting opening world)
    ⊎ IsUntouched context setup observed route opening accepting rejecting world.tables
        (process_signal context setup observed route accepting opening world)
        (process_signal context setup observed route rejecting opening world)
    ⊎ IsPassed context setup observed route opening world
process_signal-IsPassed_example =
    process_signal-IsPassed context setup observed route opening accepting rejecting world

process_signal-loss_limits_example :
    process_signal context
      (with_loss_limits setup (record config { max_daily_loss = pos 0; max_drawdown = pos 0 }))
      observed
      route
      accepting
      opening
      world
    ≡ process_signal context setup observed route accepting opening world
process_signal-loss_limits_example =
    process_signal-loss_limits context setup
      (record config { max_daily_loss = pos 0; max_drawdown = pos 0 }) observed route accepting
      opening world

-- A sale that is to reduce the long position, without a position side.
abbrev exit : OrderIntent
exit = record intent {
  side = sell;
  quantity = pos 100000000;
  market_type = perpetual;
  position_side = flat;
  reduce_only = true;
}

abbrev tables : Tables
tables = record { orders = empty_store; journal = Held.journal }

held_long :
    HoldsOther context route Held.engine exit short Held.projection Held.position Held.journal
unfolding chosen
held_long = record { state = Held.rebuild-journal; position = refl; other_side = refl }

execute_perpetual_order-journal_example :
    (execute_perpetual_order context route paper
      (some Held.engine)
      exit
      (pos 9000000000)
      flat
      tables).1.journal
    ≡ Held.journal
execute_perpetual_order-journal_example =
    execute_perpetual_order-journal context route paper Held.engine exit (pos 9000000000) flat
      Held.projection Held.position tables refl held_long

-- A strategy has failed, and another one emits the signal.
abbrev runs : List StrategyRun
runs = failed ∷ gave (record { signal = opening; observed = observed; route = route } ∷ []) ∷ []

tick-with_limit_example :
    tick context accepting 99 [] (with_limit 1 setup) runs 2 world
    ≡ tick context accepting 99 [] setup runs 2 world
tick-with_limit_example =
    tick-with_limit context accepting 99 [] setup 1 (omega arith) (omega arith) runs 2 world

nothing_lost : KeepsAll (client_order_id context setup observed opening) calls accepting.recover
nothing_lost = record {
  validation = λ s h. h;
  submitting = λ s h. h;
  submitted = λ s h. h;
  outcome = λ s h. h;
  status = λ s h. h;
  recovery = λ s h. h;
}

approved_once :
    (process_signal context setup observed route accepting opening world).0
    ≡ ok (by_risk (approve, risk_pass))
unfolding process_signal unless_known get_by_client judge has_no_price reference_symbol
    after_quantity current_signed_quantity count_open list_open after_risk after_authority
    authorization_context lease_held is_held instrument_or Sig.instrument is_fresh is_healthy
    mid_price best_bid best_ask check signal_check check_no_reversal limits_check increasing
    exposure_check sum_costs authorize status_guards size_guards round_tick floor_to_step quantize
    last_place half_up integral execute_signal submit_intent submit_created after_submit
    follow_exchange create_from_intent insert_order validate submitting_order submitted_order ack
    transition record_event machine transitions get get_event add sub mul div neg abs round
    round_ratio excess half_even ◌+ℤ◌ ◌-ℤ◌
approved_once = refl

process_signal-process_signal_example :
    process_signal context setup observed route rejecting opening
      (process_signal context setup observed route accepting opening world).1
    ≡ (ok no_decision, (process_signal context setup observed route accepting opening world).1)
process_signal-process_signal_example =
    process_signal-process_signal context setup observed observed route route accepting rejecting
      opening world risk_pass nothing_lost refl approved_once
