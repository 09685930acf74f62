-- ===== src/Tests/Guards.antt =====
-- The risk engine, the reversal gate, the execution authority and the gap guard.
use crypto_auto_trading_syst.Base.{
  ℕ, ◌≡◌, refl, ◌↔◌, ◌≤◌, ◌-◌, arith, true, false, Bool, ok, none, some, [], ◌∷◌, leb,
}
use crypto_auto_trading_syst.Int.{pos, ◌+ℤ◌, ◌-ℤ◌}
use crypto_auto_trading_syst.Decimal.{
  add, sub, mul, div, neg, abs, round, round_ratio, excess, half_even,
}
use crypto_auto_trading_syst.Domain.Enums.{
  spot, long, buy, sell, limit, gtc, paper, validated, approve,
}
use crypto_auto_trading_syst.Domain.Models.{Instrument, RiskDecision, SignalIntent}
use crypto_auto_trading_syst.Domain.Money.{
  round_tick, floor_to_step, quantize, last_place, half_up, integral,
}
use crypto_auto_trading_syst.Risk.KillSwitch.{KillSwitch}
use crypto_auto_trading_syst.Risk.Reversal.{
  check_no_reversal, MayPass, check_no_reversal-exact, risk_pass, authority_pass,
}
use crypto_auto_trading_syst.Risk.Engine.{
  RiskConfig, RiskEngine, CheckArgs, signal, increasing, sum_costs, exposure_check, limits_check,
  signal_check, check,
}
use crypto_auto_trading_syst.Risk.Engine.Limits.{
  IsCleared, check-approves, reductions_unblocked, with_exposure,
}
use crypto_auto_trading_syst.Execution.Authority.{
  AuthorizationContext, status_guards, size_guards, authorize,
}
use crypto_auto_trading_syst.Execution.Authority.Clearance.{IsAuthorized, authorize-approves}
use crypto_auto_trading_syst.Execution.CrossExchange.{ExecutionQuote, Guard, evaluate}
use crypto_auto_trading_syst.Execution.CrossExchange.Gaps.{Below, evaluate-approves}
use crypto_auto_trading_syst.Tests.Orders.{context, intent}

abbrev pub config : RiskConfig
config = record {
  max_order_notional = pos 100000000000;
  max_position_notional = pos 500000000000;
  max_account_exposure = pos 500000000000;
  max_open_orders = 10;
  max_daily_loss = pos 10000000000;
  max_drawdown = pos 10000000000;
  max_leverage = pos 200000000;
  max_symbol_exposure = pos 200000000000;
  max_exchange_exposure = pos 500000000000;
  max_consecutive_failures = 3;
}

abbrev pub switch_off : KillSwitch
switch_off = record { enabled = false; reason = none; engaged_at = none }

abbrev pub engine : RiskEngine
engine = record { config = config; kill_switch = switch_off }

abbrev pub args : CheckArgs
args = record {
  equity = pos 1000000000000;
  positions =
      record {
        symbol = 5;
        quantity = pos 1000000000;
        avg_entry_price = some (pos 200000000);
        cost_basis = pos 2000000000;
        realized_pnl = pos 0;
      }
      ∷ [];
  market_price = pos 200000000;
  open_order_count = 1;
  daily_pnl = pos 0;
  drawdown = pos 0;
  consecutive_failures = 0;
  current_signed_qty = none;
}

-- Buys 4 at the market price.
abbrev pub opening : SignalIntent
opening = record {
  signal_id = 81;
  strategy_id = 7;
  symbol = 5;
  side = buy;
  quantity = pos 400000000;
  limit_price = none;
  order_type = limit;
  time_in_force = gtc;
  expires_at = none;
  run_id = none;
  market_type = spot;
  position_side = long;
  reduce_only = false;
  metadata_reduce_only = false;
}

abbrev reducing : SignalIntent
reducing = record opening { side = sell; reduce_only = true }

check-approves_example :
    check context engine (signal opening) args ≡ ok (approve, risk_pass)
    ↔ IsCleared context engine args opening
check-approves_example = check-approves context engine args opening

check-opening : check context engine (signal opening) args ≡ ok (approve, risk_pass)
unfolding check signal_check check_no_reversal limits_check increasing exposure_check sum_costs add
    sub mul div neg abs round round_ratio excess half_even ◌+ℤ◌ ◌-ℤ◌
check-opening = refl

reductions_unblocked_example :
    check context
      (record engine {
        config = with_exposure config (record config { max_symbol_exposure = pos 0 });
      })
      (signal reducing)
      args
    ≡ check context engine (signal reducing) args
unfolding round round_ratio excess half_even ◌-ℤ◌
reductions_unblocked_example =
    reductions_unblocked context engine (record config { max_symbol_exposure = pos 0 }) args
      reducing
      (record {
        no_larger = omega arith;
        quantity_fits = refl;
        position_fits = refl;
        projected_fits = refl;
      })

check_no_reversal-exact_example :
    (check_no_reversal context spot sell (pos 400000000) true (pos 1000000000)).0 ≡ true
    ↔ MayPass context spot sell (pos 400000000) true (pos 1000000000)
unfolding round round_ratio excess half_even ◌-ℤ◌
check_no_reversal-exact_example =
    check_no_reversal-exact context spot sell (pos 400000000) true (pos 1000000000) refl

abbrev pub instrument : Instrument
instrument = record {
  symbol = 5;
  base_asset = 8;
  quote_asset = 9;
  status = 6;
  tick_size = pos 1000000;
  step_size = pos 10000000;
  min_qty = pos 10000000;
  min_notional = pos 1000000000;
}

abbrev approved_risk : RiskDecision
approved_risk = record {
  order_id = none;
  client_order_id = 11;
  symbol = 5;
  side = buy;
  decision = approve;
  timestamp = 100;
  run_id = none;
}

-- A limiter with a count of tokens.
abbrev spend : ℕ → Bool × ℕ
spend n = (leb 1 n, n - 1)

abbrev cleared : AuthorizationContext ℕ
cleared = record {
  now = 100;
  trading_mode = paper;
  live_enabled = false;
  lease_held = true;
  kill_switch = some switch_off;
  order_status = validated;
  market_data_fresh = true;
  orderbook_fresh = true;
  orderbook_healthy = true;
  symbol_tradeable = true;
  exchange_connected = true;
  balance_fresh = true;
  risk_decision = some approved_risk;
  instrument = some instrument;
  duplicate_client_order = false;
  reconciliation_halted = false;
  rate_limiter = some 3;
  min_notional_ok = true;
  current_signed_qty = pos 0;
}

authorize-approves_example :
    authorize context spend intent cleared ≡ ok ((approve, authority_pass), some 2)
    ↔ ((i : Instrument) × IsAuthorized context spend intent cleared i (some 2))
authorize-approves_example = authorize-approves context spend intent cleared (some 2)

authorize-cleared : authorize context spend intent cleared ≡ ok ((approve, authority_pass), some 2)
unfolding authorize status_guards size_guards check_no_reversal round_tick floor_to_step quantize
    last_place half_up integral mul div round round_ratio excess half_even
authorize-cleared = refl

abbrev guard : Guard
guard = record {
  warn_bps = pos 1000000000;
  reduce_bps = pos 2000000000;
  reject_bps = pos 5000000000;
  max_age = 5000000;
}

abbrev quote : ExecutionQuote
quote = record {
  mid_price = pos 200000000;
  mark_price = pos 200000000;
  best_bid = pos 199000000;
  best_ask = pos 201000000;
  timestamp = 100;
}

evaluate-approves_example :
    let d = evaluate context guard 200 quote quote in
    (d.decision ≡ approve) ↔ (
      (200 - 100 ≤ 5000000)
      × (200 - 100 ≤ 5000000)
      × Below context guard (pos 5000000000) d.mid_deviation_bps d.mark_deviation_bps
      × Below context guard (pos 2000000000) d.mid_deviation_bps d.mark_deviation_bps)
evaluate-approves_example = evaluate-approves context guard 200 quote quote
