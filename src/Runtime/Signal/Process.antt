-- ===== src/Runtime/Signal/Process.antt =====
-- src/crypto_trader/runtime/engine.py: `process_signal`, from the test for a repetition over the gate
-- on the reference price, the risk engine and the execution authority to the two routes. The audit log
-- and the health flags are left out.
pub mod Guarded
pub mod Configs
pub mod LossLimits
pub mod Repeated
use crypto_auto_trading_syst.Base.{
  Bool, true, false, Option, none, some, Result, Done, ok, err, if◌then◌else◌,
}
use crypto_auto_trading_syst.Decimal.{Decimal, Context}
use crypto_auto_trading_syst.Domain.Enums.{
  MarketType, spot, perpetual, ExecutionDecision, approve, hold, reject,
}
use crypto_auto_trading_syst.Domain.Models.{Order, SignalIntent}
use crypto_auto_trading_syst.Order.Store.{Store, get_by_client}
use crypto_auto_trading_syst.Order.Lifecycle.{count_open}
use crypto_auto_trading_syst.Risk.Engine as Risk
use crypto_auto_trading_syst.Risk.Engine.{signal, check}
use crypto_auto_trading_syst.Execution.Authority.{Verdict, authorize}
use crypto_auto_trading_syst.Runtime.Submission.{submit_intent}
use crypto_auto_trading_syst.Runtime.PerpetualRoute.{
  Tables, on_orders, Route, current_signed_quantity, execute_perpetual_order,
}
use crypto_auto_trading_syst.Runtime.Signal.{
  Setup, Observed, World, Answer, no_decision, price_unavailable, by_risk, by_authority, risk_row,
  decision_row, persist_risk, client_order_id, market_price, has_no_price, check_args, intent,
  authorization_context,
}

-- The exchange and the recovery service.
pub record Venue : Type 0 where
  pub submit_order : Order → Result Order
  pub recover : Store → Done × Store

abbrev pub allow_all : Unit {0} → Bool × Unit {0}
allow_all l = (true, l)

abbrev pub answered : Answer → World → Done × Tables → Result Answer × World
answered a w (err x, t) = (err x, record w { tables = t })
answered a w (ok _, t) = (ok a, record w { tables = t })

module _ (c : Context) (e : Setup) (o : Observed) (r : Route) (venue : Venue)
    (s : SignalIntent) where
  unfoldable pub execute_signal : MarketType → Tables → Done × Tables
  unfolding execute_perpetual_order submit_intent
  execute_signal perpetual t =
      execute_perpetual_order c r e.mode e.perpetual_engine (intent c e o s) (market_price c e o s)
        s.position_side t
  execute_signal spot t =
      on_orders
        (submit_intent r.calls venue.recover venue.submit_order (intent c e o s) e.mode t.orders) t

  unfoldable pub after_authority :
      Risk.Verdict → World → Result (Verdict × Option (Unit {0})) → Result Answer × World
  unfolding execute_signal
  after_authority v w (err x) = (err x, w)
  after_authority v w (ok ((approve, reason), l)) =
      answered (by_risk v) w (execute_signal s.market_type w.tables)
  after_authority v w (ok ((decision, reason), l)) = (ok (by_authority (decision, reason)), w)

  unfoldable pub after_risk : Decimal → World → Result Risk.Verdict → Result Answer × World
  unfolding after_authority authorization_context authorize
  after_risk signed w (err x) = (err x, w)
  after_risk signed w (ok (approve, reason)) =
      after_authority (approve, reason) (persist_risk (risk_row c e o s approve) w)
        (authorize c allow_all (intent c e o s)
          (authorization_context c e o s (risk_row c e o s approve) signed))
  after_risk signed w (ok (decision, reason)) =
      (ok (by_risk (decision, reason)), persist_risk (risk_row c e o s decision) w)

  unfoldable pub after_quantity : World → Result Decimal → Result Answer × World
  unfolding after_risk check count_open
  after_quantity w (err x) = (err x, w)
  after_quantity w (ok signed) =
      after_risk signed w
        (check c e.risk_engine (signal s) (check_args c e o s (count_open w.tables.orders) signed))

  unfoldable pub judge : World → Result Answer × World
  unfolding has_no_price after_quantity current_signed_quantity
  judge w =
      if has_no_price c e o s s.market_type
      then (
        ok price_unavailable,
        persist_risk (decision_row (client_order_id c e o s) s reject o.now e.run_id) w,
      )
      else after_quantity w (
          current_signed_quantity c e.perpetual_engine s.symbol s.market_type o.positions
            w.tables.journal)

  abbrev pub observe : World → World
  observe w = record w { tables = record w.tables { orders = o.meanwhile w.tables.orders } }

  unfoldable pub unless_known : Option Order → World → Result Answer × World
  unfolding judge
  unless_known (some existing) w = (ok no_decision, w)
  unless_known none w = judge (observe w)

  unfoldable pub process_signal : World → Result Answer × World
  unfolding unless_known get_by_client
  process_signal w = unless_known (get_by_client (client_order_id c e o s) w.tables.orders) w
