-- ===== src/Runtime/PerpetualRoute.antt =====
-- src/crypto_trader/runtime/engine.py: `_current_signed_quantity` and `_execute_perpetual_order`, on
-- the order manager and the paper engine of perpetual contracts. The settlement callback returns at
-- once on the fill of a perpetual contract. The trade episode, the audit log and the health flags are
-- left out.
pub mod Closings
use crypto_auto_trading_syst.Base.{
  Bool, true, false, ◌||◌, Option, none, some, List, find, Result, Done, ok, err, if◌then◌else◌,
}
use crypto_auto_trading_syst.Int.{pos, leb_ℤ}
use crypto_auto_trading_syst.Decimal.{Decimal, Context, mul, abs}
use crypto_auto_trading_syst.Domain.Enums.{
  MarketType, spot, perpetual, OrderSide, PositionSide, long, short, is_buy, TradingMode,
}
use crypto_auto_trading_syst.Domain.Models.{Text, Time, Order, OrderIntent, Fill, Position}
use crypto_auto_trading_syst.Order.Store.{Store}
use crypto_auto_trading_syst.Order.Manager.{create_from_intent}
use crypto_auto_trading_syst.Order.Lifecycle.{validate, submitting_order, submitted_order}
use crypto_auto_trading_syst.Order.Fills.{NewIds, apply_fill}
use crypto_auto_trading_syst.Ledger.Journal.{Journal}
use crypto_auto_trading_syst.Risk.Engine.{for_symbol, quantity_of}
use crypto_auto_trading_syst.Perpetual.Contract.{
  PerpetualContract, MarginPosition, is_flat, is_flat_side, position_of,
}
use crypto_auto_trading_syst.Perpetual.FuturesLedger as Futures
use crypto_auto_trading_syst.Perpetual.Projection.{FuturesProjectionSnapshot, rebuild}
use crypto_auto_trading_syst.Perpetual.Engine.{
  PerpetualPaperEngine, or_contract, contract_for, open_position, close_position,
}
use crypto_auto_trading_syst.Runtime.Recovery.{done_of, and_then}
use crypto_auto_trading_syst.Runtime.Submission.{Calls}

-- The tables that a signal changes.
pub record Tables : Type 0 where
  pub orders : Store
  pub journal : Journal

abbrev pub on_orders : Done × Store → Tables → Done × Tables
on_orders r t = (r.0, record t { orders = r.1 })

abbrev pub on_journal {ℓ} : {A : Type ℓ} → Result A × Journal → Tables → Done × Tables
on_journal (ok a, j) t = (ok tt, record t { journal = j })
on_journal (err e, j) t = (err e, record t { journal = j })

abbrev pub then_on : Done × Tables → (Tables → Done × Tables) → Done × Tables
then_on (err e, t) next = (err e, t)
then_on (ok _, t) next = next t

-- What the route draws, with the texts, the setting of the leverage, the clock, and what other tasks
-- write to the journal meanwhile.
pub record Route : Type 0 where
  pub calls : Calls
  pub transaction_id : Text
  pub fill_id : Text
  pub trade_id : Text
  pub ids : NewIds
  pub now : Time
  pub leverage : Decimal
  pub usdt : Text
  pub paper_perp : Text → Text
  pub others : Journal → Journal

abbrev pub position_quantity : Option MarginPosition → Decimal
position_quantity none = pos 0
position_quantity (some p) = if is_flat p then pos 0 else p.quantity

-- A flat side stands for the side that the order takes.
abbrev pub side_of : OrderSide → PositionSide → PositionSide
side_of side position_side =
    if is_flat_side position_side then (if is_buy side then long else short) else position_side

module _ (c : Context) where
  abbrev pub quantity_in : Text → Result FuturesProjectionSnapshot → Result Decimal
  quantity_in symbol (err e) = err e
  quantity_in symbol (ok s) = ok (position_quantity (find (position_of symbol) s.positions))

  unfoldable pub current_signed_quantity :
      Option PerpetualPaperEngine → Text → MarketType → List Position → Journal → Result Decimal
  unfolding rebuild
  current_signed_quantity engine symbol spot positions j =
      ok (quantity_of (find (for_symbol symbol) positions))
  current_signed_quantity none symbol perpetual positions j = ok (pos 0)
  current_signed_quantity (some e) symbol perpetual positions j = quantity_in symbol (rebuild c j)

  module _ (r : Route) (e : PerpetualPaperEngine) (intent : OrderIntent) where
    abbrev pub futures_call : Order → Futures.Call
    futures_call o = record {
      order_id = some o.internal_order_id;
      transaction_id = r.transaction_id;
      now = r.now;
    }

    unfoldable pub trade_position : PositionSide → Decimal → Order → Tables → Done × Tables
    unfolding open_position close_position
    trade_position side price o t =
        if intent.reduce_only
        then on_journal
            (close_position c r.others e (futures_call o) side intent.quantity price
              (some intent.symbol) t.journal)
            t
        else on_journal
            (open_position c r.others e (futures_call o) side intent.quantity price r.leverage
              (some intent.symbol) t.journal)
            t

    abbrev pub route_contract : PerpetualContract
    route_contract = or_contract (contract_for intent.symbol e) e.contract

    abbrev pub route_fill : Decimal → Order → Fill
    route_fill price o = record {
      fill_id = r.fill_id;
      trade_id = some r.trade_id;
      order_id = o.internal_order_id;
      client_order_id = some intent.client_order_id;
      exchange_order_id = some (r.paper_perp o.internal_order_id);
      symbol = intent.symbol;
      side = intent.side;
      price = price;
      quantity = intent.quantity;
      fee =
          mul c (mul c (mul c intent.quantity price) route_contract.contract_size)
            route_contract.taker_fee_rate;
      fee_currency = some r.usdt;
      timestamp = r.now;
    }

    unfoldable pub fill_route : Decimal → Order → Tables → Done × Tables
    unfolding apply_fill contract_for
    fill_route price o t =
        on_orders
          (done_of (apply_fill c true r.calls.outcome.others (route_fill price o) r.ids t.orders)) t

    -- The order, on its way to the exchange that there is not.
    unfoldable pub submit_route : Order → Store → Done × Store
    unfolding validate submitting_order submitted_order
    submit_route o s =
        let id = o.internal_order_id in
        let calls = r.calls in
        and_then
          (and_then
            (done_of (
              validate calls.validation.others id calls.validation.event_id calls.validation.now s))
            (λ u. done_of (
              submitting_order calls.submitting.others id calls.submitting.event_id
                calls.submitting.now u)))
          (λ u. done_of (
            submitted_order calls.submitted.others id calls.submitted.event_id calls.submitted.now
              u))

    unfoldable pub route_created :
        PositionSide → Decimal → Result Order × Store → Tables → Done × Tables
    unfolding submit_route trade_position fill_route
    route_created side price (err x, s) t = (err x, record t { orders = s })
    route_created side price (ok o, s) t =
        then_on (then_on (on_orders (submit_route o s) t) (trade_position side price o))
          (fill_route price o)

  unfoldable pub execute_perpetual_order :
      Route
      → TradingMode
      → Option PerpetualPaperEngine
      → OrderIntent
      → Decimal
      → PositionSide
      → Tables
      → Done × Tables
  unfolding route_created create_from_intent
  execute_perpetual_order r mode none intent price position_side t = (ok tt, t)
  execute_perpetual_order r mode (some e) intent price position_side t =
      if leb_ℤ price (pos 0)
      then (ok tt, t)
      else route_created r e intent (side_of intent.side position_side) price
          (create_from_intent r.calls.creation.others intent mode r.calls.order_id
            r.calls.creation.event_id r.calls.creation.now t.orders)
          t
