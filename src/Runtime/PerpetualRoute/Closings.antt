-- ===== src/Runtime/PerpetualRoute/Closings.antt =====
-- src/crypto_trader/runtime/engine.py: a reduce-only order whose side is not that of the position.
use crypto_auto_trading_syst.Base.{
  ◌≡◌, refl, true, false, none, some, Result, Done, ok, err, find, Bool-cases, inl, inr,
}
use crypto_auto_trading_syst.Int.{pos, leb_ℤ}
use crypto_auto_trading_syst.Decimal.{Decimal, Context}
use crypto_auto_trading_syst.Domain.Enums.{PositionSide, position_side_eq, TradingMode}
use crypto_auto_trading_syst.Domain.Models.{Order, OrderIntent}
use crypto_auto_trading_syst.Order.Store.{Store}
use crypto_auto_trading_syst.Order.Manager.{create_from_intent}
use crypto_auto_trading_syst.Ledger.Journal.{Journal}
use crypto_auto_trading_syst.Perpetual.Contract.{MarginPosition, position_of}
use crypto_auto_trading_syst.Perpetual.FuturesLedger.{Call}
use crypto_auto_trading_syst.Perpetual.Projection.{FuturesProjectionSnapshot, rebuild}
use crypto_auto_trading_syst.Perpetual.Engine.{
  PerpetualPaperEngine, chosen, load_state, close_position,
}
use crypto_auto_trading_syst.Runtime.PerpetualRoute.{
  Tables, Route, on_orders, then_on, side_of, trade_position, fill_route, route_created,
  execute_perpetual_order, submit_route, futures_call,
}

then_on-journal :
    (j : Journal) (first : Done × Tables) (next : Tables → Done × Tables)
    → first.1.journal ≡ j
    → ((t : Tables) → t.journal ≡ j → (next t).1.journal ≡ j)
    → (then_on first next).1.journal ≡ j
then_on-journal j (err x, t) next h k = h
then_on-journal j (ok _, t) next h k = k t h

module _ (c : Context) (r : Route) (e : PerpetualPaperEngine) (intent : OrderIntent)
    (side : PositionSide) (s : FuturesProjectionSnapshot) (p : MarginPosition) where
  -- The journal holds a position of the order's contract, of another side than the order's.
  pub record HoldsOther (j : Journal) : Type 0 where
    pub state : rebuild c j ≡ ok s
    pub position : find (position_of (chosen (some intent.symbol) e).symbol) s.positions ≡ some p
    pub other_side : position_side_eq p.side side ≡ false

  close_position-nothing :
      (call : Call) (price : Decimal) (j : Journal)
      → HoldsOther j
      → close_position c r.others e call side intent.quantity price (some intent.symbol) j
        ≡ (ok none, j)
  unfolding close_position load_state
  close_position-nothing call price j h = rw (h.state, h.position, h.other_side) refl

  module _ (reduces : intent.reduce_only ≡ true) (j : Journal) (h : HoldsOther j) where
    trade_position-journal :
        (price : Decimal) (o : Order) (t : Tables)
        → t.journal ≡ j
        → (trade_position c r e intent side price o t).1.journal ≡ j
    unfolding trade_position
    trade_position-journal price o t same =
        rw (reduces, same, close_position-nothing (futures_call c r e intent o) price j h) refl

    route_created-journal :
        (price : Decimal) (made : Result Order × Store) (t : Tables)
        → t.journal ≡ j
        → (route_created c r e intent side price made t).1.journal ≡ j
    unfolding route_created fill_route
    route_created-journal price (err x, u) t same = same
    route_created-journal price (ok o, u) t same =
        then_on-journal j
          (then_on (on_orders (submit_route c r e intent o u) t)
            (trade_position c r e intent side price o))
          (fill_route c r e intent price o)
          (then_on-journal j (on_orders (submit_route c r e intent o u) t)
            (trade_position c r e intent side price o) same (trade_position-journal price o))
          (λ t' same'. same')

-- A reduce-only order whose side, with a flat one replaced by the side that the order takes, is not
-- that of the position of its contract, closes nothing: the ledger is kept, whatever becomes of the
-- order and of its fill.
pub execute_perpetual_order-journal :
    (c : Context) (r : Route) (mode : TradingMode) (e : PerpetualPaperEngine) (intent : OrderIntent)
    (price : Decimal) (position_side : PositionSide) (s : FuturesProjectionSnapshot)
    (p : MarginPosition) (t : Tables)
    → intent.reduce_only ≡ true
    → HoldsOther c r e intent (side_of intent.side position_side) s p t.journal
    → (execute_perpetual_order c r mode (some e) intent price position_side t).1.journal ≡ t.journal
unfolding execute_perpetual_order
execute_perpetual_order-journal c r mode e intent price position_side s p t reduces h =
    elim (Bool-cases (leb_ℤ price (pos 0))) [
      | inl unpriced ↦ rw unpriced refl
      | inr priced ↦ rw priced (
          route_created-journal c r e intent (side_of intent.side position_side) s p reduces
            t.journal h price
            (create_from_intent r.calls.creation.others intent mode r.calls.order_id
              r.calls.creation.event_id r.calls.creation.now t.orders)
            t refl)
    ]
