-- ===== src/MarketData/NewRiskGate.antt =====
-- src/crypto_trader/market_data/new_risk_gate.py: the gate on new risk, and the classification of an
-- order by the position. Of a market's state the fields are kept that the gate reads; times are
-- numbers, and an absent time is as old as 999.
use crypto_auto_trading_syst.Base.{
  ◌≡◌, ◌⊎◌, ◌↔◌, ℕ, ◌-◌, Bool, true, false, not, ◌||◌, Option, none, some, arith, ltb,
  if◌then◌else◌,
}
use crypto_auto_trading_syst.Int.{pos, leb_ℤ, ltb_ℤ, ◌<ℤ◌}
use crypto_auto_trading_syst.Decimal.{Decimal}
use crypto_auto_trading_syst.Domain.Enums.{OrderSide, buy, sell}
use crypto_auto_trading_syst.Domain.Models.{Time}

pub data DataHealth : Type 0 where
  healthy degraded stale unavailable invalid : DataHealth

-- The time of an entry of `sources`, which may be absent.
pub data Source : Type 0 where
  no_source : Source
  updated : Option Time → Source

pub record MarketState : Type 0 where
  pub generation : ℕ
  pub health : DataHealth
  pub best_bid : Decimal
  pub best_ask : Decimal
  pub mark_price : Decimal
  pub updated_at : Option Time
  pub orderbook : Source
  pub mark_source : Source

pub data GateReason : Type 0 where
  market_state_missing market_state_no_generation market_data_unavailable : GateReason
  orderbook_unavailable orderbook_invalid orderbook_stale mark_price_stale : GateReason
  mark_price_unavailable market_data_healthy risk_reducing_allowed : GateReason

abbrev pub is_down : DataHealth → Bool
is_down stale = true
is_down unavailable = true
is_down _ = false

abbrev pub age : Time → Option Time → ℕ
age now none = 999
age now (some t) = now - t

abbrev pub book_time : MarketState → Option Time
book_time m = elim m.orderbook [ no_source ↦ m.updated_at | updated t ↦ t ]

abbrev pub mark_is_stale : Time → ℕ → Source → Bool
mark_is_stale now max_age no_source = false
mark_is_stale now max_age (updated t) = ltb max_age (age now t)

module _ (orderbook_max_age mark_max_age : ℕ) (now : Time) where
  unfoldable pub can_add_risk_in : MarketState → Bool × GateReason
  can_add_risk_in m =
      if ltb m.generation 1
      then (false, market_state_no_generation)
      else if is_down m.health
      then (false, market_data_unavailable)
      else if leb_ℤ m.best_bid (pos 0) || leb_ℤ m.best_ask (pos 0)
      then (false, orderbook_unavailable)
      else if ltb_ℤ m.best_ask m.best_bid
      then (false, orderbook_invalid)
      else if ltb orderbook_max_age (age now (book_time m))
      then (false, orderbook_stale)
      else if mark_is_stale now mark_max_age m.mark_source
      then (false, mark_price_stale)
      else if leb_ℤ m.mark_price (pos 0)
      then (false, mark_price_unavailable)
      else (true, market_data_healthy)

  unfoldable pub can_add_risk : Option MarketState → Bool × GateReason
  unfolding can_add_risk_in
  can_add_risk none = (false, market_state_missing)
  can_add_risk (some m) = can_add_risk_in m

pub data OrderAction : Type 0 where
  increase_long reduce_short increase_short reduce_long : OrderAction

unfoldable pub classify_order_action : OrderSide → Decimal → OrderAction
classify_order_action buy existing = if leb_ℤ (pos 0) existing then increase_long else reduce_short
classify_order_action sell existing = if leb_ℤ existing (pos 0) then increase_short else reduce_long

abbrev pub reduces : OrderAction → Bool
reduces reduce_short = true
reduces reduce_long = true
reduces _ = false

abbrev pub blocked : Bool × GateReason → Bool × GateReason
blocked (allowed, reason) = (not allowed, reason)

-- With the default ages.
unfoldable pub new_risk_blocked_for_action :
    Time → Option MarketState → OrderSide → Decimal → Bool × GateReason
unfolding classify_order_action can_add_risk
new_risk_blocked_for_action now m side existing =
    if reduces (classify_order_action side existing)
    then (false, risk_reducing_allowed)
    else blocked (can_add_risk 5 10 now m)

-- The order works against the position.
abbrev Opposes : OrderSide → Decimal → Type 0
Opposes buy existing = existing <ℤ pos 0
Opposes sell existing = pos 0 <ℤ existing

-- An order is not blocked exactly if it works against the position that is held, whatever the state of
-- the market's data, or the data allow new risk.
new_risk_blocked_for_action-exact :
    (now : Time) (m : Option MarketState) (side : OrderSide) (existing : Decimal)
    → ((new_risk_blocked_for_action now m side existing).0 ≡ false)
      ↔ (Opposes side existing ⊎ ((can_add_risk 5 10 now m).0 ≡ true))
unfolding new_risk_blocked_for_action classify_order_action
new_risk_blocked_for_action-exact now m buy existing = ground arith
new_risk_blocked_for_action-exact now m sell existing = ground arith
