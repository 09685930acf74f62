-- ===== src/Runtime/Recovery.antt =====
-- src/crypto_trader/runtime/recovery.py: what becomes of the open orders at a start. The adapter's
-- `get_order` is an argument; the texts of reasons and fill ids are too. The list of actions and the
-- audit log are left out.
pub mod Aborts
use crypto_auto_trading_syst.Base.{
  ℕ, Bool, true, false, not, ◌&&◌, ◌||◌, Option, none, some, List, [], ◌∷◌, Result, Error, Done, ok,
  err, order_not_found, ◌==◌, if◌then◌else◌,
}
use crypto_auto_trading_syst.Int.{pos, ltb_ℤ}
use crypto_auto_trading_syst.Decimal.{Decimal, Context, sub, is_zero}
use crypto_auto_trading_syst.Domain.Enums.{
  OrderStatus, created, validated, submitting, submitted, acknowledged, open_order,
  partially_filled, filled, cancel_pending, cancelled, rejected, expired, unknown, OrderEventType,
  order_acknowledged, order_opened, order_partially_filled, order_filled, order_cancelled,
  order_cancel_pending, order_rejected, order_expired, order_unknown,
}
use crypto_auto_trading_syst.Domain.Models.{Text, Time, Order, Fill}
use crypto_auto_trading_syst.Order.Store.{Store, OtherTasks, truthy}
use crypto_auto_trading_syst.Order.StateMachine.{status_eq}
use crypto_auto_trading_syst.Order.Manager.{or_zero, no_args, transition}
use crypto_auto_trading_syst.Order.Lifecycle.{reject, cancel_confirm, expire, list_open}
use crypto_auto_trading_syst.Order.Fills.{NewIds, apply_fill}

unfoldable pub event_type_for_exchange_status : OrderStatus → OrderEventType
event_type_for_exchange_status acknowledged = order_acknowledged
event_type_for_exchange_status open_order = order_opened
event_type_for_exchange_status partially_filled = order_partially_filled
event_type_for_exchange_status filled = order_filled
event_type_for_exchange_status cancelled = order_cancelled
event_type_for_exchange_status cancel_pending = order_cancel_pending
event_type_for_exchange_status rejected = order_rejected
event_type_for_exchange_status expired = order_expired
event_type_for_exchange_status _ = order_unknown

-- The texts that the service composes.
pub record Texts : Type 0 where
  pub no_id : Text
  pub not_found : Text
  pub rejected_on_exchange : Text
  pub fill_id : Option Text → Decimal → Text
  pub partial_fill_id : Option Text → Text

-- What is drawn for an order, and what other tasks commit meanwhile.
pub record Draw : Type 0 where
  pub event_id : Text
  pub trade_id : Text
  pub ids : NewIds
  pub now : Time
  pub others : OtherTasks

abbrev pub done_of {ℓ} : {A : Type ℓ} → Result A × Store → Done × Store
done_of (err e, s) = (err e, s)
done_of (ok a, s) = (ok tt, s)

abbrev pub and_then : Done × Store → (Store → Done × Store) → Done × Store
and_then (err e, s) next = (err e, s)
and_then (ok _, s) next = next s

abbrev pub text_or : Option Text → Text → Text
text_or none other = other
text_or (some t) other = if t == 0 then other else t

-- `a or b or Decimal("0")` on optional prices.
abbrev pub price_or : Option Decimal → Option Decimal → Decimal
price_or none other = or_zero other
price_or (some x) other = if is_zero x then or_zero other else x

abbrev pub is_filled : OrderStatus → Bool
is_filled filled = true
is_filled _ = false

abbrev pub is_partially_filled : OrderStatus → Bool
is_partially_filled partially_filled = true
is_partially_filled _ = false

abbrev pub is_not_found : Error → Bool
is_not_found order_not_found = true
is_not_found _ = false

module _ (c : Context) (has_callback : Bool) (texts : Texts) (d : Draw) where
  abbrev pub recovery_fill : Text → Order → Order → Fill
  recovery_fill fill_id local exchange = record {
    fill_id = fill_id;
    trade_id = some d.trade_id;
    order_id = local.internal_order_id;
    client_order_id = some local.client_order_id;
    exchange_order_id = exchange.exchange_order_id;
    symbol = local.symbol;
    side = local.side;
    price = price_or exchange.avg_fill_price exchange.price;
    quantity = sub c exchange.filled_quantity local.filled_quantity;
    fee = pos 0;
    fee_currency = none;
    timestamp = d.now;
  }

  unfoldable pub fill_from_exchange : Text → Order → Order → Store → Done × Store
  unfolding apply_fill
  fill_from_exchange fill_id local exchange s =
      done_of (apply_fill c has_callback d.others (recovery_fill fill_id local exchange) d.ids s)

  abbrev pub behind : Order → Order → Bool
  behind local exchange = ltb_ℤ local.filled_quantity exchange.filled_quantity

  unfoldable pub recover_filled : Order → Order → Store → Done × Store
  unfolding fill_from_exchange
  recover_filled local exchange s =
      if is_filled exchange.status && behind local exchange
      then fill_from_exchange (texts.fill_id exchange.exchange_order_id exchange.filled_quantity)
          local exchange s
      else (ok tt, s)

  -- The calls for a status that differs from the local one.
  unfoldable pub follow_status : OrderStatus → Order → Order → Store → Done × Store
  unfolding transition cancel_confirm reject expire event_type_for_exchange_status
  follow_status open_order local exchange s = done_of (
      transition d.others local.internal_order_id (event_type_for_exchange_status open_order)
        (record (no_args d.event_id d.now) { exchange_order_id = exchange.exchange_order_id }) s)
  follow_status acknowledged local exchange s = done_of (
      transition d.others local.internal_order_id (event_type_for_exchange_status acknowledged)
        (record (no_args d.event_id d.now) { exchange_order_id = exchange.exchange_order_id }) s)
  follow_status cancelled local exchange s =
      done_of (cancel_confirm d.others local.internal_order_id d.event_id d.now s)
  follow_status rejected local exchange s = done_of (
      reject d.others local.internal_order_id d.event_id d.now
        (text_or exchange.rejection_reason texts.rejected_on_exchange) s)
  follow_status expired local exchange s =
      done_of (expire d.others local.internal_order_id d.event_id d.now s)
  follow_status _ local exchange s = (ok tt, s)

  unfoldable pub recover_status : Order → Order → Store → Done × Store
  unfolding fill_from_exchange follow_status
  recover_status local exchange s =
      if is_partially_filled exchange.status && behind local exchange
      then fill_from_exchange (texts.partial_fill_id exchange.exchange_order_id) local exchange s
      else if status_eq exchange.status local.status
      then (ok tt, s)
      else follow_status exchange.status local exchange s

  unfoldable pub recover_found : Order → Result Order → Store → Done × Store
  unfolding recover_filled recover_status reject
  recover_found local (ok exchange) s =
      and_then (recover_filled local exchange s) (recover_status local exchange)
  recover_found local (err e) s =
      if is_not_found e
      then done_of (reject d.others local.internal_order_id d.event_id d.now texts.not_found s)
      else (err e, s)

  -- The body of the loop.
  unfoldable pub recover_order : (Text → Text → Result Order) → Order → Store → Done × Store
  unfolding recover_found reject
  recover_order get_order local s =
      let key = text_or local.exchange_order_id local.client_order_id in
      if key == 0
      then done_of (reject d.others local.internal_order_id d.event_id d.now texts.no_id s)
      else recover_found local (get_order local.symbol key) s

module _ (c : Context) (has_callback : Bool) (texts : Texts) (draw : Order → Draw)
    (get_order : Text → Text → Result Order) where
  unfoldable pub recover_orders : List Order → Store → Done × Store
  unfolding recover_order
  recover_orders [] s = (ok tt, s)
  recover_orders (o ∷ os) s =
      and_then (recover_order c has_callback texts (draw o) get_order o s) (recover_orders os)

  unfoldable pub recover : Store → Done × Store
  unfolding recover_orders list_open
  recover s = recover_orders (list_open s) s
