-- ===== src/Order/Manager.antt =====
-- src/crypto_trader/order/manager.py: creation of orders from intents, and their transitions.
-- `apply_fill` is in Order/Fills.antt. Identifiers that `new_id` draws and the clock are arguments.
pub mod Creation
pub mod Transitions
pub mod Kept
use crypto_auto_trading_syst.Base.{
  ℕ, Bool, true, false, not, ◌&&◌, ◌||◌, Option, none, some, List, [], ◌∷◌, ◌++◌, any, update,
  Result, ok, err, idempotency_conflict, integrity_error, order_not_found, ◌==◌, if◌then◌else◌,
}
use crypto_auto_trading_syst.Int.{pos, eqb_ℤ}
use crypto_auto_trading_syst.Decimal.{Decimal}
use crypto_auto_trading_syst.Domain.Enums.{
  OrderStatus, created, OrderEventType, order_created, order_validated, order_submitting,
  order_submitted, order_acknowledged, order_opened, order_cancel_pending, order_cancelled,
  order_rejected, order_expired, order_unknown, TradingMode, side_eq, order_type_eq,
}
use crypto_auto_trading_syst.Domain.Models.{Text, Time, OrderIntent, Order, OrderEvent}
use crypto_auto_trading_syst.Order.Store.{
  Store, Action, OtherTasks, truthy, has_id, has_client, has_event_id, get, get_by_client,
  get_event, exchange_taken,
}
use crypto_auto_trading_syst.Order.StateMachine.{TransitionResult, transition as machine}

-- `price or Decimal("0")`
abbrev pub or_zero : Option Decimal → Decimal
or_zero none = pos 0
or_zero (some x) = x

-- The test of `_reuse_or_conflict`.
unfoldable pub same_order : Order → OrderIntent → Bool
same_order existing intent =
    existing.symbol == intent.symbol
    && side_eq existing.side intent.side
    && order_type_eq existing.order_type intent.order_type
    && eqb_ℤ (or_zero existing.price) (or_zero intent.price)
    && eqb_ℤ existing.quantity intent.quantity

unfoldable pub reuse_or_conflict : Order → OrderIntent → Result Order
reuse_or_conflict existing intent =
    if same_order existing intent then ok existing else err idempotency_conflict

-- The row of `create_from_intent`.
abbrev pub new_order : OrderIntent → TradingMode → Text → Time → Order
new_order intent mode order_id now = record {
  internal_order_id = order_id;
  client_order_id = intent.client_order_id;
  exchange_order_id = none;
  symbol = intent.symbol;
  side = intent.side;
  order_type = intent.order_type;
  time_in_force = intent.time_in_force;
  price = intent.price;
  quantity = intent.quantity;
  filled_quantity = pos 0;
  avg_fill_price = none;
  status = created;
  trading_mode = mode;
  strategy_id = intent.strategy_id;
  run_id = intent.run_id;
  created_at = now;
  updated_at = now;
  expires_at = intent.expires_at;
  rejection_reason = none;
  last_event_id = none;
  market_type = intent.market_type;
  position_side = intent.position_side;
  reduce_only = intent.reduce_only;
}

abbrev pub created_event : OrderIntent → Text → Text → Time → OrderEvent
created_event intent order_id event_id now = record {
  event_id = event_id;
  order_id = order_id;
  client_order_id = intent.client_order_id;
  exchange_order_id = none;
  event_type = order_created;
  status_after = created;
  timestamp = now;
}

-- The handler of `except IntegrityError` round the commit.
abbrev pub after_conflict : Option Order → OrderIntent → Result Order
after_conflict (some existing) intent = reuse_or_conflict existing intent
after_conflict none intent = err integrity_error

-- `session.flush()` sends the row of the order, so a violation of the unique constraints of the
-- orders is raised there, outside the `try`; the commit sends the event.
unfoldable pub insert_order : OrderIntent → TradingMode → Text → Text → Time → Action Order
insert_order intent mode order_id event_id now s =
    let row = new_order intent mode order_id now in
    if any (has_client intent.client_order_id) s.orders || any (has_id order_id) s.orders
    then (err integrity_error, s)
    else if any (has_event_id event_id) s.events
    then (after_conflict (get_by_client intent.client_order_id s) intent, s)
    else (
      ok row,
      record s {
        orders = s.orders ++ row ∷ [];
        events = s.events ++ created_event intent order_id event_id now ∷ [];
      },
    )

abbrev create_or_reuse :
    OtherTasks → OrderIntent → TradingMode → Text → Text → Time → Option Order → Action Order
create_or_reuse others intent mode order_id event_id now (some existing) s =
    (reuse_or_conflict existing intent, s)
create_or_reuse others intent mode order_id event_id now none s =
    insert_order intent mode order_id event_id now (others s)

unfoldable pub create_from_intent :
    OtherTasks → OrderIntent → TradingMode → Text → Text → Time → Action Order
create_from_intent others intent mode order_id event_id now s =
    create_or_reuse others intent mode order_id event_id now
      (get_by_client intent.client_order_id s) s

-- The keyword arguments that `transition` passes on to `_record_event`.
pub record EventArgs : Type 0 where
  pub event_id : Text  -- the given one, or the one that `new_id` draws
  pub exchange_order_id : Option Text
  pub rejection_reason : Option Text
  pub now : Time

abbrev pub no_args : Text → Time → EventArgs
no_args event_id now = record {
  event_id = event_id;
  exchange_order_id = none;
  rejection_reason = none;
  now = now;
}

-- `a or b` on optional texts.
abbrev pub or_else : Option Text → Option Text → Option Text
or_else a b = if truthy a then a else b

-- The columns that `_record_event` sets.
abbrev pub record_row : OrderStatus → EventArgs → Order → Order
record_row status args o = record o {
  status = status;
  updated_at = args.now;
  last_event_id = some args.event_id;
  exchange_order_id = or_else args.exchange_order_id o.exchange_order_id;
  rejection_reason = or_else args.rejection_reason o.rejection_reason;
}

abbrev pub new_event : Order → OrderEventType → OrderStatus → EventArgs → OrderEvent
new_event order event_type status args = record {
  event_id = args.event_id;
  order_id = order.internal_order_id;
  client_order_id = order.client_order_id;
  exchange_order_id = or_else args.exchange_order_id order.exchange_order_id;
  event_type = event_type;
  status_after = status;
  timestamp = args.now;
}

abbrev pub event_or_raise : Option OrderEvent → Result OrderEvent
event_or_raise (some e) = ok e
event_or_raise none = err integrity_error

abbrev commit_event :
    Order → OrderEventType → OrderStatus → EventArgs → Option Order → Action OrderEvent
commit_event order event_type status args none s = (err order_not_found, s)
commit_event order event_type status args (some row) s =
    let event = new_event order event_type status args in
    if any (has_event_id args.event_id) s.events
      || (truthy args.exchange_order_id
          && exchange_taken order.internal_order_id args.exchange_order_id s.orders)
    then (event_or_raise (get_event args.event_id s), s)
    else (
      ok event,
      record s {
        orders = update (has_id order.internal_order_id) (record_row status args) s.orders;
        events = s.events ++ event ∷ [];
      },
    )

-- `_record_event`: on a violated constraint the event that is already there is returned.
unfoldable pub record_event : Order → OrderEventType → OrderStatus → EventArgs → Action OrderEvent
record_event order event_type status args s =
    commit_event order event_type status args (get order.internal_order_id s) s

-- What `transition` returns once the event is recorded: the order as it read it for a no-op, and
-- the order as it stands now otherwise (`None` if it is gone).
abbrev returned : Bool → Order → Result OrderEvent × Store → Result (Option Order) × Store
returned noop order (err e, s) = (err e, s)
returned true order (ok e, s) = (ok (some order), s)
returned false order (ok e, s) = (ok (get order.internal_order_id s), s)

abbrev take_step :
    OtherTasks
    → Order
    → OrderEventType
    → EventArgs
    → Result TransitionResult
    → Action (Option Order)
take_step others order event_type args (err e) s = (err e, s)
take_step others order event_type args (ok r) s =
    if r.noop && not r.changed
    then returned true order (record_event order event_type order.status args (others s))
    else returned false order (record_event order event_type r.new_status args (others s))

abbrev transition_found :
    OtherTasks → OrderEventType → EventArgs → Option Order → Action (Option Order)
transition_found others event_type args none s = (err order_not_found, s)
transition_found others event_type args (some order) s =
    take_step others order event_type args (machine order.status event_type) s

-- `OrderManager.transition`.
unfoldable pub transition : OtherTasks → Text → OrderEventType → EventArgs → Action (Option Order)
transition others order_id event_type args s =
    transition_found others event_type args (get order_id s) s
