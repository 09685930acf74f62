-- ===== src/Order/Fills.antt =====
-- src/crypto_trader/order/manager.py: `OrderManager.apply_fill` and its commit.
pub mod Idempotence
pub mod Quantities
use crypto_auto_trading_syst.Base.{
  Bool, true, false, not, ◌&&◌, ◌||◌, Option, none, some, List, [], ◌∷◌, ◌++◌, any, update, Result,
  ok, err, attribute_error, integrity_error, order_not_found, invalid_state_transition,
  if◌then◌else◌, ◌==◌,
}
use crypto_auto_trading_syst.Int.{pos, ltb_ℤ, eqb_ℤ}
use crypto_auto_trading_syst.Decimal.{Decimal, Context, add, mul, div, is_positive}
use crypto_auto_trading_syst.Domain.Enums.{
  OrderEventType, order_filled, order_partially_filled, OrderStatus,
}
use crypto_auto_trading_syst.Domain.Models.{Text, Order, OrderEvent, Fill}
use crypto_auto_trading_syst.Order.Store.{
  Store, Action, OtherTasks, truthy, option_is, has_id, has_event_id, has_fill_id, get,
  get_by_exchange, get_fill, exchange_taken,
}
use crypto_auto_trading_syst.Order.StateMachine.{status_eq, TransitionResult, transition}
use crypto_auto_trading_syst.Order.Manager.{or_zero, or_else}

-- The result, with the calls that were made of the settlement callback.
pub record FillOutcome : Type 0 where
  pub order : Order
  pub fill : Fill
  pub newly_applied : Bool
  pub settled : List Fill

-- The identifiers that `new_id` draws: the row's last event, the event's own, the trade's.
pub record NewIds : Type 0 where
  pub last_event : Text
  pub event : Text
  pub trade : Text

abbrev pub by_exchange : Option Text → Store → Option Order
by_exchange none s = none
by_exchange (some x) s = get_by_exchange x s

abbrev pub or_by_id : Option Order → Text → Store → Option Order
or_by_id (some o) id s = some o
or_by_id none id s = get id s

-- The order that a fill belongs to: by its exchange id, if it has one, else by its own id.
unfoldable pub order_of_fill : Fill → Store → Option Order
order_of_fill fill s =
    or_by_id (if truthy fill.exchange_order_id then by_exchange fill.exchange_order_id s else none)
      fill.order_id s

abbrev pub fill_event : Bool → OrderEventType
fill_event true = order_filled
fill_event false = order_partially_filled

module _ (c : Context) where
  -- The average price over what was filled before and the new fill.
  unfoldable pub average_price : Order → Fill → Decimal → Decimal
  average_price o fill new_filled =
      let previous_total = mul c o.filled_quantity (or_zero o.avg_fill_price) in
      let incremental = mul c fill.price fill.quantity in
      if is_positive new_filled then div c (add c previous_total incremental) new_filled else pos 0

-- The columns that `apply_fill` sets.
abbrev pub filled_row : Fill → NewIds → Decimal → Decimal → OrderStatus → Order → Order
filled_row fill ids new_filled new_avg status o = record o {
  filled_quantity = new_filled;
  avg_fill_price = some new_avg;
  status = status;
  updated_at = fill.timestamp;
  last_event_id = some ids.last_event;
  exchange_order_id = or_else fill.exchange_order_id o.exchange_order_id;
}

abbrev pub price_is : Option Decimal → Decimal → Bool
price_is none price = false
price_is (some p) price = eqb_ℤ p price

-- What becomes of the row in the table, where other tasks may have written since it was read: the
-- status and the average price are written only if they differ from what was read.
abbrev pub written_row : Order → Fill → NewIds → Decimal → Decimal → OrderStatus → Order → Order
written_row read fill ids new_filled new_avg status current =
    record (filled_row fill ids new_filled new_avg status current) {
      status = if status_eq status read.status then current.status else status;
      avg_fill_price =
          if price_is read.avg_fill_price new_avg then current.avg_fill_price else some new_avg;
    }

abbrev pub event_of_fill : Order → Fill → NewIds → OrderEventType → OrderStatus → OrderEvent
event_of_fill row fill ids event_type status = record {
  event_id = ids.event;
  order_id = row.internal_order_id;
  client_order_id = row.client_order_id;
  exchange_order_id = row.exchange_order_id;
  event_type = event_type;
  status_after = status;
  timestamp = fill.timestamp;
}

abbrev pub fill_row : Order → Fill → NewIds → Fill
fill_row row fill ids = record fill {
  trade_id = if truthy fill.trade_id then fill.trade_id else some ids.trade;
  order_id = row.internal_order_id;
  client_order_id = some row.client_order_id;
  exchange_order_id = row.exchange_order_id;
}

abbrev pub same_trade : Fill → Fill → Bool
same_trade f g = elim f.trade_id [ none ↦ false | some t ↦ option_is t g.trade_id ]

-- A unique constraint that the commit of a new fill would violate.
abbrev pub fill_violates : Order → Fill → OrderEvent → Store → Bool
fill_violates row fill event s =
    any (has_fill_id fill.fill_id) s.fills
    || any (same_trade fill) s.fills
    || any (has_event_id event.event_id) s.events
    || exchange_taken row.internal_order_id row.exchange_order_id s.orders

-- The result for a fill that is already there.
abbrev pub known_fill : Option Order → Fill → Result FillOutcome
known_fill none existing = err attribute_error
known_fill (some o) existing =
    ok (record { order = o; fill = existing; newly_applied = false; settled = [] })

abbrev pub after_race : Option Fill → Action FillOutcome
after_race none s = (err integrity_error, s)
after_race (some existing) s = (known_fill (get existing.order_id s) existing, s)

-- With a callback, it is awaited on the new fill.
abbrev pub settlements : Bool → Fill → List Fill
settlements true fill = fill ∷ []
settlements false fill = []

module _ (c : Context) (has_callback : Bool) (others : OtherTasks) (fill : Fill)
    (ids : NewIds) where
  -- Writes the row that was computed from `o`, the event and the fill, in one transaction.
  abbrev pub commit_fill : Order → Decimal → OrderEventType → OrderStatus → Action FillOutcome
  commit_fill o new_filled event_type status s =
      let row = filled_row fill ids new_filled (average_price c o fill new_filled) status o in
      let event = event_of_fill row fill ids event_type status in
      let new_fill = fill_row row fill ids in
      if fill_violates row new_fill event s then after_race (get_fill fill.fill_id s) s else (
        ok (record {
          order = row;
          fill = fill;
          newly_applied = true;
          settled = settlements has_callback fill;
        }),
        record {
          orders =
              update (has_id o.internal_order_id)
                (written_row o fill ids new_filled (average_price c o fill new_filled) status)
                s.orders;
          events = s.events ++ event ∷ [];
          fills = s.fills ++ new_fill ∷ [];
        },
      )

  abbrev pub step_fill :
      Order → Decimal → OrderEventType → Result TransitionResult → Action FillOutcome
  step_fill o new_filled event_type (err e) s = (err e, s)
  step_fill o new_filled event_type (ok r) s =
      commit_fill o new_filled event_type r.new_status (others s)

  abbrev pub fill_order : Option Order → Action FillOutcome
  fill_order none s = (err order_not_found, s)
  fill_order (some o) s =
      let new_filled = add c o.filled_quantity fill.quantity in
      let event_type = fill_event (eqb_ℤ new_filled o.quantity) in
      if ltb_ℤ o.quantity new_filled
      then (err invalid_state_transition, s)
      else step_fill o new_filled event_type (transition o.status event_type) s

  abbrev pub apply_or_known : Option Fill → Action FillOutcome
  apply_or_known (some existing) s = (known_fill (get existing.order_id s) existing, s)
  apply_or_known none s = fill_order (order_of_fill fill s) s

  unfoldable pub apply_fill : Action FillOutcome
  apply_fill s = apply_or_known (get_fill fill.fill_id s) s
