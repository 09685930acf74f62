-- ===== src/Order/Manager/Transitions.antt =====
-- src/crypto_trader/order/manager.py: `transition` and what other tasks write meanwhile.
use crypto_auto_trading_syst.Base.{
  ◌≡◌, refl, sym, inl, inr, Bool, true, false, not, ◌&&◌, some, ok, err, any, arith, Bool-cases,
  Result,
}
use mathlib.Core.Path.{subst}
use crypto_auto_trading_syst.Base.Tables.{find-update, find-holds}
use crypto_auto_trading_syst.Domain.Enums.{OrderEventType, OrderStatus}
use crypto_auto_trading_syst.Domain.Models.{Text, Order, OrderEvent}
use crypto_auto_trading_syst.Order.Store.{
  Store, OtherTasks, has_id, has_event_id, get, truthy, exchange_taken,
}
use crypto_auto_trading_syst.Order.StateMachine.{TransitionResult, transition as machine}
use crypto_auto_trading_syst.Order.StateMachine.Laws.{transition-reports}
use crypto_auto_trading_syst.Order.Manager.{
  EventArgs, returned, record_row, record_event, transition,
}

-- No unique constraint stands in the way of recording the event on the order of that id.
abbrev pub CanRecord : Text → EventArgs → Store → Type 0
CanRecord id args s =
    (any (has_event_id args.event_id) s.events ≡ false)
    × (truthy args.exchange_order_id && exchange_taken id args.exchange_order_id s.orders ≡ false)

record_event-writes :
    (order : Order) (id : Text) (e : OrderEventType) (status : OrderStatus) (args : EventArgs)
    (s : Store) {o : Order}
    → order.internal_order_id ≡ id
    → get id s ≡ some o
    → CanRecord id args s
    → get id (record_event order e status args s).1 ≡ some (record_row status args o)
unfolding record_event get
record_event-writes order id e status args s {o} same found free = ground (
  arith,
  find-update (λ (x : Order). x.internal_order_id) order.internal_order_id (record_row status args)
      s.orders (λ x. refl),
)

returned-store :
    (noop : Bool) (order : Order) (r : Result OrderEvent × Store) → (returned noop order r).1 ≡ r.1
returned-store true order (ok e, s) = refl
returned-store false order (ok e, s) = refl
returned-store true order (err e, s) = refl
returned-store false order (err e, s) = refl

get-id : (id : Text) (s : Store) {o : Order} → get id s ≡ some o → o.internal_order_id ≡ id
unfolding get
get-id id s {o} h = ground (arith, find-holds (has_id id) s.orders {x = o} h)

noop-same :
    (status : OrderStatus) (e : OrderEventType) {r : TransitionResult}
    → machine status e ≡ ok r
    → r.noop && not r.changed ≡ true
    → r.new_status ≡ status
noop-same status e {r} h noop = ground (arith, transition-reports status e {r = r} h)

-- An accepted event is recorded with the status that the machine gives for the status *read*: the
-- row that other tasks leave in the meantime keeps its other columns, and its status is overwritten,
-- whatever it is.
pub transition_overwrites :
    (others : OtherTasks) (order_id : Text) (e : OrderEventType) (args : EventArgs) (s : Store)
    {o now_there : Order} {r : TransitionResult}
    → get order_id s ≡ some o
    → machine o.status e ≡ ok r
    → get order_id (others s) ≡ some now_there
    → CanRecord order_id args (others s)
    → get order_id (transition others order_id e args s).1
      ≡ some (record_row r.new_status args now_there)
unfolding transition
transition_overwrites others order_id e args s {o} {now_there} {r} found accepted there free =
    let same : o.internal_order_id ≡ order_id = get-id order_id s found in
    elim (Bool-cases (r.noop && not r.changed)) [
      | inl noop ↦
          rw
            (
              found,
              accepted,
              noop,
              returned-store true o (record_event o e o.status args (others s)),
            )
            (subst
              (λ status.
                get order_id (record_event o e o.status args (others s)).1
                ≡ some (record_row status args now_there))
              (sym (noop-same o.status e accepted noop))
              (record_event-writes o order_id e o.status args (others s) same there free))
      | inr moves ↦
          rw
            (
              found,
              accepted,
              moves,
              returned-store false o (record_event o e r.new_status args (others s)),
            )
            (record_event-writes o order_id e r.new_status args (others s) same there free)
    ]
