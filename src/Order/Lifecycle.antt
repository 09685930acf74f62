-- ===== src/Order/Lifecycle.antt =====
-- src/crypto_trader/order/manager.py: the named transitions, and the read-only lists.
use crypto_auto_trading_syst.Base.{
  ℕ, Bool, true, false, Option, some, List, length, select, any, take, sort_by, leb, ◌==◌,
}
use crypto_auto_trading_syst.Domain.Enums.{
  OrderStatus, submitted, acknowledged, open_order, partially_filled, cancel_pending, unknown,
  order_validated, order_submitting, order_submitted, order_acknowledged, order_opened,
  order_cancel_pending, order_cancelled, order_rejected, order_expired, order_unknown,
}
use crypto_auto_trading_syst.Domain.Models.{Text, Time, Order, OrderEvent, Fill}
use crypto_auto_trading_syst.Order.Store.{Store, Action, OtherTasks}
use crypto_auto_trading_syst.Order.Manager.{no_args, transition}

module _ (others : OtherTasks) (order_id event_id : Text) (now : Time) where
  unfoldable pub validate : Action (Option Order)
  unfolding transition
  validate = transition others order_id order_validated (no_args event_id now)

  unfoldable pub submitting_order : Action (Option Order)
  unfolding transition
  submitting_order = transition others order_id order_submitting (no_args event_id now)

  unfoldable pub submitted_order : Action (Option Order)
  unfolding transition
  submitted_order = transition others order_id order_submitted (no_args event_id now)

  unfoldable pub ack : Text → Action (Option Order)
  unfolding transition
  ack exchange_order_id =
      transition others order_id order_acknowledged
        (record (no_args event_id now) { exchange_order_id = some exchange_order_id })

  unfoldable pub opened : Action (Option Order)
  unfolding transition
  opened = transition others order_id order_opened (no_args event_id now)

  unfoldable pub cancel_pending_order : Action (Option Order)
  unfolding transition
  cancel_pending_order = transition others order_id order_cancel_pending (no_args event_id now)

  unfoldable pub cancel_confirm : Action (Option Order)
  unfolding transition
  cancel_confirm = transition others order_id order_cancelled (no_args event_id now)

  unfoldable pub reject : Text → Action (Option Order)
  unfolding transition
  reject reason =
      transition others order_id order_rejected
        (record (no_args event_id now) { rejection_reason = some reason })

  unfoldable pub expire : Action (Option Order)
  unfolding transition
  expire = transition others order_id order_expired (no_args event_id now)

  unfoldable pub mark_unknown : Action (Option Order)
  unfolding transition
  mark_unknown = transition others order_id order_unknown (no_args event_id now)

-- The statuses that `list_open` asks for.
abbrev pub counts_as_open : OrderStatus → Bool
counts_as_open submitted = true
counts_as_open acknowledged = true
counts_as_open open_order = true
counts_as_open partially_filled = true
counts_as_open cancel_pending = true
counts_as_open unknown = true
counts_as_open _ = false

unfoldable pub list_open : Store → List Order
list_open s = select (λ o. counts_as_open o.status) s.orders

unfoldable pub count_open : Store → ℕ
unfolding list_open
count_open s = length (list_open s)

-- The newest first, at most `limit`.
unfoldable pub list_all : ℕ → Store → List Order
list_all limit s = take limit (sort_by (λ a b. leb b.created_at a.created_at) s.orders)

abbrev pub is_among : List Text → Text → Bool
is_among ids id = any (λ i. i == id) ids

-- The fills of a batch of orders, the oldest first.
unfoldable pub list_fills_for_orders : List Text → Store → List Fill
list_fills_for_orders ids s =
    sort_by (λ a b. leb a.timestamp b.timestamp) (select (λ f. is_among ids f.order_id) s.fills)

-- Events come in the order in which they were recorded.
unfoldable pub list_events : Text → Store → List OrderEvent
list_events order_id s = select (λ e. e.order_id == order_id) s.events
