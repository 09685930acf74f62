-- ===== src/Runtime/Recovery/Aborts.antt =====
-- src/crypto_trader/runtime/recovery.py: an order that the exchange has cancelled.
use crypto_auto_trading_syst.Base.{
  ℕ, ◌≡◌, refl, Bool, false, some, List, ◌∷◌, Result, ok, err, invalid_state_transition, ◌==◌,
}
use crypto_auto_trading_syst.Decimal.{Context}
use crypto_auto_trading_syst.Domain.Enums.{
  OrderStatus, submitted, acknowledged, open_order, partially_filled, cancelled, order_cancelled,
}
use crypto_auto_trading_syst.Domain.Models.{Text, Order}
use crypto_auto_trading_syst.Order.Store.{Store, OtherTasks, get}
use crypto_auto_trading_syst.Order.StateMachine.{
  transition as machine, transitions, noop_events, status_eq,
}
use crypto_auto_trading_syst.Order.Manager.{transition}
use crypto_auto_trading_syst.Order.Lifecycle.{cancel_confirm, list_open}
use crypto_auto_trading_syst.Runtime.Recovery.{
  Texts, Draw, text_or, recover_filled, recover_status, follow_status, recover_found, recover_order,
  recover_orders, recover,
}

-- The statuses of an order that is at the exchange, with no cancellation of ours under way.
pub data IsWorking : OrderStatus → Type 0 where
  at_submitted : IsWorking submitted
  at_acknowledged : IsWorking acknowledged
  at_open : IsWorking open_order
  at_partially_filled : IsWorking partially_filled

working_refuses :
    {status : OrderStatus}
    → IsWorking status
    → machine status order_cancelled ≡ err invalid_state_transition
unfolding machine transitions noop_events
working_refuses at_submitted = refl
working_refuses at_acknowledged = refl
working_refuses at_open = refl
working_refuses at_partially_filled = refl

working-cancelled : {status : OrderStatus} → IsWorking status → status_eq cancelled status ≡ false
working-cancelled at_submitted = refl
working-cancelled at_acknowledged = refl
working-cancelled at_open = refl
working-cancelled at_partially_filled = refl

-- What is asked of the first order: the row is as it was listed, with a name for the query, and the
-- exchange answers that it has cancelled it.
pub record IsCancelledThere (get_order : Text → Text → Result Order) (o exchange : Order)
    (s : Store) : Type 0 where
  pub row : get o.internal_order_id s ≡ some o
  pub working : IsWorking o.status
  pub named : (text_or o.exchange_order_id o.client_order_id == 0) ≡ false
  pub answer : get_order o.symbol (text_or o.exchange_order_id o.client_order_id) ≡ ok exchange
  pub cancelled_there : exchange.status ≡ cancelled

cancel_confirm-raises :
    (others : OtherTasks) (o : Order) (event_id now : ℕ) (s : Store)
    → get o.internal_order_id s ≡ some o
    → IsWorking o.status
    → cancel_confirm others o.internal_order_id event_id now s ≡ (err invalid_state_transition, s)
unfolding cancel_confirm transition
cancel_confirm-raises others o event_id now s row working = rw (row, working_refuses working) refl

recover_order-raises :
    (c : Context) (has_callback : Bool) (texts : Texts) (d : Draw)
    (get_order : Text → Text → Result Order) (o exchange : Order) (s : Store)
    → IsCancelledThere get_order o exchange s
    → recover_order c has_callback texts d get_order o s ≡ (err invalid_state_transition, s)
unfolding recover_order recover_found recover_filled recover_status follow_status
recover_order-raises c has_callback texts d get_order o exchange s h =
    rw
      (
        h.named,
        h.answer,
        h.cancelled_there,
        working-cancelled h.working,
        cancel_confirm-raises d.others o d.event_id d.now s h.row h.working,
      )
      refl

-- If the exchange has cancelled the first open order while it was working and no cancellation of
-- ours was under way, the recovery raises an invalid transition: nothing is written, and none of
-- the other open orders is looked at.
pub recover-raises :
    (c : Context) (has_callback : Bool) (texts : Texts) (draw : Order → Draw)
    (get_order : Text → Text → Result Order) (o exchange : Order) (more : List Order) (s : Store)
    → list_open s ≡ o ∷ more
    → IsCancelledThere get_order o exchange s
    → recover c has_callback texts draw get_order s ≡ (err invalid_state_transition, s)
unfolding recover recover_orders
recover-raises c has_callback texts draw get_order o exchange more s first h =
    rw (first, recover_order-raises c has_callback texts (draw o) get_order o exchange s h) refl
