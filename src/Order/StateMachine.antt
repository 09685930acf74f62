-- ===== src/Order/StateMachine.antt =====
-- src/crypto_trader/order/state_machine.py: the table of order transitions and its lookup.
pub mod Laws
use crypto_auto_trading_syst.Base.{
  Bool, true, false, not, Option, none, some, Result, ok, err, invalid_state_transition, List, [],
  ◌∷◌, if◌then◌else◌,
}
use crypto_auto_trading_syst.Domain.Enums.{
  OrderStatus, created, validated, submitting, submitted, acknowledged, open_order,
  partially_filled, filled, cancel_pending, cancelled, rejected, expired, unknown, OrderEventType,
  order_validated, order_submitting, order_submitted, order_acknowledged, order_opened,
  order_partially_filled, order_filled, order_cancel_pending, order_cancelled, order_rejected,
  order_expired, order_unknown,
}

-- `_TRANSITIONS`, as the lookup that the code makes in it.
unfoldable pub transitions : OrderStatus → OrderEventType → Option OrderStatus
transitions created order_validated = some validated
transitions created order_rejected = some rejected
transitions validated order_submitting = some submitting
transitions validated order_rejected = some rejected
transitions submitting order_submitted = some submitted
transitions submitting order_acknowledged = some acknowledged
transitions submitting order_opened = some open_order
transitions submitting order_partially_filled = some partially_filled
transitions submitting order_filled = some filled
transitions submitting order_rejected = some rejected
transitions submitting order_unknown = some unknown
transitions submitted order_acknowledged = some acknowledged
transitions submitted order_opened = some open_order
transitions submitted order_partially_filled = some partially_filled
transitions submitted order_filled = some filled
transitions submitted order_rejected = some rejected
transitions submitted order_unknown = some unknown
transitions acknowledged order_opened = some open_order
transitions acknowledged order_partially_filled = some partially_filled
transitions acknowledged order_filled = some filled
transitions acknowledged order_cancel_pending = some cancel_pending
transitions acknowledged order_rejected = some rejected
transitions acknowledged order_unknown = some unknown
transitions open_order order_partially_filled = some partially_filled
transitions open_order order_filled = some filled
transitions open_order order_cancel_pending = some cancel_pending
transitions open_order order_rejected = some rejected
transitions open_order order_expired = some expired
transitions open_order order_unknown = some unknown
transitions partially_filled order_partially_filled = some partially_filled
transitions partially_filled order_filled = some filled
transitions partially_filled order_cancel_pending = some cancel_pending
transitions partially_filled order_rejected = some rejected
transitions partially_filled order_expired = some expired
transitions partially_filled order_unknown = some unknown
transitions cancel_pending order_cancelled = some cancelled
transitions cancel_pending order_partially_filled = some partially_filled
transitions cancel_pending order_filled = some filled
transitions cancelled order_partially_filled = some partially_filled
transitions cancelled order_filled = some filled
transitions unknown order_acknowledged = some acknowledged
transitions unknown order_opened = some open_order
transitions unknown order_partially_filled = some partially_filled
transitions unknown order_filled = some filled
transitions unknown order_cancelled = some cancelled
transitions unknown order_rejected = some rejected
transitions unknown order_expired = some expired
transitions _ _ = none

-- `_NOOP_EVENTS`, as a membership test.
unfoldable pub noop_events : OrderStatus → OrderEventType → Bool
noop_events acknowledged order_acknowledged = true
noop_events open_order order_acknowledged = true
noop_events open_order order_opened = true
noop_events partially_filled order_acknowledged = true
noop_events partially_filled order_opened = true
noop_events filled order_acknowledged = true
noop_events filled order_opened = true
noop_events cancelled order_cancelled = true
noop_events filled order_filled = true
noop_events rejected order_rejected = true
noop_events expired order_expired = true
noop_events _ _ = false

pub record TransitionResult : Type 0 where
  pub new_status : OrderStatus
  pub changed : Bool
  pub noop : Bool

-- The test of two statuses, which `changed` negates.
abbrev pub status_eq : OrderStatus → OrderStatus → Bool
status_eq created created = true
status_eq validated validated = true
status_eq submitting submitting = true
status_eq submitted submitted = true
status_eq acknowledged acknowledged = true
status_eq open_order open_order = true
status_eq partially_filled partially_filled = true
status_eq filled filled = true
status_eq cancel_pending cancel_pending = true
status_eq cancelled cancelled = true
status_eq rejected rejected = true
status_eq expired expired = true
status_eq unknown unknown = true
status_eq _ _ = false

abbrev lookup_result : OrderStatus → OrderEventType → Option OrderStatus → Result TransitionResult
lookup_result current event_type (some s) =
    ok (record { new_status = s; changed = not (status_eq s current); noop = false })
lookup_result current event_type none =
    if noop_events current event_type
    then ok (record { new_status = current; changed = false; noop = true })
    else err invalid_state_transition

-- `OrderStateMachine.transition`.
unfoldable pub transition : OrderStatus → OrderEventType → Result TransitionResult
unfolding transitions noop_events
transition current event_type = lookup_result current event_type (transitions current event_type)

-- The status after one event; a refused event leaves it.
abbrev pub status_after : OrderStatus → Result TransitionResult → OrderStatus
status_after current (ok r) = r.new_status
status_after current (err _) = current

-- The status after a sequence of delivered events.
unfoldable pub deliver : OrderStatus → List OrderEventType → OrderStatus
deliver current [] = current
deliver current (e ∷ es) = deliver (status_after current (transition current e)) es
