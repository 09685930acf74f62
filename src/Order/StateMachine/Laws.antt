-- ===== src/Order/StateMachine/Laws.antt =====
-- src/crypto_trader/order/state_machine.py: the table, event by event and over sequences.
use mathlib.Core.List.{Memᴰ}
use crypto_auto_trading_syst.Base.{
  ◌≡◌, refl, sym, ◌≢◌, ◌⊎◌, inl, inr, ◌↔◌, Bool, true, false, ok, err, invalid_state_transition,
  List, [], ◌∷◌, arith,
}
use crypto_auto_trading_syst.Domain.Enums.{
  OrderStatus, created, validated, partially_filled, filled, cancelled, rejected, expired,
  OrderEventType, order_submitting, order_partially_filled, order_filled, is_terminal,
}
use crypto_auto_trading_syst.Order.StateMachine.{
  TransitionResult, transition, status_after, deliver,
}

-- An accepted event reports `changed` exactly when the status moves, and a no-op never moves it.
pub transition-reports :
    (s : OrderStatus) (e : OrderEventType) {r : TransitionResult}
    → transition s e ≡ ok r
    → ((r.changed ≡ true) ↔ (r.new_status ≢ s)) × ((r.noop ≡ false) ⊎ (r.new_status ≡ s))
unfolding transition
transition-reports s e h = ground arith

-- Filled, rejected and expired: the statuses that no event leaves.
abbrev pub IsFinal : OrderStatus → Type 0
IsFinal s = (s ≡ filled) ⊎ ((s ≡ rejected) ⊎ (s ≡ expired))

transition-IsFinal :
    (s : OrderStatus) (e : OrderEventType) → IsFinal s → status_after s (transition s e) ≡ s
unfolding transition
transition-IsFinal s e h = ground arith

-- A filled, rejected or expired order keeps its status under every sequence of events.
pub final_absorbs : (s : OrderStatus) (es : List OrderEventType) → IsFinal s → deliver s es ≡ s
unfolding deliver
final_absorbs s [] h = refl
final_absorbs s (e ∷ es) h = rw (transition-IsFinal s e h) (final_absorbs s es h)

-- The only ways out of a terminal status are the two fills that win the race with a cancellation.
terminal_left :
    (s : OrderStatus) (e : OrderEventType)
    → is_terminal s ≡ true
    → status_after s (transition s e) ≢ s
    → (s ≡ cancelled)
      × (((e ≡ order_partially_filled) × (status_after s (transition s e) ≡ partially_filled))
          ⊎ ((e ≡ order_filled) × (status_after s (transition s e) ≡ filled)))
unfolding transition
terminal_left s e h k = ground arith

-- The statuses before the order has been handed to the exchange, and the one of a refusal there.
abbrev pub is_unsent : OrderStatus → Bool
is_unsent created = true
is_unsent validated = true
is_unsent rejected = true
is_unsent _ = false

unsent_left :
    (s : OrderStatus) (e : OrderEventType)
    → is_unsent s ≡ true
    → (e ≡ order_submitting) ⊎ (is_unsent (status_after s (transition s e)) ≡ true)
unfolding transition
unsent_left s e h = ground arith

sent_needs_submitting :
    (s : OrderStatus) (es : List OrderEventType)
    → is_unsent s ≡ true
    → is_unsent (deliver s es) ≡ false
    → Memᴰ order_submitting es
unfolding deliver
sent_needs_submitting s [] h k = cc
sent_needs_submitting s (e ∷ es) h k = elim (unsent_left s e h) [
  | inl p ↦ Memᴰ.head (sym p)
  | inr q ↦ Memᴰ.tail (sent_needs_submitting (status_after s (transition s e)) es q k)
]

-- Whatever events arrive, a new order that is neither waiting nor rejected has been through the
-- event that hands it to the exchange: no acknowledgement or fill can come before it.
created_needs_submitting :
    (es : List OrderEventType) → is_unsent (deliver created es) ≡ false → Memᴰ order_submitting es
created_needs_submitting es h = sent_needs_submitting created es refl h

-- A fill is accepted exactly when the order is at the exchange, or was cancelled there, or is
-- already filled and hears of its last fill again.
abbrev pub takes_last_fill : OrderStatus → Bool
takes_last_fill created = false
takes_last_fill validated = false
takes_last_fill rejected = false
takes_last_fill expired = false
takes_last_fill _ = true

-- The event of a last fill leaves every status that takes it for `filled`, and is refused elsewhere.
last_fill_decides :
    (s : OrderStatus)
    → ((takes_last_fill s ≡ true) × (status_after s (transition s order_filled) ≡ filled))
      ⊎ ((takes_last_fill s ≡ false) × (transition s order_filled ≡ err invalid_state_transition))
unfolding transition
last_fill_decides s = ground arith
