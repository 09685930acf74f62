-- ===== src/Order/Store.antt =====
-- The tables that src/crypto_trader/order/manager.py keeps (persistence/models.py: orders,
-- order_events, fills), their queries, and the unique constraints that a commit checks.
-- A method of the manager takes the store and returns its result with the store after it. Between a
-- read and a commit of a method other tasks may commit: what they do is the argument
-- `others : Store → Store` of the method, the identity where nobody interferes.
use crypto_auto_trading_syst.Base.{
  Bool, true, false, Option, none, some, List, not, ◌&&◌, find, any, Result, ◌==◌,
}
use crypto_auto_trading_syst.Domain.Models.{Text, Order, OrderEvent, Fill}

pub record Store : Type 0 where
  pub orders : List Order
  pub events : List OrderEvent
  pub fills : List Fill

abbrev pub Action : Type 0 → Type 0
Action A = Store → Result A × Store

abbrev pub OtherTasks : Type 0
OtherTasks = Store → Store

-- A text that is there and not empty.
abbrev pub truthy : Option Text → Bool
truthy none = false
truthy (some t) = elim (t == 0) [ true ↦ false | false ↦ true ]

abbrev pub option_is : Text → Option Text → Bool
option_is t none = false
option_is t (some u) = u == t

abbrev pub has_id : Text → Order → Bool
has_id id o = o.internal_order_id == id

abbrev pub has_client : Text → Order → Bool
has_client id o = o.client_order_id == id

abbrev pub has_exchange : Text → Order → Bool
has_exchange id o = option_is id o.exchange_order_id

abbrev pub has_fill_id : Text → Fill → Bool
has_fill_id id f = f.fill_id == id

abbrev pub has_event_id : Text → OrderEvent → Bool
has_event_id id e = e.event_id == id

-- `OrderManager.get`, `get_by_client`, `get_by_exchange`, `get_fill`.
unfoldable pub get : Text → Store → Option Order
get id s = find (has_id id) s.orders

unfoldable pub get_by_client : Text → Store → Option Order
get_by_client id s = find (has_client id) s.orders

unfoldable pub get_by_exchange : Text → Store → Option Order
get_by_exchange id s = find (has_exchange id) s.orders

unfoldable pub get_fill : Text → Store → Option Fill
get_fill id s = find (has_fill_id id) s.fills

unfoldable pub get_event : Text → Store → Option OrderEvent
get_event id s = find (has_event_id id) s.events

abbrev pub held_by_other : Text → Text → Order → Bool
held_by_other exchange_id id o = has_exchange exchange_id o && not (has_id id o)

-- The row of another order already holds the exchange id that the row of `id` is to get.
abbrev pub exchange_taken : Text → Option Text → List Order → Bool
exchange_taken id none os = false
exchange_taken id (some x) os = any (held_by_other x id) os
