-- ===== src/Order/Manager/Creation.antt =====
-- src/crypto_trader/order/manager.py: `create_from_intent`, repeated and raced.
use crypto_auto_trading_syst.Base.{
  ◌≡◌, inl, inr, true, none, some, ok, any, arith, Bool-cases, Option-cases,
}
use crypto_auto_trading_syst.Base.Tables.{Unique, Unique-append, find-none, find-append}
use crypto_auto_trading_syst.Domain.Enums.{TradingMode}
use crypto_auto_trading_syst.Domain.Models.{Text, Time, Order, OrderIntent}
use crypto_auto_trading_syst.Order.Store.{
  Store, OtherTasks, has_client, has_id, has_event_id, get_by_client,
}
use crypto_auto_trading_syst.Order.Manager.{
  same_order, reuse_or_conflict, new_order, insert_order, create_from_intent,
}

abbrev pub HasUniqueClients : Store → Type 0
HasUniqueClients s = Unique (λ o. o.client_order_id) s.orders

insert_order-HasUniqueClients :
    (intent : OrderIntent) (mode : TradingMode) (order_id event_id : Text) (now : Time) (s : Store)
    → HasUniqueClients s
    → HasUniqueClients (insert_order intent mode order_id event_id now s).1
unfolding insert_order
insert_order-HasUniqueClients intent mode order_id event_id now s u =
    elim (Bool-cases (any (has_client intent.client_order_id) s.orders)) [
      | inl taken ↦ rw taken u
      | inr free ↦ elim (Bool-cases (any (has_id order_id) s.orders)) [
        | inl taken ↦ rw (free, taken) u
        | inr new ↦ elim (Bool-cases (any (has_event_id event_id) s.events)) [
          | inl taken ↦ rw (free, new, taken) u
          | inr fresh ↦
              rw (free, new, fresh)
                (Unique-append (λ (o : Order). o.client_order_id) s.orders
                  (new_order intent mode order_id now) free u)
        ]
      ]
    ]

create_found :
    (others : OtherTasks) (intent : OrderIntent) (mode : TradingMode) (order_id event_id : Text)
    (now : Time) (s : Store) {o : Order}
    → get_by_client intent.client_order_id s ≡ some o
    → create_from_intent others intent mode order_id event_id now s
      ≡ (reuse_or_conflict o intent, s)
unfolding create_from_intent
create_found others intent mode order_id event_id now s h = rw h

create_new :
    (others : OtherTasks) (intent : OrderIntent) (mode : TradingMode) (order_id event_id : Text)
    (now : Time) (s : Store)
    → get_by_client intent.client_order_id s ≡ none
    → create_from_intent others intent mode order_id event_id now s
      ≡ insert_order intent mode order_id event_id now (others s)
unfolding create_from_intent
create_new others intent mode order_id event_id now s h = rw h

-- No two orders ever have one client id, whatever other tasks do between the check for the id and
-- the commit, as long as they too leave the client ids unique.
pub create_from_intent-HasUniqueClients :
    (others : OtherTasks) (intent : OrderIntent) (mode : TradingMode) (order_id event_id : Text)
    (now : Time) (s : Store)
    → ((t : Store) → HasUniqueClients t → HasUniqueClients (others t))
    → HasUniqueClients s
    → HasUniqueClients (create_from_intent others intent mode order_id event_id now s).1
create_from_intent-HasUniqueClients others intent mode order_id event_id now s keep u =
    elim (Option-cases (get_by_client intent.client_order_id s)) [
      | inl free ↦
          rw (create_new others intent mode order_id event_id now s free)
            (insert_order-HasUniqueClients intent mode order_id event_id now (others s) (keep s u))
      | inr (o, found) ↦ rw (create_found others intent mode order_id event_id now s found) u
    ]

new_order-same :
    (intent : OrderIntent) (mode : TradingMode) (order_id : Text) (now : Time)
    → same_order (new_order intent mode order_id now) intent ≡ true
unfolding same_order
new_order-same intent mode order_id now = ground arith

-- A row that `insert_order` returns as made is found by its client id, and matches the intent.
insert_order-found :
    (intent : OrderIntent) (mode : TradingMode) (order_id event_id : Text) (now : Time) (s : Store)
    {o : Order} {t : Store}
    → insert_order intent mode order_id event_id now s ≡ (ok o, t)
    → (get_by_client intent.client_order_id t ≡ some o) × (same_order o intent ≡ true)
unfolding insert_order get_by_client reuse_or_conflict
insert_order-found intent mode order_id event_id now s {o} {t} h =
    elim (Bool-cases (any (has_client intent.client_order_id) s.orders)) [
      | inl taken ↦ ground arith
      | inr free ↦ ground (
        arith,
        find-none (has_client intent.client_order_id) s.orders free,
        find-append (has_client intent.client_order_id) s.orders
            (new_order intent mode order_id now) free,
        new_order-same intent mode order_id now,
      )
    ]

reuse-ok :
    (e o : Order) (intent : OrderIntent)
    → reuse_or_conflict e intent ≡ ok o
    → (e ≡ o) × (same_order o intent ≡ true)
unfolding reuse_or_conflict
reuse-ok e o intent h = ground arith

create-found_after :
    (others : OtherTasks) (intent : OrderIntent) (mode : TradingMode) (order_id event_id : Text)
    (now : Time) (s : Store) {o : Order} {t : Store}
    → create_from_intent others intent mode order_id event_id now s ≡ (ok o, t)
    → (get_by_client intent.client_order_id t ≡ some o) × (same_order o intent ≡ true)
create-found_after others intent mode order_id event_id now s {o} {t} h =
    elim (Option-cases (get_by_client intent.client_order_id s)) [
      | inl free ↦
          insert_order-found intent mode order_id event_id now (others s)
            (cc (create_new others intent mode order_id event_id now s free))
      | inr (e, found) ↦ ground (
        arith,
        create_found others intent mode order_id event_id now s found,
        reuse-ok e o intent,
      )
    ]

-- Once an intent has returned an order, the same intent returns that order again and changes
-- nothing, with any new identifiers, clock, mode and concurrent tasks.
create_retry :
    (others others' : OtherTasks) (intent : OrderIntent) (mode mode' : TradingMode)
    (order_id event_id order_id' event_id' : Text) (now now' : Time) (s : Store) {o : Order}
    {t : Store}
    → create_from_intent others intent mode order_id event_id now s ≡ (ok o, t)
    → create_from_intent others' intent mode' order_id' event_id' now' t ≡ (ok o, t)
unfolding reuse_or_conflict
create_retry others others' intent mode mode' order_id event_id order_id' event_id' now now' s {o}
      {t} h =
    let (found, same) = create-found_after others intent mode order_id event_id now s h in
    rw (create_found others' intent mode' order_id' event_id' now' t found, same)
