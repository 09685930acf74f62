-- ===== src/Order/Manager/Kept.antt =====
-- src/crypto_trader/order/manager.py: an order that is in the table stays there.
use crypto_auto_trading_syst.Base.{
  ◌≡◌, refl, inl, inr, Bool, true, false, not, ◌&&◌, Option, none, some, List, [], ◌∷◌, ◌++◌, any,
  find, update, Result, ok, err, integrity_error, arith, Bool-cases, if◌then◌else◌,
}
use crypto_auto_trading_syst.Domain.Enums.{OrderEventType, OrderStatus, TradingMode}
use crypto_auto_trading_syst.Domain.Models.{Text, Time, Order, OrderEvent, OrderIntent}
use crypto_auto_trading_syst.Order.Store.{
  Store, OtherTasks, has_id, has_client, has_event_id, get, get_by_client,
}
use crypto_auto_trading_syst.Order.StateMachine.{TransitionResult, transition as machine}
use crypto_auto_trading_syst.Order.Manager.{
  EventArgs, returned, record_row, record_event, commit_event, take_step, transition_found,
  transition, after_conflict, create_or_reuse, insert_order, create_from_intent, new_order,
}

-- The table has an order of the client's id.
abbrev pub HasClient : Text → Store → Type 0
HasClient k s = any (has_client k) s.orders ≡ true

-- What other tasks commit leaves that order in the table.
abbrev pub KeepsClient : Text → OtherTasks → Type 0
KeepsClient k others = (s : Store) → HasClient k s → HasClient k (others s)

any-update :
    (k : Text) (p : Order → Bool) (status : OrderStatus) (args : EventArgs) (os : List Order)
    → any (has_client k) os ≡ true
    → any (has_client k) (update p (record_row status args) os) ≡ true
any-update k p status args [] h = h
any-update k p status args (o ∷ os) h = ground (arith, any-update k p status args os)

either_store :
    {A : Type 0} (k : Text) (b : Bool) (x y : Result A × Store)
    → HasClient k x.1
    → HasClient k y.1
    → HasClient k (if b then x else y).1
either_store k true x y h j = h
either_store k false x y h j = j

commit_event-HasClient :
    (k : Text) (order : Order) (e : OrderEventType) (status : OrderStatus) (args : EventArgs)
    (row : Option Order) (s : Store)
    → HasClient k s
    → HasClient k (commit_event order e status args row s).1
commit_event-HasClient k order e status args none s h = h
commit_event-HasClient k order e status args (some row) s h =
    either_store k _ _ _ h (any-update k (has_id order.internal_order_id) status args s.orders h)

record_event-HasClient :
    (k : Text) (order : Order) (e : OrderEventType) (status : OrderStatus) (args : EventArgs)
    (s : Store)
    → HasClient k s
    → HasClient k (record_event order e status args s).1
unfolding record_event
record_event-HasClient k order e status args s h =
    commit_event-HasClient k order e status args (get order.internal_order_id s) s h

returned-HasClient :
    (k : Text) (noop : Bool) (order : Order) (r : Result OrderEvent × Store)
    → HasClient k r.1
    → HasClient k (returned noop order r).1
returned-HasClient k true order (ok e, s) h = h
returned-HasClient k false order (ok e, s) h = h
returned-HasClient k true order (err e, s) h = h
returned-HasClient k false order (err e, s) h = h

module _ (k : Text) (others : OtherTasks) (keeps : KeepsClient k others) where
  take_step-HasClient :
      (order : Order) (e : OrderEventType) (args : EventArgs) (r : Result TransitionResult)
      (s : Store)
      → HasClient k s
      → HasClient k (take_step others order e args r s).1
  take_step-HasClient order e args (err x) s h = h
  take_step-HasClient order e args (ok r) s h =
      either_store k (r.noop && not r.changed) _ _
        (returned-HasClient k true order (record_event order e order.status args (others s))
          (record_event-HasClient k order e order.status args (others s) (keeps s h)))
        (returned-HasClient k false order (record_event order e r.new_status args (others s))
          (record_event-HasClient k order e r.new_status args (others s) (keeps s h)))

  transition_found-HasClient :
      (e : OrderEventType) (args : EventArgs) (o : Option Order) (s : Store)
      → HasClient k s
      → HasClient k (transition_found others e args o s).1
  transition_found-HasClient e args none s h = h
  transition_found-HasClient e args (some order) s h =
      take_step-HasClient order e args (machine order.status e) s h

  -- A transition of any order keeps it.
  pub transition-HasClient :
      (id : Text) (e : OrderEventType) (args : EventArgs) (s : Store)
      → HasClient k s
      → HasClient k (transition others id e args s).1
  unfolding transition
  transition-HasClient id e args s h = transition_found-HasClient e args (get id s) s h

-- A query by the client's id answers with an order of the table.
pub found-HasClient :
    (k : Text) (s : Store) {o : Order} → get_by_client k s ≡ some o → HasClient k s
unfolding get_by_client
found-HasClient k s {o} h = there s.orders h
  where
    there : (os : List Order) → find (has_client k) os ≡ some o → any (has_client k) os ≡ true
    there [] e = cc
    there (x ∷ xs) e = ground (arith, there xs)

any-append :
    (k : Text) (os : List Order) (o : Order)
    → has_client k o ≡ true
    → any (has_client k) (os ++ o ∷ []) ≡ true
any-append k [] o h = rw h refl
any-append k (x ∷ xs) o h = ground (arith, any-append k xs o h)

after_conflict-HasClient :
    (intent : OrderIntent) (known : Option Order) (s : Store) (o : Order)
    → get_by_client intent.client_order_id s ≡ known
    → after_conflict known intent ≡ ok o
    → HasClient intent.client_order_id s
after_conflict-HasClient intent none s o found h = cc
after_conflict-HasClient intent (some x) s o found h =
    found-HasClient intent.client_order_id s {o = x} found

-- An order that is returned is in the table, under the client's id of the intent.
abbrev IsMade : OrderIntent → Result Order × Store → Type 0
IsMade intent r = (o : Order) → r.0 ≡ ok o → HasClient intent.client_order_id r.1

either-IsMade :
    (intent : OrderIntent) (b : Bool) (x y : Result Order × Store)
    → IsMade intent x
    → IsMade intent y
    → IsMade intent (if b then x else y)
either-IsMade intent true x y h j = h
either-IsMade intent false x y h j = j

insert_order-IsMade :
    (intent : OrderIntent) (mode : TradingMode) (order_id event_id : Text) (now : Time) (s : Store)
    → IsMade intent (insert_order intent mode order_id event_id now s)
unfolding insert_order
insert_order-IsMade intent mode order_id event_id now s =
    either-IsMade intent _ (err integrity_error, s) _ (λ o h. cc)
      (either-IsMade intent (any (has_event_id event_id) s.events)
        (after_conflict (get_by_client intent.client_order_id s) intent, s) _
        (λ o h. after_conflict-HasClient intent (get_by_client intent.client_order_id s) s o refl h)
        (λ o h.
          any-append intent.client_order_id s.orders (new_order intent mode order_id now)
            (ground arith)))

create_or_reuse-IsMade :
    (others : OtherTasks) (intent : OrderIntent) (mode : TradingMode) (order_id event_id : Text)
    (now : Time) (known : Option Order) (s : Store)
    → get_by_client intent.client_order_id s ≡ known
    → IsMade intent (create_or_reuse others intent mode order_id event_id now known s)
create_or_reuse-IsMade others intent mode order_id event_id now (some x) s found =
    λ o h. found-HasClient intent.client_order_id s {o = x} found
create_or_reuse-IsMade others intent mode order_id event_id now none s found =
    insert_order-IsMade intent mode order_id event_id now (others s)

pub create_from_intent-HasClient :
    (others : OtherTasks) (intent : OrderIntent) (mode : TradingMode) (order_id event_id : Text)
    (now : Time) (s : Store) (o : Order)
    → (create_from_intent others intent mode order_id event_id now s).0 ≡ ok o
    → HasClient intent.client_order_id
        (create_from_intent others intent mode order_id event_id now s).1
unfolding create_from_intent
create_from_intent-HasClient others intent mode order_id event_id now s =
    create_or_reuse-IsMade others intent mode order_id event_id now
      (get_by_client intent.client_order_id s) s refl

-- The query finds it.
pub HasClient-found :
    (k : Text) (s : Store) → HasClient k s → (o : Order) × (get_by_client k s ≡ some o)
unfolding get_by_client
HasClient-found k s h = there s.orders h
  where
    there :
        (os : List Order)
        → any (has_client k) os ≡ true
        → (o : Order) × (find (has_client k) os ≡ some o)
    there [] e = cc
    there (x ∷ xs) e = elim (Bool-cases (has_client k x)) [
      | inl here ↦ (x, rw here refl)
      | inr further ↦ rw further (there xs (rw further at e))
    ]
