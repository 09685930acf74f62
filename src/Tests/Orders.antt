-- ===== src/Tests/Orders.antt =====
-- Orders, fills and transitions on a store with two orders.
use crypto_auto_trading_syst.Base.{◌≡◌, refl, inl, true, false, none, some, List, [], ◌∷◌, arith}
use crypto_auto_trading_syst.Base.Tables.{Unique}
use crypto_auto_trading_syst.Int.{pos, ◌+ℤ◌}
use crypto_auto_trading_syst.Decimal.{Context, add, mul, div, round, round_ratio, excess, half_even}
use crypto_auto_trading_syst.Domain.Enums.{
  spot, long, buy, limit, gtc, open_order, submitted, filled, order_opened, order_cancelled,
  order_rejected, order_unknown, paper,
}
use crypto_auto_trading_syst.Domain.Models.{Order, OrderIntent, Fill}
use crypto_auto_trading_syst.Order.Store.{Store, OtherTasks, get, get_by_exchange, get_fill}
use crypto_auto_trading_syst.Order.StateMachine.{transition as machine, deliver}
use crypto_auto_trading_syst.Order.StateMachine.Laws.{final_absorbs}
use crypto_auto_trading_syst.Order.Manager.{
  create_from_intent, new_order, transition, record_row, no_args,
}
use crypto_auto_trading_syst.Order.Manager.Creation.{
  HasUniqueClients, create_from_intent-HasUniqueClients,
}
use crypto_auto_trading_syst.Order.Manager.Transitions.{transition_overwrites}
use crypto_auto_trading_syst.Order.Fills.{NewIds, order_of_fill, apply_fill, average_price}
use crypto_auto_trading_syst.Order.Fills.Idempotence.{Delivery, settle_all, settled_once}
use crypto_auto_trading_syst.Order.Fills.Quantities.{alone, IsReconciled, apply_fill-IsReconciled}

-- 28 digits and eight decimals.
abbrev pub context : Context
context = record { prec = 28; unit = 100000000 }

-- An order for 10, at the exchange.
abbrev pub intent : OrderIntent
intent = record {
  client_order_id = 11;
  symbol = 5;
  side = buy;
  order_type = limit;
  time_in_force = gtc;
  price = some (pos 200000000);
  quantity = pos 1000000000;
  quote_order_qty = none;
  strategy_id = 7;
  run_id = none;
  expires_at = none;
  market_type = spot;
  position_side = long;
  reduce_only = false;
  metadata_reduce_only = false;
}

abbrev resting : Order
resting = record (new_order intent paper 1 100) { exchange_order_id = some 21; status = open_order }

abbrev pub empty_store : Store
empty_store = record { orders = []; events = []; fills = [] }

abbrev store : Store
store = record empty_store { orders = resting ∷ [] }

-- 4 of the order, at 2.
abbrev first_fill : Fill
first_fill = record {
  fill_id = 31;
  trade_id = none;
  order_id = 1;
  client_order_id = none;
  exchange_order_id = some 21;
  symbol = 5;
  side = buy;
  price = pos 200000000;
  quantity = pos 400000000;
  fee = pos 0;
  fee_currency = none;
  timestamp = 101;
}

abbrev last_fill : Fill
last_fill = record first_fill { fill_id = 32; quantity = pos 600000000 }

abbrev first_ids : NewIds
first_ids = record { last_event = 41; event = 42; trade = 43 }

abbrev last_ids : NewIds
last_ids = record { last_event = 44; event = 45; trade = 46 }

abbrev deliveries : List Delivery
deliveries =
    record { others = alone; fill = first_fill; ids = first_ids }
    ∷ record { others = alone; fill = last_fill; ids = last_ids }
    ∷ record { others = alone; fill = first_fill; ids = last_ids }
    ∷ []

settle_all-deliveries : settle_all context true deliveries store ≡ first_fill ∷ last_fill ∷ []
unfolding settle_all apply_fill order_of_fill get get_by_exchange get_fill machine average_price add
    mul div round round_ratio excess half_even ◌+ℤ◌
settle_all-deliveries = refl

settled_once_example : Unique (λ f. f.fill_id) (settle_all context true deliveries store)
settled_once_example =
    settled_once context true deliveries store (λ id s h. h, (λ id s h. h, (λ id s h. h, tt)))

store-IsReconciled : IsReconciled store
store-IsReconciled = record { ids = (refl, tt); agree = ((ground arith, refl), tt) }

apply_fill-IsReconciled_example :
    IsReconciled (apply_fill context true alone first_fill first_ids store).1
unfolding order_of_fill get get_by_exchange round round_ratio excess half_even ◌+ℤ◌
apply_fill-IsReconciled_example =
    apply_fill-IsReconciled context true first_fill first_ids store refl store-IsReconciled

create_from_intent-HasUniqueClients_example :
    HasUniqueClients (create_from_intent alone intent paper 2 51 100 store).1
create_from_intent-HasUniqueClients_example =
    create_from_intent-HasUniqueClients alone intent paper 2 51 100 store (λ s u. u) (refl, tt)

-- While the event of an acknowledgement is handled, another task stores that the order is filled.
abbrev waiting : Store
waiting = record store { orders = record resting { status = submitted } ∷ [] }

abbrev fill_it : OtherTasks
fill_it s = record store { orders = record resting { status = filled } ∷ [] }

transition_overwrites_example :
    get 1 (transition fill_it 1 order_opened (no_args 61 102) waiting).1
    ≡ some (record_row open_order (no_args 61 102) (record resting { status = filled }))
unfolding get machine
transition_overwrites_example =
    transition_overwrites fill_it 1 order_opened (no_args 61 102) waiting refl refl refl
      (refl, refl)

final_absorbs_example :
    deliver filled (order_cancelled ∷ order_rejected ∷ order_unknown ∷ []) ≡ filled
final_absorbs_example =
    final_absorbs filled (order_cancelled ∷ order_rejected ∷ order_unknown ∷ []) (inl refl)
