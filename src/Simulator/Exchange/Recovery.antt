-- ===== src/Simulator/Exchange/Recovery.antt =====
-- src/crypto_trader/simulator/exchange.py: what a query finds after a submission that timed out.
use crypto_auto_trading_syst.Base.{
  ℕ, ◌≡◌, refl, true, false, none, List, [], ◌∷◌, ◌++◌, find, any, arith, ok, err,
  unknown_execution_state, ◌==◌,
}
use crypto_auto_trading_syst.Base.Tables.{any-append, find-append, find-none}
use crypto_auto_trading_syst.Decimal.{Decimal, Context}
use crypto_auto_trading_syst.Domain.Models.{Text, Time, Order, Instrument}
use crypto_auto_trading_syst.Simulator.Exchange.{
  Exchange, has_exchange_id, has_client_id, put_order, local_order_for, place, unless_failing,
  submit_order, or_not_found, or_else, get_order,
}

-- A connected exchange whose only hook is the timeout after the creation.
pub record WillTimeOut (ex : Exchange) : Type 0 where
  pub is_connected : ex.connected ≡ true
  pub no_rate_limit : ex.hooks.rate_limit_next ≡ false
  pub no_rejection : ex.hooks.reject_next_order ≡ false
  pub no_failure : ex.hooks.fail_submit_with ≡ none
  pub timeout : ex.hooks.timeout_but_created ≡ true

-- The exchange's next id and the client's id are names that no order has yet.
pub record IsNewOrder (id client : Text) (orders : List Order) : Type 0 where
  pub new_id : any (has_exchange_id id) orders ≡ false
  pub new_client : any (has_client_id client) orders ≡ false
  pub no_confusion : any (has_exchange_id client) orders ≡ false
  pub two_names : (id == client) ≡ false

put_order-append :
    (id : Text) (o : Order) (orders : List Order)
    → any (has_exchange_id id) orders ≡ false
    → put_order id o orders ≡ orders ++ o ∷ []
put_order-append id o [] h = refl
put_order-append id o (x ∷ xs) h = ground (arith, put_order-append id o xs)

found_by_client :
    (id : Text) (raw : Order) (orders : List Order)
    → IsNewOrder id raw.client_order_id orders
    → or_not_found (
        or_else
          (find
            (has_exchange_id raw.client_order_id)
            (put_order id (local_order_for id raw) orders))
          (find (has_client_id raw.client_order_id) (put_order id (local_order_for id raw) orders)))
      ≡ ok (local_order_for id raw)
found_by_client id raw orders n =
    let o = local_order_for id raw in
    let client = raw.client_order_id in
    let missing : any (has_exchange_id client) (orders ++ o ∷ []) ≡ false =
      rw (any-append (has_exchange_id client) orders o, n.no_confusion) n.two_names in
    rw (
      put_order-append id o orders n.new_id,
      find-none (has_exchange_id client) (orders ++ o ∷ []) missing,
      find-append (has_client_id client) orders o n.new_client (ground arith),
    )

-- A submission that times out after the exchange has created the order raises an unknown state of
-- execution, and a query by the client's id then finds the order, acknowledged and unfilled, if the
-- names of the order are new.
submit_order-get_order :
    (c : Context) (fee_rate : Decimal) (id_of : ℕ → Text) (i : Instrument) (now : Time)
    (raw : Order) (ex : Exchange)
    → WillTimeOut ex
    → IsNewOrder (id_of ex.next_exchange_order_id) raw.client_order_id ex.orders
    → ((submit_order c fee_rate id_of i now raw ex).0 ≡ err unknown_execution_state)
      × (get_order raw.client_order_id (submit_order c fee_rate id_of i now raw ex).1
          ≡ ok (local_order_for (id_of ex.next_exchange_order_id) raw))
unfolding submit_order unless_failing place get_order
submit_order-get_order c fee_rate id_of i now raw ex w n =
    rw (w.is_connected, w.no_rate_limit, w.no_rejection, w.no_failure, w.timeout)
      (refl, found_by_client (id_of ex.next_exchange_order_id) raw ex.orders n)
