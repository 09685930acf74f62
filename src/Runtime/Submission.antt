-- ===== src/Runtime/Submission.antt =====
-- src/crypto_trader/runtime/engine.py: the last part of `process_signal`, which makes an order of an
-- approved intent, hands it to the exchange, and records what came of it. The adapter is an argument,
-- and so are the texts, the drawn ids and what other tasks commit during each call. The audit log and
-- the health flags are left out.
pub mod Failures
pub mod Kept
use crypto_auto_trading_syst.Base.{
  ℕ, Bool, true, false, Option, none, some, Result, Error, Done, ok, err, order_not_found,
  stale_market_data, sequence_gap, rate_limited, order_rejected, unknown_execution_state,
  temporary_network_error, other_exchange_error, if◌then◌else◌,
}
use crypto_auto_trading_syst.Domain.Enums.{
  OrderStatus, open_order, cancelled, rejected, TradingMode,
}
use crypto_auto_trading_syst.Domain.Models.{Text, Time, Order, OrderIntent}
use crypto_auto_trading_syst.Order.Store.{Store, OtherTasks}
use crypto_auto_trading_syst.Order.Manager.{create_from_intent}
use crypto_auto_trading_syst.Order.Lifecycle.{
  validate, submitting_order, submitted_order, mark_unknown, reject, ack, opened, cancel_confirm,
}
use crypto_auto_trading_syst.Runtime.Recovery.{done_of, and_then, text_or}

-- The subclasses of `ExchangeError`.
abbrev pub is_exchange_error : Error → Bool
is_exchange_error order_not_found = true
is_exchange_error stale_market_data = true
is_exchange_error sequence_gap = true
is_exchange_error rate_limited = true
is_exchange_error order_rejected = true
is_exchange_error unknown_execution_state = true
is_exchange_error temporary_network_error = true
is_exchange_error other_exchange_error = true
is_exchange_error _ = false

abbrev pub is_unknown_state : Error → Bool
is_unknown_state unknown_execution_state = true
is_unknown_state _ = false

abbrev pub is_rejection : Error → Bool
is_rejection order_rejected = true
is_rejection _ = false

-- What a call of the order manager draws, with its clock and what other tasks commit during it.
pub record Call : Type 0 where
  pub event_id : Text
  pub now : Time
  pub others : OtherTasks

-- The calls of one submission, and its texts.
pub record Calls : Type 0 where
  pub order_id : Text
  pub creation : Call
  pub validation : Call
  pub submitting : Call
  pub submitted : Call
  pub outcome : Call
  pub status : Call
  pub reason : Error → Text
  pub rejected_on_exchange : Text

-- `recover` is that of the recovery service.
module _ (calls : Calls) (recover : Store → Done × Store) where
  unfoldable pub set_unknown : Text → Store → Done × Store
  unfolding mark_unknown
  set_unknown id s =
      done_of (mark_unknown calls.outcome.others id calls.outcome.event_id calls.outcome.now s)

  -- The handlers in the order in which they stand.
  unfoldable pub submit_failed : Error → Text → Store → Done × Store
  unfolding set_unknown reject
  submit_failed e id s =
      if is_unknown_state e
      then and_then (set_unknown id s) recover
      else if is_exchange_error e
      then set_unknown id s
      else if is_rejection e
      then done_of (
          reject calls.outcome.others id calls.outcome.event_id calls.outcome.now (calls.reason e)
            s)
      else (err e, s)

  unfoldable pub follow_exchange : OrderStatus → Order → Text → Store → Done × Store
  unfolding opened cancel_confirm reject
  follow_exchange open_order exchange id s =
      done_of (opened calls.status.others id calls.status.event_id calls.status.now s)
  follow_exchange cancelled exchange id s =
      done_of (cancel_confirm calls.status.others id calls.status.event_id calls.status.now s)
  follow_exchange rejected exchange id s = done_of (
      reject calls.status.others id calls.status.event_id calls.status.now
        (text_or exchange.rejection_reason calls.rejected_on_exchange) s)
  follow_exchange _ exchange id s = (ok tt, s)

  unfoldable pub after_submit : Result Order → Text → Store → Done × Store
  unfolding submit_failed follow_exchange ack
  after_submit (err e) id s = submit_failed e id s
  after_submit (ok exchange) id s =
      and_then
        (done_of (
          ack calls.outcome.others id calls.outcome.event_id calls.outcome.now
            (text_or exchange.exchange_order_id 0) s))
        (follow_exchange exchange.status exchange id)

  unfoldable pub submit_created : (Order → Result Order) → Order → Store → Done × Store
  unfolding after_submit validate submitting_order submitted_order
  submit_created submit_order o s =
      let id = o.internal_order_id in
      and_then
        (done_of
          (validate calls.validation.others id calls.validation.event_id calls.validation.now s))
        (λ t.
          and_then
            (done_of (
              submitting_order calls.submitting.others id calls.submitting.event_id
                calls.submitting.now t))
            (λ u.
              and_then
                (done_of (
                  submitted_order calls.submitted.others id calls.submitted.event_id
                    calls.submitted.now u))
                (after_submit (submit_order o) id)))

  abbrev pub submit_or_raise : (Order → Result Order) → Result Order × Store → Done × Store
  submit_or_raise submit_order (err e, s) = (err e, s)
  submit_or_raise submit_order (ok o, s) = submit_created submit_order o s

  unfoldable pub submit_intent :
      (Order → Result Order) → OrderIntent → TradingMode → Store → Done × Store
  unfolding create_from_intent submit_created
  submit_intent submit_order intent mode s = submit_or_raise submit_order (
      create_from_intent calls.creation.others intent mode calls.order_id calls.creation.event_id
        calls.creation.now s)
