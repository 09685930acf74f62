-- ===== src/Runtime/Submission/Kept.antt =====
-- src/crypto_trader/runtime/engine.py: the order of a submission stays in the table.
use crypto_auto_trading_syst.Base.{
  ◌≡◌, refl, Bool, true, false, Error, Result, Done, ok, err, if◌then◌else◌,
}
use crypto_auto_trading_syst.Domain.Enums.{
  OrderStatus, open_order, cancelled, rejected, OrderEventType, order_validated, order_submitting,
  order_submitted, TradingMode,
}
use crypto_auto_trading_syst.Domain.Models.{Text, Order, OrderIntent}
use crypto_auto_trading_syst.Order.Store.{Store, OtherTasks}
use crypto_auto_trading_syst.Order.Manager.{create_from_intent, no_args, EventArgs, transition}
use crypto_auto_trading_syst.Order.Manager.Kept.{
  HasClient, KeepsClient, transition-HasClient, create_from_intent-HasClient,
}
use crypto_auto_trading_syst.Order.Lifecycle.{
  validate, submitting_order, submitted_order, mark_unknown, reject, ack, opened, cancel_confirm,
}
use crypto_auto_trading_syst.Runtime.Recovery.{done_of, and_then}
use crypto_auto_trading_syst.Runtime.Submission.{
  Calls, is_unknown_state, is_exchange_error, is_rejection, set_unknown, submit_failed,
  follow_exchange, after_submit, submit_created, submit_or_raise, submit_intent,
}

-- Nothing that other tasks commit during the calls takes the order out of the table, and the recovery
-- does not either.
pub record KeepsAll (k : Text) (calls : Calls) (recover : Store → Done × Store) : Type 0 where
  pub validation : KeepsClient k calls.validation.others
  pub submitting : KeepsClient k calls.submitting.others
  pub submitted : KeepsClient k calls.submitted.others
  pub outcome : KeepsClient k calls.outcome.others
  pub status : KeepsClient k calls.status.others
  pub recovery : (s : Store) → HasClient k s → HasClient k (recover s).1

done_of-HasClient :
    {A : Type 0} (k : Text) (r : Result A × Store) → HasClient k r.1 → HasClient k (done_of r).1
done_of-HasClient k (ok a, s) h = h
done_of-HasClient k (err e, s) h = h

and_then-HasClient :
    (k : Text) (r : Done × Store) (next : Store → Done × Store)
    → HasClient k r.1
    → ((s : Store) → HasClient k s → HasClient k (next s).1)
    → HasClient k (and_then r next).1
and_then-HasClient k (ok _, s) next h j = j s h
and_then-HasClient k (err e, s) next h j = h

either_done :
    (k : Text) (b : Bool) (x y : Done × Store)
    → HasClient k x.1
    → HasClient k y.1
    → HasClient k (if b then x else y).1
either_done k true x y h j = h
either_done k false x y h j = j

module _ (k : Text) (calls : Calls) (recover : Store → Done × Store)
    (keeps : KeepsAll k calls recover) where
  moved :
      (others : OtherTasks) (id : Text) (e : OrderEventType) (args : EventArgs) (s : Store)
      → KeepsClient k others
      → HasClient k s
      → HasClient k (done_of (transition others id e args s)).1
  moved others id e args s kept h =
      done_of-HasClient k (transition others id e args s)
        (transition-HasClient k others kept id e args s h)

  submit_failed-HasClient :
      (e : Error) (id : Text) (s : Store)
      → HasClient k s
      → HasClient k (submit_failed calls recover e id s).1
  unfolding submit_failed set_unknown mark_unknown reject
  submit_failed-HasClient e id s h =
      let unknown_there = moved calls.outcome.others id _ _ s keeps.outcome h in
      either_done k (is_unknown_state e) _ _
        (and_then-HasClient k (set_unknown calls recover id s) recover unknown_there keeps.recovery)
        (either_done k (is_exchange_error e) _ _ unknown_there (
          either_done k (is_rejection e) _ _ (moved calls.outcome.others id _ _ s keeps.outcome h)
            h))

  follow_exchange-HasClient :
      (status : OrderStatus) (exchange : Order) (id : Text) (s : Store)
      → HasClient k s
      → HasClient k (follow_exchange calls recover status exchange id s).1
  unfolding follow_exchange opened cancel_confirm reject
  follow_exchange-HasClient open_order exchange id s h =
      moved calls.status.others id _ _ s keeps.status h
  follow_exchange-HasClient cancelled exchange id s h =
      moved calls.status.others id _ _ s keeps.status h
  follow_exchange-HasClient rejected exchange id s h =
      moved calls.status.others id _ _ s keeps.status h
  follow_exchange-HasClient _ exchange id s h = h

  after_submit-HasClient :
      (answer : Result Order) (id : Text) (s : Store)
      → HasClient k s
      → HasClient k (after_submit calls recover answer id s).1
  unfolding after_submit ack
  after_submit-HasClient (err e) id s h = submit_failed-HasClient e id s h
  after_submit-HasClient (ok exchange) id s h =
      and_then-HasClient k _ (follow_exchange calls recover exchange.status exchange id)
        (moved calls.outcome.others id _ _ s keeps.outcome h)
        (follow_exchange-HasClient exchange.status exchange id)

  submit_created-HasClient :
      (submit_order : Order → Result Order) (o : Order) (s : Store)
      → HasClient k s
      → HasClient k (submit_created calls recover submit_order o s).1
  unfolding submit_created validate submitting_order submitted_order
  submit_created-HasClient submit_order o s h =
      let id = o.internal_order_id in
      let to_exchange = after_submit calls recover (submit_order o) id in
      let third = λ (u : Store). done_of (
        submitted_order calls.submitted.others id calls.submitted.event_id calls.submitted.now u) in
      let second = λ (t : Store). done_of (
        submitting_order calls.submitting.others id calls.submitting.event_id calls.submitting.now
          t) in
      and_then-HasClient k
        (done_of
          (validate calls.validation.others id calls.validation.event_id calls.validation.now s))
        (λ t. and_then (second t) (λ u. and_then (third u) to_exchange))
        (moved calls.validation.others id order_validated
          (no_args calls.validation.event_id calls.validation.now) s keeps.validation h)
        (λ t ht.
          and_then-HasClient k (second t) (λ u. and_then (third u) to_exchange)
            (moved calls.submitting.others id order_submitting
              (no_args calls.submitting.event_id calls.submitting.now) t keeps.submitting ht)
            (λ u hu.
              and_then-HasClient k (third u) to_exchange
                (moved calls.submitted.others id order_submitted
                  (no_args calls.submitted.event_id calls.submitted.now) u keeps.submitted hu)
                (after_submit-HasClient (submit_order o) id)))

  submit_or_raise-HasClient :
      (submit_order : Order → Result Order) (made : Result Order × Store)
      → ((o : Order) → made.0 ≡ ok o → HasClient k made.1)
      → (submit_or_raise calls recover submit_order made).0 ≡ ok tt
      → HasClient k (submit_or_raise calls recover submit_order made).1
  submit_or_raise-HasClient submit_order (err e, s) h done = cc
  submit_or_raise-HasClient submit_order (ok o, s) h done =
      submit_created-HasClient submit_order o s (h o refl)

-- After a submission that returns, the order is in the table.
pub submit_intent-HasClient :
    (calls : Calls) (recover : Store → Done × Store) (submit_order : Order → Result Order)
    (intent : OrderIntent) (mode : TradingMode) (s : Store)
    → KeepsAll intent.client_order_id calls recover
    → (submit_intent calls recover submit_order intent mode s).0 ≡ ok tt
    → HasClient intent.client_order_id (submit_intent calls recover submit_order intent mode s).1
unfolding submit_intent
submit_intent-HasClient calls recover submit_order intent mode s keeps =
    submit_or_raise-HasClient intent.client_order_id calls recover keeps submit_order
      (create_from_intent calls.creation.others intent mode calls.order_id calls.creation.event_id
        calls.creation.now s)
      (create_from_intent-HasClient calls.creation.others intent mode calls.order_id
        calls.creation.event_id calls.creation.now s)
