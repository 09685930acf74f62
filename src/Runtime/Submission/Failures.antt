-- ===== src/Runtime/Submission/Failures.antt =====
-- src/crypto_trader/runtime/engine.py: what becomes of an order whose submission fails.
use crypto_auto_trading_syst.Base.{◌≡◌, refl, true, false, some, Error, Result, Done, ok, err}
use crypto_auto_trading_syst.Domain.Enums.{submitted, unknown, order_unknown}
use crypto_auto_trading_syst.Domain.Models.{Text, Order}
use crypto_auto_trading_syst.Order.Store.{Store, get}
use crypto_auto_trading_syst.Order.StateMachine.{transition as machine, transitions}
use crypto_auto_trading_syst.Order.Manager.{record_row, no_args, transition}
use crypto_auto_trading_syst.Order.Manager.Transitions.{CanRecord, transition_overwrites}
use crypto_auto_trading_syst.Order.Lifecycle.{mark_unknown}
use crypto_auto_trading_syst.Runtime.Recovery.{done_of}
use crypto_auto_trading_syst.Runtime.Submission.{
  is_exchange_error, is_unknown_state, Calls, set_unknown, submit_failed, after_submit,
}

done_of-store : {A : Type 0} (r : Result A × Store) → (done_of r).1 ≡ r.1
done_of-store (ok a, s) = refl
done_of-store (err e, s) = refl

-- The order has been submitted, and the event of the outcome can be recorded.
pub record IsSubmitted (calls : Calls) (id : Text) (o there : Order) (s : Store) : Type 0 where
  pub row : get id s ≡ some o
  pub status : o.status ≡ submitted
  pub row_then : get id (calls.outcome.others s) ≡ some there
  pub recordable :
      CanRecord id (no_args calls.outcome.event_id calls.outcome.now) (calls.outcome.others s)

-- Every error of the exchange other than an unknown state of execution, also the one by which it
-- says that it has rejected the order, marks a submitted order as unknown.
pub after_submit-unknown :
    (calls : Calls) (recover : Store → Done × Store) (e : Error) (id : Text) (o there : Order)
    (s : Store)
    → is_exchange_error e ≡ true
    → is_unknown_state e ≡ false
    → IsSubmitted calls id o there s
    → get id (after_submit calls recover (err e) id s).1
      ≡ some (record_row unknown (no_args calls.outcome.event_id calls.outcome.now) there)
unfolding after_submit submit_failed set_unknown mark_unknown machine transitions
after_submit-unknown calls recover e id o there s h k p =
    let accepted : machine o.status order_unknown
        ≡ ok (record { new_status = unknown; changed = true; noop = false }) =
      rw p.status refl in
    rw
      (
        k,
        h,
        done_of-store (
            transition calls.outcome.others id order_unknown
              (no_args calls.outcome.event_id calls.outcome.now) s),
      )
      (transition_overwrites calls.outcome.others id order_unknown
        (no_args calls.outcome.event_id calls.outcome.now) s p.row accepted p.row_then p.recordable)
