-- ===== src/Runtime/Engine.antt =====
-- src/crypto_trader/runtime/engine.py: `start` and `stop`, on the lease, the states of the process, the
-- exchange's adoption of the ledger, and the recovery. The recovery, the replayed projection and the
-- quarantined fills are arguments. The deposits of a first start, the record of the run, the instruments, subscriptions and
-- the tasks of the loops are left out.
pub mod Starts
use crypto_auto_trading_syst.Base.{
  Bool, true, false, not, Option, none, some, List, Done, ok, err, lease_not_held, integrity_error,
  stale_data, if◌then◌else◌,
}
use crypto_auto_trading_syst.Domain.Models.{Text}
use crypto_auto_trading_syst.Order.Store.{Store}
use crypto_auto_trading_syst.Ledger.Projections.{ProjectionSnapshot}
use crypto_auto_trading_syst.Simulator.Matching.{Wallet}
use crypto_auto_trading_syst.Reconciliation.{hydrate_from_ledger}
use crypto_auto_trading_syst.Runtime.StateMachine.{
  RuntimeState, starting, recovering, running, stopping, stopped, transition,
}
use crypto_auto_trading_syst.Runtime.Lease.{
  Lease, LeaseTable, Request, Attempt, Outcome, acquired, refused, again, raised, acquire, release,
}

-- The engine's own state, and the tables and the exchange that it works on.
pub record World : Type 0 where
  pub state : RuntimeState
  pub is_running : Bool
  pub lease : Option Lease
  pub leases : LeaseTable
  pub orders : Store
  pub wallet : Wallet
  pub run_id : Option Text
  pub quarantined_fill_ids : List Text

abbrev pub then_do : Done × World → (World → Done × World) → Done × World
then_do (err e, w) next = (err e, w)
then_do (ok _, w) next = next w

unfoldable pub move : RuntimeState → World → Done × World
unfolding transition
move new_state w = let r = transition w.state new_state in (r.0, record w { state = r.1 })

abbrev pub raise_not_held : World → Done × World
raise_not_held w = (err lease_not_held, w)

-- A lease that is not granted stops the engine; an error of the database only leaves it.
unfoldable pub after_acquire : Outcome × LeaseTable → World → Done × World
unfolding move
after_acquire (acquired l, t) w = (ok tt, record w { lease = some l; leases = t })
after_acquire (refused, t) w =
    then_do (move stopped (record w { lease = none; leases = t })) raise_not_held
after_acquire (again, t) w = (err integrity_error, record w { leases = t })
after_acquire (raised, t) w = (err stale_data, record w { leases = t })

-- What a start is given: its run id, drawn if the caller gives none, and the fills that the table
-- of audit events has quarantined.
pub record StartArgs : Type 0 where
  pub run_id : Text
  pub quarantined : List Text
  pub require_lease : Bool
  pub request : Request
  pub attempts : List Attempt
  pub snapshot : ProjectionSnapshot
  pub recover : Store → Done × Store

unfoldable pub take_lease : StartArgs → World → Done × World
unfolding after_acquire acquire
take_lease a w =
    if a.require_lease then after_acquire (acquire a.request a.attempts w.leases) w else (ok tt, w)

-- The exchange adopts the ledger, and the open orders are recovered.
unfoldable pub restore : StartArgs → World → Done × World
unfolding hydrate_from_ledger
restore a w =
    let recovered = a.recover w.orders in
    (
      recovered.0,
      record w { wallet = hydrate_from_ledger a.snapshot w.wallet; orders = recovered.1 },
    )

abbrev pub set_running : World → Done × World
set_running w = (ok tt, record w { is_running = true })

unfoldable pub run : StartArgs → World → Done × World
unfolding restore move
run a w =
    then_do (then_do (move recovering w) (restore a)) (λ u. then_do (move running u) set_running)

-- What a start sets before its first transition: the quarantined fills, also in an engine that
-- runs, and the run id.
abbrev pub reload : StartArgs → World → World
reload a w = record w { quarantined_fill_ids = a.quarantined }

abbrev pub named : StartArgs → World → World
named a w = record w { run_id = some a.run_id }

unfoldable pub start : StartArgs → World → Done × World
unfolding take_lease move run
start a w =
    if w.is_running
    then (ok tt, reload a w)
    else then_do (then_do (move starting (named a (reload a w))) (take_lease a)) (run a)

unfoldable pub release_lease : Option Lease → World → World
unfolding release
release_lease none w = w
release_lease (some l) w = record w {
  lease = none;
  leases = (release l.lease_key l.token w.leases).1;
}

unfoldable pub stop : World → Done × World
unfolding release_lease move
stop w =
    if w.is_running
    then then_do (move stopping (release_lease w.lease (record w { is_running = false })))
        (move stopped)
    else (ok tt, w)
