-- ===== src/Tests/Starts.antt =====
-- A start of the engine whose recovery meets an order that the exchange has cancelled, and an engine
-- whose lease has run out.
use crypto_auto_trading_syst.Base.{
  ◌≡◌, ◌⊎◌, refl, true, false, none, some, [], ◌∷◌, ok, err, invalid_state_transition,
}
use crypto_auto_trading_syst.Ledger.Projections.{empty_snapshot}
use crypto_auto_trading_syst.Runtime.StateMachine.{stopped}
use crypto_auto_trading_syst.Runtime.Lease.{
  Lease, LeaseTable, new_row, lease_of, acquire, attempt, apply_write, is_held,
}
use crypto_auto_trading_syst.Runtime.Recovery.{recover}
use crypto_auto_trading_syst.Runtime.Recovery.Aborts.{recover-raises}
use crypto_auto_trading_syst.Runtime.Engine.{World, StartArgs, named, reload, start, stop}
use crypto_auto_trading_syst.Runtime.Engine.Starts.{IsRefused, start-stranded}
use crypto_auto_trading_syst.Tests.Orders.{context}
use crypto_auto_trading_syst.Domain.Enums.{reject}
use crypto_auto_trading_syst.Risk.Reversal.{global_kill_switch}
use crypto_auto_trading_syst.Risk.Engine.{signal, check}
use crypto_auto_trading_syst.Runtime.Loops.{lease_tick}
use crypto_auto_trading_syst.Runtime.Loops.Renewal.{lease_tick-refuses}
use crypto_auto_trading_syst.Tests.Guards.{config, switch_off, opening, args as cleared_args}
use crypto_auto_trading_syst.Tests.Leases.{
  request, attempt_at, as_it_is, resting, there, store, texts, draw, exchange,
  resting-IsCancelledThere, listed,
}

abbrev args : StartArgs
args = record {
  run_id = 41;
  quarantined = [];
  require_lease = true;
  request = request;
  attempts = attempt_at 100 20 as_it_is ∷ [];
  snapshot = empty_snapshot;
  recover = recover context true texts draw exchange;
}

-- The next start would have nothing to recover.
abbrev next : StartArgs
next = record args { run_id = 42; recover = λ s. (ok tt, s) }

abbrev world : World
world = record {
  state = stopped;
  is_running = false;
  lease = none;
  leases = [];
  orders = store;
  wallet = record { balances = []; positions = [] };
  run_id = none;
  quarantined_fill_ids = [];
}

abbrev lease : Lease
lease = lease_of request 20 100 1

abbrev leases : LeaseTable
leases = new_row request 20 20 100 ∷ []

recovery_raises :
    recover context true texts draw exchange store ≡ (err invalid_state_transition, store)
recovery_raises =
    recover-raises context true texts draw exchange resting there [] store listed
      resting-IsCancelledThere

-- The recovery raises, and the engine keeps the lease that it has taken.
start-raises :
    ((start args world).0 ≡ err invalid_state_transition)
    × ((start args world).1.lease ≡ some lease)
unfolding start acquire attempt apply_write
start-raises = rw recovery_raises (refl, refl)

start-stranded_example :
    IsRefused invalid_state_transition (start args world).1
    ⊎ ((stop (start args world).1 ≡ (ok tt, (start args world).1))
        × (start next (start args world).1
            ≡ (err invalid_state_transition, named next (reload next (start args world).1))))
start-stranded_example =
    start-stranded args next world invalid_state_transition refl refl start-raises.0

lease_run_out : is_held 1 (some 20) 200 leases ≡ false
unfolding is_held
lease_run_out = refl

lease_tick-refuses_example :
    check context
      (record {
        config = config;
        kill_switch = (lease_tick 3 60 200 (some lease) leases switch_off).0;
      })
      (signal opening)
      cleared_args
    ≡ ok (reject, global_kill_switch)
lease_tick-refuses_example =
    lease_tick-refuses context config switch_off 3 60 200 lease leases (signal opening) cleared_args
      (refl, tt) lease_run_out
