-- ===== src/Tests/Supervisors.antt =====
-- Two supervisors on one lease, and a loop whose body has raised.
use crypto_auto_trading_syst.Base.{◌≡◌, refl, true, false, some, [], ◌∷◌}
use crypto_auto_trading_syst.Runtime.StateMachine.{running}
use crypto_auto_trading_syst.Runtime.Lease.{Lease, lease_of, insert_row, apply_write, is_current}
use crypto_auto_trading_syst.Runtime.Lease.Writes.{Event, commit_all}
use crypto_auto_trading_syst.Base.{List}
use crypto_auto_trading_syst.Runtime.Supervisor.{
  RuntimeStatus, Supervisor, execution_turn, suspended, raises, Loop, supervised, Steps, here, next,
  await_again,
}
use crypto_auto_trading_syst.Runtime.Supervisor.Exclusion.{execution_turn-exclusive}
use crypto_auto_trading_syst.Runtime.Supervisor.Restarts.{supervised-turns}
use crypto_auto_trading_syst.Tests.Leases.{request}

abbrev events : List Event
events = record { write = insert_row request 10 12; now = 200 } ∷ []

abbrev status : RuntimeStatus
status = record {
  runtime_state = running;
  run_id = some 3;
  lease_valid = false;
  fence_generation = 1;
  database = false;
  market_ws = false;
  user_ws = false;
  scanner_heartbeat = 0;
  market_heartbeat = 0;
  reconciliation_heartbeat = 0;
  lease_renew_count = 0;
  restart_count = 0;
}

abbrev supervisor : Supervisor
supervisor = record {
  lease_key = 1;
  status = status;
  lease = some (lease_of request 12 200 1);
  stopping = false;
  tasks = [];
}

abbrev restarted : Supervisor
restarted = record supervisor { status = record status { restart_count = 1 } }

execution_turn-exclusive_example :
    (k l : Lease) × (supervisor.lease ≡ some k) × (restarted.lease ≡ some l) × (k.token ≡ l.token)
unfolding execution_turn is_current commit_all apply_write
execution_turn-exclusive_example =
    execution_turn-exclusive events 210 supervisor restarted refl refl refl

-- A loop that has run three turns.
abbrev loop : Loop
loop = record { coroutine = suspended; has_task = true; turns = 3; restarts = 0 }

again :
    Steps (supervised false raises loop) (supervised false raises (supervised false raises loop))
unfolding supervised
again = next false here (await_again (supervised false raises loop) refl refl)

supervised-turns_example :
    (supervised false raises (supervised false raises loop)).turns ≡ loop.turns
supervised-turns_example =
    supervised-turns false raises loop (supervised false raises (supervised false raises loop))
      again
