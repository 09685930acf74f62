-- ===== src/Runtime/StateMachine.antt =====
-- src/crypto_trader/runtime/state_machine.py: the states of the process.
use crypto_auto_trading_syst.Base.{
  Bool, true, false, Done, ok, err, invalid_state_transition, if◌then◌else◌,
}

pub data RuntimeState : Type 0 where
  stopped starting running recovering stopping halted : RuntimeState

-- `TRANSITIONS`, as the membership test that the code makes.
unfoldable pub allowed : RuntimeState → RuntimeState → Bool
allowed stopped starting = true
allowed stopped recovering = true
allowed starting running = true
allowed starting recovering = true
allowed starting stopped = true
allowed recovering running = true
allowed recovering stopped = true
allowed running halted = true
allowed running stopping = true
allowed halted running = true
allowed halted stopping = true
allowed stopping stopped = true
allowed _ _ = false

unfoldable pub transition : RuntimeState → RuntimeState → Done × RuntimeState
unfolding allowed
transition state new_state =
    if allowed state new_state then (ok tt, new_state) else (err invalid_state_transition, state)
