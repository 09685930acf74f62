-- ===== src/Runtime/Supervisor.antt =====
-- src/crypto_trader/runtime/supervisor.py: the start and stop of the supervisor, one turn of each of
-- its loops between two sleeps, and the task in which a loop runs and is restarted. Whether a turn
-- makes the call of its callback is part of its result; what the callback does is not.
pub mod Restarts
pub mod Exclusion
use crypto_auto_trading_syst.Base.{
  ℕ, ◌≡◌, ◌+◌, Bool, true, false, not, ◌&&◌, Option, none, some, List, [], ◌∷◌, ◌++◌, Result, Done,
  ok, err, lease_not_held, integrity_error, stale_data, if◌then◌else◌,
}
use crypto_auto_trading_syst.Domain.Models.{Text, Time}
use crypto_auto_trading_syst.Runtime.StateMachine.{RuntimeState, running, stopped, halted}
use crypto_auto_trading_syst.Runtime.Lease.{
  Lease, LeaseTable, Request, Attempt, Outcome, acquired, refused, again, raised, acquire, release,
  renew, is_current,
}

pub data LoopName : Type 0 where
  market_data scanner strategy execution order_event user_data_stream reconciliation : LoopName
  lease_renew heartbeat ai_position : LoopName

pub record RuntimeStatus : Type 0 where
  pub runtime_state : RuntimeState
  pub run_id : Option Text
  pub lease_valid : Bool
  pub fence_generation : ℕ
  pub database : Bool
  pub market_ws : Bool
  pub user_ws : Bool
  pub scanner_heartbeat : ℕ
  pub market_heartbeat : ℕ
  pub reconciliation_heartbeat : ℕ
  pub lease_renew_count : ℕ
  pub restart_count : ℕ

pub record Supervisor : Type 0 where
  pub lease_key : Text
  pub status : RuntimeStatus
  pub lease : Option Lease
  pub stopping : Bool
  pub tasks : List LoopName

abbrev pub is_running : RuntimeState → Bool
is_running running = true
is_running _ = false

abbrev pub with_status : RuntimeStatus → Supervisor → Supervisor
with_status status s = record s { status = status }

abbrev loops : List LoopName
loops =
    market_data ∷ scanner ∷ strategy ∷ execution ∷ order_event ∷ user_data_stream ∷ reconciliation
    ∷ lease_renew ∷ heartbeat ∷ []

-- A refusal of the lease halts the supervisor; an error of the database only leaves it.
unfoldable pub after_acquire :
    Bool → Outcome × LeaseTable → Supervisor → (Done × Supervisor) × LeaseTable
after_acquire has_ai_position (acquired l, t) s = (
  (
    ok tt,
    record s {
      lease = some l;
      status = record s.status { fence_generation = l.fence_generation; runtime_state = running };
      stopping = false;
      tasks = loops ++ (if has_ai_position then ai_position ∷ [] else []);
    },
  ),
  t,
)
after_acquire has_ai_position (refused, t) s = (
  (
    err lease_not_held,
    record s { lease = none; status = record s.status { runtime_state = halted } },
  ),
  t,
)
after_acquire has_ai_position (again, t) s = ((err integrity_error, s), t)
after_acquire has_ai_position (raised, t) s = ((err stale_data, s), t)

unfoldable pub start :
    Bool
    → Request
    → List Attempt
    → Text
    → ℕ
    → Supervisor
    → LeaseTable
    → (Done × Supervisor) × LeaseTable
unfolding after_acquire acquire
start has_ai_position q attempts run_id restart_count s t =
    if is_running s.status.runtime_state
    then ((ok tt, s), t)
    else after_acquire has_ai_position (acquire q attempts t)
        (with_status (record s.status { run_id = some run_id; restart_count = restart_count }) s)

unfoldable pub stop : Supervisor → LeaseTable → Supervisor × LeaseTable
unfolding release
stop s t = (
  record s { stopping = true; tasks = []; status = record s.status { runtime_state = stopped } },
  elim s.lease [ none ↦ t | some l ↦ (release s.lease_key l.token t).1 ],
)

abbrev pub lease_is_current : Option Lease → Text → Time → LeaseTable → Bool
lease_is_current none key now t = false
lease_is_current (some l) key now t = is_current key l.token l.fence_generation now t

-- Whether the callback is called, and the supervisor afterwards.
unfoldable pub execution_turn : Time → LeaseTable → Supervisor → Bool × Supervisor
unfolding is_current
execution_turn now t s =
    let valid = lease_is_current s.lease s.lease_key now t in
    (valid, with_status (record s.status { lease_valid = valid }) s)

unfoldable pub after_renewal : Supervisor → Result Bool × LeaseTable → Supervisor × LeaseTable
after_renewal s (ok true, t) =
    (with_status (record s.status { lease_renew_count = s.status.lease_renew_count + 1 }) s, t)
after_renewal s (ok false, t) = (with_status (record s.status { runtime_state = halted }) s, t)
after_renewal s (err e, t) = (s, t)

unfoldable pub renew_turn : Time → LeaseTable → Supervisor → Supervisor × LeaseTable
unfolding renew after_renewal
renew_turn now t s = elim s.lease [
  | none ↦ (s, t)
  | some l ↦ after_renewal s (renew s.lease_key l.token 30 now t)
]

-- The turns of the other loops.
unfoldable pub plain_turn : LoopName → Supervisor → Bool × Supervisor
plain_turn market_data s = (
  true,
  with_status
      (record s.status { market_ws = true; market_heartbeat = s.status.market_heartbeat + 1 }) s,
)
plain_turn scanner s =
    (true, with_status (record s.status { scanner_heartbeat = s.status.scanner_heartbeat + 1 }) s)
plain_turn order_event s = (true, s)
plain_turn user_data_stream s = (true, with_status (record s.status { user_ws = true }) s)
plain_turn reconciliation s = (
  true,
  with_status (record s.status { reconciliation_heartbeat = s.status.reconciliation_heartbeat + 1 })
      s,
)
plain_turn heartbeat s = (false, with_status (record s.status { database = true }) s)
plain_turn ai_position s = (true, s)
plain_turn _ s = (false, s)

unfoldable pub turn : LoopName → Time → LeaseTable → Supervisor → (Bool × Supervisor) × LeaseTable
unfolding execution_turn renew_turn plain_turn
turn execution now t s = (execution_turn now t s, t)
turn lease_renew now t s = let r = renew_turn now t s in ((false, r.0), r.1)
turn name now t s = (plain_turn name s, t)

-- A coroutine that has ended can not be awaited again: the await raises.
pub data Coroutine : Type 0 where
  suspended finished : Coroutine

pub data Ending : Type 0 where
  returned raises was_cancelled : Ending

-- The coroutine of a loop, whether a task awaits it, how many turns its body has run, and how often it
-- was handed to another task.
pub record Loop : Type 0 where
  pub coroutine : Coroutine
  pub has_task : Bool
  pub turns : ℕ
  pub restarts : ℕ

abbrev pub ended : Loop → Loop
ended l = record l { coroutine = finished; has_task = false }

-- `_supervised`, once its await has ended: an error hands the same coroutine to another task.
unfoldable pub supervised : Bool → Ending → Loop → Loop
supervised stopping returned l = ended l
supervised stopping was_cancelled l = ended l
supervised stopping raises l =
    if stopping
    then ended l
    else record l { coroutine = finished; has_task = true; restarts = l.restarts + 1 }

-- What the event loop may do with the task of a loop, while the supervisor is stopping or not.
pub data Step (stopping : Bool) : Loop → Loop → Type 0 where
  run_turn :
      (l : Loop)
      → l.has_task ≡ true
      → l.coroutine ≡ suspended
      → Step stopping l (record l { turns = l.turns + 1 })
  end_body :
      (l : Loop) (e : Ending)
      → l.has_task ≡ true
      → l.coroutine ≡ suspended
      → Step stopping l (supervised stopping e l)
  await_again :
      (l : Loop)
      → l.has_task ≡ true
      → l.coroutine ≡ finished
      → Step stopping l (supervised stopping raises l)
  cancel : (l : Loop) → l.has_task ≡ true → Step stopping l (supervised stopping was_cancelled l)

-- Any number of steps; the supervisor may begin to stop in between.
pub data Steps (l : Loop) : Loop → Type 0 where
  here : Steps l l
  next : {m n : Loop} (stopping : Bool) → Steps l m → Step stopping m n → Steps l n
