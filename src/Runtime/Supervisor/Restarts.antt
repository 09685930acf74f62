-- ===== src/Runtime/Supervisor/Restarts.antt =====
-- src/crypto_trader/runtime/supervisor.py: what is left of a loop whose body has ended.
use crypto_auto_trading_syst.Base.{◌≡◌, refl, ◌∙◌, ℕ, zero, suc, ◌+◌, Bool, true, false, arith}
use crypto_auto_trading_syst.Runtime.Supervisor.{
  finished, Ending, returned, raises, was_cancelled, Loop, supervised, Step, run_turn, end_body,
  await_again, cancel, Steps, here, next,
}

-- The loop as it was when its body ended.
abbrev IsOver : Loop → Loop → Type 0
IsOver l m = (m.coroutine ≡ finished) × (m.turns ≡ l.turns)

supervised-IsOver : (stopping : Bool) (e : Ending) (l : Loop) → IsOver l (supervised stopping e l)
unfolding supervised
supervised-IsOver stopping returned l = (refl, refl)
supervised-IsOver stopping was_cancelled l = (refl, refl)
supervised-IsOver true raises l = (refl, refl)
supervised-IsOver false raises l = (refl, refl)

Step-IsOver :
    {stopping : Bool} (l : Loop) {m n : Loop} → Step stopping m n → IsOver l m → IsOver l n
Step-IsOver l (run_turn m task alive) h = cc
Step-IsOver {stopping = stopping} l (end_body m e task alive) h =
    let (over, same) = supervised-IsOver stopping e m in (over, same ∙ h.1)
Step-IsOver {stopping = stopping} l (await_again m task over') h =
    let (over, same) = supervised-IsOver stopping raises m in (over, same ∙ h.1)
Step-IsOver {stopping = stopping} l (cancel m task) h =
    let (over, same) = supervised-IsOver stopping was_cancelled m in (over, same ∙ h.1)

Steps-IsOver : (l : Loop) {m n : Loop} → Steps m n → IsOver l m → IsOver l n
Steps-IsOver l here h = h
Steps-IsOver l (next stopping before step) h = Step-IsOver l step (Steps-IsOver l before h)

-- Once the body of a loop has ended, however it ended, no restart makes it run another turn: through
-- any steps of the event loop the number of its turns stays the same.
pub supervised-turns :
    (stopping : Bool) (e : Ending) (l m : Loop)
    → Steps (supervised stopping e l) m
    → m.turns ≡ l.turns
supervised-turns stopping e l m steps = (Steps-IsOver l steps (supervised-IsOver stopping e l)).1

-- Reached with so many restarts, with a task that awaits the finished coroutine.
record HasRestarted (l : Loop) (n : ℕ) : Type 0 where
  pub loop : Loop
  pub steps : Steps (supervised false raises l) loop
  pub task : loop.has_task ≡ true
  pub over : loop.coroutine ≡ finished
  pub restarts : loop.restarts ≡ l.restarts + 1 + n

supervised-HasRestarted : (l : Loop) (n : ℕ) → HasRestarted l n
unfolding supervised
supervised-HasRestarted l zero = record {
  loop = supervised false raises l;
  steps = here;
  task = refl;
  over = refl;
  restarts = omega arith;
}
supervised-HasRestarted l (suc n) =
    let r = supervised-HasRestarted l n in
    record {
      loop = supervised false raises r.loop;
      steps = next false r.steps (await_again r.loop r.task r.over);
      task = refl;
      over = refl;
      restarts = rw r.restarts (omega arith);
    }

-- A loop whose body has raised is restarted without end: any number of further restarts is reached,
-- each with no turn of the body between.
supervised-restarts :
    (l : Loop) (n : ℕ)
    → (m : Loop) × Steps (supervised false raises l) m
      × (m.restarts ≡ l.restarts + 1 + n)
      × (m.turns ≡ l.turns)
supervised-restarts l n =
    let r = supervised-HasRestarted l n in
    (r.loop, r.steps, r.restarts, supervised-turns false raises l r.loop r.steps)
