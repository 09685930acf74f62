-- ===== src/Runtime/Engine/Starts.antt =====
-- src/crypto_trader/runtime/engine.py: a start that raises.
use crypto_auto_trading_syst.Base.{
  ◌≡◌, ◌⊎◌, inl, inr, refl, false, Bool-cases, none, Error, Done, ok, err, lease_not_held,
  invalid_state_transition, arith,
}
use crypto_auto_trading_syst.Order.Store.{Store}
use crypto_auto_trading_syst.Runtime.StateMachine.{
  stopped, starting, recovering, transition, allowed,
}
use crypto_auto_trading_syst.Runtime.Lease.{
  LeaseTable, Outcome, acquired, refused, again, raised, acquire,
}
use crypto_auto_trading_syst.Runtime.Engine.{
  World, StartArgs, then_do, reload, named, move, after_acquire, take_lease, restore, run, start,
  stop,
}

-- The engine does not run, and is in a state in which it cannot start.
pub record IsStuck (w : World) : Type 0 where
  pub idle : w.is_running ≡ false
  pub state : (w.state ≡ starting) ⊎ (w.state ≡ recovering)

-- The engine has been refused the lease.
pub record IsRefused (e : Error) (w : World) : Type 0 where
  pub raises : e ≡ lease_not_held
  pub state : w.state ≡ stopped
  pub lease : w.lease ≡ none

-- What holds of a step of a start, if it raises and if it does not.
abbrev EndsWell : Done × World → Type 0
EndsWell (ok x, w) = (w.is_running ≡ false) × (w.state ≡ starting)
EndsWell (err e, w) = IsRefused e w ⊎ IsStuck w

after_acquire-EndsWell :
    (r : Outcome × LeaseTable) (w : World)
    → w.is_running ≡ false
    → w.state ≡ starting
    → EndsWell (after_acquire r w)
unfolding after_acquire move transition allowed
after_acquire-EndsWell (acquired l, t) w idle at_start = (idle, at_start)
after_acquire-EndsWell (refused, t) w idle at_start =
    rw at_start (inl (record { raises = refl; state = refl; lease = refl }))
after_acquire-EndsWell (again, t) w idle at_start =
    inr (record { idle = idle; state = inl at_start })
after_acquire-EndsWell (raised, t) w idle at_start =
    inr (record { idle = idle; state = inl at_start })

take_lease-EndsWell :
    (a : StartArgs) (w : World)
    → w.is_running ≡ false
    → w.state ≡ starting
    → EndsWell (take_lease a w)
unfolding take_lease
take_lease-EndsWell a w idle at_start = elim (Bool-cases a.require_lease) [
  | inl leased ↦
      rw leased (after_acquire-EndsWell (acquire a.request a.attempts w.leases) w idle at_start)
  | inr free ↦ rw free (idle, at_start)
]

-- A step that raises leaves the engine refused or stuck.
abbrev Fails : Done × World → Type 0
Fails (ok x, w) = Unit
Fails (err e, w) = IsRefused e w ⊎ IsStuck w

recovered-Fails :
    (a : StartArgs) (w : World) (r : Done × Store)
    → a.recover w.orders ≡ r
    → w.is_running ≡ false
    → w.state ≡ starting
    → Fails (run a w)
unfolding run restore move transition allowed
recovered-Fails a w (ok x, s) e idle at_start = rw (at_start, e) tt
recovered-Fails a w (err x, s) e idle at_start =
    rw (at_start, e) (inr (record { idle = idle; state = inr refl }))

then_run-Fails : (a : StartArgs) (r : Done × World) → EndsWell r → Fails (then_do r (run a))
then_run-Fails a (ok x, w) (idle, at_start) =
    recovered-Fails a w (a.recover w.orders) refl idle at_start
then_run-Fails a (err e, w) h = h

start-Fails :
    (a : StartArgs) (w : World) → w.is_running ≡ false → w.state ≡ stopped → Fails (start a w)
unfolding start move transition allowed
start-Fails a w idle at_rest =
    let begun = record (named a (reload a w)) { state = starting; is_running = false } in
    rw (idle, at_rest)
      (then_run-Fails a (take_lease a begun) (take_lease-EndsWell a begun refl refl))

Fails-raised :
    (r : Done × World) (e : Error) → r.0 ≡ err e → Fails r → IsRefused e r.1 ⊎ IsStuck r.1
Fails-raised (ok x, w) e h f = cc
Fails-raised (err x, w) e h f = ground arith

IsStuck-start :
    (next : StartArgs) (w : World)
    → IsStuck w
    → start next w ≡ (err invalid_state_transition, named next (reload next w))
unfolding start move transition allowed
IsStuck-start next w h = elim h.state [
  | inl at_start ↦ rw (h.idle, at_start) refl
  | inr at_recovery ↦ rw (h.idle, at_recovery) refl
]

IsStuck-stop : (w : World) → IsStuck w → stop w ≡ (ok tt, w)
unfolding stop
IsStuck-stop w h = rw h.idle refl

-- Where the start of a stopped engine raises, for whatever reason, either the lease has been refused
-- and the engine is stopped without one; or the engine is stuck: a stop changes nothing, so that a
-- lease it holds is not released, and a further start, whatever it is given, raises an invalid
-- transition and changes nothing but the run id and the quarantined fills.
pub start-stranded :
    (a next : StartArgs) (w : World) (e : Error)
    → w.is_running ≡ false
    → w.state ≡ stopped
    → (start a w).0 ≡ err e
    → IsRefused e (start a w).1
      ⊎ ((stop (start a w).1 ≡ (ok tt, (start a w).1))
          × (start next (start a w).1
              ≡ (err invalid_state_transition, named next (reload next (start a w).1))))
start-stranded a next w e idle at_rest h =
    elim (Fails-raised (start a w) e h (start-Fails a w idle at_rest)) [
      | inl denied ↦ inl denied
      | inr stuck ↦ inr (IsStuck-stop (start a w).1 stuck, IsStuck-start next (start a w).1 stuck)
    ]
