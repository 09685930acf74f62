-- ===== src/Runtime/Tick/Failures.antt =====
-- src/crypto_trader/runtime/engine.py: the limit on failures in a row, in a tick.
use crypto_auto_trading_syst.Base.{
  ℕ, ◌+◌, ◌≡◌, refl, ap, ◌∙◌, ◌<◌, Bool, true, false, List, [], ◌∷◌, Result, ok, err, arith, leb,
  if◌then◌else◌,
}
use crypto_auto_trading_syst.Decimal.{Decimal, Context}
use crypto_auto_trading_syst.Domain.Models.{Text, SignalIntent}
use crypto_auto_trading_syst.Risk.Engine.{
  signal, signal_check, limits_check, exposure_check, increasing, check,
}
use crypto_auto_trading_syst.Runtime.Signal.{Setup, Observed, World, Answer, check_args}
use crypto_auto_trading_syst.Runtime.Signal.Process.{Venue, process_signal}
use crypto_auto_trading_syst.Runtime.Signal.Process.Configs.{with_config, process_signal-config}
use crypto_auto_trading_syst.Runtime.Tick.{
  Job, StrategyRun, no_context, failed, gave, with_failures, is_suppressed, and_next, keeping,
  process_jobs, joined, after_jobs, tick,
}

-- The same limits, with another one on failures in a row.
abbrev pub with_limit : ℕ → Setup → Setup
with_limit n e = with_config e (record e.risk_engine.config { max_consecutive_failures = n })

not_reached : (n : ℕ) → 0 < n → leb n 0 ≡ false
not_reached n h = ground arith

if_same :
    {A : Type 0} (b : Bool) (x x' y y' : A)
    → x ≡ x'
    → y ≡ y'
    → (if b then x else y) ≡ (if b then x' else y')
if_same true x x' y y' h k = h
if_same false x x' y y' h k = k

and_next-same :
    (f g : World → Result (List Answer) × World) (r : Result Answer × World)
    → ((w : World) → f w ≡ g w)
    → and_next f r ≡ and_next g r
and_next-same f g (err x, w) h = refl
and_next-same f g (ok a, w) h = ap (keeping a) (h w)

after_jobs-same :
    (c : Context) (venue : Venue) (ai_brain : Text) (active : List Text)
    (f g : ℕ → World → Result (List Answer) × (ℕ × World)) (r : Result (List Answer) × World)
    → ((n : ℕ) (w : World) → f n w ≡ g n w)
    → after_jobs c venue ai_brain active f r ≡ after_jobs c venue ai_brain active g r
after_jobs-same c venue ai_brain active f g (err x, w) h = refl
after_jobs-same c venue ai_brain active f g (ok found, w) h =
    ap (joined c venue ai_brain active found) (h 0 w)

module _ (c : Context) (venue : Venue) (ai_brain : Text) (active : List Text) (e : Setup)
    (limit : ℕ) (positive : 0 < limit)
    (own : 0 < e.risk_engine.config.max_consecutive_failures) where
  check-with_limit :
      (o : Observed) (s : SignalIntent) (open_orders : ℕ) (signed : Decimal)
      → check c
          (with_limit limit (with_failures 0 e)).risk_engine
          (signal s)
          (check_args c (with_failures 0 e) o s open_orders signed)
        ≡ check c e.risk_engine (signal s) (check_args c (with_failures 0 e) o s open_orders signed)
  unfolding check signal_check limits_check increasing exposure_check
  check-with_limit o s open_orders signed =
      rw (not_reached limit positive, not_reached e.risk_engine.config.max_consecutive_failures own)
        refl

  process_jobs-with_limit :
      (jobs : List Job) (w : World)
      → process_jobs c venue ai_brain active (with_limit limit (with_failures 0 e)) jobs w
        ≡ process_jobs c venue ai_brain active (with_failures 0 e) jobs w
  unfolding process_jobs
  process_jobs-with_limit [] w = refl
  process_jobs-with_limit (j ∷ js) w =
      let e' = with_limit limit (with_failures 0 e) in
      let run = process_jobs c venue ai_brain active in
      let made = process_signal c e' j.observed j.route venue j.signal w in
      if_same (is_suppressed ai_brain active j.signal) (run e' js w) (run (with_failures 0 e) js w)
        (and_next (run e' js) made) _ (process_jobs-with_limit js w)
        (and_next-same (run e' js) (run (with_failures 0 e) js) made (process_jobs-with_limit js)
          ∙ ap (and_next (run (with_failures 0 e) js)) (
              process_signal-config c (with_failures 0 e) (with_limit limit e).risk_engine.config
                j.observed j.route venue j.signal (check-with_limit j.observed j.signal) w))

  -- In a tick the limit on failures in a row does not change what becomes of any signal, so long as it
  -- is positive: with any other positive limit the decisions, the count and every table are the same,
  -- however many strategies have failed.
  pub tick-with_limit :
      (runs : List StrategyRun) (n : ℕ) (w : World)
      → tick c venue ai_brain active (with_limit limit e) runs n w
        ≡ tick c venue ai_brain active e runs n w
  unfolding tick
  tick-with_limit [] n w = refl
  tick-with_limit (no_context ∷ rs) n w = tick-with_limit rs n w
  tick-with_limit (failed ∷ rs) n w = tick-with_limit rs (n + 1) w
  tick-with_limit (gave jobs ∷ rs) n w =
      let run = tick c venue ai_brain active in
      ap (after_jobs c venue ai_brain active (run (with_limit limit e) rs))
        (process_jobs-with_limit jobs w)
      ∙ after_jobs-same c venue ai_brain active (run (with_limit limit e) rs) (run e rs)
          (process_jobs c venue ai_brain active (with_failures 0 e) jobs w) (tick-with_limit rs)
