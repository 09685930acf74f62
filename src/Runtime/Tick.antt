-- ===== src/Runtime/Tick.antt =====
-- src/crypto_trader/runtime/engine.py: `tick`, over the strategies and their signals. What a strategy
-- answers, and what the engine reads and draws for each of its signals, are arguments; the kill switch,
-- the halt and the lease are read once and stay for the whole turn, although other tasks may change
-- them while it waits. The refresh of the books is part of what is read; the position bridge, which
-- comes last, and the health flags are left out.
pub mod Failures
use crypto_auto_trading_syst.Base.{
  ℕ, ◌+◌, Bool, true, false, not, ◌&&◌, List, [], ◌∷◌, any, map, select, Result, ok, err, ◌==◌,
  if◌then◌else◌,
}
use crypto_auto_trading_syst.Decimal.{Context, is_zero}
use crypto_auto_trading_syst.Domain.Models.{Text, Position, SignalIntent}
use crypto_auto_trading_syst.Runtime.PerpetualRoute.{Route}
use crypto_auto_trading_syst.Runtime.Signal.{
  Setup, Observed, World, Answer, no_decision, price_unavailable, by_risk, by_authority,
}
use crypto_auto_trading_syst.Runtime.Signal.Process.{Venue, process_signal}

-- A signal, with what is read and drawn when it is processed.
pub record Job : Type 0 where
  pub signal : SignalIntent
  pub observed : Observed
  pub route : Route

-- A strategy without a context is skipped; one that raises is counted.
pub data StrategyRun : Type 0 where
  no_context failed : StrategyRun
  gave : List Job → StrategyRun

abbrev pub with_failures : ℕ → Setup → Setup
with_failures n e = record e { consecutive_failures = n }

-- The symbols with an open position.
unfoldable pub active_symbols : List Position → List Text
active_symbols ps = map (λ p. p.symbol) (select (λ p. not (is_zero p.quantity)) ps)

-- The signals of a held symbol are dropped, except those of the strategy `ai_brain`.
abbrev pub is_suppressed : Text → List Text → SignalIntent → Bool
is_suppressed ai_brain active s =
    any (λ symbol. symbol == s.symbol) active && not (s.strategy_id == ai_brain)

abbrev pub keep_answer : Answer → List Answer → List Answer
keep_answer no_decision rest = rest
keep_answer a rest = a ∷ rest

abbrev pub keeping : Answer → Result (List Answer) × World → Result (List Answer) × World
keeping a (err x, w) = (err x, w)
keeping a (ok rest, w) = (ok (keep_answer a rest), w)

-- An error of one signal ends the turn.
abbrev pub and_next :
    (World → Result (List Answer) × World) → Result Answer × World → Result (List Answer) × World
and_next next (err x, w) = (err x, w)
and_next next (ok a, w) = keeping a (next w)

module _ (c : Context) (venue : Venue) (ai_brain : Text) (active : List Text) where
  unfoldable pub process_jobs : Setup → List Job → World → Result (List Answer) × World
  unfolding process_signal
  process_jobs e [] w = (ok [], w)
  process_jobs e (j ∷ js) w =
      let skipped = process_jobs e js w in
      let processed =
        and_next (process_jobs e js) (process_signal c e j.observed j.route venue j.signal w) in
      if is_suppressed ai_brain active j.signal then skipped else processed

  abbrev pub append_answers : List Answer → List Answer → List Answer
  append_answers [] bs = bs
  append_answers (a ∷ as') bs = a ∷ append_answers as' bs

  abbrev pub joined :
      List Answer → Result (List Answer) × (ℕ × World) → Result (List Answer) × (ℕ × World)
  joined found (err x, nw) = (err x, nw)
  joined found (ok more, nw) = (ok (append_answers found more), nw)

  -- The signals of a strategy are processed after its answer has set the count back to zero.
  abbrev pub after_jobs :
      (ℕ → World → Result (List Answer) × (ℕ × World))
      → Result (List Answer) × World
      → Result (List Answer) × (ℕ × World)
  after_jobs next (err x, w) = (err x, (0, w))
  after_jobs next (ok found, w) = joined found (next 0 w)

  -- The decisions, the count of failures in a row, and the tables.
  unfoldable pub tick : Setup → List StrategyRun → ℕ → World → Result (List Answer) × (ℕ × World)
  unfolding process_jobs
  tick e [] n w = (ok [], (n, w))
  tick e (no_context ∷ rs) n w = tick e rs n w
  tick e (failed ∷ rs) n w = tick e rs (n + 1) w
  tick e (gave jobs ∷ rs) n w = after_jobs (tick e rs) (process_jobs (with_failures 0 e) jobs w)
