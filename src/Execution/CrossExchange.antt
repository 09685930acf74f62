-- ===== src/Execution/CrossExchange.antt =====
-- src/crypto_trader/execution/cross_exchange_guard.py: price gaps between the signal's exchange and
-- the one that executes. Times are in microseconds, so an age is their truncated difference, and
-- the limit on ages is given in microseconds too.
pub mod Gaps
use crypto_auto_trading_syst.Base.{
  ℕ, ◌-◌, ◌*◌, Bool, true, false, not, ◌&&◌, ◌||◌, Option, none, some, List, [], ◌∷◌, ◌++◌, ltb,
  ◌==◌, if◌then◌else◌,
}
use crypto_auto_trading_syst.Int.{pos, ltb_ℤ, leb_ℤ}
use crypto_auto_trading_syst.Decimal.{
  Decimal, Context, add, sub, mul, div, abs, is_positive, is_zero,
}
use crypto_auto_trading_syst.Domain.Enums.{ExecutionDecision, approve, hold, reject, is_approve}
use crypto_auto_trading_syst.Domain.Models.{Time}

pub data GapReason : Type 0 where
  signal_data_stale execution_quote_stale spread_too_wide excess_slippage : GapReason
  same_exchange_pass cross_exchange_gap_reject cross_exchange_gap_reduce : GapReason
  cross_exchange_gap_warn : GapReason

pub record ExecutionQuote : Type 0 where
  pub mid_price : Decimal
  pub mark_price : Decimal
  pub best_bid : Decimal
  pub best_ask : Decimal
  pub timestamp : Time

pub record CrossExchangeDecision : Type 0 where
  pub decision : ExecutionDecision
  pub mid_deviation_bps : Decimal
  pub mark_deviation_bps : Decimal
  pub execution_slippage_bps : Decimal
  pub market_age : Time
  pub reason_codes : List GapReason

pub record Guard : Type 0 where
  pub warn_bps : Decimal
  pub reduce_bps : Decimal
  pub reject_bps : Decimal
  pub max_age : Time

module _ (c : Context) where
  -- `Decimal(n)`
  abbrev pub whole : ℕ → Decimal
  whole n = pos (n * c.unit)

  -- `bps`
  unfoldable pub bps : Decimal → Decimal → Decimal
  bps a b = if is_zero b then whole 999 else mul c (div c (sub c a b) b) (whole 10000)

  abbrev pub mid_of : ExecutionQuote → Decimal
  mid_of q = div c (add c q.best_bid q.best_ask) (whole 2)

  abbrev pub latest : ℕ → ℕ → ℕ
  latest a b = if ltb a b then b else a

  abbrev pub stale_reasons : Guard → ℕ → ℕ → List GapReason
  stale_reasons g signal_age execution_age =
      (if ltb g.max_age signal_age then signal_data_stale ∷ [] else [])
      ++ (if ltb g.max_age execution_age then execution_quote_stale ∷ [] else [])

  abbrev pub exceeds : Decimal → Decimal → Decimal → Bool
  exceeds limit a b = leb_ℤ limit (abs c a) || leb_ℤ limit (abs c b)

  -- The decision and the reasons, from the stale ones and the two deviations.
  unfoldable pub decide :
      Guard → List GapReason → Decimal → Decimal → ExecutionDecision × List GapReason
  decide g (r ∷ rs) mid mark = (reject, r ∷ rs)
  decide g [] mid mark =
      if exceeds g.reject_bps mid mark
      then (reject, cross_exchange_gap_reject ∷ [])
      else if exceeds g.reduce_bps mid mark
      then (hold, cross_exchange_gap_reduce ∷ [])
      else if exceeds g.warn_bps mid mark
      then (approve, cross_exchange_gap_warn ∷ [])
      else (approve, [])

  unfoldable pub evaluate : Guard → Time → ExecutionQuote → ExecutionQuote → CrossExchangeDecision
  evaluate g now signal execution =
      let signal_age = now - signal.timestamp in
      let execution_age = now - execution.timestamp in
      let signal_mid = mid_of signal in
      let exec_mid = mid_of execution in
      let mid_dev = bps exec_mid signal_mid in
      let mark_dev = bps execution.mark_price signal.mark_price in
      let verdict = decide g (stale_reasons g signal_age execution_age) mid_dev mark_dev in
      record {
        decision = verdict.0;
        mid_deviation_bps = mid_dev;
        mark_deviation_bps = mark_dev;
        execution_slippage_bps = bps (abs c (sub c exec_mid signal_mid)) signal_mid;
        market_age = latest signal_age execution_age;
        reason_codes = verdict.1;
      }

  abbrev pub or_pass : List GapReason → List GapReason
  or_pass [] = same_exchange_pass ∷ []
  or_pass (r ∷ rs) = r ∷ rs

  -- The age limit is the given one, unless it is absent or zero.
  abbrev pub age_limit : Option Time → Guard → Time
  age_limit none g = g.max_age
  age_limit (some t) g = if t == 0 then g.max_age else t

  unfoldable pub evaluate_same_exchange :
      Guard → Time → ExecutionQuote → Option Time → Decimal → Decimal → CrossExchangeDecision
  evaluate_same_exchange g now quote max_age max_spread_bps max_slippage_bps =
      let age = now - quote.timestamp in
      let spread = abs c (sub c quote.best_ask quote.best_bid) in
      let mid = mid_of quote in
      let spread_bps =
        if is_positive mid then mul c (div c spread mid) (whole 10000) else whole 999 in
      let slippage_bps = div c spread_bps (whole 2) in
      let stale = ltb (age_limit max_age g) age in
      let wide = ltb_ℤ max_spread_bps spread_bps in
      let slips = ltb_ℤ max_slippage_bps slippage_bps && not (stale || wide) in
      record {
        decision = if stale || wide then reject else if slips then hold else approve;
        mid_deviation_bps = pos 0;
        mark_deviation_bps = pos 0;
        execution_slippage_bps = slippage_bps;
        market_age = age;
        reason_codes = or_pass (
            (if stale then execution_quote_stale ∷ [] else [])
            ++ (if wide then spread_too_wide ∷ [] else [])
            ++ (if slips then excess_slippage ∷ [] else []));
      }
