-- ===== src/Execution/CrossExchange/Gaps.antt =====
-- src/crypto_trader/execution/cross_exchange_guard.py: approvals, and the reported slippage.
use crypto_auto_trading_syst.Base.{◌≡◌, ◌↔◌, ◌≤◌, ◌-◌, false, arith}
use crypto_auto_trading_syst.Int.{pos, ◌<ℤ◌}
use crypto_auto_trading_syst.Decimal.{Decimal, Context, sub, mul, div, abs, is_zero}
use crypto_auto_trading_syst.Decimal.Laws.{sub_self, abs_zero}
use crypto_auto_trading_syst.Domain.Enums.{approve}
use crypto_auto_trading_syst.Domain.Models.{Time}
use crypto_auto_trading_syst.Execution.CrossExchange.{
  ExecutionQuote, Guard, whole, bps, mid_of, stale_reasons, decide, evaluate,
}

module _ (c : Context) (g : Guard) where
  -- Both deviations are below the limit, in absolute value.
  abbrev pub Below : Decimal → Decimal → Decimal → Type 0
  Below limit mid mark = (abs c mid <ℤ limit) × (abs c mark <ℤ limit)

  decide-approves :
      (signal_age execution_age : Time) (mid mark : Decimal)
      → ((decide c g (stale_reasons c g signal_age execution_age) mid mark).0 ≡ approve) ↔ (
          (signal_age ≤ g.max_age)
          × (execution_age ≤ g.max_age)
          × Below g.reject_bps mid mark
          × Below g.reduce_bps mid mark)
  unfolding decide
  decide-approves signal_age execution_age mid mark = (λ h. ground arith, λ h. ground arith)

  -- Two quotes are approved exactly when neither is older than the limit and both deviations, of the
  -- mid prices and of the mark prices, are below the rejecting and the reducing thresholds.
  pub evaluate-approves :
      (now : Time) (signal execution : ExecutionQuote)
      → let d = evaluate c g now signal execution in
        (d.decision ≡ approve) ↔ (
          (now - signal.timestamp ≤ g.max_age)
          × (now - execution.timestamp ≤ g.max_age)
          × Below g.reject_bps d.mid_deviation_bps d.mark_deviation_bps
          × Below g.reduce_bps d.mid_deviation_bps d.mark_deviation_bps)
  unfolding evaluate
  evaluate-approves now signal execution =
      decide-approves (now - signal.timestamp) (now - execution.timestamp)
        (bps c (mid_of c execution) (mid_of c signal))
        (bps c execution.mark_price signal.mark_price)

  -- Where the two mid prices are one price other than zero, the reported slippage is the deviation
  -- of *zero* from that price: `bps` is given the difference in place of a price.
  slippage_of_no_gap :
      (now : Time) (signal execution : ExecutionQuote) (m : Decimal)
      → mid_of c signal ≡ m
      → mid_of c execution ≡ m
      → is_zero m ≡ false
      → (evaluate c g now signal execution).execution_slippage_bps
        ≡ mul c (div c (sub c (pos 0) m) m) (whole c 10000)
  unfolding evaluate bps
  slippage_of_no_gap now signal execution m es ee nonzero =
      rw (es, ee, sub_self c m, abs_zero c, nonzero)
