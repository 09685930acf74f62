-- ===== src/Runtime/Signal/Process/LossLimits.antt =====
-- src/crypto_trader/runtime/engine.py: the limits on losses, which `process_signal` does not supply
-- with the losses.
use crypto_auto_trading_syst.Base.{ℕ, ◌≡◌, refl, false, arith}
use crypto_auto_trading_syst.Int.{pos, abs_ℕ, ltb_ℤ, ◌≤ℤ◌, ◌-ℤ◌}
use crypto_auto_trading_syst.Decimal.{Decimal, Context, round, neg, abs}
use crypto_auto_trading_syst.Decimal.Laws.{round_nonneg}
use crypto_auto_trading_syst.Domain.Models.{SignalIntent}
use crypto_auto_trading_syst.Risk.Engine.{
  RiskConfig, signal, floor_of, limits_check, exposure_check, increasing, signal_check, check,
}
use crypto_auto_trading_syst.Runtime.PerpetualRoute.{Route}
use crypto_auto_trading_syst.Runtime.Signal.{Setup, Observed, World, check_args}
use crypto_auto_trading_syst.Runtime.Signal.Process.Configs.{with_config, process_signal-config}
use crypto_auto_trading_syst.Runtime.Signal.Process.{Venue, process_signal}

neg_nonpos : (c : Context) (a : Decimal) → pos 0 ≤ℤ a → neg c a ≤ℤ pos 0
unfolding neg round ◌-ℤ◌
neg_nonpos c a h = ground arith

abs_nonneg : (c : Context) (a : Decimal) → pos 0 ≤ℤ abs c a
unfolding abs
abs_nonneg c a = round_nonneg c (pos (abs_ℕ a)) (omega arith)

no_floor : (c : Context) (limit : Decimal) → ltb_ℤ (pos 0) (floor_of c limit) ≡ false
no_floor c limit =
    let below : floor_of c limit ≤ℤ pos 0 = neg_nonpos c (abs c limit) (abs_nonneg c limit) in
    ground arith

-- Other limits on losses.
abbrev pub with_losses : RiskConfig → RiskConfig → RiskConfig
with_losses config other = record config {
  max_daily_loss = other.max_daily_loss;
  max_drawdown = other.max_drawdown;
}

abbrev pub with_loss_limits : Setup → RiskConfig → Setup
with_loss_limits e other = with_config e (with_losses e.risk_engine.config other)

check-no_losses :
    (c : Context) (e : Setup) (other : RiskConfig) (o : Observed) (s : SignalIntent)
    (open_orders : ℕ) (signed : Decimal)
    → check c
        (with_loss_limits e other).risk_engine
        (signal s)
        (check_args c e o s open_orders signed)
      ≡ check c e.risk_engine (signal s) (check_args c e o s open_orders signed)
unfolding check signal_check limits_check increasing exposure_check
check-no_losses c e other o s open_orders signed =
    rw
      (
        no_floor c other.max_daily_loss,
        no_floor c other.max_drawdown,
        no_floor c e.risk_engine.config.max_daily_loss,
        no_floor c e.risk_engine.config.max_drawdown,
      )
      refl

-- The limits on the daily loss and on the drawdown do not change what becomes of a signal, whatever
-- their values: with any others the answer and every table are the same.
pub process_signal-loss_limits :
    (c : Context) (e : Setup) (other : RiskConfig) (o : Observed) (r : Route) (venue : Venue)
    (s : SignalIntent) (w : World)
    → process_signal c (with_loss_limits e other) o r venue s w ≡ process_signal c e o r venue s w
process_signal-loss_limits c e other o r venue s =
    process_signal-config c e (with_losses e.risk_engine.config other) o r venue s
      (check-no_losses c e other o s)
