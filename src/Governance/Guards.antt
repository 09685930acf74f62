-- ===== src/Governance/Guards.antt =====
-- src/crypto_trader/risk_v3/engine.py and src/crypto_trader/capital_guard/guard.py.
use crypto_auto_trading_syst.Base.{ℕ, ◌+◌, Bool, true, false, not, leb, if◌then◌else◌}
use crypto_auto_trading_syst.Int.{pos, leb_ℤ, ltb_ℤ}
use crypto_auto_trading_syst.Decimal.{Decimal, Context, add, mul, div, neg, abs, is_positive}
use crypto_auto_trading_syst.Domain.Models.{Text}
use crypto_auto_trading_syst.Governance.{literal}

pub data Level : Type 0 where
  normal caution defensive halted : Level

-- A field that is annotated as a Boolean, and is given a text in one place.
pub data Flag : Type 0 where
  flag : Bool → Flag
  text_of : Level → Flag

pub data RiskReason : Type 0 where
  no_reason reduce_position_reduce_leverage high_risk_approval_required : RiskReason
  max_drawdown_halt : RiskReason

pub record RiskDecisionV3 : Type 0 where
  pub level : Level
  pub drawdown_pct : Decimal
  pub new_risk_allowed : Bool
  pub max_leverage : Decimal
  pub allow_reduce_close : Flag
  pub reason : RiskReason

module _ (c : Context) where
  -- `D(max_drawdown) / D("100")`
  abbrev pub hundredth : Decimal → Decimal
  hundredth x = div c x (literal c 100 1)

  abbrev pub decision : Level → Decimal → Bool → ℕ → Flag → RiskReason → RiskDecisionV3
  decision level dd allowed leverage reduce reason = record {
    level = level;
    drawdown_pct = mul c dd (literal c 100 1);
    new_risk_allowed = allowed;
    max_leverage = literal c leverage 1;
    allow_reduce_close = reduce;
    reason = reason;
  }

  -- The bands of `evaluate`.
  unfoldable pub banded : Decimal → Decimal → RiskDecisionV3
  banded max_drawdown dd =
      if ltb_ℤ dd (literal c 15 100)
      then decision normal dd true 6 (text_of normal) no_reason
      else if ltb_ℤ dd (literal c 20 100)
      then decision caution dd true 3 (flag true) reduce_position_reduce_leverage
      else if ltb_ℤ dd max_drawdown
      then decision defensive dd false 1 (flag true) high_risk_approval_required
      else decision halted dd false 0 (flag true) max_drawdown_halt

  unfoldable pub evaluate : Decimal → Decimal → RiskDecisionV3
  unfolding banded
  evaluate max_drawdown drawdown_pct =
      banded (hundredth max_drawdown) (hundredth (abs c drawdown_pct))

  -- `LossStreakGuard`; its state is the streak.
  abbrev pub record_loss : ℕ → ℕ
  record_loss streak = streak + 1

  abbrev pub record_win : ℕ → ℕ
  record_win streak = 0

  unfoldable pub position_multiplier : ℕ → Decimal
  position_multiplier streak =
      if leb 5 streak then pos 0 else if leb 3 streak then literal c 5 10 else literal c 1 1

  -- `DailyLossGuard`; its state is the profit of the day.
  abbrev pub record_pnl : Decimal → Decimal → Decimal
  record_pnl pnl daily_pnl = add c daily_pnl pnl

  unfoldable pub blocks_new_risk : Decimal → Decimal → Bool
  blocks_new_risk daily_limit daily_pnl = leb_ℤ daily_pnl (neg c (abs c daily_limit))

-- `EmergencyRiskMode`
pub record EmergencyRiskMode : Type 0 where
  pub active : Bool
  pub reason : Text

abbrev pub trigger : Text → EmergencyRiskMode → EmergencyRiskMode
trigger reason m = record { active = true; reason = reason }

abbrev pub reset : EmergencyRiskMode → EmergencyRiskMode
reset m = record { active = false; reason = 0 }

abbrev pub new_risk_allowed : EmergencyRiskMode → Bool
new_risk_allowed m = not m.active

pub record CapitalGuard : Type 0 where
  pub max_capital_allocation_pct : Decimal
  pub daily_loss_limit_pct : Decimal
  pub emergency_stop : Bool
  pub manual_approval_required : Bool
  pub daily_pnl : Decimal

pub data GuardReason : Type 0 where
  emergency_stopped manual_approval max_capital_allocation daily_loss_limit fine : GuardReason

abbrev pub allocation_beyond : Context → CapitalGuard → Decimal → Decimal → Bool
allocation_beyond c g equity notional =
    ltb_ℤ g.max_capital_allocation_pct (mul c (div c notional equity) (literal c 100 1))

unfoldable pub block_new_risk : Context → CapitalGuard → Decimal → Decimal → Bool × GuardReason
block_new_risk c g equity notional =
    if g.emergency_stop
    then (true, emergency_stopped)
    else if g.manual_approval_required
    then (true, manual_approval)
    else if (if is_positive equity then allocation_beyond c g equity notional else false)
    then (true, max_capital_allocation)
    else if leb_ℤ g.daily_pnl (neg c (abs c g.daily_loss_limit_pct))
    then (true, daily_loss_limit)
    else (false, fine)
