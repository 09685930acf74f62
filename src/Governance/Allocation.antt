-- ===== src/Governance/Allocation.antt =====
-- src/crypto_trader/capital_management/engine.py: the fraction of the capital that a thesis gets. The
-- texts of states are compared with those of `States`; of the context the fields are kept that are
-- read.
use crypto_auto_trading_syst.Base.{
  ℕ, ◌*◌, ◌/◌, Bool, ◌||◌, List, [], ◌∷◌, arith, if◌then◌else◌, ◌==◌,
}
use crypto_auto_trading_syst.Int.{pos, ltb_ℤ, ◌≤ℤ◌}
use crypto_auto_trading_syst.Decimal.{Decimal, Context, add, mul, min, max}
use crypto_auto_trading_syst.Domain.Models.{Text}
use crypto_auto_trading_syst.Governance.{literal}

pub record CapitalAllocationContext : Type 0 where
  pub account_equity : Decimal
  pub coin_cluster_exposure : Decimal
  pub conviction_score : Decimal
  pub calibrated_confidence : Decimal
  pub strategy_quality : Decimal
  pub strategy_lifecycle_state : Text
  pub alpha_decay_state : Text
  pub regime_forecast : Text
  pub liquidity_score : Decimal
  pub volatility : Decimal
  pub drawdown_state : Decimal
  pub daily_loss_state : Decimal
  pub correlation_risk : Decimal
  pub transaction_cost_estimate : Decimal

pub record States : Type 0 where
  pub degrading : Text
  pub retired : Text
  pub decayed : Text
  pub reversal : Text
  pub uncertain : Text

pub data ReasonCode : Type 0 where
  low_liquidity high_correlation cluster_concentration high_volatility : ReasonCode
  portfolio_drawdown daily_loss_state strategy_degraded alpha_decay poor_calibration : ReasonCode
  weak_strategy_quality high_transaction_cost regime_uncertainty : ReasonCode

pub record CapitalAllocationDecision : Type 0 where
  pub requested_capital_fraction : Decimal
  pub recommended_capital_fraction : Decimal
  pub recommended_notional : Decimal
  pub recommended_risk_budget : Decimal
  pub max_allowed_fraction_before_risk_engine : Decimal
  pub allocation_confidence : Decimal
  pub reason_codes : List ReasonCode

-- A test that, where it holds, multiplies the fraction and gives a reason.
pub record Cut : Type 0 where
  pub holds : Bool
  pub factor : Decimal
  pub reason : ReasonCode

-- Between zero and both caps.
unfoldable pub clamp : Decimal → Decimal → Decimal → Decimal
clamp x cap hard = max (pos 0) (min (min x cap) hard)

clamp-bounds :
    (x cap : Decimal) (hard : ℕ)
    → (pos 0 ≤ℤ clamp x cap (pos hard))
      × (clamp x cap (pos hard) ≤ℤ pos hard)
      × (clamp x cap (pos hard) ≤ℤ max (pos 0) cap)
unfolding clamp
clamp-bounds x cap hard = ground arith

module _ (c : Context) where
  unfoldable pub cut_all : List Cut → Decimal → Decimal × List ReasonCode
  cut_all [] fraction = (fraction, [])
  cut_all (x ∷ xs) fraction =
      let left = if x.holds then mul c fraction x.factor else fraction in
      let rest = cut_all xs left in (rest.0, if x.holds then x.reason ∷ rest.1 else rest.1)

  abbrev base_fraction : Decimal
  base_fraction = literal c 2 100

  abbrev pub hard_max_fraction : Decimal
  hard_max_fraction = literal c 5 100

  module _ (st : States) (ctx : CapitalAllocationContext) where
    abbrev cut : Bool → ℕ → ReasonCode → Cut
    cut holds tenths reason = record {
      holds = holds;
      factor = literal c tenths 10;
      reason = reason;
    }

    -- The tests in their order.
    unfoldable pub cuts : List Cut
    cuts =
        cut (ltb_ℤ ctx.liquidity_score (literal c 50 1)) 5 low_liquidity
        ∷ cut (ltb_ℤ (literal c 7 10) ctx.correlation_risk) 6 high_correlation
        ∷ cut (ltb_ℤ (literal c 15 100) ctx.coin_cluster_exposure) 7 cluster_concentration
        ∷ cut (ltb_ℤ (literal c 8 1) ctx.volatility) 7 high_volatility
        ∷ cut (ltb_ℤ (literal c 1 10) ctx.drawdown_state) 5 portfolio_drawdown
        ∷ cut (ltb_ℤ (literal c 1 100) ctx.daily_loss_state) 6 daily_loss_state
        ∷ cut
            (ctx.strategy_lifecycle_state == st.degrading
              || ctx.strategy_lifecycle_state == st.retired)
            3 strategy_degraded
        ∷ cut (ctx.alpha_decay_state == st.decayed) 5 alpha_decay
        ∷ cut (ltb_ℤ ctx.calibrated_confidence (literal c 5 10)) 5 poor_calibration
        ∷ cut (ltb_ℤ ctx.strategy_quality (literal c 4 10)) 5 weak_strategy_quality
        ∷ cut (ltb_ℤ (literal c 3 1000) ctx.transaction_cost_estimate) 6 high_transaction_cost
        ∷ cut (ctx.regime_forecast == st.reversal || ctx.regime_forecast == st.uncertain) 7
            regime_uncertainty
        ∷ []

    abbrev pub conviction_cap : Decimal
    conviction_cap =
        mul c (mul c base_fraction (add c (pos c.unit) ctx.conviction_score))
          ctx.calibrated_confidence

    unfoldable pub allocate : Decimal → CapitalAllocationDecision
    unfolding cut_all cuts clamp
    allocate requested =
        let r = cut_all cuts (min requested hard_max_fraction) in
        let fraction = clamp r.0 conviction_cap hard_max_fraction in
        let notional = mul c ctx.account_equity fraction in
        record {
          requested_capital_fraction = requested;
          recommended_capital_fraction = fraction;
          recommended_notional = notional;
          recommended_risk_budget = mul c notional (literal c 2 100);
          max_allowed_fraction_before_risk_engine = hard_max_fraction;
          allocation_confidence =
              mul c (pos c.unit) (max (literal c 1 10) ctx.calibrated_confidence);
          reason_codes = r.1;
        }

    -- The recommended fraction is never negative, never above five per cent of the capital, whatever
    -- is asked for, and never above the cap of the conviction where that is positive.
    allocate-bounds :
        (requested : Decimal)
        → (pos 0 ≤ℤ (allocate requested).recommended_capital_fraction)
          × ((allocate requested).recommended_capital_fraction ≤ℤ hard_max_fraction)
          × ((allocate requested).recommended_capital_fraction ≤ℤ max (pos 0) conviction_cap)
    unfolding allocate
    allocate-bounds requested =
        clamp-bounds (cut_all cuts (min requested hard_max_fraction)).0 conviction_cap
          (5 * c.unit / 100)
