-- ===== src/Governance/Drawdown.antt =====
-- src/crypto_trader/governance/drawdown.py: `DrawdownPolicy`. The text of the reason is left out.
use crypto_auto_trading_syst.Base.{
  ◌≡◌, ℕ, ◌↔◌, Bool, true, false, not, List, [], ◌∷◌, arith, if◌then◌else◌,
}
use crypto_auto_trading_syst.Int.{pos, leb_ℤ, ltb_ℤ, ◌≤ℤ◌}
use crypto_auto_trading_syst.Decimal.{Decimal, Context, abs}
use crypto_auto_trading_syst.Governance.{literal}

pub record DrawdownDecision : Type 0 where
  pub drawdown_pct : Decimal
  pub risk_multiplier : Decimal
  pub kill_switch : Bool
  pub allow_new_risk : Bool
  pub allow_reduce : Bool
  pub allow_close : Bool

pub record Band : Type 0 where
  pub threshold : Decimal
  pub multiplier : Decimal
  pub kill : Bool

pub data ActionName : Type 0 where
  reduce close other_action : ActionName

module _ (c : Context) where
  abbrev band : ℕ → ℕ → Bool → Band
  band percent multiplier kill = record {
    threshold = literal c percent 100;
    multiplier = literal c multiplier 100;
    kill = kill;
  }

  unfoldable pub bands : List Band
  bands =
      band 10 100 false
      ∷ band 20 80 false
      ∷ band 30 50 false
      ∷ band 40 25 false
      ∷ band 45 10 false
      ∷ band 50 0 true
      ∷ []

  -- The last band whose threshold is reached.
  unfoldable pub last_band : Decimal → List Band → Decimal × Bool → Decimal × Bool
  last_band dd [] found = found
  last_band dd (b ∷ bs) found =
      last_band dd bs (if leb_ℤ b.threshold dd then (b.multiplier, b.kill) else found)

  unfoldable pub evaluate : Decimal → DrawdownDecision
  unfolding bands last_band
  evaluate drawdown_pct =
      let dd = abs c drawdown_pct in
      let found = last_band dd bands (pos 0, false) in
      record {
        drawdown_pct = dd;
        risk_multiplier = if ltb_ℤ dd (literal c 10 100) then literal c 100 100 else found.0;
        kill_switch = found.1;
        allow_new_risk = not found.1;
        allow_reduce = true;
        allow_close = true;
      }

  abbrev pub is_exit : ActionName → Bool
  is_exit other_action = false
  is_exit _ = true

  unfoldable pub allow_action : DrawdownDecision → ActionName → Bool
  allow_action d action = if d.kill_switch then is_exit action else true

  -- After a drawdown of half of the capital or more just the actions that reduce or close are allowed;
  -- after a smaller one every action is.
  allow_action-exact :
      (drawdown_pct : Decimal) (action : ActionName)
      → (allow_action (evaluate drawdown_pct) action ≡ false)
        ↔ ((literal c 50 100 ≤ℤ abs c drawdown_pct) × (is_exit action ≡ false))
  unfolding allow_action evaluate bands last_band
  allow_action-exact drawdown_pct reduce = ground arith
  allow_action-exact drawdown_pct close = ground arith
  allow_action-exact drawdown_pct other_action = ground arith
