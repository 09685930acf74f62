-- ===== src/Governance/Leverage.antt =====
-- src/crypto_trader/governance/leverage_control.py: the chain of caps on a recommended leverage. The
-- stages' report is left out.
use crypto_auto_trading_syst.Base.{Option, none, some, arith, if◌then◌else◌}
use crypto_auto_trading_syst.Int.{pos, leb_ℤ, ◌≤ℤ◌}
use crypto_auto_trading_syst.Decimal.{Decimal, Context, min}

pub record LeverageDecision : Type 0 where
  pub recommended : Decimal
  pub risk_capped : Decimal
  pub review_approved : Decimal
  pub effective : Decimal

abbrev pub capped_by : Decimal → Option Decimal → Decimal
capped_by x none = x
capped_by x (some cap) = min x cap

abbrev pub or_one : Context → Decimal → Decimal
or_one c recommended = if leb_ℤ recommended (pos 0) then pos c.unit else recommended

-- `LeverageControlChain.apply`
unfoldable pub apply :
    Context → Decimal → Decimal → Option Decimal → Option Decimal → LeverageDecision
apply c hard_max recommended risk_cap review_approved =
    let rec = or_one c recommended in
    let capped = capped_by (min rec hard_max) risk_cap in
    let approved = capped_by capped review_approved in
    record {
      recommended = rec;
      risk_capped = capped;
      review_approved = approved;
      effective = min approved hard_max;
    }

abbrev IsBelow : Decimal → Option Decimal → Type 0
IsBelow x none = Unit
IsBelow x (some cap) = x ≤ℤ cap

-- What the chain promises of a decision.
pub record IsCapped (d : LeverageDecision) (hard_max : Decimal) (risk review : Option Decimal)
    : Type 0 where
  pub first : d.risk_capped ≤ℤ d.recommended
  pub second : d.review_approved ≤ℤ d.risk_capped
  pub third : d.effective ≤ℤ d.review_approved
  pub hard : d.effective ≤ℤ hard_max
  pub by_risk : IsBelow d.effective risk
  pub by_review : IsBelow d.effective review

min_left : (a b : Decimal) → min a b ≤ℤ a
min_left a b = ground arith

min_right : (a b : Decimal) → min a b ≤ℤ b
min_right a b = ground arith

through : (a b d : Decimal) → a ≤ℤ b → b ≤ℤ d → a ≤ℤ d
through a b d h k = omega arith

capped_below : (x : Decimal) (o : Option Decimal) → capped_by x o ≤ℤ x
capped_below x none = omega arith
capped_below x (some cap) = min_left x cap

capped-IsBelow : (x y : Decimal) (o : Option Decimal) → y ≤ℤ capped_by x o → IsBelow y o
capped-IsBelow x y none h = tt
capped-IsBelow x y (some cap) h = through y (min x cap) cap h (min_right x cap)

-- Each stage of the chain is at most the one before it, and the effective leverage is at most the
-- hard maximum, the cap of the risk limits and what the review has approved, where these are given.
pub apply-IsCapped :
    (c : Context) (hard_max recommended : Decimal) (risk review : Option Decimal)
    → IsCapped (apply c hard_max recommended risk review) hard_max risk review
unfolding apply
apply-IsCapped c hard_max recommended risk review =
    let rec = or_one c recommended in
    let capped = capped_by (min rec hard_max) risk in
    let approved = capped_by capped review in
    let effective = min_left approved hard_max in
    let second = capped_below capped review in
    record {
      first =
          through capped (min rec hard_max) rec (capped_below (min rec hard_max) risk)
            (min_left rec hard_max);
      second = second;
      third = effective;
      hard = min_right approved hard_max;
      by_risk =
          capped-IsBelow (min rec hard_max) (min approved hard_max) risk
            (through (min approved hard_max) approved capped effective second);
      by_review = capped-IsBelow capped (min approved hard_max) review effective;
    }
