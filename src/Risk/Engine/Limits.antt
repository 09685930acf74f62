-- ===== src/Risk/Engine/Limits.antt =====
-- src/crypto_trader/risk/engine.py: what stands behind a verdict.
use crypto_auto_trading_syst.Base.{
  ◌≡◌, refl, ◌<◌, ◌≤◌, ◌∙◌, Bool, true, false, ◌||◌, find, ok, err, attribute_error, arith,
  Bool-cases, ◌⊎◌, ◌↔◌, inl, inr,
}
use crypto_auto_trading_syst.Int.{pos, abs_ℕ, int_laws, ◌+ℤ◌, ◌-ℤ◌, ◌≤ℤ◌, ◌<ℤ◌}
use crypto_auto_trading_syst.Decimal.{Decimal, Context, add, mul, div, neg, abs}
use crypto_auto_trading_syst.Decimal.Laws.{IsExact, add-exact, neg-exact, abs-exact}
use crypto_auto_trading_syst.Domain.Enums.{OrderSide, buy, sell, approve, reject}
use crypto_auto_trading_syst.Domain.Models.{Text, Time, SignalIntent, OrderIntent}
use crypto_auto_trading_syst.Risk.KillSwitch.{KillSwitch, engage}
use crypto_auto_trading_syst.Risk.Reversal.{
  Reason, check_no_reversal, projected, global_kill_switch, risk_pass,
}
use crypto_auto_trading_syst.Risk.Engine.{
  RiskConfig, RiskEngine, CheckArgs, Verdict, Intent, signal, order, for_symbol, cost_of, price_or,
  sum_costs, floor_of, signed_quantity, increasing, exposure_check, limits_check, after_gate,
  signal_check, check,
}

module _ (c : Context) (config : RiskConfig) (args : CheckArgs) where
  -- The exposures that an order of that notional leads to are within their limits.
  pub record WithinExposure (symbol : Text) (notional : Decimal) : Type 0 where
    pub symbol_exposure :
        add c (abs c (cost_of (find (for_symbol symbol) args.positions))) notional
        ≤ℤ config.max_symbol_exposure
    pub account_exposure :
        add c (sum_costs c (pos 0) args.positions) notional ≤ℤ config.max_account_exposure
    pub exchange_exposure : sum_costs c (pos 0) args.positions ≤ℤ config.max_exchange_exposure
    pub position_notional :
        add c (sum_costs c (pos 0) args.positions) notional ≤ℤ config.max_position_notional
    pub leverage :
        (args.equity ≤ℤ pos 0)
        ⊎ (div c (add c (sum_costs c (pos 0) args.positions) notional) args.equity
            ≤ℤ config.max_leverage)

  exposure_check-WithinExposure :
      (symbol : Text) (notional : Decimal) {r : Reason}
      → exposure_check c config args symbol notional ≡ (approve, r)
      → WithinExposure symbol notional
  unfolding exposure_check
  exposure_check-WithinExposure symbol notional h = ground arith

  -- The limits that bind every order.
  pub record WithinLimits (notional : Decimal) : Type 0 where
    pub order_notional : notional ≤ℤ config.max_order_notional
    pub open_orders : args.open_order_count < config.max_open_orders
    pub failures : args.consecutive_failures < config.max_consecutive_failures
    pub daily_loss : floor_of c config.max_daily_loss ≤ℤ args.daily_pnl
    pub drawdown : floor_of c config.max_drawdown ≤ℤ args.drawdown

  WithinExposure-exposure_check :
      (symbol : Text) (notional : Decimal)
      → WithinExposure symbol notional
      → exposure_check c config args symbol notional ≡ (approve, risk_pass)
  unfolding exposure_check
  WithinExposure-exposure_check symbol notional w = ground arith

  limits_check-limits :
      (symbol : Text) (side : OrderSide) (qty notional : Decimal) {r : Reason}
      → limits_check c config args symbol side qty notional ≡ (approve, r)
      → WithinLimits notional
  unfolding limits_check
  limits_check-limits symbol side qty notional h = ground arith

  limits_check-exposure :
      (symbol : Text) (side : OrderSide) (qty notional : Decimal) {r : Reason}
      → limits_check c config args symbol side qty notional ≡ (approve, r)
      → increasing c config args symbol side qty ≡ true
      → exposure_check c config args symbol notional ≡ (approve, r)
  unfolding limits_check
  limits_check-exposure symbol side qty notional h wider = ground arith

  WithinLimits-limits_check :
      (symbol : Text) (side : OrderSide) (qty notional : Decimal)
      → WithinLimits notional
      → (increasing c config args symbol side qty ≡ false) ⊎ WithinExposure symbol notional
      → limits_check c config args symbol side qty notional ≡ (approve, risk_pass)
  unfolding limits_check
  WithinLimits-limits_check symbol side qty notional w (inl narrow) = ground arith
  WithinLimits-limits_check symbol side qty notional w (inr within) =
      ground (arith, WithinExposure-exposure_check symbol notional within)

abbrev pub notional_of : Context → CheckArgs → SignalIntent → Decimal
notional_of c args s = mul c (price_or s.limit_price args.market_price) s.quantity

-- The position after an order, as the context adds it.
abbrev pub position_after : Context → OrderSide → Decimal → Decimal → Decimal
position_after c buy qty held = add c held qty
position_after c sell qty held = add c held (neg c qty)

-- The order does not make the position larger, long or short.
abbrev pub IsNoWider : Context → OrderSide → Decimal → Decimal → Type 0
IsNoWider c side qty held = abs c (position_after c side qty held) ≤ℤ abs c held

narrow-IsNoWider :
    (c : Context) (config : RiskConfig) (args : CheckArgs) (symbol : Text) (side : OrderSide)
    (qty : Decimal)
    → increasing c config args symbol side qty ≡ false
    → IsNoWider c side qty (signed_quantity c config args symbol)
unfolding increasing
narrow-IsNoWider c config args symbol buy qty h = ground arith
narrow-IsNoWider c config args symbol sell qty h = ground arith

IsNoWider-narrow :
    (c : Context) (config : RiskConfig) (args : CheckArgs) (symbol : Text) (side : OrderSide)
    (qty : Decimal)
    → IsNoWider c side qty (signed_quantity c config args symbol)
    → increasing c config args symbol side qty ≡ false
unfolding increasing
IsNoWider-narrow c config args symbol buy qty h = ground arith
IsNoWider-narrow c config args symbol sell qty h = ground arith

-- What an approved signal satisfies.
pub record IsCleared (c : Context) (e : RiskEngine) (args : CheckArgs) (s : SignalIntent)
    : Type 0 where
  pub switch_off : e.kill_switch.enabled ≡ false
  pub quantity_positive : pos 0 <ℤ s.quantity
  pub price_positive : pos 0 <ℤ price_or s.limit_price args.market_price
  pub no_reversal :
      (check_no_reversal c s.market_type s.side s.quantity
        (s.reduce_only || s.metadata_reduce_only)
        (signed_quantity c e.config args s.symbol)).0
      ≡ true
  pub limits : WithinLimits c e.config args (notional_of c args s)
  pub exposure :
      IsNoWider c s.side s.quantity (signed_quantity c e.config args s.symbol)
      ⊎ WithinExposure c e.config args s.symbol (notional_of c args s)

-- The tests that come before the limits.
abbrev Passes : Context → RiskEngine → CheckArgs → SignalIntent → Reason → Type 0
Passes c e args s r =
    (e.kill_switch.enabled ≡ false)
    × (pos 0 <ℤ s.quantity)
    × (pos 0 <ℤ price_or s.limit_price args.market_price)
    × ((check_no_reversal c s.market_type s.side s.quantity
          (s.reduce_only || s.metadata_reduce_only) (signed_quantity c e.config args s.symbol)).0
        ≡ true)
    × (limits_check c e.config args s.symbol s.side s.quantity (notional_of c args s)
        ≡ (approve, r))

after_gate-approves :
    (c : Context) (config : RiskConfig) (args : CheckArgs) (g : Bool × Reason) (v : Verdict)
    {r : Reason}
    → after_gate c config args g v ≡ (approve, r)
    → (g.0 ≡ true) × (v ≡ (approve, r))
after_gate-approves c config args (true, reason) v h = (refl, h)
after_gate-approves c config args (false, reason) v h = cc

check-Passes :
    (c : Context) (e : RiskEngine) (args : CheckArgs) (s : SignalIntent) {r : Reason}
    → check c e (signal s) args ≡ ok (approve, r)
    → Passes c e args s r
unfolding check signal_check
check-Passes c e args s {r} h = ground (
  arith,
  after_gate-approves c e.config args
      (check_no_reversal c s.market_type s.side s.quantity (s.reduce_only || s.metadata_reduce_only)
        (signed_quantity c e.config args s.symbol))
      (limits_check c e.config args s.symbol s.side s.quantity (notional_of c args s)) {r = r},
)

pub check-IsCleared :
    (c : Context) (e : RiskEngine) (args : CheckArgs) (s : SignalIntent) {r : Reason}
    → check c e (signal s) args ≡ ok (approve, r)
    → IsCleared c e args s
check-IsCleared c e args s h =
    let (off, quantity, price, gate, limits) = check-Passes c e args s h in
    let notional = notional_of c args s in
    record {
      switch_off = off;
      quantity_positive = quantity;
      price_positive = price;
      no_reversal = gate;
      limits = limits_check-limits c e.config args s.symbol s.side s.quantity notional limits;
      exposure = elim (Bool-cases (increasing c e.config args s.symbol s.side s.quantity)) [
        | inr narrow ↦ inl (narrow-IsNoWider c e.config args s.symbol s.side s.quantity narrow)
        | inl wider ↦ inr (
            exposure_check-WithinExposure c e.config args s.symbol notional (
              limits_check-exposure c e.config args s.symbol s.side s.quantity notional limits
                wider))
      ];
    }

IsCleared-check :
    (c : Context) (e : RiskEngine) (args : CheckArgs) (s : SignalIntent)
    → IsCleared c e args s
    → check c e (signal s) args ≡ ok (approve, risk_pass)
unfolding check signal_check
IsCleared-check c e args s h = ground (
  arith,
  WithinLimits-limits_check c e.config args s.symbol s.side s.quantity (notional_of c args s)
      h.limits
      (elim h.exposure [
        | inl narrow ↦ inl (IsNoWider-narrow c e.config args s.symbol s.side s.quantity narrow)
        | inr within ↦ inr within
      ]),
)

-- The engine approves a signal exactly when the kill switch is off, its quantity and price are
-- positive, it passes the reversal gate, it is within every limit on orders, losses and failures, and
-- it either leaves a position no larger than before, long or short, or is within every limit on
-- exposure and, if the account has equity, on leverage.
pub check-approves :
    (c : Context) (e : RiskEngine) (args : CheckArgs) (s : SignalIntent)
    → check c e (signal s) args ≡ ok (approve, risk_pass) ↔ IsCleared c e args s
check-approves c e args s = (check-IsCleared c e args s {r = risk_pass}, IsCleared-check c e args s)

-- The same limits, with any on exposure and leverage.
abbrev pub with_exposure : RiskConfig → RiskConfig → RiskConfig
with_exposure config other = record config {
  max_symbol_exposure = other.max_symbol_exposure;
  max_account_exposure = other.max_account_exposure;
  max_exchange_exposure = other.max_exchange_exposure;
  max_position_notional = other.max_position_notional;
  max_leverage = other.max_leverage;
}

-- The order leaves a position that is no larger than the one before, in exact arithmetic, and the
-- context keeps the numbers on the way.
pub record DoesNotWiden (c : Context) (side : OrderSide) (qty held : Decimal) : Type 0 where
  pub no_larger : abs_ℕ (projected c side qty held) ≤ abs_ℕ held
  pub quantity_fits : IsExact c (pos 0 -ℤ qty)
  pub position_fits : IsExact c held
  pub projected_fits : IsExact c (projected c side qty held)

minus_add : (a b : Decimal) → a +ℤ (pos 0 -ℤ b) ≡ a -ℤ b
minus_add a b = omega int_laws

position_after-projected :
    (c : Context) (side : OrderSide) (qty held : Decimal)
    → DoesNotWiden c side qty held
    → position_after c side qty held ≡ projected c side qty held
position_after-projected c buy qty held d = add-exact c held qty d.projected_fits
position_after-projected c sell qty held d = rw (neg-exact c qty d.quantity_fits) (
    add-exact c held (pos 0 -ℤ qty) (rw (minus_add held qty) d.projected_fits) ∙ minus_add held qty)

DoesNotWiden-IsNoWider :
    (c : Context) (side : OrderSide) (qty held : Decimal)
    → DoesNotWiden c side qty held
    → IsNoWider c side qty held
DoesNotWiden-IsNoWider c side qty held d =
    rw
      (
        position_after-projected c side qty held d,
        abs-exact c (projected c side qty held) d.projected_fits,
        abs-exact c held d.position_fits,
      )
      (ground arith)

narrow-unblocked :
    (c : Context) (e : RiskEngine) (other : RiskConfig) (args : CheckArgs) (s : SignalIntent)
    → increasing c e.config args s.symbol s.side s.quantity ≡ false
    → check c (record e { config = with_exposure e.config other }) (signal s) args
      ≡ check c e (signal s) args
unfolding check signal_check limits_check increasing
narrow-unblocked c e other args s same = rw same

-- A signal whose order leaves a position no larger than before, long or short, gets the same verdict
-- under any limits on exposure and leverage: they never block a reduction. The context has to keep the
-- negated quantity and the two positions.
pub reductions_unblocked :
    (c : Context) (e : RiskEngine) (other : RiskConfig) (args : CheckArgs) (s : SignalIntent)
    → DoesNotWiden c s.side s.quantity (signed_quantity c e.config args s.symbol)
    → check c (record e { config = with_exposure e.config other }) (signal s) args
      ≡ check c e (signal s) args
reductions_unblocked c e other args s d = narrow-unblocked c e other args s (
    IsNoWider-narrow c e.config args s.symbol s.side s.quantity
      (DoesNotWiden-IsNoWider c s.side s.quantity (signed_quantity c e.config args s.symbol) d))

-- Once the kill switch is engaged every intent is refused for that reason, signal or order, under
-- every configuration and account.
pub engage-refuses :
    (c : Context) (config : RiskConfig) (k : KillSwitch) (reason : Text) (now : Time)
    (intent : Intent) (args : CheckArgs)
    → check c (record { config = config; kill_switch = engage reason now k }) intent args
      ≡ ok (reject, global_kill_switch)
unfolding check engage
engage-refuses c config k reason now (signal s) args = refl
engage-refuses c config k reason now (order o) args = refl

-- An order intent has no `limit_price`: its check never approves. It refuses while the kill switch is
-- on, and raises otherwise.
check-order_raises :
    (c : Context) (e : RiskEngine) (o : OrderIntent) (args : CheckArgs)
    → ((e.kill_switch.enabled ≡ true)
        × (check c e (order o) args ≡ ok (reject, global_kill_switch)))
      ⊎ ((e.kill_switch.enabled ≡ false) × (check c e (order o) args ≡ err attribute_error))
unfolding check
check-order_raises c e o args = elim (Bool-cases e.kill_switch.enabled) [
  | inl on ↦ inl (on, rw on)
  | inr off ↦ inr (off, rw off)
]
