-- ===== src/Risk/Reversal.antt =====
-- src/crypto_trader/risk/engine.py: `check_no_reversal`, the gate against reversals and short spot
-- positions.
use crypto_auto_trading_syst.Base.{◌≡◌, ◌↔◌, Bool, true, false, if◌then◌else◌, arith, ◌⊎◌, inl, inr}
use crypto_auto_trading_syst.Int.{ℤ, pos, ◌+ℤ◌, ◌-ℤ◌, ◌≤ℤ◌, ◌<ℤ◌, ltb_ℤ, leb_ℤ, int_laws}
use crypto_auto_trading_syst.Decimal.{Decimal, Context, neg, is_zero}
use crypto_auto_trading_syst.Decimal.Laws.{IsExact}
use crypto_auto_trading_syst.Domain.Enums.{MarketType, spot, perpetual, OrderSide, buy, sell}

-- The reasons that the gate, the risk engine and the execution authority give.
pub data Reason : Type 0 where
  invalid_quantity reduce_only_without_position reduce_only_sell_against_short_or_flat : Reason
  reduce_only_buy_against_long_or_flat reduce_only_would_reverse spot_overshort : Reason
  no_reversal_pass : Reason
  global_kill_switch invalid_price max_order_notional max_open_orders : Reason
  max_consecutive_failures max_daily_loss max_drawdown max_symbol_exposure : Reason
  max_account_exposure max_exchange_exposure max_position_notional max_leverage risk_pass : Reason
  execution_lease_not_held live_trading_disabled reconciliation_halt order_expired : Reason
  market_data_stale orderbook_stale orderbook_unhealthy symbol_not_tradeable : Reason
  exchange_not_connected balance_stale order_state_invalid duplicate_client_order_id : Reason
  risk_not_valid instrument_missing price_precision_invalid quantity_precision_invalid : Reason
  min_quantity_not_met min_notional_not_met rate_limit_budget_exhausted authority_pass : Reason

module _ (c : Context) where
  abbrev reduce_gate : OrderSide → Decimal → Decimal → Bool × Reason
  reduce_gate sell qty signed =
      if leb_ℤ signed (pos 0)
      then (false, reduce_only_sell_against_short_or_flat)
      else if ltb_ℤ signed qty
      then (false, reduce_only_would_reverse)
      else (true, no_reversal_pass)
  reduce_gate buy qty signed =
      if leb_ℤ (pos 0) signed
      then (false, reduce_only_buy_against_long_or_flat)
      else if ltb_ℤ (neg c signed) qty
      then (false, reduce_only_would_reverse)
      else (true, no_reversal_pass)

  abbrev open_gate : MarketType → OrderSide → Decimal → Decimal → Bool × Reason
  open_gate spot sell qty signed =
      if ltb_ℤ signed qty then (false, spot_overshort) else (true, no_reversal_pass)
  open_gate _ _ qty signed = (true, no_reversal_pass)

  unfoldable pub check_no_reversal :
      MarketType → OrderSide → Decimal → Bool → Decimal → Bool × Reason
  check_no_reversal market_type side qty reduce_only signed =
      if leb_ℤ qty (pos 0)
      then (false, invalid_quantity)
      else if reduce_only
      then (if is_zero signed
          then (false, reduce_only_without_position)
          else reduce_gate side qty signed)
      else open_gate market_type side qty signed

  -- The signed position after the order, in exact arithmetic.
  abbrev pub projected : OrderSide → Decimal → Decimal → ℤ
  projected buy qty signed = signed +ℤ qty
  projected sell qty signed = signed -ℤ qty

  -- The order makes the position smaller and leaves it on its side of zero, or flat.
  abbrev pub Reduces : Decimal → ℤ → Type 0
  Reduces signed after =
      ((pos 0 ≤ℤ after) × (after <ℤ signed)) ⊎ ((after ≤ℤ pos 0) × (signed <ℤ after))

  -- What the gate means: the quantity is positive; a reduce-only order reduces the position; a spot
  -- sale leaves no short position.
  abbrev pub MayPass : MarketType → OrderSide → Decimal → Bool → Decimal → Type 0
  MayPass m side qty true signed = (pos 0 <ℤ qty) × Reduces signed (projected side qty signed)
  MayPass spot sell qty false signed = (pos 0 <ℤ qty) × (pos 0 ≤ℤ signed -ℤ qty)
  MayPass _ _ qty false signed = pos 0 <ℤ qty

  sell_reduces :
      (m : MarketType) (qty signed : Decimal)
      → (check_no_reversal m sell qty true signed).0 ≡ true ↔ MayPass m sell qty true signed
  unfolding check_no_reversal
  sell_reduces m qty signed =
      (λ h. (ground arith, inl (grind int_laws, grind int_laws)), λ p. grind int_laws)

  buy_reduces :
      (m : MarketType) (qty signed : Decimal)
      → neg c signed ≡ pos 0 -ℤ signed
      → (check_no_reversal m buy qty true signed).0 ≡ true ↔ MayPass m buy qty true signed
  unfolding check_no_reversal
  buy_reduces m qty signed e =
      (λ h. (ground arith, inr (grind int_laws, grind int_laws)), λ p. grind int_laws)

  opens :
      (m : MarketType) (side : OrderSide) (qty signed : Decimal)
      → (check_no_reversal m side qty false signed).0 ≡ true ↔ MayPass m side qty false signed
  unfolding check_no_reversal
  opens spot sell qty signed = (λ h. (ground arith, grind int_laws), λ p. grind int_laws)
  opens spot buy qty signed = (λ h. ground arith, λ p. ground arith)
  opens perpetual sell qty signed = (λ h. ground arith, λ p. ground arith)
  opens perpetual buy qty signed = (λ h. ground arith, λ p. ground arith)

  -- The gate lets an order pass exactly when its quantity is positive and, if it is reduce-only, it
  -- makes the position smaller without crossing zero, and if it is a spot sale that opens, it leaves
  -- no short position; the context has to keep the negated position.
  pub check_no_reversal-exact :
      (m : MarketType) (side : OrderSide) (qty : Decimal) (reduce_only : Bool) (signed : Decimal)
      → IsExact c (pos 0 -ℤ signed)
      → (check_no_reversal m side qty reduce_only signed).0 ≡ true
        ↔ MayPass m side qty reduce_only signed
  unfolding neg
  check_no_reversal-exact m side qty false signed e = opens m side qty signed
  check_no_reversal-exact m sell qty true signed e = sell_reduces m qty signed
  check_no_reversal-exact m buy qty true signed e = buy_reduces m qty signed e
