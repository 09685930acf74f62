-- ===== src/Execution/Authority.antt =====
-- src/crypto_trader/execution/authority.py: `ExecutionAuthority.authorize`, guard by guard in the
-- order of the code. Trading modes are an enumeration, so the test for an unknown mode never fails.
-- The rate limiter is whatever answers `allow(1)`, with its state.
pub mod Clearance
pub mod Readiness
use crypto_auto_trading_syst.Base.{
  ℕ, Bool, true, false, not, ◌&&◌, ◌||◌, Option, none, some, Result, ok, err, leb, if◌then◌else◌,
}
use crypto_auto_trading_syst.Int.{pos, ltb_ℤ, eqb_ℤ}
use crypto_auto_trading_syst.Decimal.{Decimal, Context, mul, is_positive}
use crypto_auto_trading_syst.Domain.Enums.{
  TradingMode, live, OrderStatus, created, validated, unknown, ExecutionDecision, approve, hold,
  reject, is_approve,
}
use crypto_auto_trading_syst.Domain.Models.{Time, Instrument, OrderIntent, RiskDecision}
use crypto_auto_trading_syst.Domain.Money.{round_tick, floor_to_step}
use crypto_auto_trading_syst.Order.Manager.{or_zero}
use crypto_auto_trading_syst.Risk.KillSwitch.{KillSwitch}
use crypto_auto_trading_syst.Risk.Reversal.{
  Reason, check_no_reversal, global_kill_switch, execution_lease_not_held, live_trading_disabled,
  reconciliation_halt, order_expired, market_data_stale, orderbook_stale, orderbook_unhealthy,
  symbol_not_tradeable, exchange_not_connected, balance_stale, order_state_invalid,
  duplicate_client_order_id, risk_not_valid, instrument_missing, price_precision_invalid,
  quantity_precision_invalid, min_quantity_not_met, min_notional_not_met,
  rate_limit_budget_exhausted, authority_pass,
}

pub record AuthorizationContext (L : Type 0) : Type 0 where
  pub now : Time
  pub trading_mode : TradingMode
  pub live_enabled : Bool
  pub lease_held : Bool
  pub kill_switch : Option KillSwitch
  pub order_status : OrderStatus
  pub market_data_fresh : Bool
  pub orderbook_fresh : Bool
  pub orderbook_healthy : Bool
  pub symbol_tradeable : Bool
  pub exchange_connected : Bool
  pub balance_fresh : Bool
  pub risk_decision : Option RiskDecision
  pub instrument : Option Instrument
  pub duplicate_client_order : Bool
  pub reconciliation_halted : Bool
  pub rate_limiter : Option L
  pub min_notional_ok : Bool
  pub current_signed_qty : Decimal

abbrev pub Verdict : Type 0
Verdict = ExecutionDecision × Reason

abbrev pub is_live : TradingMode → Bool
is_live live = true
is_live _ = false

abbrev pub switch_on : Option KillSwitch → Bool
switch_on none = false
switch_on (some k) = k.enabled

abbrev pub has_expired : Option Time → Time → Bool
has_expired none now = false
has_expired (some t) now = leb t now

abbrev pub may_execute : OrderStatus → Bool
may_execute created = true
may_execute validated = true
may_execute unknown = true
may_execute _ = false

abbrev pub risk_approved : Option RiskDecision → Bool
risk_approved none = false
risk_approved (some d) = is_approve d.decision

abbrev pub intent_reduces : OrderIntent → Bool
intent_reduces o = o.reduce_only || o.metadata_reduce_only

abbrev pub same_value : Decimal → Result Decimal → Result Bool
same_value value (ok rounded) = ok (eqb_ℤ rounded value)
same_value value (err e) = err e

module _ {L : Type 0} (c : Context) (allow : L → Bool × L) (intent : OrderIntent) where
  -- Guards 1 to 11: the lease, the mode, the switch, the halt, freshness, the state, the risk.
  -- None: all of them passed.
  unfoldable pub status_guards : AuthorizationContext L → Option Verdict
  status_guards ctx =
      if not ctx.lease_held
      then some (reject, execution_lease_not_held)
      else if is_live ctx.trading_mode && not ctx.live_enabled
      then some (reject, live_trading_disabled)
      else if switch_on ctx.kill_switch
      then some (reject, global_kill_switch)
      else if ctx.reconciliation_halted
      then some (hold, reconciliation_halt)
      else if has_expired intent.expires_at ctx.now
      then some (reject, order_expired)
      else if not ctx.market_data_fresh
      then some (hold, market_data_stale)
      else if not ctx.orderbook_fresh
      then some (hold, orderbook_stale)
      else if not ctx.orderbook_healthy
      then some (hold, orderbook_unhealthy)
      else if not ctx.symbol_tradeable
      then some (reject, symbol_not_tradeable)
      else if not ctx.exchange_connected
      then some (hold, exchange_not_connected)
      else if not ctx.balance_fresh
      then some (hold, balance_stale)
      else if not (may_execute ctx.order_status)
      then some (reject, order_state_invalid)
      else if ctx.duplicate_client_order
      then some (hold, duplicate_client_order_id)
      else if not (risk_approved ctx.risk_decision)
      then some (reject, risk_not_valid)
      else none

  -- Guard 11b.
  abbrev pub reversal_guard : AuthorizationContext L → Bool × Reason
  reversal_guard ctx =
      check_no_reversal c intent.market_type intent.side intent.quantity (intent_reduces intent)
        ctx.current_signed_qty

  -- The price is on the grid of the tick; an absent price is not checked.
  abbrev pub price_precise : Decimal → Instrument → Result Bool
  price_precise price i =
      if is_positive price then same_value price (round_tick c price i.tick_size) else ok true

  abbrev pub notional_of : Decimal → Decimal
  notional_of price = if is_positive price then mul c price intent.quantity else pos 0

  -- Guard 12, after the precision checks.
  unfoldable pub size_guards : AuthorizationContext L → Instrument → Decimal → Option Verdict
  size_guards ctx i price =
      if ltb_ℤ intent.quantity i.min_qty
      then some (reject, min_quantity_not_met)
      else if is_positive (notional_of price) && ltb_ℤ (notional_of price) i.min_notional
      then some (reject, min_notional_not_met)
      else if not ctx.min_notional_ok
      then some (reject, min_notional_not_met)
      else none

  -- Guard 13, which spends a token.
  abbrev pub rate_guard : Option L → Verdict × Option L
  rate_guard none = ((approve, authority_pass), none)
  rate_guard (some l) =
      let (allowed, l') = allow l in
      (if allowed then (approve, authority_pass) else (hold, rate_limit_budget_exhausted), some l')

  abbrev pub rate_or : Option L → Option Verdict → Result (Verdict × Option L)
  rate_or l (some v) = ok (v, l)
  rate_or l none = ok (rate_guard l)

  abbrev pub after_quantity :
      AuthorizationContext L → Instrument → Decimal → Result Bool → Result (Verdict × Option L)
  after_quantity ctx i price (err e) = err e
  after_quantity ctx i price (ok false) =
      ok ((reject, quantity_precision_invalid), ctx.rate_limiter)
  after_quantity ctx i price (ok true) = rate_or ctx.rate_limiter (size_guards ctx i price)

  abbrev pub after_price :
      AuthorizationContext L → Instrument → Decimal → Result Bool → Result (Verdict × Option L)
  after_price ctx i price (err e) = err e
  after_price ctx i price (ok false) = ok ((reject, price_precision_invalid), ctx.rate_limiter)
  after_price ctx i price (ok true) =
      after_quantity ctx i price
        (same_value intent.quantity (floor_to_step c intent.quantity i.step_size))

  abbrev pub with_instrument :
      AuthorizationContext L → Option Instrument → Result (Verdict × Option L)
  with_instrument ctx none = ok ((reject, instrument_missing), ctx.rate_limiter)
  with_instrument ctx (some i) =
      let price = or_zero intent.price in after_price ctx i price (price_precise price i)

  abbrev pub after_reversal : AuthorizationContext L → Bool × Reason → Result (Verdict × Option L)
  after_reversal ctx (false, reason) = ok ((reject, reason), ctx.rate_limiter)
  after_reversal ctx (true, reason) = with_instrument ctx ctx.instrument

  abbrev pub after_status : AuthorizationContext L → Option Verdict → Result (Verdict × Option L)
  after_status ctx (some v) = ok (v, ctx.rate_limiter)
  after_status ctx none = after_reversal ctx (reversal_guard ctx)

  -- The verdict with its last note, and the limiter afterwards. The rounding of a price or a
  -- quantity can raise.
  unfoldable pub authorize : AuthorizationContext L → Result (Verdict × Option L)
  authorize ctx = after_status ctx (status_guards ctx)
