-- ===== src/Runtime/Signal/Process/Configs.antt =====
-- src/crypto_trader/runtime/engine.py: two configurations under which the risk engine says the same of
-- a signal.
use crypto_auto_trading_syst.Base.{ℕ, ◌≡◌, refl, ap, ◌∙◌, Option, none, some, Result, ok, err}
use crypto_auto_trading_syst.Decimal.{Decimal, Context}
use crypto_auto_trading_syst.Domain.Models.{Order, RiskDecision, SignalIntent}
use crypto_auto_trading_syst.Order.Store.{get_by_client}
use crypto_auto_trading_syst.Order.Lifecycle.{count_open}
use crypto_auto_trading_syst.Domain.Enums.{MarketType, spot, perpetual, approve, hold, reject}
use crypto_auto_trading_syst.Risk.Engine.{RiskConfig, signal, check, Verdict}
use crypto_auto_trading_syst.Execution.Authority.{authorize}
use crypto_auto_trading_syst.Execution.Authority.{Verdict as Permit}
use crypto_auto_trading_syst.Runtime.PerpetualRoute.{Route, Tables, current_signed_quantity}
use crypto_auto_trading_syst.Runtime.Signal.{
  Setup, Observed, World, check_args, has_no_price, reference_symbol, client_order_id,
  authorization_context, lease_held, instrument, risk_row, persist_risk, intent, by_risk,
}
use crypto_auto_trading_syst.Runtime.Signal.Process.{
  Venue, allow_all, answered, execute_signal, after_authority, observe, after_risk, after_quantity,
  judge, unless_known, process_signal,
}

-- The engine with another configuration of its risk engine.
abbrev pub with_config : Setup → RiskConfig → Setup
with_config e config = record e { risk_engine = record e.risk_engine { config = config } }

module _ (c : Context) (e : Setup) (config : RiskConfig) (o : Observed) (r : Route) (venue : Venue)
    (s : SignalIntent)
    (agree : (open_orders : ℕ) (signed : Decimal)
      → check c
          (with_config e config).risk_engine
          (signal s)
          (check_args c e o s open_orders signed)
        ≡ check c e.risk_engine (signal s) (check_args c e o s open_orders signed)) where
  execute_signal-config :
      (m : MarketType) (t : Tables)
      → execute_signal c (with_config e config) o r venue s m t ≡ execute_signal c e o r venue s m t
  unfolding execute_signal reference_symbol
  execute_signal-config spot t = refl
  execute_signal-config perpetual t = refl

  context-config :
      (d : RiskDecision) (signed : Decimal)
      → authorization_context c (with_config e config) o s d signed
        ≡ authorization_context c e o s d signed
  unfolding authorization_context lease_held instrument reference_symbol
  context-config d signed = refl

  args-config :
      (n : ℕ) (signed : Decimal)
      → check_args c (with_config e config) o s n signed ≡ check_args c e o s n signed
  unfolding reference_symbol
  args-config n signed = refl

  after_authority-config :
      (v : Verdict) (w : World) (a : Result (Permit × Option (Unit {0})))
      → after_authority c (with_config e config) o r venue s v w a
        ≡ after_authority c e o r venue s v w a
  unfolding after_authority
  after_authority-config v w (err x) = refl
  after_authority-config v w (ok ((hold, reason), l)) = refl
  after_authority-config v w (ok ((reject, reason), l)) = refl
  after_authority-config v w (ok ((approve, reason), l)) =
      ap (answered (by_risk v) w) (execute_signal-config s.market_type w.tables)

  after_risk-config :
      (signed : Decimal) (w : World) (v : Result Verdict)
      → after_risk c (with_config e config) o r venue s signed w v
        ≡ after_risk c e o r venue s signed w v
  unfolding after_risk
  after_risk-config signed w (err x) = refl
  after_risk-config signed w (ok (hold, reason)) = refl
  after_risk-config signed w (ok (reject, reason)) = refl
  after_risk-config signed w (ok (approve, reason)) =
      let d = risk_row c e o s approve in
      let v : Verdict = (approve, reason) in
      ap
        (λ ctx.
          after_authority c (with_config e config) o r venue s v (persist_risk d w)
            (authorize c allow_all (intent c e o s) ctx))
        (context-config d signed)
      ∙ after_authority-config v (persist_risk d w)
          (authorize c allow_all (intent c e o s) (authorization_context c e o s d signed))

  judged-config :
      (w : World) (signed : Decimal)
      → check c
          (with_config e config).risk_engine
          (signal s)
          (check_args c (with_config e config) o s (count_open w.tables.orders) signed)
        ≡ check c e.risk_engine (signal s) (check_args c e o s (count_open w.tables.orders) signed)
  judged-config w signed =
      ap (check c (with_config e config).risk_engine (signal s))
        (args-config (count_open w.tables.orders) signed)
      ∙ agree (count_open w.tables.orders) signed

  after_quantity-config :
      (w : World) (q : Result Decimal)
      → after_quantity c (with_config e config) o r venue s w q ≡ after_quantity c e o r venue s w q
  unfolding after_quantity
  after_quantity-config w (err x) = refl
  after_quantity-config w (ok signed) =
      ap (after_risk c (with_config e config) o r venue s signed w) (judged-config w signed)
      ∙ after_risk-config signed w (
          check c e.risk_engine (signal s) (check_args c e o s (count_open w.tables.orders) signed))

  judge-config :
      (w : World) → judge c (with_config e config) o r venue s w ≡ judge c e o r venue s w
  unfolding judge has_no_price reference_symbol
  judge-config w =
      rw
        (after_quantity-config w (
          current_signed_quantity c e.perpetual_engine s.symbol s.market_type o.positions
            w.tables.journal))
        refl

  unless_known-config :
      (known : Option Order) (w : World)
      → unless_known c (with_config e config) o r venue s known w
        ≡ unless_known c e o r venue s known w
  unfolding unless_known
  unless_known-config (some existing) w = refl
  unless_known-config none w = judge-config (observe c e o r venue s w)

  pub process_signal-config :
      (w : World)
      → process_signal c (with_config e config) o r venue s w ≡ process_signal c e o r venue s w
  unfolding process_signal
  process_signal-config w =
      unless_known-config (get_by_client (client_order_id c e o s) w.tables.orders) w
