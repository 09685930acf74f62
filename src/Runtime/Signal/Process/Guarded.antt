-- ===== src/Runtime/Signal/Process/Guarded.antt =====
-- src/crypto_trader/runtime/engine.py: what stands between a signal and the tables and the exchange.
use crypto_auto_trading_syst.Base.{
  ◌≡◌, refl, ◌⊎◌, inl, inr, false, Option, none, some, Result, ok, err, Bool-cases,
}
use crypto_auto_trading_syst.Decimal.{Decimal, Context}
use crypto_auto_trading_syst.Domain.Enums.{approve, hold, reject}
use crypto_auto_trading_syst.Domain.Models.{Order, SignalIntent, Instrument}
use crypto_auto_trading_syst.Order.Store.{get_by_client}
use crypto_auto_trading_syst.Order.Lifecycle.{count_open}
use crypto_auto_trading_syst.Risk.Engine as Risk
use crypto_auto_trading_syst.Risk.Engine.{CheckArgs, signal, check}
use crypto_auto_trading_syst.Risk.Engine.Limits.{IsCleared, check-IsCleared}
use crypto_auto_trading_syst.Execution.Authority.{Verdict, authorize}
use crypto_auto_trading_syst.Execution.Authority.Clearance.{IsAuthorized, authorize-IsAuthorized}
use crypto_auto_trading_syst.Runtime.PerpetualRoute.{Tables, Route, current_signed_quantity}
use crypto_auto_trading_syst.Runtime.Signal.{
  Setup, Observed, World, Answer, client_order_id, has_no_price, check_args, intent,
  authorization_context, risk_row, persist_risk,
}
use crypto_auto_trading_syst.Runtime.Signal.Process.{
  Venue, allow_all, after_authority, after_risk, after_quantity, judge, unless_known,
  process_signal, observe,
}

module _ (c : Context) (e : Setup) (o : Observed) (r : Route) (s : SignalIntent) where
  -- Both gates have let the signal pass, on the same position and number of open orders.
  pub record IsPassed (w : World) : Type 0 where
    pub signed : Decimal
    pub instrument : Instrument
    pub limiter : Option (Unit {0})
    pub read :
        current_signed_quantity c e.perpetual_engine s.symbol s.market_type o.positions
          w.tables.journal
        ≡ ok signed
    pub priced : has_no_price c e o s s.market_type ≡ false
    pub cleared :
        IsCleared c e.risk_engine (check_args c e o s (count_open w.tables.orders) signed) s
    pub authorized :
        IsAuthorized c allow_all
          (intent c e o s)
          (authorization_context c e o s (risk_row c e o s approve) signed)
          instrument
          limiter

  module _ (venue other : Venue) where
    -- Neither the tables of orders and of the ledger nor the exchange are touched: the result is the
    -- same with any other exchange.
    abbrev pub IsUntouched : Tables → Result Answer × World → Result Answer × World → Type 0
    IsUntouched tables out out' = (out.1.tables ≡ tables) × (out ≡ out')

    after_authority-IsUntouched :
        (v : Risk.Verdict) (w : World) (a : Result (Verdict × Option (Unit {0})))
        → IsUntouched w.tables
            (after_authority c e o r venue s v w a)
            (after_authority c e o r other s v w a)
          ⊎ ((reason : _) × (l : Option (Unit {0})) × (a ≡ ok ((approve, reason), l)))
    unfolding after_authority
    after_authority-IsUntouched v w (err x) = inl (refl, refl)
    after_authority-IsUntouched v w (ok ((approve, reason), l)) = inr (reason, l, refl)
    after_authority-IsUntouched v w (ok ((hold, reason), l)) = inl (refl, refl)
    after_authority-IsUntouched v w (ok ((reject, reason), l)) = inl (refl, refl)

    module _ (w : World) where
      after_risk-guarded :
          (signed : Decimal) (v : Result Risk.Verdict)
          → current_signed_quantity c e.perpetual_engine s.symbol s.market_type o.positions
              w.tables.journal
            ≡ ok signed
          → has_no_price c e o s s.market_type ≡ false
          → check c e.risk_engine
              (signal s)
              (check_args c e o s (count_open w.tables.orders) signed)
            ≡ v
          → IsUntouched w.tables
              (after_risk c e o r venue s signed w v)
              (after_risk c e o r other s signed w v)
            ⊎ IsPassed w
      unfolding after_risk
      after_risk-guarded signed (err x) read priced h = inl (refl, refl)
      after_risk-guarded signed (ok (hold, reason)) read priced h = inl (refl, refl)
      after_risk-guarded signed (ok (reject, reason)) read priced h = inl (refl, refl)
      after_risk-guarded signed (ok (approve, reason)) read priced h =
          let ctx = authorization_context c e o s (risk_row c e o s approve) signed in
          elim (after_authority-IsUntouched (approve, reason)
            (persist_risk (risk_row c e o s approve) w)
            (authorize c allow_all (intent c e o s) ctx)) [
              | inl kept ↦ inl kept
              | inr (why, l, granted) ↦
                  let (i, authorized) =
                    authorize-IsAuthorized c allow_all (intent c e o s) ctx why l granted in
                  inr (record {
                    signed = signed;
                    instrument = i;
                    limiter = l;
                    read = read;
                    priced = priced;
                    cleared =
                        check-IsCleared c e.risk_engine
                          (check_args c e o s (count_open w.tables.orders) signed) s h;
                    authorized = authorized;
                  })
            ]

      after_quantity-guarded :
          (q : Result Decimal)
          → current_signed_quantity c e.perpetual_engine s.symbol s.market_type o.positions
              w.tables.journal
            ≡ q
          → has_no_price c e o s s.market_type ≡ false
          → IsUntouched w.tables
              (after_quantity c e o r venue s w q)
              (after_quantity c e o r other s w q)
            ⊎ IsPassed w
      unfolding after_quantity
      after_quantity-guarded (err x) read priced = inl (refl, refl)
      after_quantity-guarded (ok signed) read priced =
          after_risk-guarded signed
            (check c e.risk_engine (signal s)
              (check_args c e o s (count_open w.tables.orders) signed))
            read priced refl

      judge-guarded :
          IsUntouched w.tables (judge c e o r venue s w) (judge c e o r other s w) ⊎ IsPassed w
      unfolding judge
      judge-guarded = elim (Bool-cases (has_no_price c e o s s.market_type)) [
        | inl unpriced ↦ inl (rw unpriced (refl, refl))
        | inr priced ↦ rw priced (
            after_quantity-guarded
              (current_signed_quantity c e.perpetual_engine s.symbol s.market_type o.positions
                w.tables.journal)
              refl priced)
      ]

    unless_known-IsPassed :
        (known : Option Order) (w : World)
        → IsUntouched w.tables
            (unless_known c e o r venue s known w)
            (unless_known c e o r other s known w)
          ⊎ IsUntouched
              (observe c e o r venue s w).tables
              (unless_known c e o r venue s known w)
              (unless_known c e o r other s known w)
          ⊎ IsPassed (observe c e o r venue s w)
    unfolding unless_known
    unless_known-IsPassed (some existing) w = inl (refl, refl)
    unless_known-IsPassed none w = inr (judge-guarded (observe c e o r venue s w))

    -- A signal leaves the orders and the ledger as it found them, apart from what other tasks commit
    -- meanwhile, and has the same result with any other exchange, unless the risk engine has cleared
    -- it, with the limits on orders and losses and, where it widens the position, on exposure, and the
    -- execution authority has authorized it, with the lease, the switch, fresh data and the
    -- instrument; both on one and the same position, and, for a perpetual contract, with a positive
    -- reference price.
    pub process_signal-IsPassed :
        (w : World)
        → IsUntouched w.tables (process_signal c e o r venue s w) (process_signal c e o r other s w)
          ⊎ IsUntouched
              (observe c e o r venue s w).tables
              (process_signal c e o r venue s w)
              (process_signal c e o r other s w)
          ⊎ IsPassed (observe c e o r venue s w)
    unfolding process_signal
    process_signal-IsPassed w =
        unless_known-IsPassed (get_by_client (client_order_id c e o s) w.tables.orders) w
