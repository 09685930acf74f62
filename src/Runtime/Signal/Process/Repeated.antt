-- ===== src/Runtime/Signal/Process/Repeated.antt =====
-- src/crypto_trader/runtime/engine.py: a signal that is processed again.
use crypto_auto_trading_syst.Base.{
  ◌≡◌, refl, Option, none, some, Result, Done, ok, err, Bool-cases, inl, inr,
}
use crypto_auto_trading_syst.Decimal.{Decimal, Context}
use crypto_auto_trading_syst.Domain.Enums.{MarketType, spot, perpetual, approve, hold, reject}
use crypto_auto_trading_syst.Domain.Models.{Order, SignalIntent}
use crypto_auto_trading_syst.Order.Store.{get_by_client}
use crypto_auto_trading_syst.Order.Lifecycle.{count_open}
use crypto_auto_trading_syst.Order.Manager.Kept.{HasClient, HasClient-found}
use crypto_auto_trading_syst.Risk.Engine as Risk
use crypto_auto_trading_syst.Risk.Engine.{signal, check}
use crypto_auto_trading_syst.Risk.Reversal.{Reason}
use crypto_auto_trading_syst.Execution.Authority.{Verdict, authorize}
use crypto_auto_trading_syst.Runtime.Submission.Kept.{KeepsAll, submit_intent-HasClient}
use crypto_auto_trading_syst.Runtime.PerpetualRoute.{Tables, Route, current_signed_quantity}
use crypto_auto_trading_syst.Runtime.Signal.{
  Setup, Observed, World, Answer, no_decision, by_risk, client_order_id, has_no_price, check_args,
  intent, authorization_context, risk_row, persist_risk,
}
use crypto_auto_trading_syst.Runtime.Signal.Process.{
  Venue, allow_all, answered, execute_signal, after_authority, after_risk, after_quantity, judge,
  unless_known, observe, process_signal,
}

module _ (c : Context) (e : Setup) (o : Observed) (r : Route) (venue : Venue) (s : SignalIntent)
    (keeps : KeepsAll (client_order_id c e o s) r.calls venue.recover)
    (on_spot : s.market_type ≡ spot) where
  -- Where the answer is an approval, the order is in the table.
  abbrev IsStored : Result Answer × World → Type 0
  IsStored out =
      (reason : Reason)
      → out.0 ≡ ok (by_risk (approve, reason))
      → HasClient (client_order_id c e o s) out.1.tables.orders

  answered-IsStored :
      (v : Risk.Verdict) (w : World) (out : Done × Tables)
      → (out.0 ≡ ok tt → HasClient (client_order_id c e o s) out.1.orders)
      → IsStored (answered (by_risk v) w out)
  answered-IsStored v w (err x, t) h reason a = cc
  answered-IsStored v w (ok _, t) h reason a = h refl

  execute_signal-HasClient :
      (m : MarketType) (t : Tables)
      → m ≡ spot
      → (execute_signal c e o r venue s m t).0 ≡ ok tt
      → HasClient (client_order_id c e o s) (execute_signal c e o r venue s m t).1.orders
  unfolding execute_signal
  execute_signal-HasClient spot t same =
      submit_intent-HasClient r.calls venue.recover venue.submit_order (intent c e o s) e.mode
        t.orders keeps
  execute_signal-HasClient perpetual t same = cc

  after_authority-IsStored :
      (v : Risk.Verdict) (w : World) (a : Result (Verdict × Option (Unit {0})))
      → IsStored (after_authority c e o r venue s v w a)
  unfolding after_authority
  after_authority-IsStored v w (err x) reason h = cc
  after_authority-IsStored v w (ok ((hold, why), l)) reason h = cc
  after_authority-IsStored v w (ok ((reject, why), l)) reason h = cc
  after_authority-IsStored v w (ok ((approve, why), l)) reason h =
      answered-IsStored v w (execute_signal c e o r venue s s.market_type w.tables)
        (execute_signal-HasClient s.market_type w.tables on_spot) reason h

  after_risk-IsStored :
      (signed : Decimal) (w : World) (v : Result Risk.Verdict)
      → IsStored (after_risk c e o r venue s signed w v)
  unfolding after_risk
  after_risk-IsStored signed w (err x) reason h = cc
  after_risk-IsStored signed w (ok (hold, why)) reason h = cc
  after_risk-IsStored signed w (ok (reject, why)) reason h = cc
  after_risk-IsStored signed w (ok (approve, why)) reason h =
      after_authority-IsStored (approve, why) (persist_risk (risk_row c e o s approve) w)
        (authorize c allow_all (intent c e o s)
          (authorization_context c e o s (risk_row c e o s approve) signed))
        reason h

  after_quantity-IsStored :
      (w : World) (q : Result Decimal) → IsStored (after_quantity c e o r venue s w q)
  unfolding after_quantity
  after_quantity-IsStored w (err x) reason h = cc
  after_quantity-IsStored w (ok signed) reason h =
      after_risk-IsStored signed w
        (check c e.risk_engine (signal s) (check_args c e o s (count_open w.tables.orders) signed))
        reason h

  judge-IsStored : (w : World) → IsStored (judge c e o r venue s w)
  unfolding judge
  judge-IsStored w reason = elim (Bool-cases (has_no_price c e o s s.market_type)) [
    | inl unpriced ↦ rw unpriced (λ h. cc)
    | inr priced ↦ rw priced (
        after_quantity-IsStored w
          (current_signed_quantity c e.perpetual_engine s.symbol s.market_type o.positions
            w.tables.journal)
          reason)
  ]

  unless_known-IsStored :
      (known : Option Order) (w : World) → IsStored (unless_known c e o r venue s known w)
  unfolding unless_known
  unless_known-IsStored (some x) w reason h = cc
  unless_known-IsStored none w reason h = judge-IsStored (observe c e o r venue s w) reason h

process_signal-IsStored :
    (c : Context) (e : Setup) (o : Observed) (r : Route) (venue : Venue) (s : SignalIntent)
    → KeepsAll (client_order_id c e o s) r.calls venue.recover
    → s.market_type ≡ spot
    → (w : World) (reason : Reason)
    → (process_signal c e o r venue s w).0 ≡ ok (by_risk (approve, reason))
    → HasClient (client_order_id c e o s) (process_signal c e o r venue s w).1.tables.orders
unfolding process_signal
process_signal-IsStored c e o r venue s keeps on_spot w =
    unless_known-IsStored c e o r venue s keeps on_spot
      (get_by_client (client_order_id c e o s) w.tables.orders) w

known_signal :
    (c : Context) (e : Setup) (o : Observed) (r : Route) (venue : Venue) (s : SignalIntent)
    (w : World) (x : Order)
    → get_by_client (client_order_id c e o s) w.tables.orders ≡ some x
    → process_signal c e o r venue s w ≡ (ok no_decision, w)
unfolding process_signal unless_known
known_signal c e o r venue s w x h = rw h refl

-- A spot signal that has been approved and executed, with other tasks that leave its order in the
-- table, is not executed again: processed a second time, at any later readings and with any exchange,
-- it gives no decision and changes nothing.
pub process_signal-process_signal :
    (c : Context) (e : Setup) (o later : Observed) (r again : Route) (venue other : Venue)
    (s : SignalIntent) (w : World) (reason : Reason)
    → KeepsAll (client_order_id c e o s) r.calls venue.recover
    → s.market_type ≡ spot
    → (process_signal c e o r venue s w).0 ≡ ok (by_risk (approve, reason))
    → process_signal c e later again other s (process_signal c e o r venue s w).1
      ≡ (ok no_decision, (process_signal c e o r venue s w).1)
process_signal-process_signal c e o later r again venue other s w reason keeps on_spot h =
    let w' = (process_signal c e o r venue s w).1 in
    let (x, found) =
      HasClient-found (client_order_id c e o s) w'.tables.orders
        (process_signal-IsStored c e o r venue s keeps on_spot w reason h) in
    known_signal c e later again other s w' x found
