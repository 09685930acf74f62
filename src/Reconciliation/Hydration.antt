-- ===== src/Reconciliation/Hydration.antt =====
-- src/crypto_trader/simulator/exchange.py and reconciliation/service.py: the reconciliation of a
-- simulated exchange that has adopted the ledger.
use mathlib.Core.Path.{subst}
use crypto_auto_trading_syst.Base.{
  ◌≡◌, ◌≢◌, refl, sym, true, false, none, List, [], ◌∷◌, find, any, All, arith, Bool-cases, inl,
  inr,
}
use crypto_auto_trading_syst.Base.Tables.{Unique}
use crypto_auto_trading_syst.Int.{pos, eqb_ℤ, eqb_ℤ→eq}
use crypto_auto_trading_syst.Decimal.{Decimal, is_zero}
use crypto_auto_trading_syst.Domain.Models.{Text, Position}
use crypto_auto_trading_syst.Ledger.Projections.{
  BalanceRow, PositionView, ProjectionSnapshot, balance, has_currency, total_of,
}
use crypto_auto_trading_syst.Simulator.Matching.{Holding, Wallet, held, has_symbol}
use crypto_auto_trading_syst.Reconciliation.{
  quantity_of, covered, local_currencies, exchange_currencies, all_currencies, balance_alerts,
  position_alerts, has_view, only_alerts, find_alerts, reconcile, adopted_balances,
  adopted_position, adopted_positions, or_kept, hydrate_from_ledger,
}

-- One view for each symbol, and one or more balances.
pub record IsProjected (s : ProjectionSnapshot) : Type 0 where
  pub one_view : Unique (λ v. v.symbol) s.positions
  pub has_balance : s.balances ≢ []

eqb_same : (a : Decimal) → eqb_ℤ a a ≡ true
eqb_same a = ground arith

held-adopted :
    (currency : Text) (rs : List BalanceRow)
    → held currency (adopted_balances rs) ≡ total_of (find (has_currency currency) rs)
held-adopted currency [] = refl
held-adopted currency (r ∷ rs) = ground (arith, held-adopted currency rs)

balance_alerts-none :
    (skipped cs : List Text) (s : ProjectionSnapshot) (hs : List Holding)
    → ((currency : Text) → held currency hs ≡ balance currency s)
    → balance_alerts skipped cs s hs ≡ []
unfolding balance_alerts
balance_alerts-none skipped [] s hs h = refl
balance_alerts-none skipped (currency ∷ cs) s hs h =
    rw (h currency, eqb_same (balance currency s), balance_alerts-none skipped cs s hs h)
      (ground arith)

-- The exchange has what the view says.
abbrev Agrees : List Position → PositionView → Type 0
Agrees ps v = quantity_of (find (has_symbol v.symbol) ps) ≡ v.quantity

position_alerts-none :
    (vs : List PositionView) (ps : List Position) → All (Agrees ps) vs → position_alerts vs ps ≡ []
unfolding position_alerts
position_alerts-none [] ps a = refl
position_alerts-none (v ∷ vs) ps a = rw (a.0, eqb_same v.quantity, position_alerts-none vs ps a.1)

find-adopted :
    (symbol : Text) (vs : List PositionView)
    → any (has_view symbol) vs ≡ false
    → find (has_symbol symbol) (adopted_positions vs) ≡ none
find-adopted symbol [] h = refl
find-adopted symbol (v ∷ vs) h = ground (arith, find-adopted symbol vs)

Agrees-more :
    (v : PositionView) (vs : List PositionView) (ps : List Position)
    → any (has_view v.symbol) vs ≡ false
    → All (Agrees ps) vs
    → All (Agrees (adopted_position v ∷ ps)) vs
Agrees-more v [] ps h a = tt
Agrees-more v (x ∷ xs) ps h a = (ground (arith, a.0), Agrees-more v xs ps (ground arith) a.1)

adopted-Agrees :
    (vs : List PositionView) → Unique (λ v. v.symbol) vs → All (Agrees (adopted_positions vs)) vs
adopted-Agrees [] u = tt
adopted-Agrees (v ∷ vs) u = elim (Bool-cases (is_zero v.quantity)) [
  | inl gone ↦
      let nothing : v.quantity ≡ pos 0 = eqb_ℤ→eq v.quantity (pos 0) gone in
      let e : adopted_positions (v ∷ vs) ≡ adopted_positions vs = rw gone refl in
      subst (λ ps. All (Agrees ps) (v ∷ vs)) (sym e)
        (rw (find-adopted v.symbol vs u.0) (sym nothing), adopted-Agrees vs u.1)
  | inr there ↦
      let e : adopted_positions (v ∷ vs) ≡ adopted_position v ∷ adopted_positions vs =
        rw there refl in
      subst (λ ps. All (Agrees ps) (v ∷ vs)) (sym e)
        (ground arith, Agrees-more v vs (adopted_positions vs) u.0 (adopted-Agrees vs u.1))
]

-- A position of a symbol that the ledger has.
abbrev Known : List PositionView → Position → Type 0
Known vs p = any (has_view p.symbol) vs ≡ true

only_alerts-none :
    (vs : List PositionView) (ps : List Position) → All (Known vs) ps → only_alerts vs ps ≡ []
unfolding only_alerts
only_alerts-none vs [] a = refl
only_alerts-none vs (p ∷ ps) a = rw (a.0, only_alerts-none vs ps a.1)

Known-more :
    (v : PositionView) (vs : List PositionView) (ps : List Position)
    → All (Known vs) ps
    → All (Known (v ∷ vs)) ps
Known-more v vs [] a = tt
Known-more v vs (p ∷ ps) a = (ground (arith, a.0), Known-more v vs ps a.1)

adopted-Known : (vs : List PositionView) → All (Known vs) (adopted_positions vs)
adopted-Known [] = tt
adopted-Known (v ∷ vs) = elim (Bool-cases (is_zero v.quantity)) [
  | inl gone ↦ rw gone (Known-more v vs (adopted_positions vs) (adopted-Known vs))
  | inr there ↦ rw there (ground arith, Known-more v vs (adopted_positions vs) (adopted-Known vs))
]

or_kept-adopted :
    (rs : List BalanceRow) (kept : List Holding)
    → rs ≢ []
    → or_kept (adopted_balances rs) kept ≡ adopted_balances rs
or_kept-adopted [] kept h = absurd (h refl)
or_kept-adopted (r ∷ rs) kept h = refl

-- A simulated exchange that has adopted a projection of the ledger with one view for each symbol
-- and one or more balances is reconciled with it without an alert, whatever it had before and
-- whatever assets the symbols stand for.
pub reconcile-hydrate_from_ledger :
    (local_base exchange_base : Text → Text) (s : ProjectionSnapshot) (w : Wallet)
    → IsProjected s
    → reconcile local_base exchange_base s (hydrate_from_ledger s w)
      ≡ record { ok = true; halt = false; alerts = [] }
unfolding reconcile hydrate_from_ledger find_alerts balance
reconcile-hydrate_from_ledger local_base exchange_base s w p =
    rw
      (
        or_kept-adopted s.balances w.balances p.has_balance,
        balance_alerts-none
            (covered local_base exchange_base s.positions (adopted_positions s.positions))
            (all_currencies (local_currencies s.balances)
              (exchange_currencies (adopted_balances s.balances)))
            s (adopted_balances s.balances) (λ currency. held-adopted currency s.balances),
        position_alerts-none s.positions (adopted_positions s.positions)
            (adopted-Agrees s.positions p.one_view),
        only_alerts-none s.positions (adopted_positions s.positions) (adopted-Known s.positions),
      )
      refl
