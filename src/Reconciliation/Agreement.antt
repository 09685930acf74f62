-- ===== src/Reconciliation/Agreement.antt =====
-- src/crypto_trader/reconciliation/service.py: what a report that does not halt says of the two sides.
use crypto_auto_trading_syst.Base.{
  ◌≡◌, ◌⊎◌, ◌↔◌, ◌==◌, Option, none, some, refl, true, false, List, [], ◌∷◌, ◌++◌, find, any, All,
  arith, Bool-cases, inl, inr,
}
use crypto_auto_trading_syst.Int.{eqb_ℤ, eqb_ℤ→eq}
use crypto_auto_trading_syst.Domain.Models.{Text, Position}
use crypto_auto_trading_syst.Ledger.Projections.{PositionView, ProjectionSnapshot, balance}
use crypto_auto_trading_syst.Simulator.Matching.{Wallet, held, has_symbol}
use crypto_auto_trading_syst.Reconciliation.{
  Alert, halts, quantity_of, covered, local_currencies, exchange_currencies, among, all_currencies,
  balance_alerts, position_alerts, only_alerts, find_alerts, reconcile, is_matched,
}

any-split :
    (xs ys : List Alert)
    → any halts (xs ++ ys) ≡ false
    → (any halts xs ≡ false) × (any halts ys ≡ false)
any-split [] ys h = (refl, h)
any-split (a ∷ xs) ys h = ground (arith, any-split xs ys)

-- The exchange has the quantity that the ledger has.
abbrev pub HasQuantity : List Position → PositionView → Type 0
HasQuantity ps v = v.quantity ≡ quantity_of (find (has_symbol v.symbol) ps)

-- The position of the exchange, if it has one, has the quantity of the ledger's.
abbrev pub HasMatch : PositionView → Option Position → Type 0
HasMatch v none = ⊥
HasMatch v (some p) = v.quantity ≡ p.quantity

is_matched-HasMatch :
    (v : PositionView) (o : Option Position) → is_matched v o ≡ true → HasMatch v o
is_matched-HasMatch v none h = cc
is_matched-HasMatch v (some p) h = eqb_ℤ→eq v.quantity p.quantity h

HasMatch-is_matched :
    (v : PositionView) (o : Option Position) → HasMatch v o → is_matched v o ≡ true
HasMatch-is_matched v none h = absurd h
HasMatch-is_matched v (some p) h = ground arith

module _ (local_base exchange_base : Text → Text) (ps : List Position) (currency : Text) where
  -- The currency is the base asset of a position that both sides have with one quantity.
  abbrev pub IsAccountedFor : List PositionView → Type 0
  IsAccountedFor [] = ⊥
  IsAccountedFor (v ∷ vs) =
      (HasMatch v (find (has_symbol v.symbol) ps)
        × ((local_base v.symbol ≡ currency) ⊎ (exchange_base v.symbol ≡ currency)))
      ⊎ IsAccountedFor vs

  covered-IsAccountedFor :
      (vs : List PositionView)
      → among (covered local_base exchange_base vs ps) currency ≡ true
      → IsAccountedFor vs
  unfolding covered
  covered-IsAccountedFor [] h = cc
  covered-IsAccountedFor (v ∷ vs) h =
      let o = find (has_symbol v.symbol) ps in
      elim (Bool-cases (is_matched v o)) [
        | inr other ↦ inr (covered-IsAccountedFor vs (rw other at h))
        | inl same ↦
            let match = is_matched-HasMatch v o same in
            let named = rw same at h in
            elim (Bool-cases (local_base v.symbol == currency)) [
              | inl ours ↦ inl (match, inl (ground arith))
              | inr not_ours ↦ elim (Bool-cases (exchange_base v.symbol == currency)) [
                | inl theirs ↦ inl (match, inr (ground arith))
                | inr not_theirs ↦ inr (covered-IsAccountedFor vs (ground arith))
              ]
            ]
      ]

  IsAccountedFor-covered :
      (vs : List PositionView)
      → IsAccountedFor vs
      → among (covered local_base exchange_base vs ps) currency ≡ true
  unfolding covered
  IsAccountedFor-covered [] h = absurd h
  IsAccountedFor-covered (v ∷ vs) (inl (match, base)) =
      rw (HasMatch-is_matched v (find (has_symbol v.symbol) ps) match) (ground arith)
  IsAccountedFor-covered (v ∷ vs) (inr later) = ground (arith, IsAccountedFor-covered vs later)

-- The two balances are the same, or the currency is one that equal positions account for.
abbrev pub HasBalance : (Text → Text) → (Text → Text) → ProjectionSnapshot → Wallet → Text → Type 0
HasBalance local_base exchange_base s w currency =
    IsAccountedFor local_base exchange_base w.positions currency s.positions
    ⊎ (balance currency s ≡ held currency w.balances)

position_alerts-HasQuantity :
    (vs : List PositionView) (ps : List Position)
    → any halts (position_alerts vs ps) ≡ false
    → All (HasQuantity ps) vs
unfolding position_alerts
position_alerts-HasQuantity [] ps h = tt
position_alerts-HasQuantity (v ∷ vs) ps h =
    let other = quantity_of (find (has_symbol v.symbol) ps) in
    elim (Bool-cases (eqb_ℤ v.quantity other)) [
      | inl same ↦
          (eqb_ℤ→eq v.quantity other same, position_alerts-HasQuantity vs ps (ground arith))
      | inr differs ↦ absurd (ground arith)
    ]

module _ (local_base exchange_base : Text → Text) (s : ProjectionSnapshot) (w : Wallet) where
  abbrev skipped : List Text
  skipped = covered local_base exchange_base s.positions w.positions

  balance_alerts-HasBalance :
      (cs : List Text)
      → any halts (balance_alerts skipped cs s w.balances) ≡ false
      → All (HasBalance local_base exchange_base s w) cs
  unfolding balance_alerts
  balance_alerts-HasBalance [] h = tt
  balance_alerts-HasBalance (currency ∷ cs) h = elim (Bool-cases (among skipped currency)) [
    | inl covers ↦ (
      inl (covered-IsAccountedFor local_base exchange_base w.positions currency s.positions covers),
      balance_alerts-HasBalance cs (ground arith),
    )
    | inr bare ↦ elim (Bool-cases (eqb_ℤ (balance currency s) (held currency w.balances))) [
      | inl same ↦ (
        inr (eqb_ℤ→eq (balance currency s) (held currency w.balances) same),
        balance_alerts-HasBalance cs (ground arith),
      )
      | inr differs ↦ absurd (ground arith)
    ]
  ]

  HasBalance-balance_alerts :
      (cs : List Text)
      → All (HasBalance local_base exchange_base s w) cs
      → any halts (balance_alerts skipped cs s w.balances) ≡ false
  unfolding balance_alerts
  HasBalance-balance_alerts [] a = refl
  HasBalance-balance_alerts (currency ∷ cs) (inl base, a) =
      rw (IsAccountedFor-covered local_base exchange_base w.positions currency s.positions base)
        (HasBalance-balance_alerts cs a)
  HasBalance-balance_alerts (currency ∷ cs) (inr same, a) =
      ground (arith, HasBalance-balance_alerts cs a)

any-join :
    (xs ys : List Alert)
    → any halts xs ≡ false
    → any halts ys ≡ false
    → any halts (xs ++ ys) ≡ false
any-join [] ys h k = k
any-join (a ∷ xs) ys h k = ground (arith, any-join xs ys)

HasQuantity-position_alerts :
    (vs : List PositionView) (ps : List Position)
    → All (HasQuantity ps) vs
    → any halts (position_alerts vs ps) ≡ false
unfolding position_alerts
HasQuantity-position_alerts [] ps a = refl
HasQuantity-position_alerts (v ∷ vs) ps a = ground (arith, HasQuantity-position_alerts vs ps a.1)

-- A position that only the exchange has never halts.
only_alerts-halts :
    (vs : List PositionView) (ps : List Position) → any halts (only_alerts vs ps) ≡ false
unfolding only_alerts
only_alerts-halts vs [] = refl
only_alerts-halts vs (p ∷ ps) = ground (arith, only_alerts-halts vs ps)

-- A reconciliation goes on without a halt exactly when the exchange has the quantity of every position
-- of the ledger, and each currency of either side has one balance on both or is the base asset of a
-- position that both sides have with one quantity. Positions that only the exchange has make no difference.
pub reconcile-agrees :
    (local_base exchange_base : Text → Text) (s : ProjectionSnapshot) (w : Wallet)
    → (reconcile local_base exchange_base s w).halt ≡ false ↔ (
        All (HasQuantity w.positions) s.positions
        × All
            (HasBalance local_base exchange_base s w)
            (all_currencies (local_currencies s.balances) (exchange_currencies w.balances)))
unfolding reconcile find_alerts
reconcile-agrees local_base exchange_base s w =
    let cs = all_currencies (local_currencies s.balances) (exchange_currencies w.balances) in
    let ps = position_alerts s.positions w.positions in
    let only = only_alerts s.positions w.positions in
    let bs =
      balance_alerts (covered local_base exchange_base s.positions w.positions) cs s w.balances in
    (
      λ h.
          let parts = any-split bs (ps ++ only) h in
          (
            position_alerts-HasQuantity s.positions w.positions (any-split ps only parts.1).0,
            balance_alerts-HasBalance local_base exchange_base s w cs parts.0,
          ),
      λ a.
          any-join bs (ps ++ only) (HasBalance-balance_alerts local_base exchange_base s w cs a.1) (
            any-join ps only (HasQuantity-position_alerts s.positions w.positions a.0)
              (only_alerts-halts s.positions w.positions)),
    )
