-- ===== src/Perpetual/Projection/Rebuilt.antt =====
-- src/crypto_trader/perpetual/ledger.py: maintenance margins and unrealized profits after a rebuild.
use crypto_auto_trading_syst.Base.{
  ◌≡◌, refl, inl, inr, Bool, Option, none, some, List, [], ◌∷◌, find, select, not, Result, ok, err,
  All, arith, Bool-cases, ◌>>=◌,
}
use crypto_auto_trading_syst.Base.Tables.{All-find}
use crypto_auto_trading_syst.Int.{pos, leb_ℤ}
use crypto_auto_trading_syst.Decimal.{Decimal, Context, sub, abs, max}
use crypto_auto_trading_syst.Domain.Enums.{PositionSide, position_side_eq}
use crypto_auto_trading_syst.Domain.Models.{Text}
use crypto_auto_trading_syst.Order.Store.{truthy}
use crypto_auto_trading_syst.Ledger.Journal.{
  Action, open_action, close_action, no_action, Metadata, LedgerTransaction, Journal,
}
use crypto_auto_trading_syst.Ledger.Service.{list_transactions}
use crypto_auto_trading_syst.Ledger.Projections.{key}
use crypto_auto_trading_syst.Perpetual.Contract.{MarginPosition, is_flat, position_of}
use crypto_auto_trading_syst.Perpetual.Projection.{
  FuturesProjectionSnapshot, empty_projection, put_margin_position, add_to, net, signed_qty, merge,
  open_on, put_opened, apply_open, close_on, close_found, apply_close, with_fees, by_action,
  with_symbol, apply_txn, apply_txns, rebuild,
}

-- The position has no maintenance margin and no profit that is not realized.
abbrev pub IsBare : MarginPosition → Type 0
IsBare p = (p.maintenance_margin ≡ pos 0) × (p.unrealized_pnl ≡ pos 0)

abbrev pub AllBare : FuturesProjectionSnapshot → Type 0
AllBare s = All IsBare s.positions

-- The result, if there is one, has only bare positions.
abbrev pub EndsBare : Result FuturesProjectionSnapshot → Type 0
EndsBare (ok s) = AllBare s
EndsBare (err e) = Unit

abbrev BarePosition : Result MarginPosition → Type 0
BarePosition (ok p) = IsBare p
BarePosition (err e) = Unit

put-All :
    (p : MarginPosition) (ps : List MarginPosition)
    → IsBare p
    → All IsBare ps
    → All IsBare (put_margin_position p ps)
put-All p [] h a = (h, tt)
put-All p (q ∷ qs) h a = ground (arith, put-All p qs h a.1)

select-All :
    (test : MarginPosition → Bool) (ps : List MarginPosition)
    → All IsBare ps
    → All IsBare (select test ps)
select-All test [] a = a
select-All test (q ∷ qs) a = ground (arith, select-All test qs a.1)

module _ (c : Context) where
  add_to-BarePosition :
      (side : PositionSide) (qty entry margin : Decimal) (p : MarginPosition)
      → IsBare p
      → BarePosition (add_to c side qty entry margin p)
  unfolding add_to
  add_to-BarePosition side qty entry margin p h = ground arith

  net-IsBare :
      (side : PositionSide) (qty entry margin : Decimal) (p : MarginPosition)
      → IsBare p
      → IsBare (net c side qty entry margin p)
  unfolding net
  net-IsBare side qty entry margin p h = ground arith

  merge-BarePosition :
      (side : PositionSide) (qty entry margin : Decimal) (p : MarginPosition)
      → IsBare p
      → BarePosition (merge c side qty entry margin p)
  merge-BarePosition side qty entry margin p h = elim (Bool-cases (position_side_eq p.side side)) [
    | inl same ↦ rw same (add_to-BarePosition side qty entry margin p h)
    | inr other ↦ rw other (net-IsBare side qty entry margin p h)
  ]

  open_on-BarePosition :
      (symbol : Text) (side : PositionSide) (qty entry margin lev : Decimal)
      (o : Option MarginPosition) (ps : List MarginPosition)
      → find (position_of symbol) ps ≡ o
      → All IsBare ps
      → BarePosition (open_on c symbol side qty entry margin lev o)
  open_on-BarePosition symbol side qty entry margin lev none ps found a = (refl, refl)
  open_on-BarePosition symbol side qty entry margin lev (some p) ps found a =
      elim (Bool-cases (is_flat p)) [
        | inl closed ↦ rw closed (refl, refl)
        | inr kept ↦ rw kept (
            merge-BarePosition side qty entry margin p
              (All-find IsBare (position_of symbol) ps {x = p} a found))
      ]

  put_opened-EndsBare :
      (margin : Decimal) (s : FuturesProjectionSnapshot) (r : Result MarginPosition)
      → BarePosition r
      → AllBare s
      → EndsBare (r >>= λ p. ok (put_opened c margin s p))
  put_opened-EndsBare margin s (ok p) h a = put-All p s.positions h a
  put_opened-EndsBare margin s (err e) h a = tt

  open_keys :
      (symbol : Text) (s : FuturesProjectionSnapshot) (side : Option PositionSide)
      (qty entry margin lev : Option Decimal)
      → AllBare s
      → EndsBare (
          key c side >>= λ d. key c qty >>= λ q. key c entry >>= λ y. key c margin >>= λ m.
          key c lev >>= λ l.
          open_on c symbol d q y m l (find (position_of symbol) s.positions) >>= λ p.
          ok (put_opened c m s p))
  open_keys symbol s none q y m l a = tt
  open_keys symbol s (some d) none y m l a = tt
  open_keys symbol s (some d) (some q) none m l a = tt
  open_keys symbol s (some d) (some q) (some y) none l a = tt
  open_keys symbol s (some d) (some q) (some y) (some m) none a = tt
  open_keys symbol s (some d) (some q) (some y) (some m) (some l) a =
      put_opened-EndsBare m s (open_on c symbol d q y m l (find (position_of symbol) s.positions))
        (open_on-BarePosition symbol d q y m l (find (position_of symbol) s.positions) s.positions
          refl a)
        a

  apply_open-EndsBare :
      (symbol : Text) (m : Metadata) (s : FuturesProjectionSnapshot)
      → AllBare s
      → EndsBare (apply_open c symbol m s)
  unfolding apply_open
  apply_open-EndsBare symbol m s a =
      open_keys symbol s m.position_side m.quantity m.entry_price m.initial_margin m.leverage a

  close_on-AllBare :
      (qty pnl release : Decimal) (p : MarginPosition) (s : FuturesProjectionSnapshot)
      → IsBare p
      → AllBare s
      → AllBare (close_on c qty pnl release p s)
  unfolding close_on
  close_on-AllBare qty pnl release p s h a =
      let remaining = sub c (abs c p.quantity) qty in
      elim (Bool-cases (leb_ℤ remaining (pos 0))) [
        | inl all ↦ rw all (select-All (λ q. not (position_of p.symbol q)) s.positions a)
        | inr part ↦ rw part (
            put-All
              (record p {
                quantity = signed_qty c p.side remaining;
                initial_margin = max (sub c p.initial_margin release) (pos 0);
              })
              s.positions h a)
      ]

  close_keys :
      (p : MarginPosition) (s : FuturesProjectionSnapshot) (qty pnl release : Option Decimal)
      → IsBare p
      → AllBare s
      → EndsBare
          (key c qty >>= λ q. key c pnl >>= λ g. key c release >>= λ r. ok (close_on c q g r p s))
  close_keys p s none g r h a = tt
  close_keys p s (some q) none r h a = tt
  close_keys p s (some q) (some g) none h a = tt
  close_keys p s (some q) (some g) (some r) h a = close_on-AllBare q g r p s h a

  close_found-EndsBare :
      (symbol : Text) (m : Metadata) (s : FuturesProjectionSnapshot) (o : Option MarginPosition)
      → find (position_of symbol) s.positions ≡ o
      → AllBare s
      → EndsBare (close_found c m s o)
  close_found-EndsBare symbol m s none found a = a
  close_found-EndsBare symbol m s (some p) found a =
      close_keys p s m.quantity m.realized_pnl m.margin_release
        (All-find IsBare (position_of symbol) s.positions {x = p} a found) a

  apply_close-EndsBare :
      (symbol : Text) (m : Metadata) (s : FuturesProjectionSnapshot)
      → AllBare s
      → EndsBare (apply_close c symbol m s)
  unfolding apply_close
  apply_close-EndsBare symbol m s a =
      close_found-EndsBare symbol m s (find (position_of symbol) s.positions) refl a

  by_action-EndsBare :
      (action : Action) (symbol : Text) (t : LedgerTransaction) (s : FuturesProjectionSnapshot)
      → AllBare s
      → EndsBare (by_action c action symbol t s)
  by_action-EndsBare open_action symbol t s a = apply_open-EndsBare symbol t.metadata s a
  by_action-EndsBare close_action symbol t s a = apply_close-EndsBare symbol t.metadata s a
  by_action-EndsBare no_action symbol t s a = ground arith

  with_symbol-EndsBare :
      (symbol : Option Text) (t : LedgerTransaction) (s : FuturesProjectionSnapshot)
      → AllBare s
      → EndsBare (with_symbol c symbol t s)
  with_symbol-EndsBare none t s a = a
  with_symbol-EndsBare (some symbol) t s a = elim (Bool-cases (truthy (some symbol))) [
    | inl there ↦ rw there (by_action-EndsBare t.metadata.action symbol t (with_fees c t s) a)
    | inr empty ↦ rw empty a
  ]

  apply_txn-EndsBare :
      (t : LedgerTransaction) (s : FuturesProjectionSnapshot)
      → AllBare s
      → EndsBare (apply_txn c t s)
  unfolding apply_txn
  apply_txn-EndsBare t s a = with_symbol-EndsBare t.metadata.symbol t s a

  apply_txns-EndsBare :
      (ts : Journal) (s : FuturesProjectionSnapshot) → AllBare s → EndsBare (apply_txns c ts s)
  unfolding apply_txns
  apply_txns-EndsBare [] s a = a
  apply_txns-EndsBare (t ∷ ts) s a =
      next (apply_txn c t s) (apply_txn-EndsBare t s a) (λ u b. apply_txns-EndsBare ts u b)
    where
      next :
          (r : Result FuturesProjectionSnapshot)
          → EndsBare r
          → ((u : FuturesProjectionSnapshot) → AllBare u → EndsBare (apply_txns c ts u))
          → EndsBare (r >>= apply_txns c ts)
      next (ok u) b rest = rest u b
      next (err e) b rest = tt

  -- Whatever the journal holds, every position that is rebuilt from it has a maintenance margin of
  -- zero and no profit that is not realized.
  pub rebuild-EndsBare : (j : Journal) → EndsBare (rebuild c j)
  unfolding rebuild
  rebuild-EndsBare j = apply_txns-EndsBare (list_transactions j) empty_projection tt
