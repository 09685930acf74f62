-- ===== src/Ledger/Projections/Positions.antt =====
-- src/crypto_trader/ledger/projections.py: the signs of replayed positions, and sales.
use crypto_auto_trading_syst.Base.{
  ◌≡◌, refl, ◌∙◌, inl, inr, false, Option, none, some, List, [], ◌∷◌, find, All, sort_by, Result,
  ok, err, arith, Bool-cases, Option-cases, ◌>>=◌,
}
use crypto_auto_trading_syst.Base.Tables.{All-find}
use crypto_auto_trading_syst.Int.{pos, ◌≤ℤ◌, ltb_ℤ}
use crypto_auto_trading_syst.Decimal.{Decimal, Context, add, sub, mul}
use crypto_auto_trading_syst.Decimal.Laws.{sub_self, add_nonneg, sub_nonneg, mul_nonneg}
use crypto_auto_trading_syst.Domain.Enums.{OrderSide, buy, sell, LedgerEntryType, trade}
use crypto_auto_trading_syst.Domain.Models.{Text}
use crypto_auto_trading_syst.Ledger.Journal.{
  LedgerPosting, Metadata, LedgerEntry, LedgerTransaction,
}
use crypto_auto_trading_syst.Ledger.Projections.{
  PositionView, ProjectionSnapshot, has_symbol, put_position, refresh_equity, apply_entry,
  apply_entries, position_or_new, buy_position, sell_position, release_of, put, trade_on, key,
  apply_trade, by_type, seq_le, apply_transaction, apply_all,
}

abbrev pub IsLong : PositionView → Type 0
IsLong p = (pos 0 ≤ℤ p.quantity) × (pos 0 ≤ℤ p.cost_basis)

abbrev pub AllLong : ProjectionSnapshot → Type 0
AllLong s = All IsLong s.positions

-- The metadata of a trade has a price and a quantity that are not negative.
abbrev pub NonNegative : Option Decimal → Type 0
NonNegative none = Unit
NonNegative (some x) = pos 0 ≤ℤ x

abbrev pub IsTradeLike : Metadata → Type 0
IsTradeLike m = NonNegative m.quantity × NonNegative m.price

put_position-All :
    (p : PositionView) (ps : List PositionView)
    → IsLong p
    → All IsLong ps
    → All IsLong (put_position p ps)
put_position-All p [] h a = (h, tt)
put_position-All p (q ∷ qs) h a = ground (arith, put_position-All p qs h a.1)

module _ (c : Context) where
  buy_position-IsLong :
      (quantity price : Decimal) (p : PositionView)
      → pos 0 ≤ℤ quantity
      → pos 0 ≤ℤ price
      → IsLong p
      → IsLong (buy_position c quantity price p)
  unfolding buy_position
  buy_position-IsLong quantity price p hq hp h = (
    add_nonneg c p.quantity quantity h.0 hq,
    add_nonneg c p.cost_basis (mul c price quantity) h.1 (mul_nonneg c price quantity hp hq),
  )

  sell_position-IsLong :
      (quantity price : Decimal) (p : PositionView)
      → ltb_ℤ p.quantity quantity ≡ false
      → IsLong p
      → IsLong (sell_position c quantity price p)
  unfolding sell_position
  sell_position-IsLong quantity price p fits h =
      (sub_nonneg c p.quantity quantity (ground arith), ground arith)

  refresh-positions : (s : ProjectionSnapshot) → (refresh_equity c s).positions ≡ s.positions
  unfolding refresh_equity
  refresh-positions s = refl

  apply_entry-positions :
      (p : LedgerPosting) (s : ProjectionSnapshot) → (apply_entry c p s).positions ≡ s.positions
  unfolding apply_entry
  apply_entry-positions p s = ground arith

  apply_entries-positions :
      (es : List LedgerEntry) (s : ProjectionSnapshot)
      → (apply_entries c es s).positions ≡ s.positions
  unfolding apply_entries
  apply_entries-positions [] s = refl
  apply_entries-positions (e ∷ es) s =
      apply_entries-positions es (apply_entry c e.posting s) ∙ apply_entry-positions e.posting s

  position_or_new-IsLong :
      (symbol : Text) (s : ProjectionSnapshot)
      → AllLong s
      → IsLong (position_or_new c symbol (find (has_symbol symbol) s.positions))
  position_or_new-IsLong symbol s a = elim (Option-cases (find (has_symbol symbol) s.positions)) [
    | inl new ↦ rw new (omega arith)
    | inr (p, e) ↦ rw e (All-find IsLong (has_symbol symbol) s.positions a e)
  ]

  -- The result, if there is one, holds only long positions.
  abbrev pub EndsLong : Result ProjectionSnapshot → Type 0
  EndsLong (ok s) = AllLong s
  EndsLong (err e) = Unit

  put-AllLong :
      (p : PositionView) (s : ProjectionSnapshot) → IsLong p → AllLong s → AllLong (put c p s)
  put-AllLong p s h a =
      rw (refresh-positions (record s { positions = put_position p s.positions }))
        (put_position-All p s.positions h a)

  trade_on-EndsLong :
      (side : OrderSide) (quantity price : Decimal) (p : PositionView) (s : ProjectionSnapshot)
      → pos 0 ≤ℤ quantity
      → pos 0 ≤ℤ price
      → IsLong p
      → AllLong s
      → EndsLong (trade_on c side quantity price p s)
  trade_on-EndsLong buy quantity price p s hq hp h a =
      put-AllLong (buy_position c quantity price p) s (buy_position-IsLong quantity price p hq hp h)
        a
  trade_on-EndsLong sell quantity price p s hq hp h a =
      elim (Bool-cases (ltb_ℤ p.quantity quantity)) [
        | inl over ↦ rw over tt
        | inr fits ↦ rw fits (
            put-AllLong (sell_position c quantity price p)
              (record s {
                realized_pnl =
                    add c s.realized_pnl (sub c (mul c price quantity) (release_of c quantity p));
              })
              (sell_position-IsLong quantity price p fits h) a)
      ]

  with_keys :
      (symbol : Option Text) (side : Option OrderSide) (quantity price : Option Decimal)
      (s : ProjectionSnapshot)
      → NonNegative quantity
      → NonNegative price
      → AllLong s
      → EndsLong (
          key c symbol >>= λ y. key c side >>= λ d. key c quantity >>= λ q. key c price >>= λ p.
          trade_on c d q p (position_or_new c y (find (has_symbol y) s.positions)) s)
  with_keys none d q p s hq hp a = tt
  with_keys (some y) none q p s hq hp a = tt
  with_keys (some y) (some d) none p s hq hp a = tt
  with_keys (some y) (some d) (some q) none s hq hp a = tt
  with_keys (some y) (some d) (some q) (some p) s hq hp a =
      trade_on-EndsLong d q p (position_or_new c y (find (has_symbol y) s.positions)) s hq hp
        (position_or_new-IsLong y s a) a

  apply_trade-EndsLong :
      (m : Metadata) (s : ProjectionSnapshot)
      → IsTradeLike m
      → AllLong s
      → EndsLong (apply_trade c m s)
  unfolding apply_trade
  apply_trade-EndsLong m s h a = with_keys m.symbol m.side m.quantity m.price s h.0 h.1 a

  by_type-EndsLong :
      (t : LedgerEntryType) (m : Metadata) (s : ProjectionSnapshot)
      → IsTradeLike m
      → AllLong s
      → EndsLong (by_type c t m s)
  by_type-EndsLong trade m s h a = apply_trade-EndsLong m s h a
  by_type-EndsLong _ m s h a = a

  refreshed :
      (r : Result ProjectionSnapshot) → EndsLong r → EndsLong (r >>= λ u. ok (refresh_equity c u))
  refreshed (ok s) a = rw (refresh-positions s) a
  refreshed (err e) a = tt

  apply_transaction-EndsLong :
      (t : LedgerTransaction) (s : ProjectionSnapshot)
      → IsTradeLike t.metadata
      → AllLong s
      → EndsLong (apply_transaction c t s)
  unfolding apply_transaction
  apply_transaction-EndsLong t s h a =
      let u = apply_entries c (sort_by (seq_le c) t.entries) s in
      refreshed (by_type c t.entry_type t.metadata u) (
        by_type-EndsLong t.entry_type t.metadata u h
          (rw (apply_entries-positions (sort_by (seq_le c) t.entries) s) a))

  -- Replaying any transactions whose trades have prices and quantities that are not negative never
  -- leaves a position with a negative quantity or cost, whatever the order of the transactions and
  -- however the context rounds.
  pub apply_all-EndsLong :
      (ts : List LedgerTransaction) (s : ProjectionSnapshot)
      → All (λ t. IsTradeLike t.metadata) ts
      → AllLong s
      → EndsLong (apply_all c ts s)
  unfolding apply_all
  apply_all-EndsLong [] s h a = a
  apply_all-EndsLong (t ∷ ts) s h a =
      next (apply_transaction c t s) (apply_transaction-EndsLong t s h.0 a)
        (λ u b. apply_all-EndsLong ts u h.1 b)
    where
      next :
          (r : Result ProjectionSnapshot)
          → EndsLong r
          → ((u : ProjectionSnapshot) → AllLong u → EndsLong (apply_all c ts u))
          → EndsLong (r >>= apply_all c ts)
      next (ok u) b rest = rest u b
      next (err e) b rest = tt

  -- A sale of all that is held leaves quantity and cost zero and no entry price, however the context
  -- rounds.
  sell_position-sold_out :
      (quantity price : Decimal) (p : PositionView)
      → p.quantity ≡ quantity
      → ((sell_position c quantity price p).quantity ≡ pos 0)
        × ((sell_position c quantity price p).cost_basis ≡ pos 0)
        × ((sell_position c quantity price p).avg_entry_price ≡ none)
  unfolding sell_position
  sell_position-sold_out quantity price p all = ground (arith, sub_self c p.quantity)
