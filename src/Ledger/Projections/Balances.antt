-- ===== src/Ledger/Projections/Balances.antt =====
-- src/crypto_trader/ledger/projections.py: the journal of a trade on the balances, and the equity.
use crypto_auto_trading_syst.Base.{
  ◌≡◌, refl, inl, inr, Bool-cases, Option, List, [], ◌∷◌, find, sort_by, ok, arith, if◌then◌else◌,
  ◌==◌, >>=-returns,
}
use crypto_auto_trading_syst.Int.{pos, ltb_ℤ}
use crypto_auto_trading_syst.Decimal.{Decimal, Context, add, sub, mul, is_positive}
use crypto_auto_trading_syst.Domain.Enums.{buy, sell}
use crypto_auto_trading_syst.Domain.Models.{Text}
use crypto_auto_trading_syst.Ledger.Journal.{LedgerTransaction}
use crypto_auto_trading_syst.Ledger.Service.{number_entries, trade_postings, or_nothing}
use crypto_auto_trading_syst.Ledger.Projections.{
  BalanceRow, ProjectionSnapshot, has_currency, total_of, balance, put_balance, set_balance,
  refresh_equity, sum_totals, sum_costs, apply_entry, apply_entries, by_type, seq_le,
  apply_transaction,
}

find-put_balance :
    (k : Text) (row : BalanceRow) (bs : List BalanceRow)
    → total_of (find (has_currency k) (put_balance row bs))
      ≡ (if row.currency == k then row.total else total_of (find (has_currency k) bs))
find-put_balance k row [] = ground arith
find-put_balance k row (b ∷ bs) = ground (arith, find-put_balance k row bs)

module _ (c : Context) where
  pub balance-set_balance :
      (k currency : Text) (total : Decimal) (s : ProjectionSnapshot)
      → balance k (set_balance c currency total s) ≡ (if currency == k then total else balance k s)
  unfolding balance set_balance refresh_equity
  balance-set_balance k currency total s =
      find-put_balance k
        (record { currency = currency; total = total; available = total; frozen = pos 0 })
        s.balances

  balance-fees :
      (k : Text) (fees : Decimal) (s : ProjectionSnapshot)
      → balance k (record s { total_fees = fees }) ≡ balance k s
  unfolding balance
  balance-fees k fees s = refl

  -- The journal of a purchase takes the gross price and the fee, added up, from the balance of the
  -- currency; every other balance stays.
  buy_projects :
      (k symbol currency : Text) (price quantity fee : Decimal) (cost : Option Decimal)
      (s : ProjectionSnapshot)
      → balance k (
          apply_entries c
            (number_entries 1 (trade_postings c symbol currency price quantity fee buy cost))
            s)
        ≡ (if currency == k
            then sub c (balance currency s) (add c (mul c price quantity) fee)
            else balance k s)
  unfolding apply_entries apply_entry number_entries trade_postings
  buy_projects k symbol currency price quantity fee cost s = ground (
    arith,
    balance-fees currency (add c s.total_fees fee) s,
    balance-fees k (add c s.total_fees fee) s,
    balance-set_balance k currency
        (sub c (balance currency (record s { total_fees = add c s.total_fees fee }))
          (add c (mul c price quantity) fee))
        (record s { total_fees = add c s.total_fees fee }),
  )

  -- The journal of a sale adds the gross price to the balance of the currency and takes the fee from
  -- it, whether the sale makes a profit, a loss or neither; every other balance stays.
  sell_projects :
      (k symbol currency : Text) (price quantity fee : Decimal) (cost : Option Decimal)
      (s : ProjectionSnapshot)
      → balance k (
          apply_entries c
            (number_entries 1 (trade_postings c symbol currency price quantity fee sell cost))
            s)
        ≡ (if currency == k
            then sub c (add c (balance currency s) (mul c price quantity)) fee
            else balance k s)
  unfolding apply_entries apply_entry number_entries trade_postings
  sell_projects k symbol currency price quantity fee cost s =
      let gross = mul c price quantity in
      let realized = sub c gross (or_nothing cost) in
      let paid = set_balance c currency (add c (balance currency s) gross) s in
      let charged = record paid { total_fees = add c paid.total_fees fee } in
      let cashed = balance-set_balance currency currency (add c (balance currency s) gross) s in
      let other = balance-set_balance k currency (add c (balance currency s) gross) s in
      let fees = balance-fees currency (add c paid.total_fees fee) paid in
      let fees_other = balance-fees k (add c paid.total_fees fee) paid in
      let last = balance-set_balance k currency (sub c (balance currency charged) fee) charged in
      elim (Bool-cases (is_positive realized)) [
        | inl gain ↦ rw gain (ground (arith, cashed, other, fees, fees_other, last))
        | inr no_gain ↦ elim (Bool-cases (ltb_ℤ realized (pos 0))) [
          | inl drop ↦ rw (no_gain, drop) (ground (arith, cashed, other, fees, fees_other, last))
          | inr even ↦ rw (no_gain, even) (ground (arith, cashed, other, fees, fees_other, last))
        ]
      ]

  -- After a transaction the equity is the sum of the balances and of the positions' costs.
  apply_transaction-equity :
      (t : LedgerTransaction) (s : ProjectionSnapshot) {u : ProjectionSnapshot}
      → apply_transaction c t s ≡ ok u
      → u.equity ≡ add c (sum_totals c (pos 0) u.balances) (sum_costs c (pos 0) u.positions)
  unfolding apply_transaction refresh_equity
  apply_transaction-equity t s {u} h =
      let (v, applied, e) =
        >>=-returns
          (by_type c t.entry_type t.metadata (apply_entries c (sort_by (seq_le c) t.entries) s))
          (λ w. ok (refresh_equity c w)) h in
      ground arith
