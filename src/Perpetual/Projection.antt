-- ===== src/Perpetual/Projection.antt =====
-- src/crypto_trader/perpetual/ledger.py: the futures projection, rebuilt from the journal. A missing
-- key of the metadata raises.
pub mod Rebuilt
use crypto_auto_trading_syst.Base.{
  Bool, true, false, ◌&&◌, ◌||◌, Option, none, some, List, [], ◌∷◌, find, select, not, Result, ok,
  err, division_by_zero, ◌==◌, if◌then◌else◌, ◌>>=◌,
}
use crypto_auto_trading_syst.Int.{pos, leb_ℤ}
use crypto_auto_trading_syst.Decimal.{Decimal, Context, add, sub, mul, div, neg, abs, max, is_zero}
use crypto_auto_trading_syst.Domain.Enums as Types
use crypto_auto_trading_syst.Domain.Enums.{
  PositionSide, flat, position_side_eq, is_debit, LedgerEntryType,
}
use crypto_auto_trading_syst.Domain.Models.{Text}
use crypto_auto_trading_syst.Order.Store.{truthy}
use crypto_auto_trading_syst.Ledger.Journal.{
  Account, futures_trading_fee, liquidation_fee, funding_payment, funding_receipt, Action,
  open_action, close_action, no_action, Metadata, LedgerEntry, LedgerTransaction, Journal,
}
use crypto_auto_trading_syst.Ledger.Service.{list_transactions}
use crypto_auto_trading_syst.Ledger.Projections.{key}
use crypto_auto_trading_syst.Perpetual.Contract.{MarginPosition, is_flat, is_long, position_of}

pub record FuturesProjectionSnapshot : Type 0 where
  pub positions : List MarginPosition
  pub margin_balance : Decimal
  pub realized_pnl : Decimal
  pub funding_paid : Decimal
  pub funding_received : Decimal
  pub fees_paid : Decimal

abbrev pub empty_projection : FuturesProjectionSnapshot
empty_projection = record {
  positions = [];
  margin_balance = pos 0;
  realized_pnl = pos 0;
  funding_paid = pos 0;
  funding_received = pos 0;
  fees_paid = pos 0;
}

-- A fresh position, with the defaults of its type.
abbrev pub new_position :
    Text → PositionSide → Decimal → Decimal → Decimal → Decimal → MarginPosition
new_position symbol side quantity entry leverage margin = record {
  symbol = symbol;
  side = side;
  quantity = quantity;
  avg_entry_price = entry;
  leverage = leverage;
  initial_margin = margin;
  maintenance_margin = pos 0;
  mark_price = pos 0;
  liquidation_price = none;
  unrealized_pnl = pos 0;
  realized_pnl = pos 0;
  funding_paid = pos 0;
  funding_received = pos 0;
}

abbrev pub put_margin_position : MarginPosition → List MarginPosition → List MarginPosition
put_margin_position p [] = p ∷ []
put_margin_position p (q ∷ qs) =
    let rest = put_margin_position p qs in if q.symbol == p.symbol then p ∷ qs else q ∷ rest

-- `del snap.positions[symbol]`
abbrev pub remove_position : Text → List MarginPosition → List MarginPosition
remove_position symbol ps = select (λ p. not (position_of symbol p)) ps

abbrev pub is_fee : Account → Bool
is_fee futures_trading_fee = true
is_fee liquidation_fee = true
is_fee _ = false

abbrev pub pays_funding : LedgerEntry → Bool
pays_funding e = elim e.posting.account [
  | funding_payment ↦ is_debit e.posting.direction
  | _ ↦ false
]

abbrev pub receives_funding : LedgerEntry → Bool
receives_funding e = elim e.posting.account [
  | funding_receipt ↦ not (is_debit e.posting.direction)
  | _ ↦ false
]

abbrev pub is_funding : LedgerEntryType → Bool
is_funding Types.funding_payment = true
is_funding Types.funding_receipt = true
is_funding _ = false

module _ (c : Context) where
  unfoldable pub add_amounts : (LedgerEntry → Bool) → Decimal → List LedgerEntry → Decimal
  add_amounts test acc [] = acc
  add_amounts test acc (e ∷ es) =
      let next = if test e then add c acc e.posting.amount else acc in add_amounts test next es

  abbrev pub signed_qty : PositionSide → Decimal → Decimal
  signed_qty side qty = if is_long side then qty else neg c qty

  -- Adds to a position on its side; the average entry is weighted.
  unfoldable pub add_to :
      PositionSide → Decimal → Decimal → Decimal → MarginPosition → Result MarginPosition
  add_to side qty entry margin p =
      let old_abs = abs c p.quantity in
      let new_abs = add c old_abs qty in
      if is_zero new_abs
      then err division_by_zero
      else ok (record p {
        avg_entry_price = div c (add c (mul c p.avg_entry_price old_abs) (mul c entry qty)) new_abs;
        quantity = signed_qty side new_abs;
        initial_margin = add c p.initial_margin margin;
      })

  -- An opening on the other side nets the position before it flips. The position is not flat, so
  -- the division is by a size other than zero.
  unfoldable pub net : PositionSide → Decimal → Decimal → Decimal → MarginPosition → MarginPosition
  net side qty entry margin p =
      let old_abs = abs c p.quantity in
      let remaining = sub c qty old_abs in
      let left = sub c old_abs qty in
      if leb_ℤ old_abs qty
      then if is_zero remaining
        then record p {
          side = flat;
          quantity = pos 0;
          avg_entry_price = pos 0;
          initial_margin = pos 0;
        }
        else record p {
          side = side;
          quantity = signed_qty side remaining;
          avg_entry_price = entry;
          initial_margin = margin;
        }
      else record p {
        quantity = signed_qty p.side left;
        initial_margin = max (div c (mul c p.initial_margin left) old_abs) (pos 0);
      }

  abbrev pub merge :
      PositionSide → Decimal → Decimal → Decimal → MarginPosition → Result MarginPosition
  merge side qty entry margin p =
      if position_side_eq p.side side
      then add_to side qty entry margin p
      else ok (net side qty entry margin p)

  abbrev pub open_on :
      Text
      → PositionSide
      → Decimal
      → Decimal
      → Decimal
      → Decimal
      → Option MarginPosition
      → Result MarginPosition
  open_on symbol side qty entry margin lev none =
      ok (new_position symbol side (signed_qty side qty) entry lev margin)
  open_on symbol side qty entry margin lev (some p) =
      if is_flat p
      then ok (new_position symbol side (signed_qty side qty) entry lev margin)
      else merge side qty entry margin p

  abbrev pub put_opened :
      Decimal → FuturesProjectionSnapshot → MarginPosition → FuturesProjectionSnapshot
  put_opened margin s p = record s {
    positions = put_margin_position p s.positions;
    margin_balance = add c s.margin_balance margin;
  }

  -- `_apply_open`
  unfoldable pub apply_open :
      Text → Metadata → FuturesProjectionSnapshot → Result FuturesProjectionSnapshot
  unfolding add_to net
  apply_open symbol m s = do
    side ← key c m.position_side
    qty ← key c m.quantity
    entry ← key c m.entry_price
    margin ← key c m.initial_margin
    lev ← key c m.leverage
    p ← open_on symbol side qty entry margin lev (find (position_of symbol) s.positions)
    ok (put_opened margin s p)

  -- What a closing leaves of the position, and of the margin balance.
  unfoldable pub close_on :
      Decimal
      → Decimal
      → Decimal
      → MarginPosition
      → FuturesProjectionSnapshot
      → FuturesProjectionSnapshot
  close_on qty pnl release p s =
      let remaining = sub c (abs c p.quantity) qty in
      record s {
        realized_pnl = add c s.realized_pnl pnl;
        margin_balance = max (sub c s.margin_balance release) (pos 0);
        positions =
            if leb_ℤ remaining (pos 0)
            then remove_position p.symbol s.positions
            else put_margin_position
                (record p {
                  quantity = signed_qty p.side remaining;
                  initial_margin = max (sub c p.initial_margin release) (pos 0);
                })
                s.positions;
      }

  abbrev pub close_found :
      Metadata
      → FuturesProjectionSnapshot
      → Option MarginPosition
      → Result FuturesProjectionSnapshot
  close_found m s none = ok s
  close_found m s (some p) = do
    qty ← key c m.quantity
    pnl ← key c m.realized_pnl
    release ← key c m.margin_release
    ok (close_on qty pnl release p s)

  -- `_apply_close`
  unfoldable pub apply_close :
      Text → Metadata → FuturesProjectionSnapshot → Result FuturesProjectionSnapshot
  unfolding close_on
  apply_close symbol m s = close_found m s (find (position_of symbol) s.positions)

  abbrev pub with_fees : LedgerTransaction → FuturesProjectionSnapshot → FuturesProjectionSnapshot
  with_fees t s = record s {
    fees_paid =
        add_amounts (λ e. is_fee e.posting.account && is_debit e.posting.direction) s.fees_paid
          t.entries;
  }

  abbrev pub with_funding :
      LedgerTransaction → FuturesProjectionSnapshot → FuturesProjectionSnapshot
  with_funding t s =
      if is_funding t.entry_type
      then record s {
        funding_paid = add_amounts pays_funding s.funding_paid t.entries;
        funding_received = add_amounts receives_funding s.funding_received t.entries;
      }
      else s

  abbrev pub by_action :
      Action
      → Text
      → LedgerTransaction
      → FuturesProjectionSnapshot
      → Result FuturesProjectionSnapshot
  by_action open_action symbol t s = apply_open symbol t.metadata s
  by_action close_action symbol t s = apply_close symbol t.metadata s
  by_action no_action symbol t s = ok (with_funding t s)

  abbrev pub with_symbol :
      Option Text → LedgerTransaction → FuturesProjectionSnapshot → Result FuturesProjectionSnapshot
  with_symbol none t s = ok s
  with_symbol (some symbol) t s =
      if truthy (some symbol) then by_action t.metadata.action symbol t (with_fees t s) else ok s

  -- `_apply_txn`
  unfoldable pub apply_txn :
      LedgerTransaction → FuturesProjectionSnapshot → Result FuturesProjectionSnapshot
  unfolding apply_open apply_close add_amounts
  apply_txn t s = with_symbol t.metadata.symbol t s

  unfoldable pub apply_txns : Journal → FuturesProjectionSnapshot → Result FuturesProjectionSnapshot
  unfolding apply_txn
  apply_txns [] s = ok s
  apply_txns (t ∷ ts) s = apply_txn t s >>= apply_txns ts

  -- `rebuild_futures_projection`
  unfoldable pub rebuild : Journal → Result FuturesProjectionSnapshot
  unfolding apply_txns list_transactions
  rebuild j = apply_txns (list_transactions j) empty_projection
