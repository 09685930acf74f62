-- ===== src/Ledger/Projections.antt =====
-- src/crypto_trader/ledger/projections.py: balances and positions, replayed from the journal.
pub mod Positions
pub mod Balances
use crypto_auto_trading_syst.Base.{
  ℕ, Bool, true, false, not, ◌&&◌, ◌||◌, Option, none, some, List, [], ◌∷◌, find, any, sort_by,
  Result, ok, err, value_error, key_error, ◌==◌, leb, if◌then◌else◌, ◌>>=◌,
}
use crypto_auto_trading_syst.Int.{ℤ, pos, ltb_ℤ, eqb_ℤ}
use crypto_auto_trading_syst.Decimal.{
  Decimal, Context, add, sub, mul, div, max, is_positive, is_zero,
}
use crypto_auto_trading_syst.Domain.Enums.{
  is_debit, LedgerEntryType, trade, deposit, withdrawal, futures_margin_post,
  futures_margin_release, futures_realized_pnl, futures_trading_fee, funding_payment,
  funding_receipt, OrderSide, buy, sell, LedgerDirection,
}
use crypto_auto_trading_syst.Domain.Models.{Text}
use crypto_auto_trading_syst.Order.Manager.{or_zero}
use crypto_auto_trading_syst.Ledger.Journal.{
  Account, cash, margin, margin_of, fee_expense, LedgerPosting, Metadata, LedgerEntry,
  LedgerTransaction, Journal,
}
use crypto_auto_trading_syst.Ledger.Service.{list_transactions}

-- The assets' names, which follow from the symbol, are left out.
pub record PositionView : Type 0 where
  pub symbol : Text
  pub quantity : Decimal
  pub avg_entry_price : Option Decimal
  pub cost_basis : Decimal
  pub realized_pnl : Decimal

pub record BalanceRow : Type 0 where
  pub currency : Text
  pub total : Decimal
  pub available : Decimal
  pub frozen : Decimal

pub record ProjectionSnapshot : Type 0 where
  pub balances : List BalanceRow
  pub positions : List PositionView
  pub realized_pnl : Decimal
  pub total_fees : Decimal
  pub total_deposits : Decimal
  pub total_withdrawals : Decimal
  pub equity : Decimal

abbrev pub empty_snapshot : ProjectionSnapshot
empty_snapshot = record {
  balances = [];
  positions = [];
  realized_pnl = pos 0;
  total_fees = pos 0;
  total_deposits = pos 0;
  total_withdrawals = pos 0;
  equity = pos 0;
}

abbrev pub has_currency : Text → BalanceRow → Bool
has_currency currency r = r.currency == currency

abbrev pub has_symbol : Text → PositionView → Bool
has_symbol symbol p = p.symbol == symbol

abbrev pub total_of : Option BalanceRow → Decimal
total_of none = pos 0
total_of (some r) = r.total

-- `ProjectionSnapshot.balance`
unfoldable pub balance : Text → ProjectionSnapshot → Decimal
balance currency s = total_of (find (has_currency currency) s.balances)

-- `d[key] = row`: the row replaces that of its key, or is added at the end.
abbrev pub put_balance : BalanceRow → List BalanceRow → List BalanceRow
put_balance row [] = row ∷ []
put_balance row (r ∷ rs) = if r.currency == row.currency then row ∷ rs else r ∷ put_balance row rs

abbrev pub put_position : PositionView → List PositionView → List PositionView
put_position p [] = p ∷ []
put_position p (q ∷ qs) = if q.symbol == p.symbol then p ∷ qs else q ∷ put_position p qs

abbrev pub or_default : Option Decimal → Decimal → Decimal
or_default none d = d
or_default (some x) d = x

abbrev pub moves_cash : Account → Bool
moves_cash cash = true
moves_cash margin = true
moves_cash (margin_of _) = true
moves_cash _ = false

abbrev pub is_fee_expense : Account → Bool
is_fee_expense fee_expense = true
is_fee_expense _ = false

module _ (c : Context) where
  unfoldable pub sum_totals : Decimal → List BalanceRow → Decimal
  sum_totals acc [] = acc
  sum_totals acc (r ∷ rs) = sum_totals (add c acc r.total) rs

  unfoldable pub sum_costs : Decimal → List PositionView → Decimal
  sum_costs acc [] = acc
  sum_costs acc (p ∷ ps) = sum_costs (add c acc p.cost_basis) ps

  -- `_refresh_equity`
  unfoldable pub refresh_equity : ProjectionSnapshot → ProjectionSnapshot
  unfolding sum_totals sum_costs
  refresh_equity s = record s {
    equity = add c (sum_totals (pos 0) s.balances) (sum_costs (pos 0) s.positions);
  }

  -- `_set_balance`
  unfoldable pub set_balance : Text → Decimal → ProjectionSnapshot → ProjectionSnapshot
  unfolding refresh_equity
  set_balance currency total s = refresh_equity (record s {
    balances =
        put_balance
          (record { currency = currency; total = total; available = total; frozen = pos 0 })
          s.balances;
  })

  abbrev pub apply_to_balance : LedgerPosting → ProjectionSnapshot → ProjectionSnapshot
  apply_to_balance p s =
      if moves_cash p.account
      then set_balance p.currency
          (if is_debit p.direction
            then add c (balance p.currency s) p.amount
            else sub c (balance p.currency s) p.amount)
          s
      else s

  abbrev pub apply_to_fees : LedgerPosting → ProjectionSnapshot → ProjectionSnapshot
  apply_to_fees p s =
      if is_fee_expense p.account && is_debit p.direction
      then record s { total_fees = add c s.total_fees p.amount }
      else s

  -- The body of the loop over the entries.
  unfoldable pub apply_entry : LedgerPosting → ProjectionSnapshot → ProjectionSnapshot
  unfolding set_balance balance
  apply_entry p s = apply_to_fees p (apply_to_balance p s)

  unfoldable pub apply_entries : List LedgerEntry → ProjectionSnapshot → ProjectionSnapshot
  unfolding apply_entry
  apply_entries [] s = s
  apply_entries (e ∷ es) s = apply_entries es (apply_entry e.posting s)

  abbrev pub position_or_new : Text → Option PositionView → PositionView
  position_or_new symbol (some p) = p
  position_or_new symbol none = record {
    symbol = symbol;
    quantity = pos 0;
    avg_entry_price = none;
    cost_basis = pos 0;
    realized_pnl = pos 0;
  }

  -- The buying branch of `_apply_trade`.
  unfoldable pub buy_position : Decimal → Decimal → PositionView → PositionView
  buy_position quantity price p =
      let new_qty = add c p.quantity quantity in
      let new_cost = add c p.cost_basis (mul c price quantity) in
      record p {
        quantity = new_qty;
        cost_basis = new_cost;
        avg_entry_price = if is_positive new_qty then some (div c new_cost new_qty) else none;
      }

  -- What a sale releases of the cost.
  abbrev pub release_of : Decimal → PositionView → Decimal
  release_of quantity p = mul c (or_zero p.avg_entry_price) quantity

  -- The selling branch, after the test for an oversell.
  unfoldable pub sell_position : Decimal → Decimal → PositionView → PositionView
  sell_position quantity price p =
      let release = release_of quantity p in
      let left = sub c p.quantity quantity in
      let cost = max (sub c p.cost_basis release) (pos 0) in
      record p {
        quantity = left;
        realized_pnl = add c p.realized_pnl (sub c (mul c price quantity) release);
        avg_entry_price =
            if is_zero left
            then none
            else if is_positive left
            then some (div c cost left)
            else none;
        cost_basis = if is_zero left then pos 0 else cost;
      }

  abbrev pub put : PositionView → ProjectionSnapshot → ProjectionSnapshot
  put p s = refresh_equity (record s { positions = put_position p s.positions })

  abbrev pub trade_on :
      OrderSide → Decimal → Decimal → PositionView → ProjectionSnapshot → Result ProjectionSnapshot
  trade_on buy quantity price p s = ok (put (buy_position quantity price p) s)
  trade_on sell quantity price p s =
      if ltb_ℤ p.quantity quantity
      then err value_error
      else ok (
          put (sell_position quantity price p) (record s {
            realized_pnl =
                add c s.realized_pnl (sub c (mul c price quantity) (release_of quantity p));
          }))

  abbrev pub key {ℓ} : {A : Type ℓ} → Option A → Result A
  key none = err key_error
  key (some a) = ok a

  -- `_apply_trade`
  unfoldable pub apply_trade : Metadata → ProjectionSnapshot → Result ProjectionSnapshot
  unfolding buy_position sell_position refresh_equity
  apply_trade m s = do
    symbol ← key m.symbol
    side ← key m.side
    quantity ← key m.quantity
    price ← key m.price
    trade_on side quantity price (position_or_new symbol (find (has_symbol symbol) s.positions)) s

  abbrev pub by_type : LedgerEntryType → Metadata → ProjectionSnapshot → Result ProjectionSnapshot
  by_type deposit m s = ok (record s {
    total_deposits = add c s.total_deposits (or_default m.amount (or_zero m.quantity));
  })
  by_type withdrawal m s = ok (record s {
    total_withdrawals = add c s.total_withdrawals (or_default m.amount (or_zero m.quantity));
  })
  by_type trade m s = apply_trade m s
  by_type _ m s = ok s

  abbrev pub seq_le : LedgerEntry → LedgerEntry → Bool
  seq_le a b = leb a.seq b.seq

  -- `apply_transaction`
  unfoldable pub apply_transaction :
      LedgerTransaction → ProjectionSnapshot → Result ProjectionSnapshot
  unfolding apply_entries apply_trade refresh_equity
  apply_transaction t s =
      by_type t.entry_type t.metadata (apply_entries (sort_by seq_le t.entries) s) >>= λ u.
      ok (refresh_equity u)

  unfoldable pub apply_all : List LedgerTransaction → ProjectionSnapshot → Result ProjectionSnapshot
  unfolding apply_transaction
  apply_all [] s = ok s
  apply_all (t ∷ ts) s = apply_transaction t s >>= apply_all ts

-- `FUTURES_EXCLUDED_ENTRY_TYPES`
abbrev pub futures_excluded : LedgerEntryType → Bool
futures_excluded futures_margin_post = true
futures_excluded futures_margin_release = true
futures_excluded futures_realized_pnl = true
futures_excluded futures_trading_fee = true
futures_excluded funding_payment = true
futures_excluded funding_receipt = true
futures_excluded _ = false

abbrev pub keep_types : (LedgerEntryType → Bool) → List LedgerTransaction → List LedgerTransaction
keep_types excluded [] = []
keep_types excluded (t ∷ ts) =
    let rest = keep_types excluded ts in if excluded t.entry_type then rest else t ∷ rest

-- The initial balances of `ProjectionBuilder.__init__`.
unfoldable pub initial : Context → List (Text × Decimal) → ProjectionSnapshot → ProjectionSnapshot
unfolding set_balance
initial c [] s = s
initial c ((currency, amount) ∷ rest) s = initial c rest (set_balance c currency amount s)

unfoldable pub replay_projections :
    Context → List (Text × Decimal) → (LedgerEntryType → Bool) → Journal → Result ProjectionSnapshot
unfolding apply_all initial list_transactions
replay_projections c balances excluded j =
    apply_all c (keep_types excluded (list_transactions j)) (initial c balances empty_snapshot)
