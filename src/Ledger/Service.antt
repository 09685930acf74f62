-- ===== src/Ledger/Service.antt =====
-- src/crypto_trader/ledger/service.py: the journal of a spot trade, and the ledger's writer.
pub mod Trades
pub mod Writes
use crypto_auto_trading_syst.Base.{
  ℕ, suc, ◌+◌, Bool, true, false, not, ◌&&◌, ◌||◌, Option, none, some, List, [], ◌∷◌, ◌++◌, select,
  any, find, take, map, Result, ok, err, journal_unbalanced, integrity_error, ◌==◌, if◌then◌else◌,
  sort_by, leb,
}
use crypto_auto_trading_syst.Int.{ℤ, pos, ltb_ℤ, eqb_ℤ}
use crypto_auto_trading_syst.Decimal.{Decimal, Context, add, sub, mul, neg, is_positive}
use crypto_auto_trading_syst.Domain.Enums.{
  LedgerDirection, debit, credit, is_debit, LedgerEntryType, OrderSide, buy, sell,
}
use crypto_auto_trading_syst.Domain.Models.{Text, Time}
use crypto_auto_trading_syst.Order.Store.{truthy, option_is}
use crypto_auto_trading_syst.Ledger.Journal.{
  Account, cash, fee_expense, realized_pnl, position_asset, LedgerPosting, Metadata, no_metadata,
  LedgerEntry, LedgerTransaction, Journal,
}

abbrev pub on_debit : LedgerPosting → Bool
on_debit p = is_debit p.direction

abbrev pub on_credit : LedgerPosting → Bool
on_credit p = not (is_debit p.direction)

module _ (c : Context) where
  -- `sum(…, Decimal("0"))` over the amounts, from the left.
  unfoldable pub sum_from : Decimal → List LedgerPosting → Decimal
  sum_from total [] = total
  sum_from total (p ∷ ps) = sum_from (add c total p.amount) ps

  abbrev pub debits : List LedgerPosting → Decimal
  debits ps = sum_from (pos 0) (select on_debit ps)

  abbrev pub credits : List LedgerPosting → Decimal
  credits ps = sum_from (pos 0) (select on_credit ps)

  unfoldable pub journal_balanced : List LedgerPosting → Bool
  unfolding sum_from
  journal_balanced ps = eqb_ℤ (debits ps) (credits ps)

abbrev pub posting : Account → LedgerDirection → Decimal → Text → LedgerPosting
posting account direction amount currency = record {
  account = account;
  direction = direction;
  amount = amount;
  currency = currency;
}

-- The profit or loss of a sale, on the side where it belongs; none if it is zero.
abbrev pub pnl_postings : Context → Decimal → Text → List LedgerPosting
pnl_postings c realized currency =
    if is_positive realized
    then posting realized_pnl credit realized currency ∷ []
    else if ltb_ℤ realized (pos 0)
    then posting realized_pnl debit (neg c realized) currency ∷ []
    else []

abbrev pub or_nothing : Option Decimal → Decimal
or_nothing none = pos 0
or_nothing (some x) = x

module _ (c : Context) (symbol currency : Text) (price quantity fee : Decimal) where
  -- The postings of a trade, before the check.
  unfoldable pub trade_postings : OrderSide → Option Decimal → List LedgerPosting
  trade_postings buy cost_released =
      let gross = mul c price quantity in
      posting (position_asset symbol) debit gross currency
      ∷ posting fee_expense debit fee currency
      ∷ posting cash credit (add c gross fee) currency
      ∷ []
  trade_postings sell cost_released =
      let gross = mul c price quantity in
      let cost = or_nothing cost_released in
      posting cash debit gross currency
      ∷ posting (position_asset symbol) credit cost currency
      ∷ (pnl_postings c (sub c gross cost) currency
          ++ posting fee_expense debit fee currency ∷ posting cash credit fee currency ∷ [])

  abbrev pub trade_metadata : OrderSide → Option Decimal → Metadata
  trade_metadata side cost_released = record no_metadata {
    symbol = some symbol;
    side = some side;
    quantity = some quantity;
    price = some price;
  }

  unfoldable pub build_trade_entries :
      OrderSide → Option Decimal → Result (List LedgerPosting × Metadata)
  unfolding trade_postings journal_balanced
  build_trade_entries side cost_released =
      let postings = trade_postings side cost_released in
      if journal_balanced c postings
      then ok (postings, trade_metadata side cost_released)
      else err journal_unbalanced

-- The arguments of `record`; the transaction id is the given one or the one that `new_id` draws.
pub record RecordArgs : Type 0 where
  pub entry_type : LedgerEntryType
  pub postings : List LedgerPosting
  pub transaction_id : Text
  pub order_id : Option Text
  pub fill_id : Option Text
  pub event_id : Option Text
  pub metadata : Metadata
  pub created_at : Time

-- `seq` counts from one.
unfoldable pub number_entries : ℕ → List LedgerPosting → List LedgerEntry
number_entries n [] = []
number_entries n (p ∷ ps) = record { seq = n; posting = p } ∷ number_entries (suc n) ps

abbrev pub new_transaction : RecordArgs → LedgerTransaction
new_transaction args = record {
  transaction_id = args.transaction_id;
  entry_type = args.entry_type;
  created_at = args.created_at;
  order_id = args.order_id;
  fill_id = args.fill_id;
  event_id = args.event_id;
  metadata = args.metadata;
  entries = number_entries 1 args.postings;
}

-- A filter of the query, made only for an id that is there and not empty.
abbrev pub fits_id : Option Text → Option Text → Bool
fits_id none held = true
fits_id (some id) held = if truthy (some id) then option_is id held else true

abbrev pub fits_query : Option Text → Option Text → LedgerTransaction → Bool
fits_query fill_id event_id t = fits_id fill_id t.fill_id && fits_id event_id t.event_id

-- `_find_transaction`
unfoldable pub find_transaction : Option Text → Option Text → Journal → Option LedgerTransaction
find_transaction fill_id event_id j =
    if truthy fill_id || truthy event_id then find (fits_query fill_id event_id) j else none

abbrev pub is_empty : List LedgerPosting → Bool
is_empty [] = true
is_empty (_ ∷ _) = false

abbrev pub has_transaction_id : Text → LedgerTransaction → Bool
has_transaction_id id t = t.transaction_id == id

-- The insertion, which the unique transaction id can refuse.
unfoldable pub insert_transaction : RecordArgs → Journal → Result LedgerTransaction × Journal
unfolding number_entries
insert_transaction args j =
    if any (has_transaction_id args.transaction_id) j
    then (err integrity_error, j)
    else (ok (new_transaction args), j ++ new_transaction args ∷ [])

module _ (c : Context) (others : Journal → Journal) (args : RecordArgs) where
  abbrev pub record_new : Journal → Result LedgerTransaction × Journal
  record_new j =
      if is_empty args.postings
      then (err journal_unbalanced, j)
      else if journal_balanced c args.postings
      then insert_transaction args (others j)
      else (err journal_unbalanced, j)

  abbrev pub record_or_known :
      Option LedgerTransaction → Journal → Result LedgerTransaction × Journal
  record_or_known (some existing) j = (ok existing, j)
  record_or_known none j = record_new j

  -- `LedgerService.record`; `others` is what other tasks write between its check and its commit.
  unfoldable pub record_transaction : Journal → Result LedgerTransaction × Journal
  record_transaction j = record_or_known (find_transaction args.fill_id args.event_id j) j

-- `list_transactions`: by time, then by id.
abbrev pub comes_before : LedgerTransaction → LedgerTransaction → Bool
comes_before a b =
    if a.created_at == b.created_at
    then leb a.transaction_id b.transaction_id
    else leb a.created_at b.created_at

unfoldable pub list_transactions : Journal → Journal
list_transactions = sort_by comes_before
