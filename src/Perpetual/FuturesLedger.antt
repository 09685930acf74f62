-- ===== src/Perpetual/FuturesLedger.antt =====
-- src/crypto_trader/perpetual/ledger.py: `FuturesLedger`, which records openings, closings, margin
-- and funding through the ledger service. Of the metadata the keys are kept that a projection reads.
pub mod Balance
use crypto_auto_trading_syst.Base.{
  Option, none, some, List, [], ◌∷◌, ◌++◌, Result, ok, err, if◌then◌else◌,
}
use crypto_auto_trading_syst.Int.{pos, ltb_ℤ}
use crypto_auto_trading_syst.Decimal.{Decimal, Context, neg, is_positive}
use crypto_auto_trading_syst.Domain.Enums.{
  debit, credit, LedgerEntryType, PositionSide, futures_margin_post, futures_margin_release,
  futures_realized_pnl, futures_trading_fee, funding_payment, funding_receipt,
}
use crypto_auto_trading_syst.Domain.Models.{Text, Time}
use crypto_auto_trading_syst.Ledger.Journal as Accounts
use crypto_auto_trading_syst.Ledger.Journal.{
  Account, cash, margin_of, futures_position_asset, futures_position_liability, LedgerPosting,
  Metadata, no_metadata, open_action, close_action, LedgerTransaction, Journal,
}
use crypto_auto_trading_syst.Ledger.Service.{posting, RecordArgs, record_transaction}
use crypto_auto_trading_syst.Perpetual.Contract.{PerpetualContract}
use crypto_auto_trading_syst.Perpetual.Calculators.{contract_notional}

-- An amount that goes to the first account, on its debit side, from the second.
pub record Move : Type 0 where
  pub to : Account
  pub from : Account
  pub amount : Decimal

abbrev pub move : Account → Account → Decimal → List Move
move to from amount = record { to = to; from = from; amount = amount } ∷ []

-- Each move is a pair of postings.
unfoldable pub postings_of_moves : Text → List Move → List LedgerPosting
postings_of_moves currency [] = []
postings_of_moves currency (m ∷ ms) =
    posting m.to debit m.amount currency
    ∷ posting m.from credit m.amount currency
    ∷ postings_of_moves currency ms

-- What a call of the ledger takes from outside: the order, the drawn id, the clock.
pub record Call : Type 0 where
  pub order_id : Option Text
  pub transaction_id : Text
  pub now : Time

abbrev pub futures_args :
    PerpetualContract → Call → LedgerEntryType → List Move → Metadata → RecordArgs
futures_args k call entry_type moves metadata = record {
  entry_type = entry_type;
  postings = postings_of_moves k.margin_asset moves;
  transaction_id = call.transaction_id;
  order_id = call.order_id;
  fill_id = none;
  event_id = none;
  metadata = metadata;
  created_at = call.now;
}

abbrev pub margin_args :
    PerpetualContract → Call → LedgerEntryType → List Move → Decimal → RecordArgs
margin_args k call entry_type moves amount =
    futures_args k call entry_type moves
      (record no_metadata { symbol = some k.symbol; amount = some amount })

abbrev pub pnl_moves : Context → Decimal → List Move
pnl_moves c pnl =
    if is_positive pnl
    then move cash Accounts.futures_realized_pnl pnl
    else if ltb_ℤ pnl (pos 0)
    then move Accounts.futures_realized_pnl cash (neg c pnl)
    else []

-- The arguments of `record_open` and `record_close` beside the contract.
pub record Opening : Type 0 where
  pub side : PositionSide
  pub quantity : Decimal
  pub entry_price : Decimal
  pub leverage : Decimal
  pub initial_margin : Decimal
  pub fee : Decimal

pub record Closing : Type 0 where
  pub side : PositionSide
  pub quantity : Decimal
  pub entry_price : Decimal
  pub realized_pnl : Decimal
  pub fee : Decimal
  pub margin_release : Decimal

module _ (c : Context) (k : PerpetualContract) (call : Call) where
  abbrev pub open_moves : Opening → List Move
  open_moves o =
      move (futures_position_asset k.symbol) (futures_position_liability k.symbol)
        (contract_notional c k o.quantity o.entry_price)
      ++ move Accounts.futures_trading_fee cash o.fee
      ++ move (margin_of k.symbol) cash o.initial_margin

  abbrev pub close_moves : Closing → List Move
  close_moves o =
      move (futures_position_liability k.symbol) (futures_position_asset k.symbol)
        (contract_notional c k o.quantity o.entry_price)
      ++ pnl_moves c o.realized_pnl
      ++ (if is_positive o.fee then move Accounts.futures_trading_fee cash o.fee else [])
      ++ (if is_positive o.margin_release
          then move cash (margin_of k.symbol) o.margin_release
          else [])

  unfoldable pub open_args : Opening → RecordArgs
  open_args o =
      futures_args k call (if is_positive o.fee then futures_trading_fee else futures_margin_post)
        (open_moves o)
        (record no_metadata {
          symbol = some k.symbol;
          position_side = some o.side;
          quantity = some o.quantity;
          entry_price = some o.entry_price;
          leverage = some o.leverage;
          initial_margin = some o.initial_margin;
          action = open_action;
        })

  unfoldable pub close_args : Closing → RecordArgs
  close_args o = futures_args k call futures_realized_pnl (close_moves o) (record no_metadata {
    symbol = some k.symbol;
    position_side = some o.side;
    quantity = some o.quantity;
    entry_price = some o.entry_price;
    realized_pnl = some o.realized_pnl;
    margin_release = some o.margin_release;
    action = close_action;
  })

  abbrev funding_args : LedgerEntryType → PositionSide → List Move → RecordArgs
  funding_args entry_type side moves =
      futures_args k call entry_type moves
        (record no_metadata { symbol = some k.symbol; position_side = some side })

  module _ (others : Journal → Journal) where
    unfoldable pub margin_post : Decimal → Journal → Result LedgerTransaction × Journal
    margin_post amount =
        record_transaction c others
          (margin_args k call futures_margin_post (move (margin_of k.symbol) cash amount) amount)

    unfoldable pub margin_release : Decimal → Journal → Result LedgerTransaction × Journal
    margin_release amount =
        record_transaction c others
          (margin_args k call futures_margin_release (move cash (margin_of k.symbol) amount) amount)

    unfoldable pub record_open : Opening → Journal → Result LedgerTransaction × Journal
    unfolding open_args
    record_open o = record_transaction c others (open_args o)

    unfoldable pub record_close : Closing → Journal → Result LedgerTransaction × Journal
    unfolding close_args
    record_close o = record_transaction c others (close_args o)

    abbrev done : Result LedgerTransaction × Journal → Result (Option LedgerTransaction) × Journal
    done (ok t, j) = (ok (some t), j)
    done (err e, j) = (err e, j)

    -- A payment of zero is not recorded.
    unfoldable pub record_funding :
        PositionSide → Decimal → Journal → Result (Option LedgerTransaction) × Journal
    record_funding side amount j =
        if is_positive amount
        then done (
            record_transaction c others
              (funding_args funding_receipt side (move cash Accounts.funding_receipt amount)) j)
        else if ltb_ℤ amount (pos 0)
        then done (
            record_transaction c others
              (funding_args funding_payment side
                (move Accounts.funding_payment cash (neg c amount)))
              j)
        else (ok none, j)
