-- ===== src/Ledger/Journal.antt =====
-- The rows of src/crypto_trader/ledger/service.py: postings, transactions, and their metadata.
-- Account names are built from fixed words and symbols ("CASH", "MARGIN:<symbol>", ...), and each
-- form is a constructor. The metadata is a JSON object: its keys are optional fields, and a decimal
-- that is written with `str` and read with `D` is the same decimal.
use crypto_auto_trading_syst.Base.{ℕ, Option, none, List}
use crypto_auto_trading_syst.Decimal.{Decimal}
use crypto_auto_trading_syst.Domain.Enums.{
  LedgerDirection, LedgerEntryType, OrderSide, PositionSide,
}
use crypto_auto_trading_syst.Domain.Models.{Text, Time}

pub data Account : Type 0 where
  cash margin fee_expense realized_pnl : Account
  position_asset margin_of : Text → Account
  futures_position_asset futures_position_liability : Text → Account
  futures_trading_fee futures_realized_pnl liquidation_fee : Account
  funding_payment funding_receipt : Account
  other_account : Text → Account

pub record LedgerPosting : Type 0 where
  pub account : Account
  pub direction : LedgerDirection
  pub amount : Decimal
  pub currency : Text

pub data Action : Type 0 where
  open_action close_action no_action : Action

pub record Metadata : Type 0 where
  pub symbol : Option Text
  pub side : Option OrderSide
  pub position_side : Option PositionSide
  pub quantity : Option Decimal
  pub price : Option Decimal
  pub amount : Option Decimal
  pub entry_price : Option Decimal
  pub leverage : Option Decimal
  pub initial_margin : Option Decimal
  pub realized_pnl : Option Decimal
  pub margin_release : Option Decimal
  pub action : Action

abbrev pub no_metadata : Metadata
no_metadata = record {
  symbol = none;
  side = none;
  position_side = none;
  quantity = none;
  price = none;
  amount = none;
  entry_price = none;
  leverage = none;
  initial_margin = none;
  realized_pnl = none;
  margin_release = none;
  action = no_action;
}

pub record LedgerEntry : Type 0 where
  pub seq : ℕ
  pub posting : LedgerPosting

pub record LedgerTransaction : Type 0 where
  pub transaction_id : Text
  pub entry_type : LedgerEntryType
  pub created_at : Time
  pub order_id : Option Text
  pub fill_id : Option Text
  pub event_id : Option Text
  pub metadata : Metadata
  pub entries : List LedgerEntry

-- The table of transactions, in the order in which they were written.
abbrev pub Journal : Type 0
Journal = List LedgerTransaction
