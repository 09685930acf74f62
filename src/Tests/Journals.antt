-- ===== src/Tests/Journals.antt =====
-- The journal of trades, its writer, and the projections.
use crypto_auto_trading_syst.Base.{none, some, List, [], ◌∷◌, All, arith}
use crypto_auto_trading_syst.Int.{pos}
use crypto_auto_trading_syst.Domain.Enums.{buy, sell, trade, deposit, debit, credit}
use crypto_auto_trading_syst.Ledger.Journal.{LedgerTransaction, no_metadata, cash, margin}
use crypto_auto_trading_syst.Ledger.Service.{
  trade_postings, trade_metadata, RecordArgs, new_transaction, posting, record_transaction,
}
use crypto_auto_trading_syst.Ledger.Service.Writes.{alone, IsSound, record_transaction-IsSound}
use crypto_auto_trading_syst.Ledger.Projections.{empty_snapshot, apply_all}
use crypto_auto_trading_syst.Ledger.Projections.Positions.{EndsLong, apply_all-EndsLong}
use crypto_auto_trading_syst.Tests.Orders.{context}

-- 4 of symbol 5 bought at 2, in currency 9, with a fee of 0.1.
abbrev bought : RecordArgs
bought = record {
  entry_type = trade;
  postings = trade_postings context 5 9 (pos 200000000) (pos 400000000) (pos 10000000) buy none;
  transaction_id = 71;
  order_id = some 1;
  fill_id = some 31;
  event_id = none;
  metadata = trade_metadata context 5 9 (pos 200000000) (pos 400000000) (pos 10000000) buy none;
  created_at = 101;
}

-- All of it sold at 3.
abbrev sold : RecordArgs
sold = record bought {
  postings =
      trade_postings context 5 9 (pos 300000000) (pos 400000000) (pos 10000000) sell
        (some (pos 800000000));
  transaction_id = 72;
  fill_id = some 33;
  metadata =
      trade_metadata context 5 9 (pos 300000000) (pos 400000000) (pos 10000000) sell
        (some (pos 800000000));
  created_at = 102;
}

record_transaction-IsSound_example :
    All (IsSound context) (record_transaction context alone bought []).1
record_transaction-IsSound_example =
    record_transaction-IsSound context alone bought [] (λ j a. a) tt

-- Another task settles the fill first, under another id.
abbrev transactions : List LedgerTransaction
transactions = new_transaction bought ∷ new_transaction sold ∷ []

apply_all-EndsLong_example : EndsLong context (apply_all context transactions empty_snapshot)
apply_all-EndsLong_example =
    apply_all-EndsLong context transactions empty_snapshot
      ((ground arith, ground arith), ((ground arith, ground arith), tt)) tt

-- A deposit of 5.
abbrev deposited : LedgerTransaction
deposited = new_transaction (record bought {
  entry_type = deposit;
  postings = posting cash debit (pos 500000000) 9 ∷ posting margin credit (pos 0) 9 ∷ [];
  metadata = record no_metadata { amount = some (pos 500000000) };
})
