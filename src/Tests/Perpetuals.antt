-- ===== src/Tests/Perpetuals.antt =====
-- The futures ledger and a liquidation of the paper engine.
use crypto_auto_trading_syst.Base.{◌≡◌, refl, true, none, [], ◌∷◌, ok}
use crypto_auto_trading_syst.Int.{pos, ◌+ℤ◌, ◌-ℤ◌}
use crypto_auto_trading_syst.Decimal.{
  add, sub, mul, div, neg, abs, round, round_ratio, excess, half_even,
}
use crypto_auto_trading_syst.Domain.Enums.{long}
use crypto_auto_trading_syst.Ledger.Journal.{Journal}
use crypto_auto_trading_syst.Ledger.Service.{new_transaction, number_entries, list_transactions}
use crypto_auto_trading_syst.Ledger.Service.Writes.{alone}
use crypto_auto_trading_syst.Perpetual.Contract.{PerpetualContract, MarginPosition}
use crypto_auto_trading_syst.Perpetual.Calculators.{LiquidationResult, liquidation_price, evaluate}
use crypto_auto_trading_syst.Perpetual.FuturesLedger.{
  Call, Opening, postings_of_moves, open_args, record_close,
}
use crypto_auto_trading_syst.Perpetual.Projection.{
  FuturesProjectionSnapshot, empty_projection, new_position, add_to, net, add_amounts, apply_open,
  apply_txn, apply_txns, rebuild,
}
use crypto_auto_trading_syst.Perpetual.Projection.Rebuilt.{EndsBare, rebuild-EndsBare}
use crypto_auto_trading_syst.Perpetual.Engine.{PerpetualPaperEngine, chosen, liquidation, liquidate}
use crypto_auto_trading_syst.Perpetual.Engine.Liquidations.{liquidate-books_nothing}
use crypto_auto_trading_syst.Tests.Orders.{context}

abbrev pub contract : PerpetualContract
contract = record {
  symbol = 5;
  base = 8;
  quote = 9;
  contract_size = pos 100000000;
  tick_size = pos 1000000;
  quantity_step = pos 100000;
  margin_asset = 9;
  max_leverage = pos 1000000000;
  taker_fee_rate = pos 50000;
}

abbrev pub engine : PerpetualPaperEngine
engine = record { contract = contract; contracts = contract ∷ []; liquidation_fee_rate = pos 50000 }

abbrev call : Call
call = record { order_id = none; transaction_id = 91; now = 100 }

abbrev later : Call
later = record { order_id = none; transaction_id = 92; now = 200 }

-- Long 1 at 100, with a margin of 10.
abbrev opened : Opening
opened = record {
  side = long;
  quantity = pos 100000000;
  entry_price = pos 10000000000;
  leverage = pos 1000000000;
  initial_margin = pos 1000000000;
  fee = pos 5000000;
}

abbrev pub journal : Journal
journal = new_transaction (open_args context contract call opened) ∷ []

abbrev pub position : MarginPosition
position = new_position 5 long (pos 100000000) (pos 10000000000) (pos 1000000000) (pos 1000000000)

abbrev pub projection : FuturesProjectionSnapshot
projection = record empty_projection {
  positions = position ∷ [];
  margin_balance = pos 1000000000;
  fees_paid = pos 5000000;
}

pub rebuild-journal : rebuild context journal ≡ ok projection
unfolding rebuild apply_txns apply_txn apply_open add_to net add_amounts list_transactions open_args
    postings_of_moves number_entries add sub mul div neg abs round round_ratio excess half_even ◌+ℤ◌
    ◌-ℤ◌
rebuild-journal = refl

rebuild-EndsBare_example : EndsBare (rebuild context journal)
rebuild-EndsBare_example = rebuild-EndsBare context journal

-- At 80 the position is liquidated: its price is 90.
abbrev result : LiquidationResult context
result = record {
  liquidated = true;
  liquidation_price = pos 9000000000;
  bankruptcy_price = pos 9000000000;
  remaining_equity = pos 996000000;
  fee = pos 4000000;
}

evaluate-position :
    evaluate context engine.liquidation_fee_rate position contract (pos 8000000000) ≡ ok result
unfolding evaluate liquidation_price add sub mul div neg abs round round_ratio excess half_even ◌+ℤ◌
    ◌-ℤ◌
evaluate-position = refl

liquidate-books_nothing_example :
    (liquidate context alone engine later (pos 8000000000) none journal).1
    ≡ (record_close context contract later alone
        (record (liquidation context alone engine position (pos 8000000000) (pos 4000000)) {
          realized_pnl = pos 0;
        })
        journal).1
unfolding chosen
liquidate-books_nothing_example =
    liquidate-books_nothing context alone engine later (pos 8000000000) none journal
      {s = projection} {p = position} {r = result} rebuild-journal refl evaluate-position refl
