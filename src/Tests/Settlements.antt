-- ===== src/Tests/Settlements.antt =====
-- A fill that is settled for the second time, with a new event; and the balances of a first start.
use crypto_auto_trading_syst.Base.{
  ◌≡◌, refl, none, some, false, List, [], ◌∷◌, ◌++◌, ok, err, Result,
}
use crypto_auto_trading_syst.Int.{pos, ◌+ℤ◌}
use crypto_auto_trading_syst.Decimal.{Decimal, add, mul, round, round_ratio, excess, half_even}
use crypto_auto_trading_syst.Domain.Enums.{buy, paper, deposit, debit, credit}
use crypto_auto_trading_syst.Domain.Models.{Text, Order, Fill}
use crypto_auto_trading_syst.Order.Manager.{new_order}
use crypto_auto_trading_syst.Ledger.Journal.{Journal, cash, other_account, no_metadata}
use crypto_auto_trading_syst.Ledger.Projections.{
  ProjectionSnapshot, balance, replay_projections, initial, apply_all, apply_transaction,
  apply_entries, apply_entry, set_balance, refresh_equity, sum_totals, sum_costs,
}
use crypto_auto_trading_syst.Ledger.Service.{
  new_transaction, trade_postings, journal_balanced, sum_from, posting, number_entries,
  list_transactions,
}
use crypto_auto_trading_syst.Runtime.Events.{Settling, trade_args, settle_order}
use crypto_auto_trading_syst.Runtime.Events.Settlement.{
  CanSettle, postings_of, metadata_of, settle_order-appends,
}
use crypto_auto_trading_syst.Tests.Orders.{context, intent}

abbrev bought : Order
bought = new_order intent paper 1 100

-- 4 at 2, for a fee of 0.01.
abbrev fill : Fill
fill = record {
  fill_id = 31;
  trade_id = none;
  order_id = 1;
  client_order_id = none;
  exchange_order_id = some 21;
  symbol = 5;
  side = buy;
  price = pos 200000000;
  quantity = pos 400000000;
  fee = pos 1000000;
  fee_currency = none;
  timestamp = 101;
}

abbrev first : Settling
first = record {
  position = none;
  transaction_id = 71;
  event_id = 72;
  now = 200;
  usdt = 9;
  others = λ j. j;
}

abbrev second : Settling
second = record first { transaction_id = 73; event_id = 74; now = 300 }

abbrev settled : Journal
settled =
    new_transaction (
      trade_args context first fill bought (postings_of context first fill bought)
        (metadata_of context first fill bought))
    ∷ []

second-CanSettle : CanSettle context second fill bought settled
unfolding journal_balanced sum_from trade_postings add mul round round_ratio excess half_even ◌+ℤ◌
second-CanSettle = record {
  named = refl;
  new_event = refl;
  new_transaction_id = refl;
  balanced = refl;
}

settle_order-appends_example : settle_order context second fill bought settled ≡ (
  ok (
      new_transaction (
        trade_args context second fill bought
          (postings_of context second fill bought)
          (metadata_of context second fill bought))),
  settled
      ++ new_transaction (
          trade_args context second fill bought
            (postings_of context second fill bought)
            (metadata_of context second fill bought))
        ∷ [],
)
settle_order-appends_example =
    settle_order-appends context second fill bought settled second-CanSettle

-- The deposit of a balance of 100 at a first start.
abbrev deposited : Journal
deposited =
    record {
      transaction_id = 81;
      entry_type = deposit;
      created_at = 10;
      order_id = none;
      fill_id = none;
      event_id = none;
      metadata = record no_metadata { amount = some (pos 10000000000) };
      entries = number_entries 1 (
          posting cash debit (pos 10000000000) 9
          ∷ posting (other_account 0) credit (pos 10000000000) 9
          ∷ []);
    }
    ∷ []

abbrev replayed : List (Text × Decimal) → Result ProjectionSnapshot
replayed initial_balances = replay_projections context initial_balances (λ t. false) deposited

abbrev balance_of : Result ProjectionSnapshot → Decimal
balance_of (err e) = pos 0
balance_of (ok s) = balance 9 s

-- With the balance also given as an initial one, it is counted twice.
replayed_twice :
    (balance_of (replayed []) ≡ pos 10000000000)
    × (balance_of (replayed ((9, pos 10000000000) ∷ [])) ≡ pos 20000000000)
unfolding replay_projections initial apply_all apply_transaction apply_entries apply_entry
    set_balance refresh_equity sum_totals sum_costs balance list_transactions number_entries add
    round round_ratio excess half_even ◌+ℤ◌
replayed_twice = (refl, refl)
