-- ===== src/Tests/Exchanges.antt =====
-- The simulated exchange on a book with two asks, and its reconciliation with the ledger.
use crypto_auto_trading_syst.Base.{◌↔◌, ℕ, ◌≡◌, ◌+◌, refl, true, false, none, some, [], ◌∷◌, All}
use crypto_auto_trading_syst.Int.{pos, ◌+ℤ◌, ◌-ℤ◌}
use crypto_auto_trading_syst.Decimal.{
  Decimal, add, sub, mul, div, round, round_ratio, excess, half_even,
}
use crypto_auto_trading_syst.Domain.Enums.{buy, paper}
use crypto_auto_trading_syst.Domain.Models.{Text, Order, Instrument}
use crypto_auto_trading_syst.Order.Manager.{new_order}
use crypto_auto_trading_syst.Ledger.Projections.{ProjectionSnapshot, empty_snapshot, balance}
use crypto_auto_trading_syst.MarketData.Book.{OrderBook, new_book, best_ask, best_bid}
use crypto_auto_trading_syst.Simulator.Matching.{
  Wallet, limit_of, match_order, match_loop, match_turn, on_level, fill_level, with_fee, take_level,
  quantize_fee, apply_fill_to_balances, move_balances, move_position, best_level,
}
use crypto_auto_trading_syst.Simulator.Matching.Loop.{is_out_of_fuel, match_order-ends}
use crypto_auto_trading_syst.Simulator.Matching.Limits.{IsWithin, matching_of, match_order-IsWithin}
use crypto_auto_trading_syst.Simulator.Exchange.{Exchange}
use crypto_auto_trading_syst.Reconciliation.{
  reconcile, find_alerts, covered, balance_alerts, position_alerts, only_alerts, all_currencies,
  local_currencies, exchange_currencies, hydrate_from_ledger,
}
use crypto_auto_trading_syst.Reconciliation.Hydration.{reconcile-hydrate_from_ledger}
use crypto_auto_trading_syst.Reconciliation.Agreement.{HasQuantity, HasBalance, reconcile-agrees}
use crypto_auto_trading_syst.Tests.Orders.{context, intent}

-- A limit order to buy 10 at 2.
abbrev pub raw : Order
raw = new_order intent paper 1 100

abbrev pub instrument : Instrument
instrument = record {
  symbol = 5;
  base_asset = 51;
  quote_asset = 52;
  status = 6;
  tick_size = pos 1000000;
  step_size = pos 1000;
  min_qty = pos 1000;
  min_notional = pos 500000000;
}

-- 4 are offered at 1.9, 3 at 2, 9 at 2.1.
abbrev book : OrderBook
book = record new_book {
  asks =
      record { price = pos 210000000; quantity = pos 900000000 }
      ∷ record { price = pos 190000000; quantity = pos 400000000 }
      ∷ record { price = pos 200000000; quantity = pos 300000000 }
      ∷ [];
}

abbrev pub wallet : Wallet
wallet = record {
  balances = record { currency = 52; total = pos 10000000000000 } ∷ [];
  positions = [];
}

-- 0.001
abbrev pub fee_rate : Decimal
fee_rate = pos 100000

-- The order takes what is offered up to 2, and the best level first.
match_order-book :
    (matching_of (match_order context fee_rate instrument raw book wallet)).fills
    ≡ record {
      price = pos 190000000;
      quantity = pos 400000000;
      fee = pos 760000;
      completes = false;
    }
      ∷ record {
        price = pos 200000000;
        quantity = pos 300000000;
        fee = pos 600000;
        completes = false;
      }
      ∷ []
unfolding match_order match_loop match_turn on_level fill_level with_fee take_level quantize_fee
    apply_fill_to_balances move_balances move_position best_level best_ask best_bid add sub mul div
    round round_ratio excess half_even ◌+ℤ◌ ◌-ℤ◌
match_order-book = refl

match_order-ends_example :
    is_out_of_fuel (match_order context fee_rate instrument raw book wallet) ≡ false
match_order-ends_example = match_order-ends context fee_rate instrument raw book wallet

match_order-IsWithin_example :
    All
      (IsWithin buy (limit_of raw))
      (matching_of (match_order context fee_rate instrument raw book wallet)).fills
match_order-IsWithin_example = match_order-IsWithin context fee_rate instrument raw book wallet

-- An exchange whose next submission times out.
abbrev pub exchange : Exchange
exchange = record {
  connected = true;
  hooks = record {
    rate_limit_next = false;
    reject_next_order = false;
    fail_submit_with = none;
    timeout_but_created = true;
    fill_before_ack = false;
    duplicate_fill = false;
    cancel_fill_race = false;
  };
  orders = [];
  books = record { symbol = 5; book = book } ∷ [];
  wallet = wallet;
  next_exchange_order_id = 1000;
  event_log = [];
}

abbrev pub id_of : ℕ → Text
id_of n = n + 1000000

-- The ledger has one balance, a position, and a position that has been sold.
abbrev projection : ProjectionSnapshot
projection = record empty_snapshot {
  balances = record { currency = 52; total = pos 700; available = pos 700; frozen = pos 0 } ∷ [];
  positions =
      record {
        symbol = 5;
        quantity = pos 3;
        avg_entry_price = some (pos 2);
        cost_basis = pos 6;
        realized_pnl = pos 0;
      }
      ∷ record {
        symbol = 6;
        quantity = pos 0;
        avg_entry_price = none;
        cost_basis = pos 0;
        realized_pnl = pos 1;
      }
      ∷ [];
}

abbrev base_asset : Text → Text
base_asset symbol = symbol + 46

reconcile-hydrate_from_ledger_example :
    reconcile base_asset base_asset projection (hydrate_from_ledger projection wallet)
    ≡ record { ok = true; halt = false; alerts = [] }
reconcile-hydrate_from_ledger_example =
    reconcile-hydrate_from_ledger base_asset base_asset projection wallet
      (record { one_view = (refl, (refl, tt)); has_balance = λ e. cc })

-- An exchange that has also counted the position's asset as a balance.
abbrev traded : Wallet
traded = record {
  balances =
      record { currency = 51; total = pos 3 } ∷ record { currency = 52; total = pos 700 } ∷ [];
  positions =
      record {
        symbol = 5;
        quantity = pos 3;
        avg_entry_price = none;
        cost_basis = pos 6;
        realized_pnl = pos 0;
      }
      ∷ [];
}

traded_goes_on : (reconcile base_asset base_asset projection traded).halt ≡ false
unfolding reconcile find_alerts covered balance_alerts position_alerts only_alerts balance
traded_goes_on = refl

reconcile-agrees_example : (reconcile base_asset base_asset projection traded).halt ≡ false ↔ (
    All (HasQuantity traded.positions) projection.positions
    × All (HasBalance base_asset base_asset projection traded) (
        all_currencies
          (local_currencies projection.balances)
          (exchange_currencies traded.balances)))
reconcile-agrees_example = reconcile-agrees base_asset base_asset projection traded

-- A position that only the exchange has, without a halt.
abbrev surplus : Wallet
surplus = record traded {
  positions =
      record {
        symbol = 8;
        quantity = pos 90;
        avg_entry_price = none;
        cost_basis = pos 0;
        realized_pnl = pos 0;
      }
      ∷ traded.positions;
}

surplus_goes_on :
    ((reconcile base_asset base_asset projection surplus).ok ≡ false)
    × ((reconcile base_asset base_asset projection surplus).halt ≡ false)
unfolding reconcile find_alerts covered balance_alerts position_alerts only_alerts balance
surplus_goes_on = (refl, refl)
