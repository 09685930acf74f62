-- ===== src/Simulator/RealMarketPaper.antt =====
-- src/crypto_trader/simulator/real_market_paper.py: the paper exchange with prices of a real market.
-- The feed of a symbol is the argument `refresh`, the best prices that it answers or an error. The
-- sequence numbers, which are kept beside the books, are left out; no order reads them.
pub mod Quoted
use crypto_auto_trading_syst.Base.{
  ℕ, Bool, false, ◌&&◌, ◌||◌, List, [], ◌∷◌, Result, ok, err, other_exchange_error, if◌then◌else◌,
}
use crypto_auto_trading_syst.Int.{pos, leb_ℤ}
use crypto_auto_trading_syst.Decimal.{Decimal, Context, is_positive}
use crypto_auto_trading_syst.Domain.Models.{Text, Time, Instrument, Order}
use crypto_auto_trading_syst.MarketData.Book.{OrderBook, new_book, apply_snapshot}
use crypto_auto_trading_syst.Simulator.Exchange as Simulated
use crypto_auto_trading_syst.Simulator.Exchange.{Exchange, put_book}
use crypto_auto_trading_syst.Simulator.SymbolMapper.{SymbolMapping, to_canonical}

-- The fields of the market's state that the adapter reads.
pub record Quote : Type 0 where
  pub best_bid : Decimal
  pub best_ask : Decimal

module _ (c : Context) (now : Time) where
  -- One level on each side.
  unfoldable pub quoted_book : Quote → OrderBook
  unfolding apply_snapshot
  quoted_book q =
      (apply_snapshot now (record { price = q.best_bid; quantity = pos c.unit } ∷ [])
        (record { price = q.best_ask; quantity = pos c.unit } ∷ []) now new_book).1

  unfoldable pub align_book : Text → Quote → Exchange → Exchange
  unfolding quoted_book
  align_book symbol q ex =
      if is_positive q.best_bid && is_positive q.best_ask
      then record ex {
        books = put_book (record { symbol = symbol; book = quoted_book q }) ex.books;
      }
      else ex

  module _ (refresh : Text → Result Quote) (upper : Text → Text) (ms : List SymbolMapping) where
    abbrev pub after_refresh : Text → Result Quote → Exchange → Result Quote × Exchange
    after_refresh symbol (err e) ex = (err e, ex)
    after_refresh symbol (ok q) ex = (ok q, align_book symbol q ex)

    abbrev pub refresh_canonical : Result Text → Exchange → Result Quote × Exchange
    refresh_canonical (err e) ex = (err e, ex)
    refresh_canonical (ok symbol) ex = after_refresh symbol (refresh symbol) ex

    unfoldable pub refresh_market_state : Text → Exchange → Result Quote × Exchange
    unfolding align_book to_canonical
    refresh_market_state symbol ex = refresh_canonical (to_canonical upper ms symbol) ex

    -- What is refreshed for an order: its symbol is mapped twice.
    abbrev pub refresh_mapped : Result Text → Exchange → Result Quote × Exchange
    refresh_mapped (err e) ex = (err e, ex)
    refresh_mapped (ok symbol) ex = refresh_market_state symbol ex

    module _ (fee_rate : Decimal) (id_of : ℕ → Text) where
      unfoldable pub submit_refreshed :
          Instrument → Order → Result Quote × Exchange → Result Order × Exchange
      unfolding Simulated.submit_order
      submit_refreshed i raw (err e, ex) = (err other_exchange_error, ex)
      submit_refreshed i raw (ok q, ex) =
          if leb_ℤ q.best_bid (pos 0) || leb_ℤ q.best_ask (pos 0)
          then (err other_exchange_error, ex)
          else Simulated.submit_order c fee_rate id_of i now raw ex

      unfoldable pub submit_order : Instrument → Order → Exchange → Result Order × Exchange
      unfolding submit_refreshed refresh_market_state to_canonical
      submit_order i raw ex =
          submit_refreshed i raw (refresh_mapped (to_canonical upper ms raw.symbol) ex)

-- The feeds are closed first, which leaves nothing of them.
unfoldable pub disconnect : Exchange → Exchange
disconnect ex = record ex { connected = false }
