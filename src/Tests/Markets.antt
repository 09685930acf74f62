-- ===== src/Tests/Markets.antt =====
-- The paper exchange with prices of a real market, and the advice on sizes.
use mathlib.Core.Option
use crypto_auto_trading_syst.Base.{
  ◌≡◌, refl, false, Option, none, some, List, [], ◌∷◌, map, Result, ok,
}
use crypto_auto_trading_syst.Int.{pos}
use crypto_auto_trading_syst.Domain.Models.{Text}
use crypto_auto_trading_syst.Decimal.{Decimal, mul, add, sub}
use crypto_auto_trading_syst.Simulator.Exchange.{Exchange, ExchangeEvent}
use crypto_auto_trading_syst.Simulator.SymbolMapper.{SymbolMapping, to_canonical}
use crypto_auto_trading_syst.Simulator.RealMarketPaper.{Quote, submit_order}
use crypto_auto_trading_syst.Simulator.RealMarketPaper.Quoted.{
  IsLoggedAt, IsQuoted, submit_order-IsQuoted,
}
use crypto_auto_trading_syst.Governance.Leverage.{apply, IsCapped, apply-IsCapped}
use crypto_auto_trading_syst.Tests.Orders.{context}
use crypto_auto_trading_syst.Tests.Exchanges.{raw, instrument, fee_rate, exchange, id_of}

abbrev names : List SymbolMapping
names = record { canonical = 5; binance = 5; okx = 15 } ∷ []

abbrev price_in : ExchangeEvent → Option Decimal
price_in e = Option.map (λ f. f.price) e.fill

abbrev same : Text → Text
same t = t

abbrev quote : Text → Result Quote
quote symbol = ok (record { best_bid = pos 189000000; best_ask = pos 190000000 })

-- No fault is injected.
abbrev plain : Exchange
plain = record exchange { hooks = record exchange.hooks { timeout_but_created = false } }

-- The order is filled with what the book offers, a unit at 1.9.
submit_order-plain :
    map price_in
      (submit_order context 100 quote same names fee_rate id_of instrument raw plain).1.event_log
    ≡ none ∷ none ∷ some (pos 190000000) ∷ []
unfolding submit_order mul add sub
submit_order-plain = refl

submit_order-IsQuoted_example :
    IsLoggedAt
      (IsQuoted (quote 5) raw.side)
      plain.event_log
      (submit_order context 100 quote same names fee_rate id_of instrument raw plain).1.event_log
unfolding to_canonical
submit_order-IsQuoted_example =
    submit_order-IsQuoted context 100 quote same names fee_rate id_of instrument raw plain refl

apply-IsCapped_example :
    IsCapped
      (apply context (pos 600000000) (pos 1000000000) (some (pos 300000000)) none)
      (pos 600000000)
      (some (pos 300000000))
      none
apply-IsCapped_example =
    apply-IsCapped context (pos 600000000) (pos 1000000000) (some (pos 300000000)) none
