-- ===== src/Simulator/RealMarketPaper/Quoted.antt =====
-- src/crypto_trader/simulator/real_market_paper.py: at which prices the paper exchange fills.
use mathlib.Core.Path.{subst}
use crypto_auto_trading_syst.Base.{
  ℕ, ◌≡◌, refl, sym, ap, ◌∙◌, Bool, true, false, ◌&&◌, ◌||◌, not, Option, none, some, List, [], ◌∷◌,
  ◌++◌, find, All, Result, Done, Error, ok, err, arith, Bool-cases, inl, inr, ◌+◌, if◌then◌else◌,
}
use crypto_auto_trading_syst.Int.{pos, leb_ℤ, ltb_ℤ, ◌<ℤ◌}
use crypto_auto_trading_syst.Decimal.{Decimal, Context, is_positive, is_zero}
use crypto_auto_trading_syst.Domain.Enums.{OrderSide, buy, sell}
use crypto_auto_trading_syst.Domain.Models.{Text, Time, Instrument, Order}
use crypto_auto_trading_syst.MarketData.Book.{
  Change, Levels, after_bids, after_snapshot, new_book, OrderBook, apply_snapshot, upsert_sides,
  upsert,
}
use crypto_auto_trading_syst.Simulator.Matching.{
  LevelFill, Matched, returned, raised, out_of_fuel, levels_of, match_order,
}
use crypto_auto_trading_syst.Simulator.Matching.Limits.{matching_of}
use crypto_auto_trading_syst.Simulator.Matching.Prices.{
  match_order-IsFilledAt, IsFilledAt, HasPrice,
}
use crypto_auto_trading_syst.Simulator.Exchange as Simulated
use crypto_auto_trading_syst.Simulator.Exchange.{
  Exchange, ExchangeEvent, Hooks, Listing, put_order, put_book, has_symbol, book_of, fill_events,
  first_again, emitted, after_match, place, unless_failing, local_order_for, order_event,
  fill_event,
}
use crypto_auto_trading_syst.Simulator.SymbolMapper.{SymbolMapping, to_canonical}
use crypto_auto_trading_syst.Simulator.RealMarketPaper.{
  Quote, quoted_book, align_book, after_refresh, refresh_market_state, submit_refreshed,
  submit_order,
}

-- The price of a quote that an order of the side meets.
abbrev pub side_price : OrderSide → Quote → Decimal
side_price buy q = q.best_ask
side_price sell q = q.best_bid

module _ (Q : Decimal → Type 0) where
  abbrev pub IsEventAt : Option LevelFill → Type 0
  IsEventAt none = Unit
  IsEventAt (some f) = Q f.price

  -- An event without a fill, or with one at such a price.
  abbrev pub HasFillAt : ExchangeEvent → Type 0
  HasFillAt e = IsEventAt e.fill

  fill_events-HasFillAt :
      (twice : Bool) (o : Order) (fs : List LevelFill)
      → All (IsFilledAt Q) fs
      → All HasFillAt (fill_events twice o fs)
  fill_events-HasFillAt twice o [] a = tt
  fill_events-HasFillAt true o (f ∷ fs) a = (a.0, (a.0, fill_events-HasFillAt true o fs a.1))
  fill_events-HasFillAt false o (f ∷ fs) a = (a.0, fill_events-HasFillAt false o fs a.1)

  All-join :
      (es fs : List ExchangeEvent) → All HasFillAt es → All HasFillAt fs → All HasFillAt (es ++ fs)
  All-join [] fs a b = b
  All-join (e ∷ es) fs a b = (a.0, All-join es fs a.1 b)

  first_again-HasFillAt :
      (twice : Bool) (es : List ExchangeEvent)
      → All HasFillAt es
      → All HasFillAt (first_again twice es)
  first_again-HasFillAt true [] a = tt
  first_again-HasFillAt true (e ∷ es) a = (a.0, tt)
  first_again-HasFillAt false es a = tt

  emitted-HasFillAt :
      (h : Hooks) (o : Order) (fs : List LevelFill)
      → All (IsFilledAt Q) fs
      → All HasFillAt (emitted h o fs)
  unfolding emitted
  emitted-HasFillAt h o fs a = elim (Bool-cases h.fill_before_ack) [
    | inl before ↦
        let plain = fill_events-HasFillAt false o fs a in
        rw before (
          All-join (fill_events false o fs) _ plain
            (tt, first_again-HasFillAt h.duplicate_fill (fill_events false o fs) plain))
    | inr after ↦ rw after (tt, (tt, fill_events-HasFillAt h.duplicate_fill o fs a))
  ]

  -- The log goes on with such events alone.
  abbrev pub IsLoggedAt : List ExchangeEvent → List ExchangeEvent → Type 0
  IsLoggedAt log log' = (es : List ExchangeEvent) × (log' ≡ log ++ es) × All HasFillAt es

  append_nothing : (es : List ExchangeEvent) → es ≡ es ++ []
  append_nothing [] = refl
  append_nothing (e ∷ es) = ap (λ xs. e ∷ xs) (append_nothing es)

  same_log : (log : List ExchangeEvent) → IsLoggedAt log log
  same_log log = ([], append_nothing log, tt)

  abbrev LogsAt : List ExchangeEvent → Result Order × Exchange → Type 0
  LogsAt log out = IsLoggedAt log out.1.event_log

  either_way :
      (log : List ExchangeEvent) (b : Bool) (x y : Result Order × Exchange)
      → LogsAt log x
      → LogsAt log y
      → LogsAt log (if b then x else y)
  either_way log true x y h k = h
  either_way log false x y h k = k

  after_match-LogsAt :
      (id : Text) (ex : Exchange) (m : Matched)
      → All (IsFilledAt Q) (matching_of m).fills
      → LogsAt ex.event_log (after_match id ex m)
  unfolding after_match
  after_match-LogsAt id ex (returned m) a =
      (emitted ex.hooks m.order m.fills, refl, emitted-HasFillAt ex.hooks m.order m.fills a)
  after_match-LogsAt id ex (raised e m) a = same_log ex.event_log
  after_match-LogsAt id ex (out_of_fuel m) a = same_log ex.event_log

  module _ (c : Context) (fee_rate : Decimal) (id_of : ℕ → Text) (i : Instrument) (now : Time)
      (raw : Order) (ex : Exchange)
      (h : All
        (HasPrice Q)
        (levels_of raw.side (book_of c now (find (has_symbol raw.symbol) ex.books)))) where
    place-LogsAt : LogsAt ex.event_log (place c fee_rate id_of i now raw ex)
    unfolding place
    place-LogsAt =
        let id = id_of ex.next_exchange_order_id in
        let o = local_order_for id raw in
        let listed : Exchange = record ex {
          next_exchange_order_id = ex.next_exchange_order_id + 1;
          orders = put_order id o ex.orders;
        } in
        let matched =
          match_order c fee_rate i o (book_of c now (find (has_symbol o.symbol) ex.books))
            ex.wallet in
        either_way ex.event_log ex.hooks.timeout_but_created _ (after_match id listed matched)
          (same_log ex.event_log)
          (after_match-LogsAt id listed matched (
            match_order-IsFilledAt Q c fee_rate i o
              (book_of c now (find (has_symbol o.symbol) ex.books)) ex.wallet h))

    unless_failing-LogsAt :
        (o : Option Error) → LogsAt ex.event_log (unless_failing c fee_rate id_of o i now raw ex)
    unfolding unless_failing
    unless_failing-LogsAt (some e) = same_log ex.event_log
    unless_failing-LogsAt none = place-LogsAt

    pub simulated-LogsAt :
        LogsAt ex.event_log (Simulated.submit_order c fee_rate id_of i now raw ex)
    unfolding Simulated.submit_order
    simulated-LogsAt =
        let log = ex.event_log in
        let same = same_log log in
        either_way log (not ex.connected) _ _ same (
          either_way log ex.hooks.rate_limit_next _ _ same (
            either_way log ex.hooks.reject_next_order _ _ same
              (unless_failing-LogsAt ex.hooks.fail_submit_with)))

find_put : (l : Listing) (ls : List Listing) → find (has_symbol l.symbol) (put_book l ls) ≡ some l
find_put l [] = ground arith
find_put l (x ∷ xs) = ground (arith, find_put l xs)

module _ (Q : Decimal → Type 0) where
  upsert-HasPrice : (u : Change) → Q u.price → All (HasPrice Q) (upsert (u ∷ []) []).1
  unfolding upsert
  upsert-HasPrice u h = elim (Bool-cases (ltb_ℤ u.quantity (pos 0))) [
    | inl bad ↦ rw bad tt
    | inr good ↦ elim (Bool-cases (is_zero u.quantity)) [
      | inl nothing ↦ rw (good, nothing) tt
      | inr some_of_it ↦ rw (good, some_of_it) (h, tt)
    ]
  ]

  after_bids-HasPrice :
      (side : OrderSide) (bids asks : Done × Levels) (now : Time) (b : OrderBook)
      → b.asks ≡ []
      → (side ≡ sell → All (HasPrice Q) bids.1)
      → (side ≡ buy → All (HasPrice Q) asks.1)
      → All (HasPrice Q) (levels_of side (after_snapshot now (after_bids bids asks b)).1)
  after_bids-HasPrice buy (err e, bids) asks now b empty h k =
      subst (All (HasPrice Q)) (sym empty) tt
  after_bids-HasPrice sell (err e, bids) asks now b empty h k = h refl
  after_bids-HasPrice buy (ok _, bids) (err e, asks) now b empty h k = k refl
  after_bids-HasPrice buy (ok _, bids) (ok _, asks) now b empty h k = k refl
  after_bids-HasPrice sell (ok _, bids) (err e, asks) now b empty h k = h refl
  after_bids-HasPrice sell (ok _, bids) (ok _, asks) now b empty h k = h refl

  quoted_book-HasPrice :
      (c : Context) (now : Time) (side : OrderSide) (q : Quote)
      → Q (side_price side q)
      → All (HasPrice Q) (levels_of side (quoted_book c now q))
  unfolding quoted_book apply_snapshot upsert_sides
  quoted_book-HasPrice c now side q h =
      let bid : Change = record { price = q.best_bid; quantity = pos c.unit } in
      let ask : Change = record { price = q.best_ask; quantity = pos c.unit } in
      after_bids-HasPrice side (upsert (bid ∷ []) []) (upsert (ask ∷ []) []) now
        (record new_book { sequence = some now }) refl
        (λ e. upsert-HasPrice bid (subst (λ x. Q (side_price x q)) e h))
        (λ e. upsert-HasPrice ask (subst (λ x. Q (side_price x q)) e h))

both_positive :
    (q : Quote)
    → leb_ℤ q.best_bid (pos 0) || leb_ℤ q.best_ask (pos 0) ≡ false
    → is_positive q.best_bid && is_positive q.best_ask ≡ true
both_positive q h = ground arith

-- The feed has answered with two positive prices, and the price of a fill is the one of the side.
abbrev pub IsQuoted : Result Quote → OrderSide → Decimal → Type 0
IsQuoted (err e) side price = ⊥
IsQuoted (ok q) side price =
    (price ≡ side_price side q) × (pos 0 <ℤ q.best_bid) × (pos 0 <ℤ q.best_ask)

is_priced :
    (q : Quote)
    → is_positive q.best_bid && is_positive q.best_ask ≡ true
    → (pos 0 <ℤ q.best_bid) × (pos 0 <ℤ q.best_ask)
is_priced q h = ground arith

module _ (c : Context) (now : Time) (refresh : Text → Result Quote) (upper : Text → Text)
    (ms : List SymbolMapping) (fee_rate : Decimal) (id_of : ℕ → Text) (i : Instrument)
    (raw : Order) where
  submit_aligned-LogsAt :
      (q : Quote) (ex : Exchange)
      → is_positive q.best_bid && is_positive q.best_ask ≡ true
      → IsLoggedAt
          (IsQuoted (ok q) raw.side)
          ex.event_log
          (Simulated.submit_order c fee_rate id_of i now raw
            (align_book c now raw.symbol q ex)).1.event_log
  unfolding align_book book_of
  submit_aligned-LogsAt q ex priced =
      let listing : Listing = record { symbol = raw.symbol; book = quoted_book c now q } in
      rw priced (
        simulated-LogsAt (IsQuoted (ok q) raw.side) c fee_rate id_of i now raw
          (record ex { books = put_book listing ex.books })
          (rw (find_put listing ex.books) (
            quoted_book-HasPrice (IsQuoted (ok q) raw.side) c now raw.side q
              (refl, (is_priced q priced).0, (is_priced q priced).1))))

  align_book-log :
      (q : Quote) (ex : Exchange) → (align_book c now raw.symbol q ex).event_log ≡ ex.event_log
  unfolding align_book
  align_book-log q ex = elim (Bool-cases (is_positive q.best_bid && is_positive q.best_ask)) [
    | inl priced ↦ rw priced refl
    | inr unpriced ↦ rw unpriced refl
  ]

  refreshed-LogsAt :
      (answer : Result Quote) (ex : Exchange)
      → IsLoggedAt
          (IsQuoted answer raw.side)
          ex.event_log
          (submit_refreshed c now refresh upper ms fee_rate id_of i raw
            (after_refresh c now refresh upper ms raw.symbol answer ex)).1.event_log
  unfolding submit_refreshed
  refreshed-LogsAt (err e) ex = same_log (IsQuoted (err e) raw.side) ex.event_log
  refreshed-LogsAt (ok q) ex =
      elim (Bool-cases (leb_ℤ q.best_bid (pos 0) || leb_ℤ q.best_ask (pos 0))) [
        | inl none_there ↦
            rw none_there
              ([], align_book-log q ex ∙ append_nothing (IsQuoted (ok q) raw.side) ex.event_log, tt)
        | inr there ↦ rw there (submit_aligned-LogsAt q ex (both_positive q there))
      ]

-- An order whose symbol is a canonical one is filled at the best price that the feed has just answered
-- for the symbol on the other side of the book, and at no other price; where the feed fails, or one of
-- its two prices is not positive, there is no fill.
pub submit_order-IsQuoted :
    (c : Context) (now : Time) (refresh : Text → Result Quote) (upper : Text → Text)
    (ms : List SymbolMapping) (fee_rate : Decimal) (id_of : ℕ → Text) (i : Instrument) (raw : Order)
    (ex : Exchange)
    → to_canonical upper ms raw.symbol ≡ ok raw.symbol
    → IsLoggedAt
        (IsQuoted (refresh raw.symbol) raw.side)
        ex.event_log
        (submit_order c now refresh upper ms fee_rate id_of i raw ex).1.event_log
unfolding submit_order refresh_market_state
submit_order-IsQuoted c now refresh upper ms fee_rate id_of i raw ex canonical =
    rw (canonical, canonical)
      (refreshed-LogsAt c now refresh upper ms fee_rate id_of i raw (refresh raw.symbol) ex)
