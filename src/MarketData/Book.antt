-- ===== src/MarketData/Book.antt =====
-- src/crypto_trader/market_data/orderbook.py: the order book. A side is the dictionary of its levels
-- in the order of insertion; the key, the price printed without trailing zeros, is the price.
pub mod Depth
pub mod Best
use crypto_auto_trading_syst.Base.{
  ℕ, suc, Bool, true, false, not, ◌&&◌, Option, none, some, List, [], ◌∷◌, select, sort_by, Done,
  ok, err, value_error, sequence_gap, stale_market_data, ◌-◌, ◌+◌, ◌*◌, ◌==◌, leb, ltb,
  if◌then◌else◌,
}
use crypto_auto_trading_syst.Int.{pos, ltb_ℤ, leb_ℤ, eqb_ℤ}
use crypto_auto_trading_syst.Decimal.{Decimal, Context, add, div, is_zero}
use crypto_auto_trading_syst.Domain.Models.{Time}

pub data MarketDataStatus : Type 0 where
  healthy resyncing unhealthy : MarketDataStatus

abbrev pub is_status_healthy : MarketDataStatus → Bool
is_status_healthy healthy = true
is_status_healthy _ = false

pub record BookLevel : Type 0 where
  pub price : Decimal
  pub quantity : Decimal

abbrev pub Levels : Type 0
Levels = List BookLevel

-- A price and the quantity that is now offered at it.
pub record Change : Type 0 where
  pub price : Decimal
  pub quantity : Decimal

pub record OrderBook : Type 0 where
  pub sequence : Option ℕ
  pub bids : Levels
  pub asks : Levels
  pub status : MarketDataStatus
  pub updated_at : Option Time

-- The book of the class's defaults.
abbrev pub new_book : OrderBook
new_book = record { sequence = none; bids = []; asks = []; status = healthy; updated_at = none }

abbrev pub has_price : Decimal → BookLevel → Bool
has_price price level = eqb_ℤ level.price price

-- `levels[key] = level`
abbrev pub put_level : BookLevel → Levels → Levels
put_level level [] = level ∷ []
put_level level (l ∷ ls) = if has_price level.price l then level ∷ ls else l ∷ put_level level ls

-- `levels.pop(key, None)`
abbrev pub pop_level : Decimal → Levels → Levels
pop_level price ls = select (λ l. not (has_price price l)) ls

abbrev pub upsert_level : Change → Levels → Levels
upsert_level u ls =
    if is_zero u.quantity
    then pop_level u.price ls
    else put_level (record { price = u.price; quantity = u.quantity }) ls

-- `_upsert`; a negative quantity raises, and what was applied before it stays.
unfoldable pub upsert : List Change → Levels → Done × Levels
upsert [] ls = (ok tt, ls)
upsert (u ∷ us) ls =
    let rest = upsert us (upsert_level u ls) in
    if ltb_ℤ u.quantity (pos 0) then (err value_error, ls) else rest

-- The bids first and then the asks, if the bids did not raise.
abbrev pub after_bids : Done × Levels → Done × Levels → OrderBook → Done × OrderBook
after_bids (err e, bids) _ b = (err e, record b { bids = bids })
after_bids (ok _, bids) (d, asks) b = (d, record b { bids = bids; asks = asks })

unfoldable pub upsert_sides : List Change → List Change → OrderBook → Done × OrderBook
unfolding upsert
upsert_sides bids asks b = after_bids (upsert bids b.bids) (upsert asks b.asks) b

abbrev pub after_snapshot : Time → Done × OrderBook → Done × OrderBook
after_snapshot now (err e, b) = (err e, b)
after_snapshot now (ok _, b) = (ok tt, record b { status = healthy; updated_at = some now })

unfoldable pub apply_snapshot : ℕ → List Change → List Change → Time → OrderBook → Done × OrderBook
unfolding upsert_sides
apply_snapshot sequence bids asks now b =
    after_snapshot now
      (upsert_sides bids asks (record b { sequence = some sequence; bids = []; asks = [] }))

abbrev pub after_delta : ℕ → Time → Done × OrderBook → Done × OrderBook
after_delta sequence now (err e, b) = (err e, b)
after_delta sequence now (ok _, b) =
    (ok tt, record b { sequence = some sequence; updated_at = some now })

-- Whether a delta may follow the book; any may follow a book without a sequence.
abbrev pub follows : Option ℕ → ℕ → Bool
follows none sequence = true
follows (some last) sequence = sequence == last + 1

unfoldable pub apply_delta : ℕ → List Change → List Change → Time → OrderBook → Done × OrderBook
unfolding upsert_sides
apply_delta sequence bids asks now b =
    if follows b.sequence sequence
    then after_delta sequence now (upsert_sides bids asks b)
    else (err sequence_gap, b)

unfoldable pub invalidate : Time → OrderBook → OrderBook
invalidate now b = record b {
  status = unhealthy;
  sequence = none;
  bids = [];
  asks = [];
  updated_at = some now;
}

-- A book of the future is as fresh as one of this moment.
unfoldable pub ensure_fresh : Time → Time → OrderBook → Done
ensure_fresh max_age now b =
    if not (is_status_healthy b.status) then err stale_market_data else elim b.updated_at [
      | none ↦ err stale_market_data
      | some t ↦ if ltb max_age (now - t) then err stale_market_data else ok tt
    ]

abbrev pub first : Levels → Option BookLevel
first [] = none
first (l ∷ ls) = some l

abbrev pub not_above : BookLevel → BookLevel → Bool
not_above a b = leb_ℤ a.price b.price

abbrev pub not_below : BookLevel → BookLevel → Bool
not_below a b = leb_ℤ b.price a.price

unfoldable pub best_bid : OrderBook → Option BookLevel
best_bid b = first (sort_by not_below b.bids)

unfoldable pub best_ask : OrderBook → Option BookLevel
best_ask b = first (sort_by not_above b.asks)

abbrev pub mid_of : Context → Option BookLevel → Option BookLevel → Option Decimal
mid_of c (some bid) (some ask) = some (div c (add c bid.price ask.price) (pos (2 * c.unit)))
mid_of c _ _ = none

unfoldable pub mid_price : Context → OrderBook → Option Decimal
unfolding best_bid best_ask
mid_price c b = mid_of c (best_bid b) (best_ask b)
