-- ===== src/MarketData/Service.antt =====
-- src/crypto_trader/market_data/service.py: snapshots and deltas of one symbol, and the recovery
-- from gaps. The service's dictionaries hold an entry for each symbol, and an operation touches only
-- its own symbol's: a `Feed` is these entries. An operation reads its clock once.
pub mod Sequence
pub mod Feeds
pub mod Replay
use crypto_auto_trading_syst.Base.{
  ℕ, suc, Bool, true, false, not, ◌&&◌, ◌||◌, Option, none, some, List, [], ◌∷◌, ◌++◌, Error, Done,
  ok, err, value_error, sequence_gap, market_data_unhealthy, ◌+◌, ◌-◌, ◌==◌, leb, if◌then◌else◌,
}
use crypto_auto_trading_syst.Domain.Models.{Time}
use crypto_auto_trading_syst.MarketData.Book.{
  MarketDataStatus, healthy, resyncing, unhealthy, is_status_healthy, Change, OrderBook, new_book,
  apply_snapshot, apply_delta, follows, invalidate,
}

pub record Delta : Type 0 where
  pub sequence : ℕ
  pub bids : List Change
  pub asks : List Change

-- The entries of a symbol; of the recorded errors only their number.
pub record Feed : Type 0 where
  pub book : OrderBook
  pub status : MarketDataStatus
  pub buffer : List Delta
  pub errors : ℕ

-- `ensure_symbol`; a first use makes the entries.
unfoldable pub ensure_symbol : Option Feed → Feed
ensure_symbol (some f) = f
ensure_symbol none = record { book = new_book; status = unhealthy; buffer = []; errors = 0 }

abbrev pub set_book : OrderBook → Feed → Feed
set_book b f = record f { book = b }

-- `_set_status`
abbrev pub set_status : MarketDataStatus → Feed → Feed
set_status status f = record f { status = status; book = record f.book { status = status } }

abbrev pub record_error : Feed → Feed
record_error f = record f { errors = f.errors + 1 }

-- `book.invalidate()` and the status that goes with it.
unfoldable pub drop_book : MarketDataStatus → Time → Feed → Feed
unfolding invalidate
drop_book status now f = set_status status (set_book (invalidate now f.book) f)

abbrev pub is_gap : Error → Bool
is_gap sequence_gap = true
is_gap _ = false

-- A delta of the buffer that raises ends the replay.
unfoldable pub replay_failed : Error → Time → Feed → Done × Feed
unfolding drop_book
replay_failed e now f = (err e, if is_gap e then drop_book unhealthy now f else f)

unfoldable pub replay_step : Time → Delta → List Delta → Feed → Done × Feed
unfolding apply_delta
replay_step now d rest f =
    let applied = apply_delta d.sequence d.bids d.asks now f.book in
    (applied.0, record f { book = applied.1; buffer = rest })

unfoldable pub next_or : (Feed → Done × Feed) → Time → Done × Feed → Done × Feed
unfolding replay_failed
next_or next now (ok _, f) = next f
next_or next now (err e, f) = replay_failed e now f

-- The replay of the buffered deltas.
unfoldable pub replay : Time → List Delta → Feed → Done × Feed
unfolding replay_step next_or
replay now [] f = (ok tt, f)
replay now (d ∷ ds) f = next_or (replay now ds) now (replay_step now d ds f)

unfoldable pub after_applied : Time → Feed → Done × OrderBook → Done × Feed
unfolding replay
after_applied now f (err e, b) = (err e, set_book b f)
after_applied now f (ok _, b) = replay now f.buffer (set_status healthy (set_book b f))

unfoldable pub ingest_snapshot : Delta → Time → Feed → Done × Feed
unfolding apply_snapshot after_applied
ingest_snapshot s now f = after_applied now f (apply_snapshot s.sequence s.bids s.asks now f.book)

-- What the provider of snapshots answers.
pub data Answer : Type 0 where
  no_provider failed : Answer
  a_book : OrderBook → Answer
  a_snapshot : Delta → Answer

-- The answer of one call, and the deltas that other tasks hand in before it comes.
pub record Provider : Type 0 where
  pub answer : Answer
  pub meanwhile : List Delta

-- The deltas that come in during the call are buffered, since the book is resyncing.
abbrev pub awaited : List Delta → Feed → Feed
awaited ds f = record (set_status resyncing f) { buffer = f.buffer ++ ds }

abbrev pub adopt_book : OrderBook → Time → Feed → Feed
adopt_book b now f =
    set_book
      (record f.book { bids = b.bids; asks = b.asks; sequence = b.sequence; updated_at = some now })
      f

abbrev pub now_healthy : Done × Feed → Done × Feed
now_healthy (err e, f) = (err e, f)
now_healthy (ok _, f) = (ok tt, set_status healthy f)

unfoldable pub answered : Answer → List Delta → Time → Feed → Done × Feed
unfolding ingest_snapshot
answered no_provider ds now f = (err market_data_unhealthy, set_status unhealthy f)
answered failed ds now f =
    (err market_data_unhealthy, record_error (set_status unhealthy (awaited ds f)))
answered (a_book b) ds now f = (ok tt, set_status healthy (adopt_book b now (awaited ds f)))
answered (a_snapshot s) ds now f = now_healthy (ingest_snapshot s now (awaited ds f))

unfoldable pub resync : Provider → Time → Feed → Done × Feed
unfolding answered
resync p now f = answered p.answer p.meanwhile now f

abbrev pub checked : Done × Feed → Done × Feed
checked (err e, f) = (err e, f)
checked (ok _, f) =
    if is_status_healthy f.book.status then (ok tt, f) else (err market_data_unhealthy, f)

-- `_handle_gap`
unfoldable pub handle_gap : Provider → Time → Feed → Done × Feed
unfolding resync drop_book
handle_gap p now f = checked (resync p now (drop_book resyncing now (record_error f)))

abbrev pub same_status : Done × Feed → Done × Feed
same_status (err e, f) = (err e, f)
same_status (ok _, f) = (ok tt, set_status f.book.status f)

unfoldable pub delta_failed : Error → Provider → Time → Feed → Done × Feed
unfolding handle_gap
delta_failed e p now f = if is_gap e then same_status (handle_gap p now f) else (err e, f)

unfoldable pub after_delivered : Provider → Time → Feed → Done × OrderBook → Done × Feed
unfolding delta_failed
after_delivered p now f (ok _, b) = same_status (ok tt, set_book b f)
after_delivered p now f (err e, b) = delta_failed e p now (set_book b f)

-- The last part of `ingest_delta`.
unfoldable pub deliver : Delta → Provider → Time → Feed → Done × Feed
unfolding apply_delta after_delivered
deliver d p now f = after_delivered p now f (apply_delta d.sequence d.bids d.asks now f.book)

abbrev pub follows_some : Option ℕ → ℕ → Bool
follows_some none sequence = false
follows_some (some last) sequence = sequence == last + 1

-- A delta before any snapshot, after the attempt to get one.
unfoldable pub deliver_first : Delta → Provider → Time → Done × Feed → Done × Feed
unfolding deliver drop_book
deliver_first d p now (err e, f) = (err e, f)
deliver_first d p now (ok _, f) =
    if follows_some f.book.sequence d.sequence
    then deliver d p now f
    else (err sequence_gap, drop_book unhealthy now f)

abbrev pub is_resyncing : MarketDataStatus → Bool
is_resyncing resyncing = true
is_resyncing _ = false

abbrev pub is_none {ℓ} : {A : Type ℓ} → Option A → Bool
is_none none = true
is_none (some a) = false

unfoldable pub ingest_delta : Delta → Provider → Time → Feed → Done × Feed
unfolding deliver deliver_first resync
ingest_delta d p now f =
    if is_resyncing f.book.status
    then (ok tt, record f { buffer = f.buffer ++ d ∷ [] })
    else if is_none f.book.sequence
    then deliver_first d p now (resync p now f)
    else deliver d p now f

abbrev pub is_healthy_feed : Feed → Bool
is_healthy_feed f = is_status_healthy f.status && is_status_healthy f.book.status

unfoldable pub is_healthy : Option Feed → Bool
is_healthy none = false
is_healthy (some f) = is_healthy_feed f

-- A book of the future is as fresh as one of this moment.
abbrev pub young : Time → Time → Option Time → Bool
young max_age now none = false
young max_age now (some t) = leb (now - t) max_age

unfoldable pub is_fresh : Time → Time → Option Feed → Bool
is_fresh max_age now none = false
is_fresh max_age now (some f) = is_healthy_feed f && young max_age now f.book.updated_at
