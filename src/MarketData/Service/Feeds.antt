-- ===== src/MarketData/Service/Feeds.antt =====
-- src/crypto_trader/market_data/service.py: a feed under any messages.
use crypto_auto_trading_syst.Base.{◌≡◌, refl, true, false, none, some, List, [], ◌∷◌, All, arith}
use crypto_auto_trading_syst.Domain.Models.{Time}
use crypto_auto_trading_syst.MarketData.Service.{
  Delta, Feed, Provider, ensure_symbol, ingest_snapshot, ingest_delta, resync, is_none, is_healthy,
}
use crypto_auto_trading_syst.MarketData.Service.Sequence.{
  IsSound, IsGood-IsSound, HasSequence, ingest_snapshot-IsGood, answered-IsGood,
  ingest_delta-IsSound,
}

-- What a feed is told, each with its clock.
pub data Message : Type 0 where
  snapshot : Delta → Time → Message
  delta : Delta → Provider → Time → Message
  resynchronize : Provider → Time → Message

unfoldable pub AnswersWell : Message → Type 0
unfolding HasSequence
AnswersWell (snapshot s now) = Unit
AnswersWell (delta d p now) = HasSequence p.answer
AnswersWell (resynchronize p now) = HasSequence p.answer

unfoldable pub handle : Message → Feed → Feed
unfolding ingest_snapshot ingest_delta resync
handle (snapshot s now) f = (ingest_snapshot s now f).1
handle (delta d p now) f = (ingest_delta d p now f).1
handle (resynchronize p now) f = (resync p now f).1

-- The feed after messages, those that raised included.
unfoldable pub handle_all : List Message → Feed → Feed
unfolding handle
handle_all [] f = f
handle_all (m ∷ ms) f = handle_all ms (handle m f)

handle-IsSound : (m : Message) (f : Feed) → AnswersWell m → IsSound f → IsSound (handle m f)
unfolding handle AnswersWell resync
handle-IsSound (snapshot s now) f a h =
    IsGood-IsSound (ingest_snapshot s now f) (ingest_snapshot-IsGood s now f)
handle-IsSound (delta d p now) f a h = ingest_delta-IsSound d p now f a h
handle-IsSound (resynchronize p now) f a h =
    IsGood-IsSound (resync p now f) (answered-IsGood p.answer p.meanwhile now f a)

handle_all-IsSound :
    (ms : List Message) (f : Feed) → All AnswersWell ms → IsSound f → IsSound (handle_all ms f)
unfolding handle_all
handle_all-IsSound [] f a h = h
handle_all-IsSound (m ∷ ms) f a h =
    handle_all-IsSound ms (handle m f) a.1 (handle-IsSound m f a.0 h)

-- Whatever snapshots, deltas and resynchronizations a symbol's feed gets from its first use on,
-- with gaps, refused levels and failing providers among them, if it then reports that it is
-- healthy, its book has a sequence number, where a provider that answers with a book of its own
-- gives that number too.
pub is_healthy-sequence :
    (ms : List Message)
    → All AnswersWell ms
    → is_healthy (some (handle_all ms (ensure_symbol none))) ≡ true
    → is_none (handle_all ms (ensure_symbol none)).book.sequence ≡ false
unfolding is_healthy ensure_symbol
is_healthy-sequence ms a h =
    let sound = handle_all-IsSound ms (ensure_symbol none) a refl in ground arith
