-- ===== src/Tests/Feeds.antt =====
-- Feeds: a snapshot with buffered deltas, with and without a gap, and a healthy feed.
use crypto_auto_trading_syst.Base.{
  ℕ, ◌≡◌, refl, true, false, none, some, List, [], ◌∷◌, ◌++◌, err, sequence_gap, All,
}
use crypto_auto_trading_syst.Int.{pos}
use crypto_auto_trading_syst.MarketData.Book.{
  Change, new_book, resyncing, upsert, upsert_sides, apply_snapshot, apply_delta,
}
use crypto_auto_trading_syst.MarketData.Service.{
  Delta, Feed, ensure_symbol, a_snapshot, Provider, replay, replay_step, next_or, replay_failed,
  drop_book, after_applied, ingest_snapshot, ingest_delta, deliver, deliver_first, after_delivered,
  delta_failed, handle_gap, resync, answered, is_healthy, is_none,
}
use crypto_auto_trading_syst.MarketData.Service.Sequence.{HasSequence}
use crypto_auto_trading_syst.MarketData.Service.Feeds.{
  Message, delta, handle, handle_all, AnswersWell, is_healthy-sequence,
}
use crypto_auto_trading_syst.MarketData.Service.Replay.{
  contiguous, last_sequence, bids_of, asks_of, Replayed, ingest_snapshot-Replayed,
}

abbrev one : ℕ → ℕ → Change
one price quantity = record { price = pos price; quantity = pos quantity }

abbrev at_seven : Delta
at_seven = record { sequence = 7; bids = one 99 5 ∷ one 98 2 ∷ []; asks = one 101 3 ∷ [] }

abbrev at_eight : Delta
at_eight = record { sequence = 8; bids = one 99 0 ∷ []; asks = one 102 4 ∷ [] }

abbrev at_ten : Delta
at_ten = record { sequence = 10; bids = []; asks = one 103 1 ∷ [] }

-- A feed that is resyncing, with a buffered delta.
abbrev waiting : Feed
waiting = record {
  book = record new_book { status = resyncing };
  status = resyncing;
  buffer = at_eight ∷ [];
  errors = 0;
}

-- A delta that is older than the snapshot.
abbrev late : Feed
late = record waiting { buffer = at_seven ∷ at_eight ∷ [] }

eight_follows : contiguous 7 waiting.buffer ≡ true
unfolding contiguous
eight_follows = refl

seven_is_late : contiguous 7 late.buffer ≡ false
unfolding contiguous
seven_is_late = refl

late_raises : (ingest_snapshot at_seven 50 late).0 ≡ err sequence_gap
unfolding ingest_snapshot after_applied apply_snapshot upsert_sides upsert replay next_or
    replay_step apply_delta replay_failed
late_raises = refl

ingest_snapshot-Replayed_example :
    Replayed
      (contiguous 7 waiting.buffer)
      (last_sequence 7 waiting.buffer)
      (at_seven.bids ++ bids_of waiting.buffer)
      (at_seven.asks ++ asks_of waiting.buffer)
      (ingest_snapshot at_seven 50 waiting)
ingest_snapshot-Replayed_example =
    ingest_snapshot-Replayed at_seven 50 waiting ((refl, (refl, tt)), (refl, tt))
      (((refl, tt), (refl, tt)), tt)

abbrev provider : Provider
provider = record { answer = a_snapshot at_seven; meanwhile = at_eight ∷ [] }

-- The first delta makes the feed ask for a snapshot; the last one leaves a gap.
abbrev messages : List Message
messages =
    delta (record at_eight { sequence = 9 }) provider 60
    ∷ delta at_ten provider 61
    ∷ delta (record at_ten { sequence = 12 }) provider 62
    ∷ []

messages_good : All AnswersWell messages
unfolding AnswersWell HasSequence
messages_good = (tt, (tt, (tt, tt)))

healthy_now : is_healthy (some (handle_all messages (ensure_symbol none))) ≡ true
unfolding is_healthy handle_all handle ensure_symbol ingest_delta deliver deliver_first
    after_delivered delta_failed handle_gap resync answered ingest_snapshot after_applied
    apply_snapshot upsert_sides upsert replay next_or replay_step apply_delta replay_failed
    drop_book
healthy_now = refl

is_healthy-sequence_example :
    is_none (handle_all messages (ensure_symbol none)).book.sequence ≡ false
is_healthy-sequence_example = is_healthy-sequence messages messages_good healthy_now
