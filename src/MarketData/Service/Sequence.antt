-- ===== src/MarketData/Service/Sequence.antt =====
-- src/crypto_trader/market_data/service.py: a healthy feed has a sequence number to go on from.
use crypto_auto_trading_syst.Base.{
  ℕ, ◌≡◌, refl, true, false, not, ◌&&◌, some, List, [], ◌∷◌, Error, Done, ok, err, arith,
  Bool-cases, inl, inr, ◌∙◌,
}
use crypto_auto_trading_syst.Domain.Models.{Time}
use crypto_auto_trading_syst.MarketData.Book.{
  MarketDataStatus, is_status_healthy, unhealthy, resyncing, Change, OrderBook, upsert, Levels,
  upsert_sides, after_bids, after_snapshot, after_delta, apply_snapshot, apply_delta, follows,
  healthy, invalidate,
}
use crypto_auto_trading_syst.MarketData.Service.{
  Delta, Feed, replay_step, next_or, replay_failed, replay, ingest_snapshot, Answer, a_book,
  a_snapshot, no_provider, failed, Provider, now_healthy, answered, awaited, resync, checked,
  handle_gap, same_status, delta_failed, is_gap, after_applied, after_delivered, record_error,
  is_resyncing, deliver, deliver_first, is_none, is_healthy_feed, ingest_delta, set_book,
  set_status, follows_some, drop_book,
}

-- If the feed is healthy, its book has a sequence.
abbrev pub IsSound : Feed → Type 0
IsSound f = not (is_healthy_feed f && is_none f.book.sequence) ≡ true

-- After a call that returned, the book has a sequence; after one that raised, the feed is sound.
abbrev pub IsGood : Done × Feed → Type 0
IsGood (err e, f) = IsSound f
IsGood (ok _, f) = is_none f.book.sequence ≡ false

pub IsGood-IsSound : (r : Done × Feed) → IsGood r → IsSound r.1
IsGood-IsSound (err e, f) g = g
IsGood-IsSound (ok _, f) g = ground arith

after_bids-sequence :
    (r s : Done × Levels) (b : OrderBook) → (after_bids r s b).1.sequence ≡ b.sequence
after_bids-sequence (err e, bids) s b = refl
after_bids-sequence (ok _, bids) (d, asks) b = refl

after_snapshot-sequence :
    (now : Time) (r : Done × OrderBook) → (after_snapshot now r).1.sequence ≡ r.1.sequence
after_snapshot-sequence now (err e, b) = refl
after_snapshot-sequence now (ok _, b) = refl

-- The book that a snapshot leaves has a sequence, whether its levels were accepted or not.
apply_snapshot-sequence :
    (n : ℕ) (bids asks : List Change) (now : Time) (b : OrderBook)
    → (apply_snapshot n bids asks now b).1.sequence ≡ some n
unfolding apply_snapshot upsert_sides
apply_snapshot-sequence n bids asks now b =
    let start = record b { sequence = some n; bids = []; asks = [] } in
    after_snapshot-sequence now (upsert_sides bids asks start)
    ∙ after_bids-sequence (upsert bids []) (upsert asks []) start

after_delta-sequence :
    (n : ℕ) (now : Time) (r : Done × OrderBook)
    → is_none r.1.sequence ≡ false
    → is_none (after_delta n now r).1.sequence ≡ false
after_delta-sequence n now (err e, b) h = h
after_delta-sequence n now (ok _, b) h = refl

apply_delta-sequence :
    (n : ℕ) (bids asks : List Change) (now : Time) (b : OrderBook)
    → is_none b.sequence ≡ false
    → is_none (apply_delta n bids asks now b).1.sequence ≡ false
unfolding apply_delta upsert_sides
apply_delta-sequence n bids asks now b h = elim (Bool-cases (follows b.sequence n)) [
  | inl good ↦ rw good (
      after_delta-sequence n now (upsert_sides bids asks b)
        (rw (after_bids-sequence (upsert bids b.bids) (upsert asks b.asks) b) h))
  | inr bad ↦ rw bad h
]

drop_book-IsSound :
    (status : MarketDataStatus) (now : Time) (f : Feed)
    → is_status_healthy status ≡ false
    → IsSound (drop_book status now f)
unfolding drop_book invalidate
drop_book-IsSound status now f h = ground arith

replay_failed-IsSound :
    (e : Error) (now : Time) (f : Feed)
    → is_none f.book.sequence ≡ false
    → IsSound (replay_failed e now f).1
unfolding replay_failed
replay_failed-IsSound e now f h = elim (Bool-cases (is_gap e)) [
  | inl gap ↦ rw gap (drop_book-IsSound unhealthy now f refl)
  | inr other ↦ rw other (ground arith)
]

next_or-IsGood :
    (next : Feed → Done × Feed) (now : Time) (r : Done × Feed)
    → ((f : Feed) → is_none f.book.sequence ≡ false → IsGood (next f))
    → is_none r.1.book.sequence ≡ false
    → IsGood (next_or next now r)
unfolding next_or
next_or-IsGood next now (ok _, f) good h = good f h
next_or-IsGood next now (err e, f) good h = replay_failed-IsSound e now f h

replay-IsGood :
    (now : Time) (ds : List Delta) (f : Feed)
    → is_none f.book.sequence ≡ false
    → IsGood (replay now ds f)
unfolding replay replay_step
replay-IsGood now [] f h = h
replay-IsGood now (d ∷ ds) f h =
    next_or-IsGood (replay now ds) now (replay_step now d ds f) (replay-IsGood now ds)
      (apply_delta-sequence d.sequence d.bids d.asks now f.book h)

after_applied-IsGood :
    (now : Time) (f : Feed) (r : Done × OrderBook)
    → is_none r.1.sequence ≡ false
    → IsGood (after_applied now f r)
unfolding after_applied
after_applied-IsGood now f (err e, b) h = ground arith
after_applied-IsGood now f (ok _, b) h =
    replay-IsGood now f.buffer (set_status healthy (set_book b f)) h

pub ingest_snapshot-IsGood : (s : Delta) (now : Time) (f : Feed) → IsGood (ingest_snapshot s now f)
unfolding ingest_snapshot
ingest_snapshot-IsGood s now f =
    after_applied-IsGood now f (apply_snapshot s.sequence s.bids s.asks now f.book)
      (rw (apply_snapshot-sequence s.sequence s.bids s.asks now f.book) refl)

-- A provider that answers with a book of its own gives its sequence too.
unfoldable pub HasSequence : Answer → Type 0
HasSequence (a_book b) = is_none b.sequence ≡ false
HasSequence _ = Unit

now_healthy-IsGood : (r : Done × Feed) → IsGood r → IsGood (now_healthy r)
now_healthy-IsGood (err e, f) g = g
now_healthy-IsGood (ok _, f) g = g

pub answered-IsGood :
    (a : Answer) (ds : List Delta) (now : Time) (f : Feed)
    → HasSequence a
    → IsGood (answered a ds now f)
unfolding answered HasSequence
answered-IsGood no_provider ds now f h = refl
answered-IsGood failed ds now f h = refl
answered-IsGood (a_book b) ds now f h = h
answered-IsGood (a_snapshot s) ds now f h =
    now_healthy-IsGood (ingest_snapshot s now (awaited ds f))
      (ingest_snapshot-IsGood s now (awaited ds f))

checked-IsGood : (r : Done × Feed) → IsGood r → IsGood (checked r)
checked-IsGood (err e, f) g = g
checked-IsGood (ok _, f) g = elim (Bool-cases (is_status_healthy f.book.status)) [
  | inl h ↦ rw h g
  | inr h ↦ rw h (ground arith)
]

same_status-IsGood : (r : Done × Feed) → IsGood r → IsGood (same_status r)
same_status-IsGood (err e, f) g = g
same_status-IsGood (ok _, f) g = g

delta_failed-IsGood :
    (e : Error) (p : Provider) (now : Time) (f : Feed)
    → HasSequence p.answer
    → is_none f.book.sequence ≡ false
    → IsGood (delta_failed e p now f)
unfolding delta_failed handle_gap resync
delta_failed-IsGood e p now f a h = elim (Bool-cases (is_gap e)) [
  | inl gap ↦
      let g = drop_book resyncing now (record_error f) in
      rw gap (
        same_status-IsGood (handle_gap p now f)
          (checked-IsGood (resync p now g) (answered-IsGood p.answer p.meanwhile now g a)))
  | inr other ↦ rw other (ground arith)
]

after_delivered-IsGood :
    (p : Provider) (now : Time) (f : Feed) (r : Done × OrderBook)
    → HasSequence p.answer
    → is_none r.1.sequence ≡ false
    → IsGood (after_delivered p now f r)
unfolding after_delivered
after_delivered-IsGood p now f (ok _, b) a h = h
after_delivered-IsGood p now f (err e, b) a h = delta_failed-IsGood e p now (set_book b f) a h

deliver-IsGood :
    (d : Delta) (p : Provider) (now : Time) (f : Feed)
    → HasSequence p.answer
    → is_none f.book.sequence ≡ false
    → IsGood (deliver d p now f)
unfolding deliver
deliver-IsGood d p now f a h =
    after_delivered-IsGood p now f (apply_delta d.sequence d.bids d.asks now f.book) a
      (apply_delta-sequence d.sequence d.bids d.asks now f.book h)

deliver_first-IsGood :
    (d : Delta) (p : Provider) (now : Time) (r : Done × Feed)
    → HasSequence p.answer
    → IsGood r
    → IsGood (deliver_first d p now r)
unfolding deliver_first
deliver_first-IsGood d p now (err e, f) a g = g
deliver_first-IsGood d p now (ok _, f) a g =
    elim (Bool-cases (follows_some f.book.sequence d.sequence)) [
      | inl next ↦ rw next (deliver-IsGood d p now f a g)
      | inr gap ↦ rw gap (drop_book-IsSound unhealthy now f refl)
    ]

pub ingest_delta-IsSound :
    (d : Delta) (p : Provider) (now : Time) (f : Feed)
    → HasSequence p.answer
    → IsSound f
    → IsSound (ingest_delta d p now f).1
unfolding ingest_delta resync
ingest_delta-IsSound d p now f a h = elim (Bool-cases (is_resyncing f.book.status)) [
  | inl busy ↦ rw busy h
  | inr free ↦ elim (Bool-cases (is_none f.book.sequence)) [
    | inl none_yet ↦
        rw (free, none_yet)
          (IsGood-IsSound (deliver_first d p now (resync p now f)) (
            deliver_first-IsGood d p now (resync p now f) a
              (answered-IsGood p.answer p.meanwhile now f a)))
    | inr there ↦
        rw (free, there) (IsGood-IsSound (deliver d p now f) (deliver-IsGood d p now f a there))
  ]
]
