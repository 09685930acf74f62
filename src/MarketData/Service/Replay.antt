-- ===== src/MarketData/Service/Replay.antt =====
-- src/crypto_trader/market_data/service.py: what a snapshot makes of the deltas buffered before it.
use crypto_auto_trading_syst.Base.{
  ℕ, ◌≡◌, refl, ap, sym, Bool, true, false, ◌&&◌, none, some, List, [], ◌∷◌, ◌++◌, All, Done, ok,
  err, sequence_gap, arith, Bool-cases, inl, inr, ◌+◌, ◌==◌,
}
use crypto_auto_trading_syst.Int.{pos}
use crypto_auto_trading_syst.Decimal.{Decimal}
use crypto_auto_trading_syst.Domain.Models.{Time}
use crypto_auto_trading_syst.MarketData.Book.{
  MarketDataStatus, healthy, Change, OrderBook, Levels, upsert, upsert_sides, after_bids,
  after_delta, apply_snapshot, apply_delta, follows, invalidate,
}
use crypto_auto_trading_syst.MarketData.Book.Depth.{
  quantity_at, quantity_after, IsValid, upsert-returns, upsert-quantity, quantity_after-append,
}
use crypto_auto_trading_syst.MarketData.Service.{
  Delta, Feed, replay_step, next_or, replay_failed, replay, after_applied, ingest_snapshot,
  is_healthy_feed, drop_book, set_book, set_status,
}

-- The specification of a book in sequence: its number, and what each side offers at each price.
pub record Shows (n : ℕ) (bids asks : List Change) (b : OrderBook) : Type 0 where
  pub number : b.sequence ≡ some n
  pub bid_depth : (price : Decimal) → quantity_at b.bids price ≡ quantity_after bids price (pos 0)
  pub ask_depth : (price : Decimal) → quantity_at b.asks price ≡ quantity_after asks price (pos 0)

-- No level of the delta is negative.
abbrev pub IsValidDelta : Delta → Type 0
IsValidDelta d = IsValid d.bids × IsValid d.asks

-- All changes of the deltas to one side, in order.
abbrev pub bids_of : List Delta → List Change
bids_of [] = []
bids_of (d ∷ ds) = d.bids ++ bids_of ds

abbrev pub asks_of : List Delta → List Change
asks_of [] = []
asks_of (d ∷ ds) = d.asks ++ asks_of ds

-- Whether the deltas go on from a sequence number without a gap.
unfoldable pub contiguous : ℕ → List Delta → Bool
contiguous n [] = true
contiguous n (d ∷ ds) = d.sequence == n + 1 && contiguous (n + 1) ds

abbrev pub last_sequence : ℕ → List Delta → ℕ
last_sequence n [] = n
last_sequence n (d ∷ ds) = last_sequence (n + 1) ds

after_bids-both :
    (r s : Done × Levels) (b : OrderBook)
    → r.0 ≡ ok tt
    → s.0 ≡ ok tt
    → after_bids r s b ≡ (ok tt, record b { bids = r.1; asks = s.1 })
after_bids-both (err e, bids) s b h k = cc
after_bids-both (ok _, bids) (d, asks) b h k = rw k refl

upsert_sides-valid :
    (bids asks : List Change) (b : OrderBook)
    → IsValid bids
    → IsValid asks
    → upsert_sides bids asks b
      ≡ (ok tt, record b { bids = (upsert bids b.bids).1; asks = (upsert asks b.asks).1 })
unfolding upsert_sides
upsert_sides-valid bids asks b v w =
    after_bids-both (upsert bids b.bids) (upsert asks b.asks) b (upsert-returns bids b.bids v)
      (upsert-returns asks b.asks w)

-- The call returned, and its book shows the specified sides with the specified status.
abbrev pub Returned : ℕ → List Change → List Change → MarketDataStatus → Done × OrderBook → Type 0
Returned n bids asks status r = (r.0 ≡ ok tt) × Shows n bids asks r.1 × (r.1.status ≡ status)

apply_snapshot-Returned :
    (n : ℕ) (bids asks : List Change) (now : Time) (b : OrderBook)
    → IsValid bids
    → IsValid asks
    → Returned n bids asks healthy (apply_snapshot n bids asks now b)
unfolding apply_snapshot quantity_at
apply_snapshot-Returned n bids asks now b v w =
    rw (upsert_sides-valid bids asks (record b { sequence = some n; bids = []; asks = [] }) v w) (
      refl,
      record {
        number = refl;
        bid_depth = λ price. upsert-quantity bids [] price v;
        ask_depth = λ price. upsert-quantity asks [] price w;
      },
      refl,
    )

depth-append :
    (us vs : List Change) (ls : Levels) (price : Decimal)
    → IsValid vs
    → quantity_at ls price ≡ quantity_after us price (pos 0)
    → quantity_at (upsert vs ls).1 price ≡ quantity_after (us ++ vs) price (pos 0)
depth-append us vs ls price v h =
    rw (upsert-quantity vs ls price v, h, quantity_after-append us vs price (pos 0))

apply_delta-valid :
    (d : Delta) (now : Time) (b : OrderBook) {n : ℕ}
    → IsValidDelta d
    → (d.sequence == n + 1) ≡ true
    → b.sequence ≡ some n
    → apply_delta d.sequence d.bids d.asks now b ≡ (
      ok tt,
      record b {
        sequence = some d.sequence;
        bids = (upsert d.bids b.bids).1;
        asks = (upsert d.asks b.asks).1;
        updated_at = some now;
      },
    )
unfolding apply_delta
apply_delta-valid d now b v next h =
    let good : follows b.sequence d.sequence ≡ true = rw h next in
    rw good (ap (after_delta d.sequence now) (upsert_sides-valid d.bids d.asks b v.0 v.1))

apply_delta-Returned :
    (d : Delta) (now : Time) (b : OrderBook) {n : ℕ} {bids asks : List Change}
    → IsValidDelta d
    → (d.sequence == n + 1) ≡ true
    → Shows n bids asks b
    → Returned
        (n + 1)
        (bids ++ d.bids)
        (asks ++ d.asks)
        b.status
        (apply_delta d.sequence d.bids d.asks now b)
apply_delta-Returned d now b {n = n} {bids = bids} {asks = asks} v next s =
    rw (apply_delta-valid d now b {n = n} v next s.number) (
      refl,
      record {
        number = ground arith;
        bid_depth = λ price. depth-append bids d.bids b.bids price v.0 (s.bid_depth price);
        ask_depth = λ price. depth-append asks d.asks b.asks price v.1 (s.ask_depth price);
      },
      refl,
    )

-- What the replay of deltas from a book comes to, with and without a gap among them.
abbrev pub Replayed : Bool → ℕ → List Change → List Change → Done × Feed → Type 0
Replayed true n bids asks r =
    (r.0 ≡ ok tt) × (is_healthy_feed r.1 ≡ true) × Shows n bids asks r.1.book
Replayed false n bids asks r =
    (r.0 ≡ err sequence_gap) × (is_healthy_feed r.1 ≡ false) × (r.1.book.sequence ≡ none)

append_nothing : (us : List Change) → us ++ [] ≡ us
append_nothing [] = refl
append_nothing (u ∷ us) = rw (append_nothing us)

append_twice : (us vs ws : List Change) → (us ++ vs) ++ ws ≡ us ++ (vs ++ ws)
append_twice [] vs ws = refl
append_twice (u ∷ us) vs ws = rw (append_twice us vs ws)

next_or-returned :
    (next : Feed → Done × Feed) (now : Time) (r : Done × Feed)
    → r.0 ≡ ok tt
    → next_or next now r ≡ next r.1
unfolding next_or
next_or-returned next now (ok _, f) h = refl
next_or-returned next now (err e, f) h = cc

apply_delta-gap :
    (d : Delta) (now : Time) (b : OrderBook) {n : ℕ}
    → b.sequence ≡ some n
    → (d.sequence == n + 1) ≡ false
    → apply_delta d.sequence d.bids d.asks now b ≡ (err sequence_gap, b)
unfolding apply_delta
apply_delta-gap d now b h gap = rw (h, gap)

replay-Replayed :
    (now : Time) (ds : List Delta) (f : Feed) {n : ℕ} {bids asks : List Change}
    → All IsValidDelta ds
    → Shows n bids asks f.book
    → is_healthy_feed f ≡ true
    → Replayed
        (contiguous n ds)
        (last_sequence n ds)
        (bids ++ bids_of ds)
        (asks ++ asks_of ds)
        (replay now ds f)
unfolding replay contiguous replay_step next_or replay_failed drop_book invalidate
replay-Replayed now [] f {bids = bids} {asks = asks} v s h =
    rw (append_nothing bids, append_nothing asks) (refl, h, s)
replay-Replayed now (d ∷ ds) f {n = n} {bids = bids} {asks = asks} v s h =
    elim (Bool-cases (d.sequence == n + 1)) [
      | inl next ↦
          let step = apply_delta-Returned d now f.book v.0 next s in
          rw
            (
              next,
              next_or-returned (replay now ds) now (replay_step now d ds f) step.0,
              sym (append_twice bids d.bids (bids_of ds)),
              sym (append_twice asks d.asks (asks_of ds)),
            )
            (replay-Replayed now ds (replay_step now d ds f).1 v.1 step.1 (ground arith))
      | inr gap ↦ rw (gap, apply_delta-gap d now f.book s.number gap) (refl, refl, refl)
    ]

after_applied-returned :
    (now : Time) (f : Feed) (r : Done × OrderBook)
    → r.0 ≡ ok tt
    → after_applied now f r ≡ replay now f.buffer (set_status healthy (set_book r.1 f))
unfolding after_applied
after_applied-returned now f (ok _, b) h = refl
after_applied-returned now f (err e, b) h = cc

-- A snapshot, if it and the buffered deltas have no negative level: where the buffered deltas go on
-- from its number without a gap, the call returns, the feed is healthy, the book has the last
-- number, and each side offers at each price what the last of all the changes to it says; where
-- they do not, also where the first of them is older than the snapshot, the call raises a gap, the
-- feed is unhealthy and the book has no number.
pub ingest_snapshot-Replayed :
    (s : Delta) (now : Time) (f : Feed)
    → IsValidDelta s
    → All IsValidDelta f.buffer
    → Replayed
        (contiguous s.sequence f.buffer)
        (last_sequence s.sequence f.buffer)
        (s.bids ++ bids_of f.buffer)
        (s.asks ++ asks_of f.buffer)
        (ingest_snapshot s now f)
unfolding ingest_snapshot
ingest_snapshot-Replayed s now f v w =
    let applied = apply_snapshot s.sequence s.bids s.asks now f.book in
    let first = apply_snapshot-Returned s.sequence s.bids s.asks now f.book v.0 v.1 in
    rw (after_applied-returned now f applied first.0) (
      replay-Replayed now f.buffer (set_status healthy (set_book applied.1 f)) w
        (record {
          number = first.1.number;
          bid_depth = first.1.bid_depth;
          ask_depth = first.1.ask_depth;
        })
        refl)
