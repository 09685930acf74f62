-- ===== src/MarketData/Book/Best.antt =====
-- src/crypto_trader/market_data/orderbook.py: the best level of each side.
use mathlib.Core.Path.{subst}
use crypto_auto_trading_syst.Base.{
  ◌≡◌, ◌⊎◌, refl, sym, Bool, true, false, Option, none, some, [], ◌∷◌, All, insert_by, sort_by,
  arith, if◌then◌else◌, inl, inr,
}
use crypto_auto_trading_syst.MarketData.Book.{
  BookLevel, Levels, OrderBook, first, not_above, not_below, best_bid, best_ask,
}

-- The level stands before every level of a side, by a test.
abbrev pub IsBest : (BookLevel → BookLevel → Bool) → BookLevel → Levels → Type 0
IsBest before l ls = All (λ x. before l x ≡ true) ls

abbrev pub IsAmong : BookLevel → Levels → Type 0
IsAmong l [] = ⊥
IsAmong l (x ∷ xs) = (x ≡ l) ⊎ IsAmong l xs

-- What a side says of its best level; nothing is best of no levels.
abbrev pub IsBestOf : (BookLevel → BookLevel → Bool) → Levels → Option BookLevel → Type 0
IsBestOf before ls none = ls ≡ []
IsBestOf before ls (some l) = IsBest before l ls × IsAmong l ls

-- A total preorder, as a test.
record IsOrder (before : BookLevel → BookLevel → Bool) : Type 0 where
  same : (a : BookLevel) → before a a ≡ true
  total : (a b : BookLevel) → before a b ≡ false → before b a ≡ true
  through : (a b c : BookLevel) → before a b ≡ true → before b c ≡ true → before a c ≡ true

module _ (before : BookLevel → BookLevel → Bool) where
  better : BookLevel → Option BookLevel → BookLevel
  better x none = x
  better x (some y) = if before x y then x else y

  first-insert :
      (x : BookLevel) (ys : Levels) → first (insert_by before x ys) ≡ some (better x (first ys))
  unfolding better
  first-insert x [] = refl
  first-insert x (y ∷ ys) = ground arith

  All-through :
      IsOrder before
      → (l m : BookLevel) (ls : Levels) → before l m ≡ true
      → IsBest before m ls
      → IsBest before l ls
  All-through o l m [] h a = tt
  All-through o l m (x ∷ xs) h a = (o.through l m x h a.0, All-through o l m xs h a.1)

  better-IsBestOf :
      IsOrder before
      → (x : BookLevel) (xs : Levels) (m : Option BookLevel) → IsBestOf before xs m
      → IsBestOf before (x ∷ xs) (some (better x m))
  unfolding better
  better-IsBestOf o x xs none h =
      subst (λ ys. IsBestOf before (x ∷ ys) (some x)) (sym h) ((o.same x, tt), inl refl)
  better-IsBestOf o x xs (some m) h = go (before x m) refl
    where
      go : (b : Bool) → before x m ≡ b → IsBestOf before (x ∷ xs) (some (if b then x else m))
      go true e = ((o.same x, All-through o x m xs e h.0), inl refl)
      go false e = ((o.total x m e, h.0), inr h.1)

  sort-IsBestOf : IsOrder before → (ls : Levels) → IsBestOf before ls (first (sort_by before ls))
  sort-IsBestOf o [] = refl
  sort-IsBestOf o (x ∷ xs) =
      subst (IsBestOf before (x ∷ xs)) (sym (first-insert x (sort_by before xs)))
        (better-IsBestOf o x xs (first (sort_by before xs)) (sort-IsBestOf o xs))

not_above-IsOrder : IsOrder not_above
not_above-IsOrder = record {
  same = λ a. ground arith;
  total = λ a b h. ground arith;
  through = λ a b c h k. ground arith;
}

not_below-IsOrder : IsOrder not_below
not_below-IsOrder = record {
  same = λ a. ground arith;
  total = λ a b h. ground arith;
  through = λ a b c h k. ground arith;
}

pub best_ask-IsBestOf : (b : OrderBook) → IsBestOf not_above b.asks (best_ask b)
unfolding best_ask
best_ask-IsBestOf b = sort-IsBestOf not_above not_above-IsOrder b.asks

pub best_bid-IsBestOf : (b : OrderBook) → IsBestOf not_below b.bids (best_bid b)
unfolding best_bid
best_bid-IsBestOf b = sort-IsBestOf not_below not_below-IsOrder b.bids
