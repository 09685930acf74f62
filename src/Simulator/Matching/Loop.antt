-- ===== src/Simulator/Matching/Loop.antt =====
-- src/crypto_trader/simulator/exchange.py: the loop of `_match_order` ends.
use mathlib.Core.Path.{subst}
use crypto_auto_trading_syst.Base.{
  ℕ, zero, suc, ◌≡◌, ◌⊎◌, ◌<◌, ◌≤◌, refl, Bool, true, false, not, Option, none, some, [], ◌∷◌, ◌+◌,
  length, select, arith, Bool-cases, inl, inr, Result, err, ok, if◌then◌else◌,
}
use crypto_auto_trading_syst.Int.{eqb_ℤ}
use crypto_auto_trading_syst.Decimal.{Decimal, Context, sub, mul, min, is_positive, is_zero}
use crypto_auto_trading_syst.Decimal.Laws.{sub_self}
use crypto_auto_trading_syst.Domain.Enums.{OrderSide, buy, sell}
use crypto_auto_trading_syst.Domain.Models.{Order, Instrument}
use crypto_auto_trading_syst.MarketData.Book.{
  BookLevel, Levels, OrderBook, has_price, pop_level, not_above, not_below,
}
use crypto_auto_trading_syst.MarketData.Book.Best.{
  IsAmong, IsBestOf, best_ask-IsBestOf, best_bid-IsBestOf,
}
use crypto_auto_trading_syst.Simulator.Matching.{
  Wallet, Matching, best_level, beyond, limit_of, change_side, Turn, break, continue, raise,
  Matched, out_of_fuel, use_level, count_fill, take_level, with_fee, fill_level, on_level,
  match_turn, go_on, match_loop, levels_of, match_order, quantize_fee,
}

abbrev pub is_out_of_fuel : Matched → Bool
is_out_of_fuel (out_of_fuel m) = true
is_out_of_fuel _ = false

eqb_same : (a : Decimal) → eqb_ℤ a a ≡ true
eqb_same a = ground arith

select-length : (p : BookLevel → Bool) (ls : Levels) → length (select p ls) ≤ length ls
select-length p [] = ground arith
select-length p (l ∷ ls) = ground (arith, select-length p ls)

pop_level-length :
    (l : BookLevel) (ls : Levels) → IsAmong l ls → length (pop_level l.price ls) < length ls
pop_level-length l [] h = absurd h
pop_level-length l (x ∷ xs) (inl e) =
    let same : eqb_ℤ x.price l.price ≡ true = rw e (eqb_same l.price) in
    ground (arith, select-length (λ y. not (has_price l.price y)) xs)
pop_level-length l (x ∷ xs) (inr h) = ground (arith, pop_level-length l xs h)

pub best_level-IsAmong :
    (side : OrderSide) (b : OrderBook) (l : BookLevel)
    → best_level side b ≡ some l
    → IsAmong l (levels_of side b)
unfolding best_level
best_level-IsAmong buy b l h = (subst (λ o. IsBestOf not_above b.asks o) h (best_ask-IsBestOf b)).1
best_level-IsAmong sell b l h = (subst (λ o. IsBestOf not_below b.bids o) h (best_bid-IsBestOf b)).1

-- What is left to do: nothing, or the levels and one turn more.
measure : Matching → ℕ
measure m = if is_positive m.remaining then suc (length (levels_of m.order.side m.book)) else 0

-- A turn that goes on leaves less to do.
abbrev Advances : Matching → Turn → Type 0
Advances m (break n) = Unit
Advances m (continue n) = measure n < measure m
Advances m (raise e n) = Unit

pub change_side-levels :
    (side : OrderSide) (f : Levels → Levels) (b : OrderBook)
    → levels_of side (change_side side f b) ≡ f (levels_of side b)
change_side-levels buy f b = refl
change_side-levels sell f b = refl

min-either : (a b : Decimal) → eqb_ℤ (min a b) b ≡ false → min a b ≡ a
min-either a b h = ground (arith, eqb_same b)

fewer :
    (m n : Matching)
    → is_positive m.remaining ≡ true
    → (is_positive n.remaining ≡ false)
      ⊎ (length (levels_of n.order.side n.book) < length (levels_of m.order.side m.book))
    → measure n < measure m
unfolding measure
fewer m n h k = ground arith

module _ (c : Context) where
  use_level-length :
      (qty : Decimal) (l : BookLevel) (ls : Levels)
      → eqb_ℤ qty l.quantity ≡ true
      → IsAmong l ls
      → length (use_level c qty l ls) < length ls
  use_level-length qty l ls h k = rw h (pop_level-length l ls k)

  used-length :
      (side : OrderSide) (qty : Decimal) (l : BookLevel) (b : OrderBook)
      → eqb_ℤ qty l.quantity ≡ true
      → IsAmong l (levels_of side b)
      → length (levels_of side (change_side side (use_level c qty l) b)) < length (levels_of side b)
  used-length buy qty l b h k = use_level-length qty l b.asks h k
  used-length sell qty l b h k = use_level-length qty l b.bids h k

  nothing_left :
      (a b : Decimal) → eqb_ℤ (min a b) b ≡ false → is_positive (sub c a (min a b)) ≡ false
  nothing_left a b h = rw (min-either a b h, sub_self c a) refl

  take_level-Advances :
      (i : Instrument) (level : BookLevel) (fee : Decimal) (m : Matching)
      → is_positive m.remaining ≡ true
      → IsAmong level (levels_of m.order.side m.book)
      → Advances m (take_level c i (min m.remaining level.quantity) level fee m)
  unfolding take_level
  take_level-Advances i level fee m h k =
      elim (Bool-cases
        (is_zero (count_fill c (min m.remaining level.quantity) m.order).filled_quantity)) [
          | inl zero_sum ↦ rw zero_sum tt
          | inr sum ↦ rw sum (
              fewer m _ h
                (elim (Bool-cases (eqb_ℤ (min m.remaining level.quantity) level.quantity)) [
                  | inl all ↦
                      inr (
                        used-length m.order.side (min m.remaining level.quantity) level m.book all
                          k)
                  | inr part ↦ inl (nothing_left m.remaining level.quantity part)
                ]))
        ]

  with_fee-Advances :
      (i : Instrument) (level : BookLevel) (fee : Result Decimal) (m : Matching)
      → is_positive m.remaining ≡ true
      → IsAmong level (levels_of m.order.side m.book)
      → Advances m (with_fee c i (min m.remaining level.quantity) level fee m)
  unfolding with_fee
  with_fee-Advances i level (err e) m h k = tt
  with_fee-Advances i level (ok fee) m h k = take_level-Advances i level fee m h k

  on_level-Advances :
      (fee_rate : Decimal) (i : Instrument) (o : Option BookLevel) (m : Matching)
      → is_positive m.remaining ≡ true
      → best_level m.order.side m.book ≡ o
      → Advances m (on_level c fee_rate i o m)
  unfolding on_level fill_level
  on_level-Advances fee_rate i none m h k = tt
  on_level-Advances fee_rate i (some level) m h k =
      elim (Bool-cases (beyond m.order.side (limit_of m.order) level.price)) [
        | inl far ↦ rw far tt
        | inr near ↦ rw near (
            with_fee-Advances i level
              (quantize_fee c (mul c (mul c level.price (min m.remaining level.quantity)) fee_rate))
              m h (best_level-IsAmong m.order.side m.book level k))
      ]

  match_turn-Advances :
      (fee_rate : Decimal) (i : Instrument) (m : Matching) → Advances m (match_turn c fee_rate i m)
  unfolding match_turn
  match_turn-Advances fee_rate i m = elim (Bool-cases (is_positive m.remaining)) [
    | inl more ↦ rw more (on_level-Advances fee_rate i (best_level m.order.side m.book) m more refl)
    | inr done ↦ rw done tt
  ]

  go_on-ends :
      (next : Matching → Matched) (fuel : ℕ) (m : Matching) (t : Turn)
      → ((n : Matching) → measure n < fuel → is_out_of_fuel (next n) ≡ false)
      → Advances m t
      → measure m < suc fuel
      → is_out_of_fuel (go_on c next t) ≡ false
  go_on-ends next fuel m (break n) all a h = refl
  go_on-ends next fuel m (continue n) all a h = all n (omega (arith, a, h))
  go_on-ends next fuel m (raise e n) all a h = refl

  match_loop-ends :
      (fuel : ℕ) (fee_rate : Decimal) (i : Instrument) (m : Matching)
      → measure m < fuel
      → is_out_of_fuel (match_loop c fuel fee_rate i m) ≡ false
  unfolding match_loop
  match_loop-ends zero fee_rate i m h = absurd (omega (arith, h))
  match_loop-ends (suc fuel) fee_rate i m h =
      go_on-ends (match_loop c fuel fee_rate i) fuel m (match_turn c fee_rate i m)
        (match_loop-ends fuel fee_rate i) (match_turn-Advances fee_rate i m) h

-- The match of any order against any book ends: it returns or raises, whatever the context rounds,
-- since each turn that goes on has used up a level of the book or has nothing left to fill.
pub match_order-ends :
    (c : Context) (fee_rate : Decimal) (i : Instrument) (o : Order) (b : OrderBook) (w : Wallet)
    → is_out_of_fuel (match_order c fee_rate i o b w) ≡ false
unfolding match_order measure
match_order-ends c fee_rate i o b w =
    match_loop-ends c (2 + length (levels_of o.side b)) fee_rate i
      (record { remaining = o.quantity; order = o; book = b; wallet = w; fills = [] })
      (ground arith)
