-- ===== src/Simulator/Matching/Prices.antt =====
-- src/crypto_trader/simulator/exchange.py: at which prices `_match_order` fills.
use mathlib.Core.Path.{subst}
use crypto_auto_trading_syst.Base.{
  ℕ, zero, suc, ◌≡◌, refl, sym, Bool, not, Option, none, some, [], ◌∷◌, ◌+◌, length, select, All,
  Bool-cases, inl, inr, Result, err, ok,
}
use crypto_auto_trading_syst.Base.Tables.{All-append}
use crypto_auto_trading_syst.Int.{eqb_ℤ}
use crypto_auto_trading_syst.Decimal.{Decimal, Context, mul, min, is_zero, is_positive}
use crypto_auto_trading_syst.Domain.Models.{Order, Instrument}
use crypto_auto_trading_syst.MarketData.Book.{BookLevel, Levels, OrderBook, has_price, put_level}
use crypto_auto_trading_syst.MarketData.Book.Best.{IsAmong}
use crypto_auto_trading_syst.Simulator.Matching.{
  Wallet, LevelFill, Matching, best_level, beyond, limit_of, use_level, Turn, break, continue,
  raise, Matched, count_fill, take_level, with_fee, fill_level, on_level, match_turn, go_on,
  match_loop, levels_of, match_order, quantize_fee,
}
use crypto_auto_trading_syst.Simulator.Matching.Limits.{matching_of}
use crypto_auto_trading_syst.Simulator.Matching.Loop.{best_level-IsAmong, change_side-levels}

module _ (Q : Decimal → Type 0) where
  abbrev pub HasPrice : BookLevel → Type 0
  HasPrice l = Q l.price

  abbrev pub IsFilledAt : LevelFill → Type 0
  IsFilledAt f = Q f.price

  IsAmong-HasPrice : (l : BookLevel) (ls : Levels) → IsAmong l ls → All HasPrice ls → HasPrice l
  IsAmong-HasPrice l [] h a = absurd h
  IsAmong-HasPrice l (x ∷ xs) (inl e) a = subst HasPrice e a.0
  IsAmong-HasPrice l (x ∷ xs) (inr h) a = IsAmong-HasPrice l xs h a.1

  All-select : (p : BookLevel → Bool) (ls : Levels) → All HasPrice ls → All HasPrice (select p ls)
  All-select p [] a = tt
  All-select p (l ∷ ls) a = elim (Bool-cases (p l)) [
    | inl kept ↦ rw kept (a.0, All-select p ls a.1)
    | inr dropped ↦ rw dropped (All-select p ls a.1)
  ]

  All-put_level :
      (l : BookLevel) (ls : Levels) → HasPrice l → All HasPrice ls → All HasPrice (put_level l ls)
  All-put_level l [] h a = (h, tt)
  All-put_level l (x ∷ xs) h a = elim (Bool-cases (has_price l.price x)) [
    | inl same ↦ rw same (h, a.1)
    | inr other ↦ rw other (a.0, All-put_level l xs h a.1)
  ]

  -- The levels that are left on the order's side and the fills all have such prices.
  abbrev Keeps : Matching → Type 0
  Keeps m = All HasPrice (levels_of m.order.side m.book) × All IsFilledAt m.fills

  abbrev KeepsTurn : Turn → Type 0
  KeepsTurn (break m) = Keeps m
  KeepsTurn (continue m) = Keeps m
  KeepsTurn (raise e m) = Keeps m

  module _ (c : Context) where
    use_level-HasPrice :
        (qty : Decimal) (l : BookLevel) (ls : Levels)
        → HasPrice l
        → All HasPrice ls
        → All HasPrice (use_level c qty l ls)
    use_level-HasPrice qty l ls h a = elim (Bool-cases (eqb_ℤ qty l.quantity)) [
      | inl whole ↦ rw whole (All-select (λ x. not (has_price l.price x)) ls a)
      | inr part ↦ rw part (All-put_level _ ls h a)
    ]

    take_level-KeepsTurn :
        (i : Instrument) (qty : Decimal) (l : BookLevel) (fee : Decimal) (m : Matching)
        → HasPrice l
        → Keeps m
        → KeepsTurn (take_level c i qty l fee m)
    unfolding take_level
    take_level-KeepsTurn i qty l fee m h k =
        elim (Bool-cases (is_zero (count_fill c qty m.order).filled_quantity)) [
          | inl zero_sum ↦ rw zero_sum k
          | inr sum ↦ rw sum (
            subst (All HasPrice) (sym (change_side-levels m.order.side (use_level c qty l) m.book))
                (use_level-HasPrice qty l (levels_of m.order.side m.book) h k.0),
            All-append IsFilledAt m.fills _ k.1 h,
          )
        ]

    with_fee-KeepsTurn :
        (i : Instrument) (qty : Decimal) (l : BookLevel) (fee : Result Decimal) (m : Matching)
        → HasPrice l
        → Keeps m
        → KeepsTurn (with_fee c i qty l fee m)
    unfolding with_fee
    with_fee-KeepsTurn i qty l (err e) m h k = k
    with_fee-KeepsTurn i qty l (ok fee) m h k = take_level-KeepsTurn i qty l fee m h k

    on_level-KeepsTurn :
        (fee_rate : Decimal) (i : Instrument) (o : Option BookLevel) (m : Matching)
        → best_level m.order.side m.book ≡ o
        → Keeps m
        → KeepsTurn (on_level c fee_rate i o m)
    unfolding on_level fill_level
    on_level-KeepsTurn fee_rate i none m best k = k
    on_level-KeepsTurn fee_rate i (some l) m best k =
        elim (Bool-cases (beyond m.order.side (limit_of m.order) l.price)) [
          | inl far ↦ rw far k
          | inr near ↦
              let qty = min m.remaining l.quantity in
              let there : HasPrice l =
                IsAmong-HasPrice l (levels_of m.order.side m.book)
                  (best_level-IsAmong m.order.side m.book l best) k.0 in
              rw near (
                with_fee-KeepsTurn i qty l (quantize_fee c (mul c (mul c l.price qty) fee_rate)) m
                  there k)
        ]

    match_turn-KeepsTurn :
        (fee_rate : Decimal) (i : Instrument) (m : Matching)
        → Keeps m
        → KeepsTurn (match_turn c fee_rate i m)
    unfolding match_turn
    match_turn-KeepsTurn fee_rate i m k = elim (Bool-cases (is_positive m.remaining)) [
      | inl more ↦ rw more (on_level-KeepsTurn fee_rate i (best_level m.order.side m.book) m refl k)
      | inr done ↦ rw done k
    ]

    go_on-Keeps :
        (next : Matching → Matched) (t : Turn)
        → ((m : Matching) → Keeps m → Keeps (matching_of (next m)))
        → KeepsTurn t
        → Keeps (matching_of (go_on c next t))
    go_on-Keeps next (break m) all k = k
    go_on-Keeps next (continue m) all k = all m k
    go_on-Keeps next (raise e m) all k = k

    match_loop-Keeps :
        (fuel : ℕ) (fee_rate : Decimal) (i : Instrument) (m : Matching)
        → Keeps m
        → Keeps (matching_of (match_loop c fuel fee_rate i m))
    unfolding match_loop
    match_loop-Keeps zero fee_rate i m k = k
    match_loop-Keeps (suc fuel) fee_rate i m k =
        go_on-Keeps (match_loop c fuel fee_rate i) (match_turn c fee_rate i m)
          (match_loop-Keeps fuel fee_rate i) (match_turn-KeepsTurn fee_rate i m k)

    -- What holds of the prices of all levels that an order can meet holds of those of its fills.
    pub match_order-IsFilledAt :
        (fee_rate : Decimal) (i : Instrument) (o : Order) (b : OrderBook) (w : Wallet)
        → All HasPrice (levels_of o.side b)
        → All IsFilledAt (matching_of (match_order c fee_rate i o b w)).fills
    unfolding match_order
    match_order-IsFilledAt fee_rate i o b w h =
        (match_loop-Keeps (2 + length (levels_of o.side b)) fee_rate i
          (record { remaining = o.quantity; order = o; book = b; wallet = w; fills = [] })
          (h, tt)).1
