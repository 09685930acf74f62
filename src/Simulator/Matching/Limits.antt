-- ===== src/Simulator/Matching/Limits.antt =====
-- src/crypto_trader/simulator/exchange.py: the prices and quantities of the fills of `_match_order`.
use crypto_auto_trading_syst.Base.{
  ℕ, zero, suc, ◌≡◌, refl, false, Option, none, some, [], ◌+◌, length, All, arith, Bool-cases, inl,
  inr, Result, err, ok,
}
use crypto_auto_trading_syst.Base.Tables.{All-append}
use crypto_auto_trading_syst.Decimal.{Decimal, Context, mul, min, is_zero, is_positive}
use crypto_auto_trading_syst.Int.{◌≤ℤ◌}
use crypto_auto_trading_syst.Domain.Enums.{OrderSide, buy, sell}
use crypto_auto_trading_syst.Domain.Models.{Order, Instrument}
use crypto_auto_trading_syst.MarketData.Book.{BookLevel, OrderBook}
use crypto_auto_trading_syst.Simulator.Matching.{
  Wallet, LevelFill, Matching, best_level, beyond, limit_of, Turn, break, continue, raise, Matched,
  returned, out_of_fuel, raised, count_fill, take_level, with_fee, fill_level, on_level, match_turn,
  go_on, match_loop, levels_of, match_order, quantize_fee,
}

-- A purchase is at its limit or below, a sale at its limit or above; no limit asks for nothing.
abbrev pub IsWithin : OrderSide → Option Decimal → LevelFill → Type 0
IsWithin side none f = Unit
IsWithin buy (some limit) f = f.price ≤ℤ limit
IsWithin sell (some limit) f = limit ≤ℤ f.price

-- A level that does not stop the match is within the limit.
not_beyond-IsWithin :
    (side : OrderSide) (l : Option Decimal) (f : LevelFill)
    → beyond side l f.price ≡ false
    → IsWithin side l f
not_beyond-IsWithin side none f h = tt
not_beyond-IsWithin buy (some limit) f h = ground arith
not_beyond-IsWithin sell (some limit) f h = ground arith

-- The order has the side and the limit, and all fills are within it.
abbrev Keeps : OrderSide → Option Decimal → Matching → Type 0
Keeps side l m = (m.order.side ≡ side) × (limit_of m.order ≡ l) × All (IsWithin side l) m.fills

abbrev KeepsTurn : OrderSide → Option Decimal → Turn → Type 0
KeepsTurn side l (break m) = Keeps side l m
KeepsTurn side l (continue m) = Keeps side l m
KeepsTurn side l (raise e m) = Keeps side l m

abbrev pub matching_of : Matched → Matching
matching_of (returned m) = m
matching_of (out_of_fuel m) = m
matching_of (raised e m) = m

module _ (c : Context) {side : OrderSide} {l : Option Decimal} where
  take_level-KeepsTurn :
      (i : Instrument) (qty : Decimal) (level : BookLevel) (fee : Decimal) (m : Matching)
      → beyond side l level.price ≡ false
      → Keeps side l m
      → KeepsTurn side l (take_level c i qty level fee m)
  unfolding take_level
  take_level-KeepsTurn i qty level fee m h k =
      elim (Bool-cases (is_zero (count_fill c qty m.order).filled_quantity)) [
        | inl zero_sum ↦ rw zero_sum k
        | inr sum ↦
            rw sum (
              k.0,
              k.1,
              All-append (IsWithin side l) m.fills _ k.2 (not_beyond-IsWithin side l _ h),
            )
      ]

  with_fee-KeepsTurn :
      (i : Instrument) (qty : Decimal) (level : BookLevel) (fee : Result Decimal) (m : Matching)
      → beyond side l level.price ≡ false
      → Keeps side l m
      → KeepsTurn side l (with_fee c i qty level fee m)
  unfolding with_fee
  with_fee-KeepsTurn i qty level (err e) m h k = k
  with_fee-KeepsTurn i qty level (ok fee) m h k = take_level-KeepsTurn i qty level fee m h k

  on_level-KeepsTurn :
      (fee_rate : Decimal) (i : Instrument) (o : Option BookLevel) (m : Matching)
      → Keeps side l m
      → KeepsTurn side l (on_level c fee_rate i o m)
  unfolding on_level fill_level
  on_level-KeepsTurn fee_rate i none m k = k
  on_level-KeepsTurn fee_rate i (some level) m k =
      elim (Bool-cases (beyond m.order.side (limit_of m.order) level.price)) [
        | inl far ↦ rw far k
        | inr near ↦
            let within : beyond side l level.price ≡ false = rw⁻¹ (k.0, k.1) near in
            let qty = min m.remaining level.quantity in
            rw near (
              with_fee-KeepsTurn i qty level
                (quantize_fee c (mul c (mul c level.price qty) fee_rate)) m within k)
      ]

  match_turn-KeepsTurn :
      (fee_rate : Decimal) (i : Instrument) (m : Matching)
      → Keeps side l m
      → KeepsTurn side l (match_turn c fee_rate i m)
  unfolding match_turn
  match_turn-KeepsTurn fee_rate i m k = elim (Bool-cases (is_positive m.remaining)) [
    | inl more ↦ rw more (on_level-KeepsTurn fee_rate i (best_level m.order.side m.book) m k)
    | inr done ↦ rw done k
  ]

  go_on-Keeps :
      (next : Matching → Matched) (t : Turn)
      → ((m : Matching) → Keeps side l m → Keeps side l (matching_of (next m)))
      → KeepsTurn side l t
      → Keeps side l (matching_of (go_on c next t))
  go_on-Keeps next (break m) all k = k
  go_on-Keeps next (continue m) all k = all m k
  go_on-Keeps next (raise e m) all k = k

  match_loop-Keeps :
      (fuel : ℕ) (fee_rate : Decimal) (i : Instrument) (m : Matching)
      → Keeps side l m
      → Keeps side l (matching_of (match_loop c fuel fee_rate i m))
  unfolding match_loop
  match_loop-Keeps zero fee_rate i m k = k
  match_loop-Keeps (suc fuel) fee_rate i m k =
      go_on-Keeps (match_loop c fuel fee_rate i) (match_turn c fee_rate i m)
        (match_loop-Keeps fuel fee_rate i) (match_turn-KeepsTurn fee_rate i m k)

-- Every fill of a limit order is at its limit or better, also where the match raises.
pub match_order-IsWithin :
    (c : Context) (fee_rate : Decimal) (i : Instrument) (o : Order) (b : OrderBook) (w : Wallet)
    → All (IsWithin o.side (limit_of o)) (matching_of (match_order c fee_rate i o b w)).fills
unfolding match_order
match_order-IsWithin c fee_rate i o b w =
    (match_loop-Keeps c (2 + length (levels_of o.side b)) fee_rate i
      (record { remaining = o.quantity; order = o; book = b; wallet = w; fills = [] })
      (refl, refl, tt)).2
