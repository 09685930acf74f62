-- ===== src/Simulator/Matching.antt =====
-- src/crypto_trader/simulator/exchange.py: the match of an order against the simulated book, and its
-- effect on balances and positions. The loop runs on fuel; the fields of a fill event are those that
-- its payload adds to the order's.
pub mod Loop
pub mod Limits
pub mod Prices
use crypto_auto_trading_syst.Base.{
  ℕ, zero, suc, ◌/◌, ◌*◌, ◌^◌, Bool, true, false, not, Option, none, some, List, [], ◌∷◌, ◌++◌, ◌+◌,
  length, find, Result, Done, Error, ok, err, invalid_operation, division_by_zero, ◌==◌, ltb,
  if◌then◌else◌,
}
use crypto_auto_trading_syst.Int.{pos, abs_ℕ, ltb_ℤ, eqb_ℤ}
use crypto_auto_trading_syst.Decimal.{
  Decimal, Context, half_even, signed, is_negative, is_zero, is_positive, add, sub, mul, div, min,
  max,
}
use crypto_auto_trading_syst.Domain.Enums.{
  OrderSide, buy, sell, OrderType, market, limit, filled, partially_filled, side_eq,
}
use crypto_auto_trading_syst.Domain.Models.{Text, Order, Position, Instrument}
use crypto_auto_trading_syst.Order.Manager.{or_zero}
use crypto_auto_trading_syst.MarketData.Book.{
  BookLevel, Levels, OrderBook, has_price, put_level, pop_level, best_ask, best_bid,
}

pub record Holding : Type 0 where
  pub currency : Text
  pub total : Decimal

pub record Wallet : Type 0 where
  pub balances : List Holding
  pub positions : List Position

-- What is filled at one level.
pub record LevelFill : Type 0 where
  pub price : Decimal
  pub quantity : Decimal
  pub fee : Decimal
  pub completes : Bool

abbrev pub has_currency : Text → Holding → Bool
has_currency currency h = h.currency == currency

abbrev pub has_symbol : Text → Position → Bool
has_symbol symbol p = p.symbol == symbol

abbrev pub total_of : Option Holding → Decimal
total_of none = pos 0
total_of (some h) = h.total

-- `balances.get(currency, Decimal("0"))`
abbrev pub held : Text → List Holding → Decimal
held currency hs = total_of (find (has_currency currency) hs)

abbrev pub put_holding : Holding → List Holding → List Holding
put_holding h [] = h ∷ []
put_holding h (x ∷ xs) = if x.currency == h.currency then h ∷ xs else x ∷ put_holding h xs

abbrev pub put_position : Position → List Position → List Position
put_position p [] = p ∷ []
put_position p (x ∷ xs) = if x.symbol == p.symbol then p ∷ xs else x ∷ put_position p xs

abbrev pub position_or_new : Text → Option Position → Position
position_or_new symbol (some p) = p
position_or_new symbol none = record {
  symbol = symbol;
  quantity = pos 0;
  avg_entry_price = none;
  cost_basis = pos 0;
  realized_pnl = pos 0;
}

module _ (c : Context) where
  -- `quantize(Decimal("0.00000001"))` by the default rounding.
  unfoldable pub quantize_fee : Decimal → Result Decimal
  unfolding half_even
  quantize_fee value =
      let place = c.unit / 10 ^ 8 in
      let n = half_even (abs_ℕ value) place in
      if ltb n (10 ^ c.prec)
      then ok (signed (is_negative value) (n * place))
      else err invalid_operation

  unfoldable pub move_balances : OrderSide → LevelFill → Instrument → List Holding → List Holding
  move_balances buy f i hs =
      let based =
        put_holding
          (record { currency = i.base_asset; total = add c (held i.base_asset hs) f.quantity })
          hs in
      let left = sub c (sub c (held i.quote_asset based) (mul c f.price f.quantity)) f.fee in
      put_holding (record { currency = i.quote_asset; total = left }) based
  move_balances sell f i hs =
      let based =
        put_holding
          (record { currency = i.base_asset; total = sub c (held i.base_asset hs) f.quantity })
          hs in
      let more = sub c (add c (held i.quote_asset based) (mul c f.price f.quantity)) f.fee in
      put_holding (record { currency = i.quote_asset; total = more }) based

  unfoldable pub move_position : OrderSide → LevelFill → Position → Position
  move_position buy f p =
      let new_qty = add c p.quantity f.quantity in
      let new_cost = add c p.cost_basis (mul c f.price f.quantity) in
      record p {
        quantity = new_qty;
        cost_basis = new_cost;
        avg_entry_price = if is_zero new_qty then none else some (div c new_cost new_qty);
      }
  move_position sell f p =
      let release = mul c (or_zero p.avg_entry_price) f.quantity in
      let left = sub c p.quantity f.quantity in
      record p {
        quantity = left;
        cost_basis = if is_zero left then pos 0 else max (sub c p.cost_basis release) (pos 0);
        realized_pnl = add c p.realized_pnl (sub c (mul c f.price f.quantity) release);
        avg_entry_price = if is_zero left then none else p.avg_entry_price;
      }

  -- `_apply_fill_to_balances`
  unfoldable pub apply_fill_to_balances :
      OrderSide → Text → LevelFill → Instrument → Wallet → Wallet
  unfolding move_balances move_position
  apply_fill_to_balances side symbol f i w = record {
    balances = move_balances side f i w.balances;
    positions =
        put_position
          (move_position side f (position_or_new symbol (find (has_symbol symbol) w.positions)))
          w.positions;
  }

-- The variables of the loop in `_match_order`.
pub record Matching : Type 0 where
  pub remaining : Decimal
  pub order : Order
  pub book : OrderBook
  pub wallet : Wallet
  pub fills : List LevelFill

unfoldable pub best_level : OrderSide → OrderBook → Option BookLevel
unfolding best_ask best_bid
best_level buy b = best_ask b
best_level sell b = best_bid b

abbrev pub price_by_type : OrderType → Option Decimal → Option Decimal
price_by_type limit price = price
price_by_type market price = none

-- `order.price if order.order_type == OrderType.LIMIT else None`
abbrev pub limit_of : Order → Option Decimal
limit_of o = price_by_type o.order_type o.price

-- The tests that break the loop for a level's price.
abbrev pub beyond : OrderSide → Option Decimal → Decimal → Bool
beyond side none price = false
beyond buy (some l) price = ltb_ℤ l price
beyond sell (some l) price = ltb_ℤ price l

abbrev pub change_side : OrderSide → (Levels → Levels) → OrderBook → OrderBook
change_side buy f b = record b { asks = f b.asks }
change_side sell f b = record b { bids = f b.bids }

-- One turn of the loop: it breaks, goes on, or raises.
pub data Turn : Type 0 where
  break continue : Matching → Turn
  raise : Error → Matching → Turn

pub data Matched : Type 0 where
  returned out_of_fuel : Matching → Matched
  raised : Error → Matching → Matched

module _ (c : Context) where
  abbrev pub use_level : Decimal → BookLevel → Levels → Levels
  use_level qty level ls =
      if eqb_ℤ qty level.quantity
      then pop_level level.price ls
      else put_level (record { price = level.price; quantity = sub c level.quantity qty }) ls

  -- The average is that of the quantity with the new part, weighted.
  abbrev pub average_fill : Order → Decimal → Decimal → Decimal → Decimal
  average_fill o filled_quantity qty price =
      div c (add c (mul c (or_zero o.avg_fill_price) (sub c filled_quantity qty)) (mul c price qty))
        filled_quantity

  abbrev pub count_fill : Decimal → Order → Order
  count_fill qty o =
      let filled_quantity = add c o.filled_quantity qty in
      record o {
        filled_quantity = filled_quantity;
        status = if eqb_ℤ filled_quantity o.quantity then filled else partially_filled;
      }

  abbrev pub set_average : Decimal → Decimal → Order → Order → Order
  set_average qty price before o = record o {
    avg_fill_price = some (average_fill before o.filled_quantity qty price);
  }

  -- The fill's effects, once its fee is known.
  unfoldable pub take_level : Instrument → Decimal → BookLevel → Decimal → Matching → Turn
  unfolding apply_fill_to_balances
  take_level i qty level fee m =
      let counted = count_fill qty m.order in
      let rest = record m { remaining = sub c m.remaining qty; order = counted } in
      let f : LevelFill = record {
        price = level.price;
        quantity = qty;
        fee = fee;
        completes = eqb_ℤ counted.filled_quantity m.order.quantity;
      } in
      if is_zero counted.filled_quantity
      then raise division_by_zero rest
      else continue (record rest {
        order = set_average qty level.price m.order counted;
        wallet = apply_fill_to_balances c m.order.side m.order.symbol f i m.wallet;
        book = change_side m.order.side (use_level qty level) m.book;
        fills = m.fills ++ f ∷ [];
      })

  unfoldable pub with_fee : Instrument → Decimal → BookLevel → Result Decimal → Matching → Turn
  unfolding take_level
  with_fee i qty level (err e) m = raise e m
  with_fee i qty level (ok fee) m = take_level i qty level fee m

  unfoldable pub fill_level : Decimal → Instrument → BookLevel → Matching → Turn
  unfolding with_fee quantize_fee
  fill_level fee_rate i level m =
      let qty = min m.remaining level.quantity in
      with_fee i qty level (quantize_fee c (mul c (mul c level.price qty) fee_rate)) m

  unfoldable pub on_level : Decimal → Instrument → Option BookLevel → Matching → Turn
  unfolding fill_level
  on_level fee_rate i none m = break m
  on_level fee_rate i (some level) m =
      if beyond m.order.side (limit_of m.order) level.price
      then break m
      else fill_level fee_rate i level m

  -- The test of the loop and its body.
  unfoldable pub match_turn : Decimal → Instrument → Matching → Turn
  unfolding on_level best_level
  match_turn fee_rate i m =
      if is_positive m.remaining
      then on_level fee_rate i (best_level m.order.side m.book) m
      else break m

  abbrev pub go_on : (Matching → Matched) → Turn → Matched
  go_on next (break m) = returned m
  go_on next (continue m) = next m
  go_on next (raise e m) = raised e m

  unfoldable pub match_loop : ℕ → Decimal → Instrument → Matching → Matched
  unfolding match_turn
  match_loop zero fee_rate i m = out_of_fuel m
  match_loop (suc fuel) fee_rate i m = go_on (match_loop fuel fee_rate i) (match_turn fee_rate i m)

abbrev pub levels_of : OrderSide → OrderBook → Levels
levels_of buy b = b.asks
levels_of sell b = b.bids

-- `_match_order` on a book that is there, with a turn for each level and two more.
unfoldable pub match_order : Context → Decimal → Instrument → Order → OrderBook → Wallet → Matched
unfolding match_loop
match_order c fee_rate i o b w =
    match_loop c (2 + length (levels_of o.side b)) fee_rate i
      (record { remaining = o.quantity; order = o; book = b; wallet = w; fills = [] })
