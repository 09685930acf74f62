-- ===== src/Simulator/Exchange.antt =====
-- src/crypto_trader/simulator/exchange.py: the operations of the simulated exchange on its orders, with
-- the hooks that inject faults. Handlers cannot change the exchange, so an emitted event is one more in
-- the log; its texts are left out. The name that an order gets for its number is an argument.
pub mod Recovery
use crypto_auto_trading_syst.Base.{
  ℕ, zero, suc, ◌/◌, Bool, true, false, not, ◌&&◌, ◌||◌, Option, none, some, List, [], ◌∷◌, ◌++◌,
  ◌+◌, ◌*◌, find, update, other_error, key_error, Result, Error, ok, err, connection_error,
  rate_limited, order_rejected, unknown_execution_state, order_not_found, ◌==◌, if◌then◌else◌,
}
use crypto_auto_trading_syst.Int.{pos}
use crypto_auto_trading_syst.Decimal.{Decimal, Context, sub, mul, add, is_positive, is_zero}
use crypto_auto_trading_syst.Domain.Enums.{
  OrderSide, buy, sell, OrderStatus, acknowledged, filled, cancelled, rejected,
}
use crypto_auto_trading_syst.Domain.Models.{Text, Time, Order, Instrument}
use crypto_auto_trading_syst.MarketData.Book.{
  mid_price, Change, OrderBook, new_book, apply_snapshot,
}
use crypto_auto_trading_syst.Simulator.Matching.{
  Wallet, LevelFill, Matching, Matched, returned, raised, out_of_fuel, match_order,
}

pub data ExchangeEventType : Type 0 where
  order_ack order_opened order_partially_filled order_filled : ExchangeEventType
  order_cancelled order_rejected_event : ExchangeEventType

pub record ExchangeEvent : Type 0 where
  pub event_type : ExchangeEventType
  pub exchange_order_id : Option Text
  pub fill : Option LevelFill

pub record Listing : Type 0 where
  pub symbol : Text
  pub book : OrderBook

-- The hooks; a delay of the submission has no effect on the state.
pub record Hooks : Type 0 where
  pub rate_limit_next : Bool
  pub reject_next_order : Bool
  pub fail_submit_with : Option Error
  pub timeout_but_created : Bool
  pub fill_before_ack : Bool
  pub duplicate_fill : Bool
  pub cancel_fill_race : Bool

-- `connected` is the test of `_ensure_connected`.
pub record Exchange : Type 0 where
  pub connected : Bool
  pub hooks : Hooks
  pub orders : List Order
  pub books : List Listing
  pub wallet : Wallet
  pub next_exchange_order_id : ℕ
  pub event_log : List ExchangeEvent

abbrev pub has_symbol : Text → Listing → Bool
has_symbol symbol l = l.symbol == symbol

abbrev pub is_text : Option Text → Text → Bool
is_text none x = false
is_text (some y) x = y == x

abbrev pub has_exchange_id : Text → Order → Bool
has_exchange_id id o = is_text o.exchange_order_id id

abbrev pub has_client_id : Text → Order → Bool
has_client_id id o = o.client_order_id == id

abbrev pub put_book : Listing → List Listing → List Listing
put_book l [] = l ∷ []
put_book l (x ∷ xs) = if x.symbol == l.symbol then l ∷ xs else x ∷ put_book l xs

-- `self.orders[id] = order`; the order's own id is the key.
abbrev pub put_order : Text → Order → List Order → List Order
put_order id o [] = o ∷ []
put_order id o (x ∷ xs) = if has_exchange_id id x then o ∷ xs else x ∷ put_order id o xs

-- The levels of `seed_book` on one side, `shift` away for each.
abbrev pub seed_levels : Context → (Decimal → Decimal) → Decimal → ℕ → ℕ → List Change
seed_levels c from spread done zero = []
seed_levels c from spread done (suc depth) =
    record { price = from (mul c spread (pos ((done + 1) * c.unit))); quantity = pos c.unit }
    ∷ seed_levels c from spread (done + 1) depth

-- The book of `seed_book`, from its sequence number.
unfoldable pub seed_book : Context → Decimal → Decimal → ℕ → ℕ → Time → OrderBook
unfolding apply_snapshot
seed_book c mid spread depth sequence now =
    (apply_snapshot sequence (seed_levels c (sub c mid) spread 0 depth)
      (seed_levels c (add c mid) spread 0 depth) now new_book).1

unfoldable pub book_of : Context → Time → Option Listing → OrderBook
unfolding seed_book
book_of c now (some l) = l.book
book_of c now none = seed_book c (pos (100 * c.unit)) (pos (c.unit / 20)) 5 1 now

-- `_local_order_for`
abbrev pub local_order_for : Text → Order → Order
local_order_for id raw = record raw {
  exchange_order_id = some id;
  filled_quantity = pos 0;
  avg_fill_price = none;
  status = acknowledged;
  updated_at = raw.created_at;
  rejection_reason = none;
  last_event_id = none;
}

abbrev pub order_event : ExchangeEventType → Order → ExchangeEvent
order_event event_type o = record {
  event_type = event_type;
  exchange_order_id = o.exchange_order_id;
  fill = none;
}

abbrev pub fill_event : Order → LevelFill → ExchangeEvent
fill_event o f = record {
  event_type = if f.completes then order_filled else order_partially_filled;
  exchange_order_id = o.exchange_order_id;
  fill = some f;
}

abbrev pub fill_events : Bool → Order → List LevelFill → List ExchangeEvent
fill_events twice o [] = []
fill_events twice o (f ∷ fs) =
    let rest = fill_events twice o fs in
    let e = fill_event o f in if twice then e ∷ e ∷ rest else e ∷ rest

abbrev pub first_again : Bool → List ExchangeEvent → List ExchangeEvent
first_again true (e ∷ es) = e ∷ []
first_again _ _ = []

-- The order in which a submission emits its events.
unfoldable pub emitted : Hooks → Order → List LevelFill → List ExchangeEvent
emitted h o fs =
    if h.fill_before_ack
    then fill_events false o fs
      ++ (order_event order_ack o ∷ first_again h.duplicate_fill (fill_events false o fs))
    else order_event order_ack o ∷ order_event order_opened o ∷ fill_events h.duplicate_fill o fs

-- The exchange after a match; the order is one object with that of the table.
abbrev pub store_match : Text → Matching → Exchange → Exchange
store_match id m ex = record ex {
  orders = put_order id m.order ex.orders;
  books = put_book (record { symbol = m.order.symbol; book = m.book }) ex.books;
  wallet = m.wallet;
}

-- The fuel of the match is enough for every book.
unfoldable pub after_match : Text → Exchange → Matched → Result Order × Exchange
unfolding emitted
after_match id ex (returned m) = (
  ok m.order,
  record (store_match id m ex) { event_log = ex.event_log ++ emitted ex.hooks m.order m.fills },
)
after_match id ex (raised e m) = (err e, store_match id m ex)
after_match id ex (out_of_fuel m) = (err other_error, store_match id m ex)

module _ (c : Context) (fee_rate : Decimal) (id_of : ℕ → Text) where
  -- The order is in the table before the timeout that its submitter sees.
  unfoldable pub place : Instrument → Time → Order → Exchange → Result Order × Exchange
  unfolding match_order after_match book_of
  place i now raw ex =
      let id = id_of ex.next_exchange_order_id in
      let o = local_order_for id raw in
      let listed = record ex {
        next_exchange_order_id = ex.next_exchange_order_id + 1;
        orders = put_order id o ex.orders;
      } in
      if ex.hooks.timeout_but_created
      then (
        err unknown_execution_state,
        record listed { hooks = record ex.hooks { timeout_but_created = false } },
      )
      else after_match id listed (
          match_order c fee_rate i o (book_of c now (find (has_symbol o.symbol) ex.books))
            ex.wallet)

  unfoldable pub unless_failing :
      Option Error → Instrument → Time → Order → Exchange → Result Order × Exchange
  unfolding place
  unless_failing (some e) i now raw ex =
      (err e, record ex { hooks = record ex.hooks { fail_submit_with = none } })
  unless_failing none i now raw ex = place i now raw ex

  unfoldable pub submit_order : Instrument → Time → Order → Exchange → Result Order × Exchange
  unfolding unless_failing
  submit_order i now raw ex =
      if not ex.connected
      then (err connection_error, ex)
      else if ex.hooks.rate_limit_next
      then (err rate_limited, record ex { hooks = record ex.hooks { rate_limit_next = false } })
      else if ex.hooks.reject_next_order
      then (err order_rejected, record ex { hooks = record ex.hooks { reject_next_order = false } })
      else unless_failing ex.hooks.fail_submit_with i now raw ex

abbrev pub or_not_found : Option Order → Result Order
or_not_found (some o) = ok o
or_not_found none = err order_not_found

abbrev pub or_else : Option Order → Option Order → Option Order
or_else (some o) other = some o
or_else none other = other

-- By the exchange's id, or else by the client's.
unfoldable pub get_order : Text → Exchange → Result Order
get_order id ex =
    if ex.connected
    then or_not_found
        (or_else (find (has_exchange_id id) ex.orders) (find (has_client_id id) ex.orders))
    else err connection_error

abbrev pub is_filled : OrderStatus → Bool
is_filled filled = true
is_filled _ = false

abbrev pub change_order : Text → (Order → Order) → Exchange → Exchange
change_order id f ex = record ex { orders = update (has_exchange_id id) f ex.orders }

abbrev pub emit : ExchangeEvent → Exchange → Exchange
emit e ex = record ex { event_log = ex.event_log ++ e ∷ [] }

abbrev pub complete : Order → Order
complete o = record o { filled_quantity = o.quantity; status = filled }

abbrev pub set_cancelled : Order → Order
set_cancelled o = record o { status = cancelled }

abbrev pub set_rejected : Order → Order
set_rejected o = record o { status = rejected }

module _ (c : Context) where
  -- `order.price or self.books[symbol].mid_price() or Decimal("100")`
  abbrev pub nonzero_or : Option Decimal → Decimal → Decimal
  nonzero_or none d = d
  nonzero_or (some x) d = if is_zero x then d else x

  unfoldable pub book_price : Option Listing → Result Decimal
  unfolding mid_price
  book_price none = err key_error
  book_price (some l) = ok (nonzero_or (mid_price c l.book) (pos (100 * c.unit)))

  unfoldable pub race_price : Option Decimal → Option Listing → Result Decimal
  unfolding book_price
  race_price none l = book_price l
  race_price (some x) l = if is_zero x then book_price l else ok x

  -- The fill that wins the race against the cancellation is free and moves no balance.
  abbrev pub race_fill : Text → Order → Result Decimal → Exchange → Result Order × Exchange
  race_fill id o (err e) ex = (err e, ex)
  race_fill id o (ok price) ex = (
    ok (complete o),
    emit
        (fill_event o (record {
          price = price;
          quantity = sub c o.quantity o.filled_quantity;
          fee = pos 0;
          completes = true;
        }))
        (change_order id complete ex),
  )

  unfoldable pub cancel_found : Text → Text → Option Order → Exchange → Result Order × Exchange
  unfolding race_price
  cancel_found symbol id none ex = (err order_not_found, ex)
  cancel_found symbol id (some o) ex =
      if is_filled o.status
      then (ok o, ex)
      else if ex.hooks.cancel_fill_race && is_positive (sub c o.quantity o.filled_quantity)
      then race_fill id o (race_price o.price (find (has_symbol symbol) ex.books)) ex
      else (
        ok (set_cancelled o),
        emit (order_event order_cancelled o) (change_order id set_cancelled ex),
      )

  unfoldable pub cancel_order : Text → Text → Exchange → Result Order × Exchange
  unfolding cancel_found
  cancel_order symbol id ex =
      if ex.connected
      then cancel_found symbol id (find (has_exchange_id id) ex.orders) ex
      else (err connection_error, ex)

abbrev pub reject_found : Text → Option Order → Exchange → Exchange
reject_found id none ex = ex
reject_found id (some o) ex =
    emit (order_event order_rejected_event o) (change_order id set_rejected ex)

unfoldable pub emit_order_rejected : Text → Exchange → Exchange
emit_order_rejected id ex = reject_found id (find (has_exchange_id id) ex.orders) ex
