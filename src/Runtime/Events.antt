-- ===== src/Runtime/Events.antt =====
-- src/crypto_trader/runtime/engine.py: `process_exchange_event` on the events of orders, and
-- `_settle_fill`, the callback that records a fill in the ledger. Of an event's payload the fields that
-- are read; the position is the portfolio's answer. The memory of trades, the refresh of the portfolio,
-- trade episodes and the audit log are left out.
pub mod Settlement
use crypto_auto_trading_syst.Base.{
  ℕ, Bool, true, false, not, ◌||◌, Option, none, some, List, [], ◌∷◌, any, Result, Error, Done, ok,
  err, ◌==◌, if◌then◌else◌,
}
use crypto_auto_trading_syst.Int.{pos}
use crypto_auto_trading_syst.Decimal.{Decimal, Context, mul, is_zero}
use crypto_auto_trading_syst.Domain.Enums.{OrderSide, buy, sell, trade}
use crypto_auto_trading_syst.Domain.Models.{Text, Time, Order, Fill, Position}
use crypto_auto_trading_syst.Order.Store.{Store, OtherTasks, truthy, get, get_by_exchange}
use crypto_auto_trading_syst.Order.Manager.{or_zero, or_else}
use crypto_auto_trading_syst.Order.Lifecycle.{ack, opened, cancel_confirm, reject}
use crypto_auto_trading_syst.Order.Fills.{NewIds, apply_fill}
use crypto_auto_trading_syst.Ledger.Journal.{LedgerPosting, Metadata, LedgerTransaction, Journal}
use crypto_auto_trading_syst.Ledger.Service.{RecordArgs, build_trade_entries, record_transaction}
use crypto_auto_trading_syst.Runtime.Recovery.{done_of, text_or}
use crypto_auto_trading_syst.Simulator.Exchange.{
  ExchangeEventType, order_ack, order_opened, order_partially_filled, order_filled, order_cancelled,
  order_rejected_event,
}

-- An event of an order, with the fields of its payload.
pub record OrderUpdate : Type 0 where
  pub event_type : ExchangeEventType
  pub event_id : Text
  pub exchange_order_id : Option Text
  pub fill_id : Option Text
  pub trade_id : Option Text
  pub fill_price : Option Decimal
  pub fill_quantity : Option Decimal
  pub fee : Option Decimal
  pub fee_currency : Option Text
  pub reason : Option Text

-- What is drawn for it, its clock, and what other tasks commit meanwhile.
pub record Handling : Type 0 where
  pub new_fill_id : Text
  pub ids : NewIds
  pub now : Time
  pub rejection : Text
  pub others : OtherTasks

-- `a or b` on prices.
abbrev pub price_or_else : Option Decimal → Option Decimal → Option Decimal
price_or_else none other = other
price_or_else (some x) other = if is_zero x then other else some x

-- `dict.get` with a default, which stands for a missing key alone.
abbrev pub get_or : Option Text → Text → Text
get_or none other = other
get_or (some t) other = t

-- `_fill_from_payload`
abbrev pub fill_from_payload : Handling → Order → OrderUpdate → Fill
fill_from_payload h o u = record {
  fill_id = text_or u.fill_id h.new_fill_id;
  trade_id = u.trade_id;
  order_id = o.internal_order_id;
  client_order_id = some o.client_order_id;
  exchange_order_id = or_else u.exchange_order_id o.exchange_order_id;
  symbol = o.symbol;
  side = o.side;
  price = or_zero (price_or_else u.fill_price o.price);
  quantity = or_zero u.fill_quantity;
  fee = or_zero u.fee;
  fee_currency = u.fee_currency;
  timestamp = h.now;
}

module _ (c : Context) (has_callback : Bool) (h : Handling) (u : OrderUpdate) where
  unfoldable pub apply_update : Order → Store → Done × Store
  unfolding apply_fill
  apply_update o s = done_of (apply_fill c has_callback h.others (fill_from_payload h o u) h.ids s)

  unfoldable pub handle_update : ExchangeEventType → Text → Order → Store → Done × Store
  unfolding ack opened apply_update cancel_confirm reject
  handle_update order_ack id o s = done_of (ack h.others o.internal_order_id u.event_id h.now id s)
  handle_update order_opened id o s =
      done_of (opened h.others o.internal_order_id u.event_id h.now s)
  handle_update order_partially_filled id o s = apply_update o s
  handle_update order_filled id o s = apply_update o s
  handle_update order_cancelled id o s =
      done_of (cancel_confirm h.others o.internal_order_id u.event_id h.now s)
  handle_update order_rejected_event id o s =
      done_of (reject h.others o.internal_order_id u.event_id h.now (get_or u.reason h.rejection) s)

  unfoldable pub handle_known : Text → Option Order → Store → Done × Store
  unfolding handle_update
  handle_known id none s = (ok tt, s)
  handle_known id (some o) s = handle_update u.event_type id o s

  -- An event without an id, or with one that no order has yet, is dropped.
  unfoldable pub process_exchange_event : Store → Done × Store
  unfolding handle_known get_by_exchange
  process_exchange_event s =
      if truthy u.exchange_order_id
      then handle_known (text_or u.exchange_order_id 0)
          (get_by_exchange (text_or u.exchange_order_id 0) s) s
      else (ok tt, s)

-- The arguments of one settlement: the portfolio's position, the ids that are drawn, its clock, the
-- text for a missing currency, and what other tasks write to the journal meanwhile.
pub record Settling : Type 0 where
  pub position : Option Position
  pub transaction_id : Text
  pub event_id : Text
  pub now : Time
  pub usdt : Text
  pub others : Journal → Journal

abbrev pub nonzero_or : Option Decimal → Decimal → Decimal
nonzero_or none d = d
nonzero_or (some x) d = if is_zero x then d else x

-- The entry price of what is sold, or the price of the fill where it is not known.
abbrev pub entry_price_of : Option Position → Decimal → Decimal
entry_price_of none price = price
entry_price_of (some p) price = nonzero_or p.avg_entry_price price

module _ (c : Context) (a : Settling) (fill : Fill) where
  abbrev pub cost_of_sale : OrderSide → Option Decimal
  cost_of_sale buy = none
  cost_of_sale sell = some (mul c (entry_price_of a.position fill.price) fill.quantity)

  abbrev pub trade_args : Order → List LedgerPosting → Metadata → RecordArgs
  trade_args o postings metadata = record {
    entry_type = trade;
    postings = postings;
    transaction_id = a.transaction_id;
    order_id = some o.internal_order_id;
    fill_id = some fill.fill_id;
    event_id = some a.event_id;
    metadata = metadata;
    created_at = a.now;
  }

  unfoldable pub record_trade :
      Order → Result (List LedgerPosting × Metadata) → Journal → Result LedgerTransaction × Journal
  unfolding record_transaction
  record_trade o (err e) j = (err e, j)
  record_trade o (ok (postings, metadata)) j =
      record_transaction c a.others (trade_args o postings metadata) j

  unfoldable pub settle_order : Order → Journal → Result LedgerTransaction × Journal
  unfolding build_trade_entries record_trade
  settle_order o j =
      record_trade o
        (build_trade_entries c o.symbol (text_or fill.fee_currency a.usdt) fill.price fill.quantity
          fill.fee o.side (cost_of_sale o.side))
        j

  abbrev pub dropped : Result LedgerTransaction × Journal → Done × Journal
  dropped (err e, j) = (err e, j)
  dropped (ok t, j) = (ok tt, j)

  unfoldable pub settle_found : List Text → Option Order → Journal → Done × Journal
  unfolding settle_order
  settle_found quarantined none j = (ok tt, j)
  settle_found quarantined (some o) j =
      if any (λ id. id == fill.fill_id) quarantined then (ok tt, j) else dropped (settle_order o j)

  -- Fills of perpetual contracts are settled by their own ledger.
  unfoldable pub settle_fill : Bool → List Text → Store → Journal → Done × Journal
  unfolding settle_found get
  settle_fill is_perpetual quarantined s j =
      if is_perpetual then (ok tt, j) else settle_found quarantined (get fill.order_id s) j
