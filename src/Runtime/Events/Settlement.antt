-- ===== src/Runtime/Events/Settlement.antt =====
-- src/crypto_trader/runtime/engine.py: a fill that is settled again.
use crypto_auto_trading_syst.Base.{
  ◌≡◌, refl, Bool, true, false, Option, some, none, List, [], ◌∷◌, ◌++◌, find, any, ok, arith, ◌==◌,
}
use crypto_auto_trading_syst.Decimal.{Decimal, Context}
use crypto_auto_trading_syst.Domain.Enums.{OrderSide, buy, sell}
use crypto_auto_trading_syst.Domain.Models.{Text, Order, Fill}
use crypto_auto_trading_syst.Order.Store.{option_is}
use crypto_auto_trading_syst.Ledger.Journal.{LedgerPosting, Metadata, LedgerTransaction, Journal}
use crypto_auto_trading_syst.Ledger.Service.{
  record_transaction, build_trade_entries, trade_postings, trade_metadata, journal_balanced,
  fits_query, find_transaction, is_empty, has_transaction_id, new_transaction, insert_transaction,
}
use crypto_auto_trading_syst.Runtime.Recovery.{text_or}
use crypto_auto_trading_syst.Runtime.Events.{
  Settling, cost_of_sale, trade_args, record_trade, settle_order,
}

abbrev pub has_event : Text → LedgerTransaction → Bool
has_event event_id t = option_is event_id t.event_id

-- The postings of the trade that a fill makes.
abbrev pub postings_of : Context → Settling → Fill → Order → List LedgerPosting
postings_of c a fill o =
    trade_postings c o.symbol (text_or fill.fee_currency a.usdt) fill.price fill.quantity fill.fee
      o.side (cost_of_sale c a fill o.side)

abbrev pub metadata_of : Context → Settling → Fill → Order → Metadata
metadata_of c a fill o =
    trade_metadata c o.symbol (text_or fill.fee_currency a.usdt) fill.price fill.quantity fill.fee
      o.side (cost_of_sale c a fill o.side)

-- The ids that the settlement draws are new, and the postings balance.
pub record CanSettle (c : Context) (a : Settling) (fill : Fill) (o : Order) (j : Journal)
    : Type 0 where
  pub named : (a.event_id == 0) ≡ false
  pub new_event : any (has_event a.event_id) j ≡ false
  pub new_transaction_id : any (has_transaction_id a.transaction_id) (a.others j) ≡ false
  pub balanced : journal_balanced c (postings_of c a fill o) ≡ true

find-new_event :
    (fill_id event_id : Text) (j : Journal)
    → (event_id == 0) ≡ false
    → any (has_event event_id) j ≡ false
    → find (fits_query (some fill_id) (some event_id)) j ≡ none
find-new_event fill_id event_id [] named h = refl
find-new_event fill_id event_id (t ∷ ts) named h =
    ground (arith, find-new_event fill_id event_id ts)

not_found :
    (fill_id event_id : Text) (j : Journal)
    → (event_id == 0) ≡ false
    → any (has_event event_id) j ≡ false
    → find_transaction (some fill_id) (some event_id) j ≡ none
unfolding find_transaction
not_found fill_id event_id j named h = ground (arith, find-new_event fill_id event_id j named h)

module _ (c : Context) (symbol currency : Text) (price quantity fee : Decimal) where
  postings-nonempty :
      (side : OrderSide) (cost : Option Decimal)
      → is_empty (trade_postings c symbol currency price quantity fee side cost) ≡ false
  unfolding trade_postings
  postings-nonempty buy cost = refl
  postings-nonempty sell cost = refl

-- A settlement with new ids and balanced postings writes a transaction of the fill, whatever the
-- journal holds, also where it holds a transaction of the same fill from an earlier settlement.
pub settle_order-appends :
    (c : Context) (a : Settling) (fill : Fill) (o : Order) (j : Journal)
    → CanSettle c a fill o j
    → settle_order c a fill o j ≡ (
      ok (
          new_transaction
            (trade_args c a fill o (postings_of c a fill o) (metadata_of c a fill o))),
      a.others j
          ++ new_transaction
              (trade_args c a fill o (postings_of c a fill o) (metadata_of c a fill o))
            ∷ [],
    )
unfolding settle_order build_trade_entries record_trade record_transaction insert_transaction
settle_order-appends c a fill o j h =
    rw
      (
        h.balanced,
        not_found fill.fill_id a.event_id j h.named h.new_event,
        postings-nonempty c o.symbol (text_or fill.fee_currency a.usdt) fill.price fill.quantity
            fill.fee o.side (cost_of_sale c a fill o.side),
        h.balanced,
        h.new_transaction_id,
      )
      refl
