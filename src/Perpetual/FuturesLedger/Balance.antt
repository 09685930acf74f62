-- ===== src/Perpetual/FuturesLedger/Balance.antt =====
-- src/crypto_trader/perpetual/ledger.py: debits and credits of the futures ledger, under rounding.
use crypto_auto_trading_syst.Base.{◌≡◌, refl, true, false, none, List, [], ◌∷◌, select, arith}
use crypto_auto_trading_syst.Int.{pos, eqb_ℤ}
use crypto_auto_trading_syst.Decimal.{Decimal, Context, add}
use crypto_auto_trading_syst.Domain.Models.{Text}
use crypto_auto_trading_syst.Ledger.Journal.{Journal}
use crypto_auto_trading_syst.Ledger.Service.{
  on_debit, on_credit, sum_from, journal_balanced, is_empty, RecordArgs, find_transaction,
  insert_transaction, record_transaction,
}
use crypto_auto_trading_syst.Perpetual.Contract.{PerpetualContract}
use crypto_auto_trading_syst.Perpetual.FuturesLedger.{
  Move, postings_of_moves, Call, Opening, Closing, open_moves, close_moves, open_args, close_args,
  record_open, record_close,
}

-- Both sides of a list of moves add up alike from any start.
moves-sums :
    (c : Context) (currency : Text) (ms : List Move) (start : Decimal)
    → sum_from c start (select on_debit (postings_of_moves currency ms))
      ≡ sum_from c start (select on_credit (postings_of_moves currency ms))
unfolding sum_from postings_of_moves
moves-sums c currency [] start = refl
moves-sums c currency (m ∷ ms) start = moves-sums c currency ms (add c start m.amount)

eqb_same : (a : Decimal) → eqb_ℤ a a ≡ true
eqb_same a = ground arith

moves_balanced :
    (c : Context) (currency : Text) (ms : List Move)
    → journal_balanced c (postings_of_moves currency ms) ≡ true
unfolding journal_balanced
moves_balanced c currency ms =
    rw (moves-sums c currency ms (pos 0))
      (eqb_same (sum_from c (pos 0) (select on_credit (postings_of_moves currency ms))))

-- A call without a fill or an event is always new, so it is written if it balances.
record-writes :
    (c : Context) (others : Journal → Journal) (args : RecordArgs) (j : Journal)
    → args.fill_id ≡ none
    → args.event_id ≡ none
    → is_empty args.postings ≡ false
    → journal_balanced c args.postings ≡ true
    → record_transaction c others args j ≡ insert_transaction args (others j)
unfolding record_transaction find_transaction
record-writes c others args j no_fill no_event full balanced =
    rw (no_fill, no_event, full, balanced)

module _ (c : Context) (k : PerpetualContract) (call : Call) (others : Journal → Journal) where
  -- Recording an opening is never refused as unbalanced, whatever its amounts and however the context
  -- rounds: the transaction reaches the journal, where only a taken id can stop it.
  record_open-writes :
      (o : Opening) (j : Journal)
      → record_open c k call others o j ≡ insert_transaction (open_args c k call o) (others j)
  unfolding record_open open_args postings_of_moves
  record_open-writes o j =
      record-writes c others (open_args c k call o) j refl refl refl
        (moves_balanced c k.margin_asset (open_moves c k call o))

  -- Recording a closing is never refused as unbalanced, with a profit, a loss or neither, with or
  -- without a fee and a release of margin: the transaction reaches the journal, where only a taken id
  -- can stop it.
  record_close-writes :
      (o : Closing) (j : Journal)
      → record_close c k call others o j ≡ insert_transaction (close_args c k call o) (others j)
  unfolding record_close close_args postings_of_moves
  record_close-writes o j =
      record-writes c others (close_args c k call o) j refl refl refl
        (moves_balanced c k.margin_asset (close_moves c k call o))
