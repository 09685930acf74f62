-- ===== src/Tests/Leases.antt =====
-- Leases: a first acquisition, a lost race, a takeover; the recovery of a cancelled order; and the
-- submission of an order that the exchange rejects.
use crypto_auto_trading_syst.Base.{
  Done, order_rejected, ℕ, ◌≡◌, refl, true, false, some, List, [], ◌∷◌, ◌++◌, Result, ok, err, find,
  invalid_state_transition,
}
use crypto_auto_trading_syst.Domain.Enums.{submitted, unknown, open_order, cancelled, paper}
use crypto_auto_trading_syst.Domain.Models.{Text, Order}
use crypto_auto_trading_syst.Order.Store.{Store, get}
use crypto_auto_trading_syst.Order.Manager.{new_order, record_row, no_args}
use crypto_auto_trading_syst.Order.Lifecycle.{list_open}
use crypto_auto_trading_syst.Runtime.Lease.{
  Attempt, LeaseTable, Outcome, Request, acquire, acquired, apply_write, attempt, has_key,
  insert_row, is_again, is_current, is_held, is_live, lease_of, new_row, take_over,
}
use crypto_auto_trading_syst.Runtime.Lease.Writes.{Event, commit_all, is_held-exclusive}
use crypto_auto_trading_syst.Runtime.Lease.Attempts.{
  IsFresh, IsCurrentAt, acquire-terminates, acquire-IsCurrentAt,
}
use crypto_auto_trading_syst.Runtime.Recovery.{Texts, Draw, recover}
use crypto_auto_trading_syst.Runtime.Recovery.Aborts.{IsCancelledThere, at_open, recover-raises}
use crypto_auto_trading_syst.Runtime.Submission.{Call, Calls, after_submit}
use crypto_auto_trading_syst.Runtime.Submission.Failures.{IsSubmitted, after_submit-unknown}
use crypto_auto_trading_syst.Tests.Orders.{context, intent}

abbrev pub request : Request
request = record { lease_key = 1; owner_id = 2; ttl = 60 }

abbrev rival : Request
rival = record { lease_key = 1; owner_id = 3; ttl = 60 }

abbrev pub as_it_is : LeaseTable → LeaseTable
as_it_is t = t

abbrev rival_inserts : LeaseTable → LeaseTable
rival_inserts t = t ++ new_row rival 90 91 100 ∷ []

abbrev pub attempt_at : ℕ → ℕ → (LeaseTable → LeaseTable) → Attempt
attempt_at now token others = record {
  now = now;
  token = token;
  row_id = token;
  earlier = as_it_is;
  others = others;
}

-- The lease of the rival runs out and is taken over.
abbrev events : List Event
events =
    record { write = insert_row rival 10 11; now = 100 }
    ∷ record { write = take_over request 12; now = 200 }
    ∷ []

abbrev token : Text
token = 12

held_now : is_held 1 (some 12) 210 (commit_all events []) ≡ true
unfolding is_held commit_all apply_write
held_now = refl

is_held-exclusive_example : token ≡ token
is_held-exclusive_example = is_held-exclusive events 1 token token 210 held_now held_now

-- The holder renews the lease that it took over: the row has generation 2, the lease says 1.
abbrev renewed : Outcome × LeaseTable
renewed = acquire request (attempt_at 210 31 as_it_is ∷ []) (commit_all events [])

renewed_lease : renewed.0 ≡ acquired (lease_of request 12 210 1)
unfolding acquire attempt apply_write commit_all
renewed_lease = refl

renewed_not_current :
    (is_held 1 (some 12) 220 renewed.1 ≡ true) × (is_current 1 12 1 220 renewed.1 ≡ false)
unfolding acquire attempt apply_write commit_all is_held is_current
renewed_not_current = (refl, refl)

acquire-terminates_example :
    (acquire request
        (attempt_at 100 20 rival_inserts
          ∷ attempt_at 101 21 as_it_is
          ∷ attempt_at 102 22 as_it_is
          ∷ [])
        []
      ≡ acquire request (attempt_at 100 20 rival_inserts ∷ attempt_at 101 21 as_it_is ∷ []) [])
    × (is_again
          (acquire request
            (attempt_at 100 20 rival_inserts
              ∷ attempt_at 101 21 as_it_is
              ∷ attempt_at 102 22 as_it_is
              ∷ [])
            []).0
        ≡ false)
acquire-terminates_example =
    acquire-terminates request (attempt_at 100 20 rival_inserts) (attempt_at 101 21 as_it_is)
      (attempt_at 102 22 as_it_is ∷ []) [] (record { token_new = refl; row_id_new = refl })
      (λ u h. h)

expired_now : is_live 300 (find (has_key 1) (commit_all events [])) ≡ false
unfolding commit_all apply_write
expired_now = refl

fresh : IsFresh (attempt_at 300 30 as_it_is) (commit_all events [])
unfolding commit_all apply_write
fresh = record { token_new = refl; row_id_new = refl }

acquire-IsCurrentAt_example :
    IsCurrentAt 1 300 (acquire request (attempt_at 300 30 as_it_is ∷ []) (commit_all events []))
acquire-IsCurrentAt_example =
    acquire-IsCurrentAt request (attempt_at 300 30 as_it_is) [] (commit_all events []) expired_now
      fresh refl refl

abbrev pub resting : Order
resting = record (new_order intent paper 1 100) { exchange_order_id = some 21; status = open_order }

abbrev pub there : Order
there = record resting { status = cancelled }

abbrev pub store : Store
store = record { orders = resting ∷ []; events = []; fills = [] }

abbrev pub texts : Texts
texts = record {
  no_id = 1;
  not_found = 2;
  rejected_on_exchange = 3;
  fill_id = λ id quantity. 4;
  partial_fill_id = λ id. 5;
}

abbrev pub draw : Order → Draw
draw o = record {
  event_id = 50;
  trade_id = 51;
  ids = record { last_event = 52; event = 53; trade = 54 };
  now = 400;
  others = λ s. s;
}

abbrev pub exchange : Text → Text → Result Order
exchange symbol key = ok there

pub resting-IsCancelledThere : IsCancelledThere exchange resting there store
unfolding get
resting-IsCancelledThere = record {
  row = refl;
  working = at_open;
  named = refl;
  answer = refl;
  cancelled_there = refl;
}

pub listed : list_open store ≡ resting ∷ []
unfolding list_open
listed = refl

recover-raises_example :
    recover context true texts draw exchange store ≡ (err invalid_state_transition, store)
recover-raises_example =
    recover-raises context true texts draw exchange resting there [] store listed
      resting-IsCancelledThere

abbrev waiting : Order
waiting = record (new_order intent paper 1 100) { status = submitted }

abbrev waiting_store : Store
waiting_store = record { orders = waiting ∷ []; events = []; fills = [] }

abbrev call : Call
call = record { event_id = 60; now = 500; others = λ s. s }

abbrev calls : Calls
calls = record {
  order_id = 1;
  creation = call;
  validation = call;
  submitting = call;
  submitted = call;
  outcome = call;
  status = call;
  reason = λ e. 6;
  rejected_on_exchange = 7;
}

abbrev no_recovery : Store → Done × Store
no_recovery s = (ok tt, s)

waiting-IsSubmitted : IsSubmitted calls 1 waiting waiting waiting_store
unfolding get
waiting-IsSubmitted = record {
  row = refl;
  status = refl;
  row_then = refl;
  recordable = (refl, refl);
}

after_submit-unknown_example :
    get 1 (after_submit calls no_recovery (err order_rejected) 1 waiting_store).1
    ≡ some (record_row unknown (no_args 60 500) waiting)
after_submit-unknown_example =
    after_submit-unknown calls no_recovery order_rejected 1 waiting waiting waiting_store refl refl
      waiting-IsSubmitted
