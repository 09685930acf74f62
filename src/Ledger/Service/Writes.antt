-- ===== src/Ledger/Service/Writes.antt =====
-- src/crypto_trader/ledger/service.py: what `record` lets into the journal, once and twice.
use crypto_auto_trading_syst.Base.{
  ℕ, suc, ◌≡◌, refl, inl, inr, true, false, ◌||◌, Option, none, some, List, [], ◌∷◌, any, All, ok,
  arith, Bool-cases, Option-cases,
}
use crypto_auto_trading_syst.Base.Tables.{All-append, any_of_find, find-append}
use crypto_auto_trading_syst.Decimal.{Context}
use crypto_auto_trading_syst.Domain.Models.{Text}
use crypto_auto_trading_syst.Order.Store.{truthy}
use crypto_auto_trading_syst.Ledger.Journal.{LedgerPosting, LedgerEntry, LedgerTransaction, Journal}
use crypto_auto_trading_syst.Ledger.Service.{
  journal_balanced, is_empty, number_entries, RecordArgs, new_transaction, fits_id, fits_query,
  find_transaction, has_transaction_id, insert_transaction, record_transaction,
}

abbrev pub postings_of : List LedgerEntry → List LedgerPosting
postings_of [] = []
postings_of (e ∷ es) = e.posting ∷ postings_of es

postings_of-number_entries :
    (n : ℕ) (ps : List LedgerPosting) → postings_of (number_entries n ps) ≡ ps
unfolding number_entries
postings_of-number_entries n [] = refl
postings_of-number_entries n (p ∷ ps) = rw (postings_of-number_entries (suc n) ps)

-- The transaction has a posting, and its debits equal its credits.
abbrev pub IsSound : Context → LedgerTransaction → Type 0
IsSound c t =
    (is_empty (postings_of t.entries) ≡ false) × (journal_balanced c (postings_of t.entries) ≡ true)

module _ (c : Context) where
  insert-All :
      (args : RecordArgs) (j : Journal)
      → is_empty args.postings ≡ false
      → journal_balanced c args.postings ≡ true
      → All (IsSound c) j
      → All (IsSound c) (insert_transaction args j).1
  unfolding insert_transaction
  insert-All args j full balanced a =
      elim (Bool-cases (any (has_transaction_id args.transaction_id) j)) [
        | inl taken ↦ rw taken a
        | inr new ↦ rw new (
            All-append (IsSound c) j (new_transaction args) a
              (rw (postings_of-number_entries 1 args.postings) (full, balanced)))
      ]

  -- Whatever is recorded, and whatever sound transactions other tasks write meanwhile, every
  -- transaction of the journal has a posting and balances its debits with its credits.
  pub record_transaction-IsSound :
      (others : Journal → Journal) (args : RecordArgs) (j : Journal)
      → ((i : Journal) → All (IsSound c) i → All (IsSound c) (others i))
      → All (IsSound c) j
      → All (IsSound c) (record_transaction c others args j).1
  unfolding record_transaction
  record_transaction-IsSound others args j keep a =
      elim (Option-cases (find_transaction args.fill_id args.event_id j)) [
        | inr (t, known) ↦ rw known a
        | inl new ↦ rw new (elim (Bool-cases (is_empty args.postings)) [
          | inl empty ↦ rw empty a
          | inr full ↦ elim (Bool-cases (journal_balanced c args.postings)) [
            | inl balanced ↦
                rw (full, balanced) (insert-All args (others j) full balanced (keep j a))
            | inr skewed ↦ rw (full, skewed) a
          ]
        ])
      ]

-- Nobody else writes during the call.
abbrev pub alone : Journal → Journal
alone j = j

fits_id_refl : (a : Option Text) → fits_id a a ≡ true
fits_id_refl none = refl
fits_id_refl (some t) = ground arith

new_transaction-fits :
    (args : RecordArgs) → fits_query args.fill_id args.event_id (new_transaction args) ≡ true
new_transaction-fits args = ground (arith, fits_id_refl args.fill_id, fits_id_refl args.event_id)

insert-found :
    (args : RecordArgs) (j : Journal) {t : LedgerTransaction} {i : Journal}
    → truthy args.fill_id || truthy args.event_id ≡ true
    → find_transaction args.fill_id args.event_id j ≡ none
    → insert_transaction args j ≡ (ok t, i)
    → find_transaction args.fill_id args.event_id i ≡ some t
unfolding insert_transaction find_transaction
insert-found args j {t} {i} there new h =
    let query = fits_query args.fill_id args.event_id in
    let free = any_of_find query j (rw there at new) in
    elim (Bool-cases (any (has_transaction_id args.transaction_id) j)) [
      | inl taken ↦ ground arith
      | inr fresh ↦
          ground
            (arith, find-append query j (new_transaction args) free (new_transaction-fits args))
    ]

-- A transaction that `record` returns is the one that the journal then has for its fill or event.
record-found :
    (c : Context) (args : RecordArgs) (j : Journal) {t : LedgerTransaction} {i : Journal}
    → truthy args.fill_id || truthy args.event_id ≡ true
    → record_transaction c alone args j ≡ (ok t, i)
    → find_transaction args.fill_id args.event_id i ≡ some t
unfolding record_transaction
record-found c args j {t} {i} there h =
    elim (Option-cases (find_transaction args.fill_id args.event_id j)) [
      | inr (known, e) ↦ ground arith
      | inl new ↦ ground (arith, insert-found args j {t = t} {i = i} there new)
    ]

-- Once a fill or an event is recorded, recording it again returns the same transaction and writes
-- nothing, whatever postings, metadata and new identifiers the second call brings.
record_retry :
    (c : Context) (others : Journal → Journal) (args again : RecordArgs) (j : Journal)
    {t : LedgerTransaction} {i : Journal}
    → truthy args.fill_id || truthy args.event_id ≡ true
    → again.fill_id ≡ args.fill_id
    → again.event_id ≡ args.event_id
    → record_transaction c alone args j ≡ (ok t, i)
    → record_transaction c others again i ≡ (ok t, i)
unfolding record_transaction
record_retry c others args again j there same_fill same_event h =
    rw (same_fill, same_event, record-found c args j there h)
