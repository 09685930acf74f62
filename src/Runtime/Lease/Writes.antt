-- ===== src/Runtime/Lease/Writes.antt =====
-- src/crypto_trader/runtime/lease.py: the table of leases under any sequence of writes.
use crypto_auto_trading_syst.Base.{
  ◌≡◌, refl, inl, inr, Bool, true, false, not, ◌&&◌, ◌||◌, some, List, [], ◌∷◌, find, any, select,
  arith, Bool-cases, ◌==◌,
}
use crypto_auto_trading_syst.Base.Tables.{Unique, Unique-append, Unique-update}
use crypto_auto_trading_syst.Domain.Models.{Text, Time}
use crypto_auto_trading_syst.Runtime.Lease.{
  LeaseRow, LeaseTable, has_key, has_row_id, has_token, has_key_and_token, has_token_elsewhere,
  new_row, taken_row, extended_row, renewed_row, can_take, can_renew, Write, insert_row, take_over,
  extend_row, renew_row, delete_row, apply_write, is_live, is_held,
}

-- One row for each key.
abbrev pub HasUniqueKeys : LeaseTable → Type 0
HasUniqueKeys t = Unique (λ r. r.lease_key) t

-- A transaction at a time of the shared clock.
pub record Event : Type 0 where
  pub write : Write
  pub now : Time

-- The table after any transactions of any engines, in their order.
unfoldable pub commit_all : List Event → LeaseTable → LeaseTable
commit_all [] t = t
commit_all (e ∷ es) t = commit_all es (apply_write e.write e.now t).1

any-select : (p q : LeaseRow → Bool) (t : LeaseTable) → any p t ≡ false → any p (select q t) ≡ false
any-select p q [] h = refl
any-select p q (r ∷ t) h = ground (arith, any-select p q t)

Unique-select :
    (q : LeaseRow → Bool) (t : LeaseTable) → HasUniqueKeys t → HasUniqueKeys (select q t)
Unique-select q [] u = tt
Unique-select q (r ∷ t) u =
    ground (arith, any-select (λ y. y.lease_key == r.lease_key) q t u.0, Unique-select q t u.1)

apply_write-HasUniqueKeys :
    (w : Write) (now : Time) (t : LeaseTable)
    → HasUniqueKeys t
    → HasUniqueKeys (apply_write w now t).1
unfolding apply_write
apply_write-HasUniqueKeys (insert_row q id token) now t u =
    elim (Bool-cases (any (has_key q.lease_key) t)) [
      | inl taken ↦ rw taken u
      | inr free ↦ elim (Bool-cases (any (has_token token) t || any (has_row_id id) t)) [
        | inl taken ↦ rw (free, taken) u
        | inr new ↦
            rw (free, new)
              (Unique-append (λ (r : LeaseRow). r.lease_key) t (new_row q id token now) free u)
      ]
    ]
apply_write-HasUniqueKeys (take_over q token) now t u =
    elim (Bool-cases
      (any (can_take q.lease_key now) t && any (has_token_elsewhere q.lease_key token now) t)) [
        | inl taken ↦ rw taken u
        | inr free ↦ rw free (
            Unique-update (λ r. r.lease_key) (can_take q.lease_key now) (taken_row q token now) t
              (λ r. refl) u)
      ]
apply_write-HasUniqueKeys (extend_row q id version) now t u =
    elim (Bool-cases (any (has_row_id id) t)) [
      | inl there ↦ rw there (
          Unique-update (λ r. r.lease_key) (has_row_id id) (extended_row q now version) t
            (λ r. refl) u)
      | inr gone ↦ rw gone u
    ]
apply_write-HasUniqueKeys (renew_row key token ttl) now t u =
    Unique-update (λ r. r.lease_key) (can_renew key token now) (renewed_row now ttl) t (λ r. refl) u
apply_write-HasUniqueKeys (delete_row key token) now t u =
    Unique-select (λ r. not (has_key_and_token key token r)) t u

commit_all-HasUniqueKeys :
    (es : List Event) (t : LeaseTable) → HasUniqueKeys t → HasUniqueKeys (commit_all es t)
unfolding commit_all
commit_all-HasUniqueKeys [] t u = u
commit_all-HasUniqueKeys (e ∷ es) t u =
    commit_all-HasUniqueKeys es (apply_write e.write e.now t).1
      (apply_write-HasUniqueKeys e.write e.now t u)

absent_key :
    (key token : Text) (now : Time) (t : LeaseTable)
    → any (λ y. y.lease_key == key) t ≡ false
    → is_live now (find (has_key_and_token key token) t) ≡ false
absent_key key token now [] h = refl
absent_key key token now (r ∷ t) h = ground (arith, absent_key key token now t)

-- In a table with unique keys, two tokens that are held for one key are one token.
held_once :
    (key a b : Text) (now later : Time) (t : LeaseTable)
    → HasUniqueKeys t
    → is_live now (find (has_key_and_token key a) t) ≡ true
    → is_live later (find (has_key_and_token key b) t) ≡ true
    → a ≡ b
held_once key a b now later [] u h k = cc
held_once key a b now later (r ∷ t) u h k = elim (Bool-cases (r.lease_key == key)) [
  | inl here ↦
      let same : r.lease_key ≡ key = ground arith in
      ground (arith, absent_key r.lease_key a now t u.0, absent_key r.lease_key b later t u.0)
  | inr there ↦ held_once key a b now later t u.1 (ground arith) (ground arith)
]

-- Whatever transactions any engines commit in whatever order and at whatever times, from an empty
-- table, at most one token is held for a key.
pub is_held-exclusive :
    (es : List Event) (key a b : Text) (now : Time)
    → is_held key (some a) now (commit_all es []) ≡ true
    → is_held key (some b) now (commit_all es []) ≡ true
    → a ≡ b
unfolding is_held
is_held-exclusive es key a b now h k =
    held_once key a b now now (commit_all es []) (commit_all-HasUniqueKeys es [] tt) h k
