-- ===== src/Runtime/Lease/Attempts.antt =====
-- src/crypto_trader/runtime/lease.py: `acquire`, its retries, and the lease that it returns.
use mathlib.Core.Path.{subst}
use crypto_auto_trading_syst.Base.{
  ◌+◌, ◌≡◌, refl, sym, inl, inr, Bool, true, false, Option, none, some, List, [], ◌∷◌, ◌++◌, find,
  any, update, arith, Bool-cases, ltb, if◌then◌else◌,
}
use crypto_auto_trading_syst.Base.Tables.{any_of_find, find-append}
use crypto_auto_trading_syst.Domain.Models.{Text, Time}
use crypto_auto_trading_syst.Runtime.Lease.{
  LeaseRow, LeaseTable, has_key, has_row_id, has_token, has_key_and_token, has_token_elsewhere,
  Request, new_row, taken_row, expired, can_take, apply_write, Attempt, Outcome, acquired, again,
  refused, raised, attempt_on, attempt, is_again, acquire, is_live, is_live_at, is_current,
}

-- What is written for the attempt: nothing else has its token or its id.
pub record IsFresh (a : Attempt) (t : LeaseTable) : Type 0 where
  pub token_new : any (has_token a.token) t ≡ false
  pub row_id_new : any (has_row_id a.row_id) t ≡ false

found_row_decides :
    (q : Request) (a : Attempt) (r : LeaseRow) (t : LeaseTable)
    → is_again (attempt_on q a (some r) t).0 ≡ false
unfolding apply_write
found_row_decides q a r t = ground arith

-- A try that leads to another one found no row and lost to an insertion of the same key.
attempt_on-again :
    (q : Request) (a : Attempt) (o : Option LeaseRow) (t : LeaseTable)
    → IsFresh a (a.others t)
    → is_again (attempt_on q a o t).0 ≡ true
    → ((attempt_on q a o t).1 ≡ a.others t) × (any (has_key q.lease_key) (a.others t) ≡ true)
unfolding apply_write
attempt_on-again q a none t f h = ground (arith, f.token_new, f.row_id_new)
attempt_on-again q a (some r) t f h = ground (arith, found_row_decides q a r t)

any-find :
    (p : LeaseRow → Bool) (t : LeaseTable) → any p t ≡ true → (r : LeaseRow) × (find p t ≡ some r)
any-find p [] h = cc
any-find p (r ∷ t) h = elim (Bool-cases (p r)) [
  | inl e ↦ (r, ground arith)
  | inr e ↦ let rest = any-find p t (ground arith) in (rest.0, ground (arith, rest.1))
]

attempt-found :
    (q : Request) (a : Attempt) (t : LeaseTable)
    → any (has_key q.lease_key) (a.earlier t) ≡ true
    → is_again (attempt q a t).0 ≡ false
unfolding attempt
attempt-found q a t h =
    let found = any-find (has_key q.lease_key) (a.earlier t) h in
    rw found.1 (found_row_decides q a found.0 (a.earlier t))

-- If other engines leave the key that beat the first try until the second one reads, `acquire`
-- makes at most two tries: with any later ones it returns what it returns with two, and it is done.
pub acquire-terminates :
    (q : Request) (a b : Attempt) (rest : List Attempt) (t : LeaseTable)
    → IsFresh a (a.others (a.earlier t))
    → ((u : LeaseTable)
        → any (has_key q.lease_key) u ≡ true
        → any (has_key q.lease_key) (b.earlier u) ≡ true)
    → (acquire q (a ∷ b ∷ rest) t ≡ acquire q (a ∷ b ∷ []) t)
      × (is_again (acquire q (a ∷ b ∷ rest) t).0 ≡ false)
unfolding acquire attempt
acquire-terminates q a b rest t f keeps = elim (Bool-cases (is_again (attempt q a t).0)) [
  | inl e ↦
      let lost =
        attempt_on-again q a (find (has_key q.lease_key) (a.earlier t)) (a.earlier t) f e in
      let done = attempt-found q b (attempt q a t).1 (keeps (attempt q a t).1 (rw lost.0 lost.1)) in
      ground (arith, done)
  | inr e ↦ ground arith
]

any_both :
    (key token : Text) (t : LeaseTable)
    → any (has_key key) t ≡ false
    → any (has_key_and_token key token) t ≡ false
any_both key token [] h = refl
any_both key token (r ∷ t) h = ground (arith, any_both key token t)

insert-current :
    (q : Request) (a : Attempt) (t : LeaseTable)
    → any (has_key q.lease_key) t ≡ false
    → ltb 0 q.ttl ≡ true
    → is_live_at a.now 1
        (find (has_key_and_token q.lease_key a.token) (t ++ new_row q a.row_id a.token a.now ∷ []))
      ≡ true
insert-current q a t h positive =
    rw
      (find-append (has_key_and_token q.lease_key a.token) t (new_row q a.row_id a.token a.now)
        (any_both q.lease_key a.token t h) (ground arith))
      (ground arith)

take-current :
    (q : Request) (token : Text) (now : Time) (t : LeaseTable) {r : LeaseRow}
    → find (has_key q.lease_key) t ≡ some r
    → expired now r ≡ true
    → any (has_token token) t ≡ false
    → ltb 0 q.ttl ≡ true
    → is_live_at now (r.fence_generation + 1) (
        find
          (has_key_and_token q.lease_key token)
          (update (can_take q.lease_key now) (taken_row q token now) t))
      ≡ true
take-current q token now [] h e f positive = cc
take-current q token now (x ∷ t) {r} h e f positive = elim (Bool-cases (has_key q.lease_key x)) [
  | inl here ↦
      let same : x ≡ r = ground arith in
      let old : expired now x ≡ true = cc in
      let fence : x.fence_generation ≡ r.fence_generation = cc in ground arith
  | inr there ↦
      ground (arith, take-current q token now t {r = r} (ground arith) e (ground arith) positive)
]

take-possible :
    (key token : Text) (now : Time) (t : LeaseTable) {r : LeaseRow}
    → find (has_key key) t ≡ some r
    → expired now r ≡ true
    → any (can_take key now) t ≡ true
take-possible key token now [] h e = cc
take-possible key token now (x ∷ t) {r} h e = elim (Bool-cases (has_key key x)) [
  | inl here ↦
      let same : x ≡ r = ground arith in let old : expired now x ≡ true = cc in ground arith
  | inr there ↦ ground (arith, take-possible key token now t {r = r} (ground arith) e)
]

nowhere :
    (key token : Text) (now : Time) (t : LeaseTable)
    → any (has_token token) t ≡ false
    → any (has_token_elsewhere key token now) t ≡ false
nowhere key token now [] f = refl
nowhere key token now (x ∷ t) f = ground (arith, nowhere key token now t)

-- The lease that an outcome carries is current at a time in a table.
abbrev pub IsCurrentAt : Text → Time → Outcome × LeaseTable → Type 0
unfolding is_current
IsCurrentAt key now (acquired l, t) = is_current key l.token l.fence_generation now t ≡ true
IsCurrentAt key now (refused, t) = ⊥
IsCurrentAt key now (again, t) = ⊥
IsCurrentAt key now (raised, t) = ⊥

attempt_on-current :
    (q : Request) (a : Attempt) (t : LeaseTable) (o : Option LeaseRow)
    → find (has_key q.lease_key) t ≡ o
    → is_live a.now o ≡ false
    → IsFresh a t
    → ltb 0 q.ttl ≡ true
    → a.others t ≡ t
    → IsCurrentAt q.lease_key a.now (attempt_on q a o t)
unfolding apply_write is_current
attempt_on-current q a t none h d f positive quiet =
    let free = any_of_find (has_key q.lease_key) t h in
    rw (quiet, free, f.token_new, f.row_id_new) (insert-current q a t free positive)
attempt_on-current q a t (some r) h d f positive quiet =
    let old : expired a.now r ≡ true = ground arith in
    rw
      (
        quiet,
        d,
        take-possible q.lease_key a.token a.now t h old,
        nowhere q.lease_key a.token a.now t f.token_new,
      )
      (take-current q a.token a.now t h old f.token_new positive)

attempt-stops :
    (q : Request) (a : Attempt) (rest : List Attempt) (t : LeaseTable)
    → IsCurrentAt q.lease_key a.now (attempt q a t)
    → acquire q (a ∷ rest) t ≡ attempt q a t
unfolding acquire IsCurrentAt
attempt-stops q a rest t h = go (attempt q a t) h
  where
    go :
        (r : Outcome × LeaseTable)
        → IsCurrentAt q.lease_key a.now r
        → (if is_again r.0 then acquire q rest r.1 else r) ≡ r
    go (acquired l, u) h = refl
    go (refused, u) h = absurd h
    go (again, u) h = absurd h
    go (raised, u) h = absurd h

-- Where no row of the key is live, and nothing is committed between the read and the write,
-- `acquire` with a fresh token and a positive time to live returns a lease, and that lease is
-- current in the table that it leaves, with the generation that it returns.
pub acquire-IsCurrentAt :
    (q : Request) (a : Attempt) (rest : List Attempt) (t : LeaseTable)
    → is_live a.now (find (has_key q.lease_key) (a.earlier t)) ≡ false
    → IsFresh a (a.earlier t)
    → ltb 0 q.ttl ≡ true
    → a.others (a.earlier t) ≡ a.earlier t
    → IsCurrentAt q.lease_key a.now (acquire q (a ∷ rest) t)
unfolding attempt
acquire-IsCurrentAt q a rest t d f positive quiet =
    let now_current =
      attempt_on-current q a (a.earlier t) (find (has_key q.lease_key) (a.earlier t)) refl d f
        positive quiet in
    subst (IsCurrentAt q.lease_key a.now) (sym (attempt-stops q a rest t now_current)) now_current
