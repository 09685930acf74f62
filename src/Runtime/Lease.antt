-- ===== src/Runtime/Lease.antt =====
-- src/crypto_trader/runtime/lease.py: the single-writer lease, in a table that all engines share.
-- Epoch times are numbers. Each transaction of the database is one step on the table; `acquire`
-- makes two, and what other engines commit in between is an argument.
pub mod Writes
pub mod Attempts
use crypto_auto_trading_syst.Base.{
  ℕ, zero, suc, ◌+◌, Bool, true, false, not, ◌&&◌, ◌||◌, Option, none, some, List, [], ◌∷◌, ◌++◌,
  find, any, select, update, Result, ok, err, integrity_error, stale_data, ◌==◌, ltb, leb,
  if◌then◌else◌,
}
use crypto_auto_trading_syst.Domain.Models.{Text, Time}

pub record LeaseRow : Type 0 where
  pub row_id : ℕ
  pub lease_key : Text
  pub owner_id : Text
  pub token : Text
  pub expires_at : Time
  pub acquired_at : Time
  pub renewed_at : Option Time
  pub version : ℕ
  pub fence_generation : ℕ

abbrev pub LeaseTable : Type 0
LeaseTable = List LeaseRow

pub record Lease : Type 0 where
  pub lease_key : Text
  pub owner_id : Text
  pub token : Text
  pub expires_at : Time
  pub fence_generation : ℕ

abbrev pub has_key : Text → LeaseRow → Bool
has_key key r = r.lease_key == key

abbrev pub has_row_id : ℕ → LeaseRow → Bool
has_row_id id r = r.row_id == id

abbrev pub has_token : Text → LeaseRow → Bool
has_token token r = r.token == token

abbrev pub has_key_and_token : Text → Text → LeaseRow → Bool
has_key_and_token key token r = r.lease_key == key && r.token == token

-- What a writer wants: the key, its own name, and for how long.
pub record Request : Type 0 where
  pub lease_key : Text
  pub owner_id : Text
  pub ttl : Time

-- The row of a first acquisition.
abbrev pub new_row : Request → ℕ → Text → Time → LeaseRow
new_row q id token now = record {
  row_id = id;
  lease_key = q.lease_key;
  owner_id = q.owner_id;
  token = token;
  expires_at = now + q.ttl;
  acquired_at = now;
  renewed_at = none;
  version = 1;
  fence_generation = 1;
}

abbrev pub lease_of : Request → Text → Time → ℕ → Lease
lease_of q token now fence = record {
  lease_key = q.lease_key;
  owner_id = q.owner_id;
  token = token;
  expires_at = now + q.ttl;
  fence_generation = fence;
}

-- The update of an expired row.
abbrev pub taken_row : Request → Text → Time → LeaseRow → LeaseRow
taken_row q token now r = record r {
  owner_id = q.owner_id;
  token = token;
  expires_at = now + q.ttl;
  acquired_at = now;
  renewed_at = none;
  version = r.version + 1;
  fence_generation = r.fence_generation + 1;
}

-- The renewal by `acquire`; the version is counted on from the one that was read.
abbrev pub extended_row : Request → Time → ℕ → LeaseRow → LeaseRow
extended_row q now version r = record r {
  expires_at = now + q.ttl;
  renewed_at = some now;
  version = version + 1;
}

-- The renewal by `renew`.
abbrev pub renewed_row : Time → Time → LeaseRow → LeaseRow
renewed_row now ttl r = record r {
  expires_at = now + ttl;
  renewed_at = some now;
  version = r.version + 1;
}

abbrev pub expired : Time → LeaseRow → Bool
expired now r = leb r.expires_at now

-- The single transactions that write.
pub data Write : Type 0 where
  insert_row : Request → ℕ → Text → Write
  take_over : Request → Text → Write
  extend_row : Request → ℕ → ℕ → Write
  renew_row : Text → Text → Time → Write
  delete_row : Text → Text → Write

abbrev pub can_take : Text → Time → LeaseRow → Bool
can_take key now r = has_key key r && expired now r

-- A row that keeps the token beside a row that is taken over with it.
abbrev pub has_token_elsewhere : Text → Text → Time → LeaseRow → Bool
has_token_elsewhere key token now r = has_token token r && not (can_take key now r)

abbrev pub can_renew : Text → Text → Time → LeaseRow → Bool
can_renew key token now r = has_key_and_token key token r && not (expired now r)

-- Whether a row matched, with the table afterwards; the unique columns are the key and the token.
unfoldable pub apply_write : Write → Time → LeaseTable → Result Bool × LeaseTable
apply_write (insert_row q id token) now t =
    if any (has_key q.lease_key) t || any (has_token token) t || any (has_row_id id) t
    then (err integrity_error, t)
    else (ok true, t ++ new_row q id token now ∷ [])
apply_write (take_over q token) now t =
    if any (can_take q.lease_key now) t && any (has_token_elsewhere q.lease_key token now) t
    then (err integrity_error, t)
    else (
      ok (any (can_take q.lease_key now) t),
      update (can_take q.lease_key now) (taken_row q token now) t,
    )
apply_write (extend_row q id version) now t =
    if any (has_row_id id) t
    then (ok true, update (has_row_id id) (extended_row q now version) t)
    else (err stale_data, t)
apply_write (renew_row key token ttl) now t =
    (ok (any (can_renew key token now) t), update (can_renew key token now) (renewed_row now ttl) t)
apply_write (delete_row key token) now t =
    (ok (any (has_key_and_token key token) t), select (λ r. not (has_key_and_token key token r)) t)

-- One try of `acquire`: its clock, the token that it draws, the id that the database gives to a new
-- row, and what other engines commit before its read and between its read and its write.
pub record Attempt : Type 0 where
  pub now : Time
  pub token : Text
  pub row_id : ℕ
  pub earlier : LeaseTable → LeaseTable
  pub others : LeaseTable → LeaseTable

pub data Outcome : Type 0 where
  acquired : Lease → Outcome
  refused : Outcome
  again : Outcome
  raised : Outcome

-- A violated constraint of the insertion leads to another try.
abbrev pub after_insert : Request → Attempt → Result Bool × LeaseTable → Outcome × LeaseTable
after_insert q a (ok b, t) = (acquired (lease_of q a.token a.now 1), t)
after_insert q a (err e, t) = (again, t)

-- The renewed lease has the default generation.
abbrev pub after_extend :
    Request → Attempt → LeaseRow → Result Bool × LeaseTable → Outcome × LeaseTable
after_extend q a r (ok b, t) = (acquired (lease_of q r.token a.now 1), t)
after_extend q a r (err e, t) = (raised, t)

-- The generation is that of the session's copy of the row, which the update counts on.
abbrev pub after_take :
    Request → Attempt → LeaseRow → Result Bool × LeaseTable → Outcome × LeaseTable
after_take q a r (ok true, t) = (acquired (lease_of q a.token a.now (r.fence_generation + 1)), t)
after_take q a r (ok false, t) = (refused, t)
after_take q a r (err e, t) = (raised, t)

-- `row.owner_id == owner_id and row.token`
abbrev pub own_row : Request → LeaseRow → Bool
own_row q r = r.owner_id == q.owner_id && not (r.token == 0)

abbrev pub attempt_on : Request → Attempt → Option LeaseRow → LeaseTable → Outcome × LeaseTable
attempt_on q a none t =
    after_insert q a (apply_write (insert_row q a.row_id a.token) a.now (a.others t))
attempt_on q a (some r) t =
    if ltb a.now r.expires_at
    then (if own_row q r
        then after_extend q a r (apply_write (extend_row q r.row_id r.version) a.now (a.others t))
        else (refused, t))
    else after_take q a r (apply_write (take_over q a.token) a.now (a.others t))

unfoldable pub attempt : Request → Attempt → LeaseTable → Outcome × LeaseTable
attempt q a t = let read = a.earlier t in attempt_on q a (find (has_key q.lease_key) read) read

abbrev pub is_again : Outcome → Bool
is_again (acquired l) = false
is_again refused = false
is_again again = true
is_again raised = false

-- `acquire` with its retries, one attempt after the other; `again` if they run out.
unfoldable pub acquire : Request → List Attempt → LeaseTable → Outcome × LeaseTable
acquire q [] t = (again, t)
acquire q (a ∷ rest) t =
    let result = attempt q a t in
    let rest_of = acquire q rest result.1 in if is_again result.0 then rest_of else result

unfoldable pub renew : Text → Text → Time → Time → LeaseTable → Result Bool × LeaseTable
unfolding apply_write
renew key token ttl now t = apply_write (renew_row key token ttl) now t

unfoldable pub release : Text → Text → LeaseTable → Result Bool × LeaseTable
unfolding apply_write
release key token t = apply_write (delete_row key token) 0 t

abbrev pub is_live : Time → Option LeaseRow → Bool
is_live now none = false
is_live now (some r) = ltb now r.expires_at

abbrev pub is_live_at : Time → ℕ → Option LeaseRow → Bool
is_live_at now fence none = false
is_live_at now fence (some r) = ltb now r.expires_at && r.fence_generation == fence

unfoldable pub is_held : Text → Option Text → Time → LeaseTable → Bool
is_held key none now t = false
is_held key (some token) now t = is_live now (find (has_key_and_token key token) t)

unfoldable pub is_current : Text → Text → ℕ → Time → LeaseTable → Bool
is_current key token fence now t = is_live_at now fence (find (has_key_and_token key token) t)
