-- ===== src/Runtime/Supervisor/Exclusion.antt =====
-- src/crypto_trader/runtime/supervisor.py: the execution loops of several supervisors.
use mathlib.Core.Path.{subst}
use crypto_auto_trading_syst.Base.{◌≡◌, refl, sym, true, Option, none, some, List, [], arith, find}
use crypto_auto_trading_syst.Domain.Models.{Text, Time}
use crypto_auto_trading_syst.Runtime.Lease.{
  Lease, LeaseRow, LeaseTable, is_live_at, is_live, is_held, is_current, has_key_and_token,
}
use crypto_auto_trading_syst.Runtime.Lease.Writes.{Event, commit_all, is_held-exclusive}
use crypto_auto_trading_syst.Runtime.Supervisor.{Supervisor, lease_is_current, execution_turn}

current_is_held :
    (key token : Text) (fence : _) (now : Time) (t : LeaseTable)
    → is_current key token fence now t ≡ true
    → is_held key (some token) now t ≡ true
unfolding is_current is_held
current_is_held key token fence now t h = held (find (has_key_and_token key token) t) h
  where
    held : (o : Option LeaseRow) → is_live_at now fence o ≡ true → is_live now o ≡ true
    held none k = cc
    held (some r) k = ground arith

one_token :
    (es : List Event) (now : Time) (key : Text) (o p : Option Lease)
    → lease_is_current o key now (commit_all es []) ≡ true
    → lease_is_current p key now (commit_all es []) ≡ true
    → (k l : Lease) × (o ≡ some k) × (p ≡ some l) × (k.token ≡ l.token)
one_token es now key none p h j = cc
one_token es now key (some k) none h j = cc
one_token es now key (some k) (some l) h j =
    let t = commit_all es [] in
    (
      k,
      l,
      refl,
      refl,
      is_held-exclusive es key k.token l.token now
          (current_is_held key k.token k.fence_generation now t h)
          (current_is_held key l.token l.fence_generation now t j),
    )

-- Whatever transactions any engines commit from an empty table, two supervisors with the same lease
-- key that would both call their execution callbacks at one moment have the same token.
pub execution_turn-exclusive :
    (es : List Event) (now : Time) (a b : Supervisor)
    → a.lease_key ≡ b.lease_key
    → (execution_turn now (commit_all es []) a).0 ≡ true
    → (execution_turn now (commit_all es []) b).0 ≡ true
    → (k l : Lease) × (a.lease ≡ some k) × (b.lease ≡ some l) × (k.token ≡ l.token)
unfolding execution_turn
execution_turn-exclusive es now a b same h j =
    one_token es now a.lease_key a.lease b.lease h
      (subst (λ key. lease_is_current b.lease key now (commit_all es []) ≡ true) (sym same) j)
