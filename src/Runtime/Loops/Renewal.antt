-- ===== src/Runtime/Loops/Renewal.antt =====
-- src/crypto_trader/runtime/engine.py: an engine that has lost its lease.
use mathlib.Core.Path.{subst}
use crypto_auto_trading_syst.Base.{
  ◌≡◌, refl, false, some, [], ◌∷◌, find, any, ok, arith, Bool-cases, inl, inr, ◌==◌,
}
use crypto_auto_trading_syst.Decimal.{Context}
use crypto_auto_trading_syst.Domain.Enums.{reject}
use crypto_auto_trading_syst.Domain.Models.{Text, Time}
use crypto_auto_trading_syst.Risk.KillSwitch.{KillSwitch}
use crypto_auto_trading_syst.Risk.Reversal.{global_kill_switch}
use crypto_auto_trading_syst.Risk.Engine.{RiskConfig, Intent, CheckArgs, check}
use crypto_auto_trading_syst.Risk.Engine.Limits.{engage-refuses}
use crypto_auto_trading_syst.Runtime.Lease.{
  Lease, LeaseTable, has_key_and_token, can_renew, apply_write, is_live, is_held, renew,
}
use crypto_auto_trading_syst.Runtime.Lease.Writes.{HasUniqueKeys}
use crypto_auto_trading_syst.Runtime.Loops.{after_renewal, lease_tick}

no_row :
    (key token : Text) (now : Time) (t : LeaseTable)
    → any (λ y. y.lease_key == key) t ≡ false
    → any (can_renew key token now) t ≡ false
no_row key token now [] h = refl
no_row key token now (r ∷ t) h = ground (arith, no_row key token now t)

lost-renewal :
    (key token : Text) (now : Time) (t : LeaseTable)
    → HasUniqueKeys t
    → is_live now (find (has_key_and_token key token) t) ≡ false
    → any (can_renew key token now) t ≡ false
lost-renewal key token now [] u h = refl
lost-renewal key token now (r ∷ t) u h = elim (Bool-cases (r.lease_key == key)) [
  | inl here ↦
      let same : r.lease_key ≡ key = ground arith in
      let alone : any (λ y. y.lease_key == key) t ≡ false =
        subst (λ x. any (λ y. y.lease_key == x) t ≡ false) same u.0 in
      let rest = no_row key token now t alone in ground arith
  | inr there ↦ ground (arith, lost-renewal key token now t)
]

-- If an engine's lease is not held any more when it renews it, in a table with one row for each
-- key, every intent is refused from then on, under every configuration and account.
pub lease_tick-refuses :
    (c : Context) (config : RiskConfig) (k : KillSwitch) (reason : Text) (ttl now : Time)
    (l : Lease) (t : LeaseTable) (intent : Intent) (args : CheckArgs)
    → HasUniqueKeys t
    → is_held l.lease_key (some l.token) now t ≡ false
    → check c
        (record { config = config; kill_switch = (lease_tick reason ttl now (some l) t k).0 })
        intent
        args
      ≡ ok (reject, global_kill_switch)
unfolding lease_tick after_renewal renew apply_write is_held
lease_tick-refuses c config k reason ttl now l t intent args u h =
    rw (lost-renewal l.lease_key l.token now t u h)
      (engage-refuses c config k reason now intent args)
