-- ===== src/Runtime/Loops.antt =====
-- src/crypto_trader/runtime/engine.py: one turn of `_lease_loop`, and of `_reconciliation_loop`. The
-- health flags are left out.
pub mod Renewal
use crypto_auto_trading_syst.Base.{Bool, true, false, Option, none, some, Result, ok, err}
use crypto_auto_trading_syst.Domain.Models.{Text, Time}
use crypto_auto_trading_syst.Risk.KillSwitch.{KillSwitch, engage}
use crypto_auto_trading_syst.Ledger.Projections.{ProjectionSnapshot}
use crypto_auto_trading_syst.Simulator.Matching.{Wallet}
use crypto_auto_trading_syst.Reconciliation.{reconcile}
use crypto_auto_trading_syst.Runtime.Lease.{Lease, LeaseTable, renew}

-- A renewal that found no row of the lease to extend engages the kill switch.
unfoldable pub after_renewal :
    Text → Time → Result Bool × LeaseTable → KillSwitch → KillSwitch × LeaseTable
unfolding engage
after_renewal reason now (ok true, t) k = (k, t)
after_renewal reason now (ok false, t) k = (engage reason now k, t)
after_renewal reason now (err e, t) k = (k, t)

unfoldable pub lease_tick :
    Text → Time → Time → Option Lease → LeaseTable → KillSwitch → KillSwitch × LeaseTable
unfolding after_renewal renew
lease_tick reason ttl now none t k = (k, t)
lease_tick reason ttl now (some l) t k =
    after_renewal reason now (renew l.lease_key l.token ttl now t) k

-- The engine's `reconciliation_halted` after a turn.
unfoldable pub reconciliation_tick :
    (Text → Text) → (Text → Text) → ProjectionSnapshot → Wallet → Bool
unfolding reconcile
reconciliation_tick local_base exchange_base s w = (reconcile local_base exchange_base s w).halt
