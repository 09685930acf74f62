-- ===== src/Risk/KillSwitch.antt =====
-- src/crypto_trader/risk/kill_switch.py.
use crypto_auto_trading_syst.Base.{Bool, true, false, Option, some}
use crypto_auto_trading_syst.Domain.Models.{Text, Time}

pub record KillSwitch : Type 0 where
  pub enabled : Bool
  pub reason : Option Text
  pub engaged_at : Option Time

unfoldable pub engage : Text → Time → KillSwitch → KillSwitch
engage reason now k = record k { enabled = true; reason = some reason; engaged_at = some now }

unfoldable pub disengage : Option Text → KillSwitch → KillSwitch
disengage reason k = record k { enabled = false; reason = reason }
