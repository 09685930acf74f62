-- ===== src/Base/Results.antt =====
-- A call that may raise. The errors are the exceptions that the modelled code raises itself and
-- those of the library calls that it makes.
use mathlib.Core.Path.{◌≡◌, refl}

pub data Error : Type 0 where
  idempotency_conflict invalid_state_transition order_not_found journal_unbalanced : Error
  decimal_error value_error key_error attribute_error invalid_operation : Error
  division_by_zero integrity_error stale_data lease_not_held sequence_gap : Error
  market_data_unhealthy stale_market_data connection_error rate_limited order_rejected : Error
  unknown_execution_state temporary_network_error other_exchange_error other_error : Error

pub data Result {ℓ} (R : Type ℓ) : Type ℓ where
  err : Error → Result R
  ok : R → Result R

-- A call that returns nothing.
abbrev pub Done : Type 0
Done = Result {0} Unit

-- What follows a call sees its value; an exception skips it.
infixl 5 ◌>>=◌
abbrev pub ◌>>=◌ {ℓ κ} : {R : Type ℓ} {S : Type κ} → Result R → (R → Result S) → Result S
err raised >>= next = err raised
ok value >>= next = next value

-- If both succeed, the first did, and what follows did on its value.
pub >>=-returns {ℓ κ} :
    {R : Type ℓ} {S : Type κ} (first : Result R) (next : R → Result S) {s : S}
    → (first >>= next) ≡ ok s
    → (value : R) × (first ≡ ok value) × (next value ≡ ok s)
>>=-returns (err raised) next both = cc
>>=-returns (ok value) next both = (value, refl, both)
