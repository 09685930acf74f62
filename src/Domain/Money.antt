-- ===== src/Domain/Money.antt =====
-- src/crypto_trader/domain/money.py: rounding to ticks and steps. `D` of a decimal is that decimal.
use crypto_auto_trading_syst.Base.{
  ℕ, zero, suc, ◌+◌, ◌*◌, ◌/◌, ◌%◌, ◌^◌, true, false, ◌&&◌, not, Result, ok, err, decimal_error,
  invalid_operation, ltb, ◌==◌, if◌then◌else◌,
}
use crypto_auto_trading_syst.Int.{abs_ℕ}
use crypto_auto_trading_syst.Decimal.{
  Decimal, Context, mul, div, signed, is_negative, is_positive, is_zero,
}

-- The same quanta, with the precision of a local context.
abbrev pub local : ℕ → Context → Context
local digits c = record c { prec = digits }

-- The largest power of ten that divides `n`: the last place of a normalized decimal.
unfoldable pub last_place : ℕ → ℕ → ℕ
last_place zero n = 1
last_place (suc fuel) n = elim (n % 10 == 0 && not (n == 0)) [
  | true ↦ 10 * last_place fuel (n / 10)
  | false ↦ 1
]

-- n to the nearest multiple of `place`, half up.
unfoldable pub half_up : ℕ → ℕ → ℕ
half_up n place = (n + n + place) / (place + place) * place

-- `quantize`, which raises where the result would have more digits than the context keeps.
unfoldable pub quantize : Context → Decimal → ℕ → Result Decimal
unfolding half_up
quantize c value place =
    let n = half_up (abs_ℕ value) place in
    if ltb (n / place) (10 ^ c.prec)
    then ok (signed (is_negative value) n)
    else err invalid_operation

unfoldable pub round_tick : Context → Decimal → Decimal → Result Decimal
unfolding quantize last_place
round_tick c value tick_size =
    if is_positive tick_size
    then quantize c value (last_place (abs_ℕ tick_size) (abs_ℕ tick_size))
    else err decimal_error

-- `to_integral_value(rounding=ROUND_DOWN)`
unfoldable pub integral : Context → Decimal → Decimal
integral c a = signed (is_negative a) (abs_ℕ a / c.unit * c.unit)

unfoldable pub floor_to_step : Context → Decimal → Decimal → Result Decimal
unfolding integral
floor_to_step c value step_size =
    if is_positive step_size
    then ok (mul (local 60 c) (integral c (div (local 60 c) value step_size)) step_size)
    else err decimal_error

unfoldable pub safe_mul : Context → Decimal → Decimal → Decimal
safe_mul c left right = mul (local 60 c) left right

unfoldable pub safe_div : Context → Decimal → Decimal → Result Decimal
safe_div c left right =
    if is_zero right then err decimal_error else ok (div (local 60 c) left right)
