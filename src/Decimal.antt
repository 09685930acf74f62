-- ===== src/Decimal.antt =====
-- Python's `decimal.Decimal`, of which the whole program's money is made. A finite decimal that a
-- context computes is an integer multiple of the context's least quantum, so a `Decimal` is that
-- integer: numeric equality is equality, and 1.0 and 1.00 are one value. A `Context` says how many
-- quanta make 1 (`unit`, a power of ten) and how many digits a result keeps (`prec`; Python's
-- default is 28). Each operation rounds its exact result once, half to even, to `prec` digits or to
-- the quantum, whichever is coarser. Overflow beyond Emax, NaN and the infinities are left out.
pub mod Laws
use crypto_auto_trading_syst.Base.{
  ℕ, zero, suc, ◌+◌, ◌-◌, ◌*◌, ◌/◌, ◌%◌, ◌^◌, Bool, true, false, ltb, ◌==◌, if◌then◌else◌,
}
use crypto_auto_trading_syst.Int.{
  ℤ, pos, negsuc, pos_part, neg_part, abs_ℕ, minus_ℕ, ◌+ℤ◌, ◌-ℤ◌, ltb_ℤ, leb_ℤ, eqb_ℤ,
}

abbrev pub Decimal : Type 0
Decimal = ℤ

pub record Context : Type 0 where
  pub prec : ℕ
  pub unit : ℕ

-- The digits of `n` beyond those below `limit`, a power of ten.
unfoldable pub excess : ℕ → ℕ → ℕ → ℕ
excess zero limit n = 0
excess (suc fuel) limit n = elim (ltb n limit) [
  | true ↦ 0
  | false ↦ suc (excess fuel (limit * 10) n)
]

-- n / d to the nearest whole number, half to even.
unfoldable pub half_even : ℕ → ℕ → ℕ
half_even n d =
    let q = n / d in
    let r = n % d in if ltb (r + r) d then q else if ltb d (r + r) then q + 1 else q + q % 2

-- n / d quanta, rounded in the context.
unfoldable pub round_ratio : Context → ℕ → ℕ → ℕ
round_ratio c n d =
    let step = 10 ^ excess (n / d) (10 ^ c.prec) (n / d) in half_even n (d * step) * step

-- The sign of an exact result goes over to the rounded one.
abbrev pub signed : Bool → ℕ → Decimal
signed false n = pos n
signed true n = minus_ℕ n

abbrev pub is_negative : Decimal → Bool
is_negative (pos n) = false
is_negative (negsuc n) = true

unfoldable pub round : Context → ℤ → Decimal
unfolding round_ratio excess half_even
round c a = signed (is_negative a) (round_ratio c (abs_ℕ a) 1)

module _ (c : Context) where
  unfoldable pub add : Decimal → Decimal → Decimal
  unfolding round ◌+ℤ◌
  add a b = round c (a +ℤ b)

  unfoldable pub sub : Decimal → Decimal → Decimal
  unfolding round ◌-ℤ◌
  sub a b = round c (a -ℤ b)

  abbrev different_sign : Decimal → Decimal → Bool
  different_sign a b =
      if is_negative a then (if is_negative b then false else true) else is_negative b

  unfoldable pub mul : Decimal → Decimal → Decimal
  unfolding round_ratio excess half_even
  mul a b = signed (different_sign a b) (round_ratio c (abs_ℕ a * abs_ℕ b) c.unit)

  -- `a / b` where the caller has tested `b`; division by zero is written out at each call.
  unfoldable pub div : Decimal → Decimal → Decimal
  unfolding round_ratio excess half_even
  div a b = signed (different_sign a b) (round_ratio c (abs_ℕ a * c.unit) (abs_ℕ b))

  -- `-a` and `abs(a)` round as the other operations do; comparisons are exact.
  unfoldable pub neg : Decimal → Decimal
  unfolding round ◌-ℤ◌
  neg a = round c (pos 0 -ℤ a)

  unfoldable pub abs : Decimal → Decimal
  unfolding round
  abs a = round c (pos (abs_ℕ a))

abbrev pub max : Decimal → Decimal → Decimal
max a b = if ltb_ℤ a b then b else a

abbrev pub min : Decimal → Decimal → Decimal
min a b = if ltb_ℤ b a then b else a

abbrev pub is_zero : Decimal → Bool
is_zero a = eqb_ℤ a (pos 0)

abbrev pub is_positive : Decimal → Bool
is_positive a = ltb_ℤ (pos 0) a
