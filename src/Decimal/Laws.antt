-- ===== src/Decimal/Laws.antt =====
-- Signs and exact results of the decimal operations.
use mathlib.Core.Path.{subst}
use native.Mathlib.Nat.{pow-suc}
use crypto_auto_trading_syst.Base.{
  ℕ, ◌+◌, ◌*◌, ◌/◌, ◌^◌, ◌≡◌, sym, ap, ◌∙◌, arith, ◌<◌, ◌≤◌, zero, suc, inl, inr, Bool-cases, ltb,
}
use crypto_auto_trading_syst.Int.{ℤ, pos, negsuc, abs_ℕ, ◌+ℤ◌, ◌-ℤ◌, ◌≤ℤ◌, int_laws}
use crypto_auto_trading_syst.Decimal.{
  Decimal, Context, excess, half_even, round_ratio, round, add, sub, mul, div, neg, abs,
}

-- The context keeps the value as it is: it has no more digits than `prec`.
abbrev pub IsExact : Context → ℤ → Type 0
IsExact c a = round c a ≡ a

pub add-exact : (c : Context) (a b : Decimal) → IsExact c (a +ℤ b) → add c a b ≡ a +ℤ b
unfolding add
add-exact c a b h = h

pub sub-exact : (c : Context) (a b : Decimal) → IsExact c (a -ℤ b) → sub c a b ≡ a -ℤ b
unfolding sub
sub-exact c a b h = h

pub neg-exact : (c : Context) (a : Decimal) → IsExact c (pos 0 -ℤ a) → neg c a ≡ pos 0 -ℤ a
unfolding neg
neg-exact c a h = h

-- The context keeps the absolute value of what it keeps.
pub abs-exact : (c : Context) (a : Decimal) → IsExact c a → abs c a ≡ pos (abs_ℕ a)
unfolding abs round
abs-exact c (pos n) h = let e : n + 0 ≡ n = omega arith in rw e h
abs-exact c (negsuc n) h = ground arith

zero_add : (a : ℤ) → pos 0 +ℤ a ≡ a
zero_add a = omega int_laws

-- A value that the context keeps is the sum of itself alone.
pub zero_add-exact : (c : Context) (a : Decimal) → IsExact c a → add c (pos 0) a ≡ a
zero_add-exact c a h = let e = zero_add a in add-exact c (pos 0) a (subst (IsExact c) (sym e) h) ∙ e

half_even_zero : (d : ℕ) → half_even 0 d ≡ 0
unfolding half_even
half_even_zero d = ground arith

pub round_ratio_zero : (c : Context) (d : ℕ) → round_ratio c 0 d ≡ 0
unfolding round_ratio
round_ratio_zero c d =
    rw (half_even_zero (d * 10 ^ excess (0 / d) (10 ^ c.prec) (0 / d))) (omega arith)

pub round_zero : (c : Context) → round c (pos 0) ≡ pos 0
unfolding round
round_zero c = rw (round_ratio_zero c 1)

pub abs_zero : (c : Context) → abs c (pos 0) ≡ pos 0
unfolding abs
abs_zero c = round_zero c

pub round_nonneg : (c : Context) (a : ℤ) → pos 0 ≤ℤ a → pos 0 ≤ℤ round c a
unfolding round
round_nonneg c a h = ground arith

pub add_nonneg : (c : Context) (a b : Decimal) → pos 0 ≤ℤ a → pos 0 ≤ℤ b → pos 0 ≤ℤ add c a b
unfolding add
add_nonneg c a b ha hb = round_nonneg c (a +ℤ b) (omega int_laws)

pub sub_nonneg : (c : Context) (a b : Decimal) → b ≤ℤ a → pos 0 ≤ℤ sub c a b
unfolding sub
sub_nonneg c a b h = round_nonneg c (a -ℤ b) (omega int_laws)

minus_self : (a : ℤ) → a -ℤ a ≡ pos 0
minus_self a = omega int_laws

pub sub_self : (c : Context) (a : Decimal) → sub c a a ≡ pos 0
unfolding sub
sub_self c a = rw (minus_self a) (round_zero c)

pub mul_nonneg : (c : Context) (a b : Decimal) → pos 0 ≤ℤ a → pos 0 ≤ℤ b → pos 0 ≤ℤ mul c a b
unfolding mul
mul_nonneg c a b ha hb = ground arith

pub div_nonneg : (c : Context) (a b : Decimal) → pos 0 ≤ℤ a → pos 0 ≤ℤ b → pos 0 ≤ℤ div c a b
unfolding div
div_nonneg c a b ha hb = ground arith

swap_ten : (limit p : ℕ) → limit * (p * 10) ≡ limit * 10 * p
swap_ten limit p = grind arith

power_next : (limit fuel : ℕ) → limit * 10 ^ suc fuel ≡ limit * 10 * 10 ^ fuel
power_next limit fuel = ap (λ x. limit * x) (pow-suc 10 fuel) ∙ swap_ten limit (10 ^ fuel)

-- Whatever the fuel reaches, the count that it gives reaches.
excess_reaches : (fuel limit n : ℕ) → n < limit * 10 ^ fuel → n < limit * 10 ^ excess fuel limit n
unfolding excess
excess_reaches zero limit n h = h
excess_reaches (suc fuel) limit n h =
    let rest = excess_reaches fuel (limit * 10) n (subst (λ x. n < x) (power_next limit fuel) h) in
    elim (Bool-cases (ltb n limit)) [
      | inl small ↦ rw (excess, small) (ground arith)
      | inr big ↦
          rw (excess, big)
            (subst (λ x. n < x) (sym (power_next limit (excess fuel (limit * 10) n))) rest)
    ]

less_than_power : (n : ℕ) → n < 10 ^ n
less_than_power zero = ground arith
less_than_power (suc n) = ground (arith, less_than_power n)

-- The fuel of `round_ratio`, the number itself, is enough: without the digits that it counts the
-- number is below the limit.
excess-enough : (limit n : ℕ) → 1 ≤ limit → n < limit * 10 ^ excess n limit n
excess-enough limit n positive =
    excess_reaches n limit n (more limit (10 ^ n) (less_than_power n) positive)
  where
    more : (l p : ℕ) → n < p → 1 ≤ l → n < l * p
    more l p h k = grind arith
