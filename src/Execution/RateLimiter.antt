-- ===== src/Execution/RateLimiter.antt =====
-- src/crypto_trader/execution/rate_limiter.py: a token bucket over floating-point numbers, which
-- are a parameter: their operations, and the laws of IEEE 754 that the bucket needs.
use crypto_auto_trading_syst.Base.{
  ℕ, ◌≡◌, refl, Bool, true, false, if◌then◌else◌, inl, inr, Bool-cases,
}

pub record Floats : Type 1 where
  pub Float : Type 0
  pub of_int : ℕ → Float
  pub plus : Float → Float → Float
  pub minus : Float → Float → Float
  pub times : Float → Float → Float
  pub min : Float → Float → Float
  pub le : Float → Float → Bool
  -- `min(a, b)` is at most `a`, `<=` composes, and taking away a whole number does not increase.
  pub min_le : (a b : Float) → le (min a b) a ≡ true
  pub le_trans : (a b c : Float) → le a b ≡ true → le b c ≡ true → le a c ≡ true
  pub minus_le : (a : Float) (n : ℕ) → le (of_int n) a ≡ true → le (minus a (of_int n)) a ≡ true

module _ (fl : Floats) where
  open fl use {Float, of_int, plus, minus, times, min, le, min_le, le_trans, minus_le}

  pub record RateLimiter : Type 0 where
    pub capacity : ℕ
    pub refill_per_second : Float
    pub tokens : Float
    pub updated : Float

  -- `__init__`
  unfoldable pub new_limiter : ℕ → Float → Float → RateLimiter
  new_limiter capacity refill now = record {
    capacity = capacity;
    refill_per_second = refill;
    tokens = of_int capacity;
    updated = now;
  }

  -- The bucket after the refill that `allow` makes first.
  abbrev pub refilled : Float → RateLimiter → RateLimiter
  refilled now l = record l {
    tokens =
        min (of_int l.capacity) (plus l.tokens (times (minus now l.updated) l.refill_per_second));
    updated = now;
  }

  unfoldable pub allow : ℕ → Float → RateLimiter → Bool × RateLimiter
  allow cost now l =
      let r = refilled now l in
      if le (of_int cost) r.tokens
      then (true, record r { tokens = minus r.tokens (of_int cost) })
      else (false, r)

  -- Whatever the clock says and whether the call is allowed or not, the bucket holds at most its
  -- capacity afterwards, and the capacity and the rate are as before.
  allow-within_capacity :
      (cost : ℕ) (now : Float) (l : RateLimiter)
      → let after = (allow cost now l).1 in
        (le after.tokens (of_int l.capacity) ≡ true)
        × (after.capacity ≡ l.capacity)
        × (after.refill_per_second ≡ l.refill_per_second)
  unfolding allow
  allow-within_capacity cost now l =
      let filled = plus l.tokens (times (minus now l.updated) l.refill_per_second) in
      let bound = min_le (of_int l.capacity) filled in
      elim (Bool-cases (le (of_int cost) (refilled now l).tokens)) [
        | inl enough ↦ rw enough (
          le_trans (minus (refilled now l).tokens (of_int cost)) (refilled now l).tokens
              (of_int l.capacity) (minus_le (refilled now l).tokens cost enough) bound,
          refl,
          refl,
        )
        | inr short ↦ rw short (bound, refl, refl)
      ]
