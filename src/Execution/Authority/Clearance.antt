-- ===== src/Execution/Authority/Clearance.antt =====
-- src/crypto_trader/execution/authority.py: what stands behind an approval.
use crypto_auto_trading_syst.Base.{
  ◌≡◌, refl, sym, ap, ◌∙◌, ◌≢◌, ◌⊎◌, ◌↔◌, inl, inr, Bool, true, false, Option, none, some, Result,
  ok, err, arith, Option-cases,
}
use crypto_auto_trading_syst.Int.{pos, ◌≤ℤ◌}
use crypto_auto_trading_syst.Decimal.{Decimal, Context}
use crypto_auto_trading_syst.Domain.Enums.{approve, reject}
use crypto_auto_trading_syst.Domain.Models.{Instrument, OrderIntent}
use crypto_auto_trading_syst.Domain.Money.{floor_to_step}
use crypto_auto_trading_syst.Order.Manager.{or_zero}
use crypto_auto_trading_syst.Risk.Reversal.{Reason, authority_pass}
use crypto_auto_trading_syst.Execution.Authority.{
  AuthorizationContext, Verdict, status_guards, reversal_guard, price_precise, notional_of,
  size_guards, same_value, rate_guard, rate_or, after_quantity, after_price, with_instrument,
  after_reversal, authorize,
}
use crypto_auto_trading_syst.Execution.Authority.Readiness.{IsReady, status_guards-IsReady}

reject_only : reject ≡ approve → ⊥
reject_only h = cc

module _ {L : Type 0} (c : Context) (allow : L → Bool × L) (intent : OrderIntent) where
  status_guards-refuses :
      (ctx : AuthorizationContext L) {v : Verdict}
      → status_guards c allow intent ctx ≡ some v
      → v.0 ≢ approve
  unfolding status_guards
  status_guards-refuses ctx h = ground arith

  -- The instrument's minima are met.
  pub record HasSize (ctx : AuthorizationContext L) (i : Instrument) (price : Decimal)
      : Type 0 where
    pub quantity : i.min_qty ≤ℤ intent.quantity
    pub notional :
        (notional_of c allow intent price ≤ℤ pos 0)
        ⊎ (i.min_notional ≤ℤ notional_of c allow intent price)
    pub confirmed : ctx.min_notional_ok ≡ true

  size_guards-HasSize :
      (ctx : AuthorizationContext L) (i : Instrument) (price : Decimal)
      → size_guards c allow intent ctx i price ≡ none
      → HasSize ctx i price
  unfolding size_guards
  size_guards-HasSize ctx i price h = ground arith

  size_guards-refuses :
      (ctx : AuthorizationContext L) (i : Instrument) (price : Decimal) {v : Verdict}
      → size_guards c allow intent ctx i price ≡ some v
      → v.0 ≡ reject
  unfolding size_guards
  size_guards-refuses ctx i price h = ground arith

  -- Guard 13: a limiter that there is has allowed one call, and is left as it answered.
  abbrev pub IsWithinRate : Option L → Option L → Type 0
  IsWithinRate none after = after ≡ none
  IsWithinRate (some l) after = ((allow l).0 ≡ true) × (after ≡ some (allow l).1)

  rate_guard-IsWithinRate :
      (before : Option L) {r : Reason} {after : Option L}
      → rate_guard c allow intent before ≡ ((approve, r), after)
      → IsWithinRate before after
  rate_guard-IsWithinRate none h = ground arith
  rate_guard-IsWithinRate (some l) h = ground arith

  -- What stands behind an approval, with the instrument that was found and the limiter afterwards.
  pub record IsAuthorized (ctx : AuthorizationContext L) (i : Instrument) (after : Option L)
      : Type 0 where
    pub ready : IsReady c allow intent ctx
    pub no_reversal : (reversal_guard c allow intent ctx).0 ≡ true
    pub found : ctx.instrument ≡ some i
    pub price_kept : price_precise c allow intent (or_zero intent.price) i ≡ ok true
    pub quantity_kept :
        same_value intent.quantity (floor_to_step c intent.quantity i.step_size) ≡ ok true
    pub size : HasSize ctx i (or_zero intent.price)
    pub rate : IsWithinRate ctx.rate_limiter after

  module _ (ctx : AuthorizationContext L) (r : Reason) (l : Option L) where
    -- An outcome that is this approval.
    abbrev IsApproval : Result (Verdict × Option L) → Type 0
    IsApproval out = out ≡ ok ((approve, r), l)

    rate_or-approves :
        (g : Option Verdict)
        → ((v : Verdict) → g ≡ some v → v.0 ≢ approve)
        → IsApproval (rate_or c allow intent ctx.rate_limiter g)
        → (g ≡ none) × IsWithinRate ctx.rate_limiter l
    rate_or-approves none refuses h =
        (refl, rate_guard-IsWithinRate ctx.rate_limiter {r = r} (ground arith))
    rate_or-approves (some v) refuses h = absurd (refuses v refl (ground arith))

    after_quantity-approves :
        (i : Instrument) (price : Decimal) (b : Result Bool)
        → IsApproval (after_quantity c allow intent ctx i price b)
        → (b ≡ ok true) × HasSize ctx i price × IsWithinRate ctx.rate_limiter l
    after_quantity-approves i price (err e) h = cc
    after_quantity-approves i price (ok false) h = cc
    after_quantity-approves i price (ok true) h =
        let (fits, rate) =
          rate_or-approves (size_guards c allow intent ctx i price)
            (λ v e a. reject_only (sym (size_guards-refuses ctx i price e) ∙ a)) h in
        (refl, size_guards-HasSize ctx i price fits, rate)

    after_price-approves :
        (i : Instrument) (price : Decimal) (b : Result Bool)
        → IsApproval (after_price c allow intent ctx i price b)
        → (b ≡ ok true)
          × (same_value intent.quantity (floor_to_step c intent.quantity i.step_size) ≡ ok true)
          × HasSize ctx i price
          × IsWithinRate ctx.rate_limiter l
    after_price-approves i price (err e) h = cc
    after_price-approves i price (ok false) h = cc
    after_price-approves i price (ok true) h =
        let (step, size, rate) =
          after_quantity-approves i price
            (same_value intent.quantity (floor_to_step c intent.quantity i.step_size)) h in
        (refl, step, size, rate)

    with_instrument-approves :
        (o : Option Instrument)
        → ctx.instrument ≡ o
        → (reversal_guard c allow intent ctx).0 ≡ true
        → IsReady c allow intent ctx
        → IsApproval (with_instrument c allow intent ctx o)
        → (i : Instrument) × IsAuthorized ctx i l
    with_instrument-approves none found gate ready h = cc
    with_instrument-approves (some i) found gate ready h =
        let price = or_zero intent.price in
        let (tick, step, size, rate) =
          after_price-approves i price (price_precise c allow intent price i) h in
        (
          i,
          record {
            ready = ready;
            no_reversal = gate;
            found = found;
            price_kept = tick;
            quantity_kept = step;
            size = size;
            rate = rate;
          },
        )

    after_reversal-approves :
        (g : Bool × Reason)
        → reversal_guard c allow intent ctx ≡ g
        → IsReady c allow intent ctx
        → IsApproval (after_reversal c allow intent ctx g)
        → (i : Instrument) × IsAuthorized ctx i l
    after_reversal-approves (false, reason) e ready h = cc
    after_reversal-approves (true, reason) e ready h =
        with_instrument-approves ctx.instrument refl (ap (λ g. g.0) e) ready h

    pub authorize-IsAuthorized :
        IsApproval (authorize c allow intent ctx) → (i : Instrument) × IsAuthorized ctx i l
    unfolding authorize
    authorize-IsAuthorized h = elim (Option-cases (status_guards c allow intent ctx)) [
      | inl clear ↦
          after_reversal-approves (reversal_guard c allow intent ctx) refl
            ((status_guards-IsReady c allow intent ctx).0 clear) (rw clear at h)
      | inr (v, stopped) ↦ absurd (status_guards-refuses ctx stopped (approved v (rw stopped at h)))
    ]
      where
        approved :
            (v : Verdict)
            → ◌≡◌ {A = Result (Verdict × Option L)}
                (ok (v, ctx.rate_limiter))
                (ok ((approve, r), l))
            → v.0 ≡ approve
        approved v e = ground arith

  HasSize-size_guards :
      (ctx : AuthorizationContext L) (i : Instrument) (price : Decimal)
      → HasSize ctx i price
      → size_guards c allow intent ctx i price ≡ none
  unfolding size_guards
  HasSize-size_guards ctx i price h = ground arith

  IsWithinRate-rate_guard :
      (before after : Option L)
      → IsWithinRate before after
      → rate_guard c allow intent before ≡ ((approve, authority_pass), after)
  IsWithinRate-rate_guard none after h = ground arith
  IsWithinRate-rate_guard (some l) after h = ground arith

  module _ (ctx : AuthorizationContext L) (i : Instrument) (l : Option L)
      (h : IsAuthorized ctx i l) where
    with_instrument-passes :
        with_instrument c allow intent ctx (some i) ≡ ok ((approve, authority_pass), l)
    with_instrument-passes =
        rw (h.price_kept, h.quantity_kept, HasSize-size_guards ctx i (or_zero intent.price) h.size)
          (ap ok (IsWithinRate-rate_guard ctx.rate_limiter l h.rate))

    after_reversal-passes :
        (g : Bool × Reason)
        → g.0 ≡ true
        → after_reversal c allow intent ctx g ≡ ok ((approve, authority_pass), l)
    after_reversal-passes (true, reason) e =
        ap (with_instrument c allow intent ctx) h.found ∙ with_instrument-passes
    after_reversal-passes (false, reason) e = cc

    IsAuthorized-authorize : authorize c allow intent ctx ≡ ok ((approve, authority_pass), l)
    unfolding authorize
    IsAuthorized-authorize =
        rw ((status_guards-IsReady c allow intent ctx).1 h.ready)
          (after_reversal-passes (reversal_guard c allow intent ctx) h.no_reversal)

  -- An order is approved exactly when the lease is held, live trading is enabled if the mode is live,
  -- the kill switch is off, there is no halt, the order is alive and in a state to execute, no order
  -- has its client id, the data are fresh and healthy, and the risk decision is an approval; it passes
  -- the reversal gate; there is an instrument; the price, if it is positive, and the quantity are what
  -- the code's own rounding to the tick and to the step makes of them; the instrument's minima are
  -- met, the one on the notional if that is positive; and the rate limiter, if there is one, allows it
  -- and is left as it answers.
  pub authorize-approves :
      (ctx : AuthorizationContext L) (l : Option L)
      → authorize c allow intent ctx ≡ ok ((approve, authority_pass), l)
        ↔ ((i : Instrument) × IsAuthorized ctx i l)
  authorize-approves ctx l = (
    authorize-IsAuthorized ctx authority_pass l,
    λ found. IsAuthorized-authorize ctx found.0 l found.1,
  )
