-- ===== src/Perpetual/Calculators/Margins.antt =====
-- src/crypto_trader/perpetual/margin.py, funding.py: leverage, and the two sides of funding.
use crypto_auto_trading_syst.Base.{◌≡◌, refl, ◌⊎◌, false, arith}
use crypto_auto_trading_syst.Int.{pos, ◌≤ℤ◌, ◌<ℤ◌}
use crypto_auto_trading_syst.Decimal.{Decimal, Context, neg, abs}
use crypto_auto_trading_syst.Domain.Enums.{long, short}
use crypto_auto_trading_syst.Perpetual.Contract.{MarginPosition, is_flat}
use crypto_auto_trading_syst.Perpetual.Calculators.{effective_leverage, funding_payment, whole}

-- The leverage that is used is positive, is at most the contract's, and is the given one where that
-- lies in between; the contract's has to be positive, and 1 has to be at least one quantum.
effective_leverage-bounds :
    (c : Context) (leverage max_leverage : Decimal)
    → pos 0 <ℤ max_leverage
    → pos 0 <ℤ whole c 1
    → (pos 0 <ℤ effective_leverage c leverage max_leverage)
      × (effective_leverage c leverage max_leverage ≤ℤ max_leverage)
      × ((leverage ≤ℤ pos 0)
          ⊎ ((max_leverage <ℤ leverage) ⊎ (effective_leverage c leverage max_leverage ≡ leverage)))
unfolding effective_leverage
effective_leverage-bounds c leverage max_leverage positive one =
    (ground arith, ground arith, ground arith)

-- Funding between two open positions of one size is a transfer: a long position gets the negated
-- amount of the short position, for every rate, price and contract.
funding_payment-opposite :
    (c : Context) (p q : MarginPosition) (rate mark contract_size : Decimal)
    → p.side ≡ long
    → q.side ≡ short
    → abs c p.quantity ≡ abs c q.quantity
    → is_flat p ≡ false
    → is_flat q ≡ false
    → ((funding_payment c p rate mark contract_size).0
        ≡ neg c (funding_payment c q rate mark contract_size).0)
      × ((funding_payment c p rate mark contract_size).1
          ≡ (funding_payment c q rate mark contract_size).1)
unfolding funding_payment
funding_payment-opposite c p q rate mark size l s same open_p open_q =
    rw (open_p, open_q, l, s, same) (refl, refl)
