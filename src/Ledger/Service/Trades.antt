-- ===== src/Ledger/Service/Trades.antt =====
-- The journal of a spot trade, where the decimal context keeps its sums exactly.
use mathlib.Core.Path.{subst}
use crypto_auto_trading_syst.Base.{
  ◌≡◌, sym, ◌∙◌, inl, inr, true, false, Option, ok, arith, Bool-cases,
}
use crypto_auto_trading_syst.Int.{ℤ, pos, ◌+ℤ◌, ◌-ℤ◌, ltb_ℤ, eqb_ℤ, int_laws}
use crypto_auto_trading_syst.Decimal.{Decimal, Context, add, mul, neg, is_positive}
use crypto_auto_trading_syst.Decimal.Laws.{IsExact, add-exact, sub-exact, zero_add-exact}
use crypto_auto_trading_syst.Domain.Enums.{buy, sell}
use crypto_auto_trading_syst.Domain.Models.{Text}
use crypto_auto_trading_syst.Ledger.Service.{
  journal_balanced, trade_postings, trade_metadata, build_trade_entries, or_nothing,
}

eqb_refl : (a : ℤ) → eqb_ℤ a a ≡ true
eqb_refl a = ground arith

add_back : (c : Context) (g k : ℤ) → IsExact c g → add c k (g -ℤ k) ≡ g
add_back c g k h =
    let e : k +ℤ (g -ℤ k) ≡ g = omega int_laws in
    add-exact c k (g -ℤ k) (subst (IsExact c) (sym e) h) ∙ e

take_back :
    (c : Context) (g k : ℤ)
    → IsExact c k
    → IsExact c (pos 0 -ℤ (g -ℤ k))
    → add c g (neg c (g -ℤ k)) ≡ k
unfolding neg
take_back c g k h loss =
    let e : g +ℤ (pos 0 -ℤ (g -ℤ k)) ≡ k = omega int_laws in
    rw loss (add-exact c g (pos 0 -ℤ (g -ℤ k)) (subst (IsExact c) (sym e) h) ∙ e)

even_eq : (g k : ℤ) → is_positive (g -ℤ k) ≡ false → ltb_ℤ (g -ℤ k) (pos 0) ≡ false → g ≡ k
even_eq g k h l = grind int_laws

module _ (c : Context) (symbol currency : Text) (price quantity fee : Decimal) where
  -- The sums that a purchase makes are kept exactly.
  pub record BuysExactly : Type 0 where
    pub gross : IsExact c (mul c price quantity)
    pub payment : IsExact c (mul c price quantity +ℤ fee)

  buy_postings-balanced :
      (cost : Option Decimal)
      → BuysExactly
      → journal_balanced c (trade_postings c symbol currency price quantity fee buy cost) ≡ true
  unfolding trade_postings journal_balanced
  buy_postings-balanced cost exact =
      let g = mul c price quantity in
      rw
        (
          add-exact c g fee exact.payment,
          zero_add-exact c g exact.gross,
          add-exact c g fee exact.payment,
          zero_add-exact c (g +ℤ fee) exact.payment,
        )
        (eqb_refl (g +ℤ fee))

  -- The sums that a sale makes are kept exactly.
  pub record SellsExactly (cost : Decimal) : Type 0 where
    pub gross : IsExact c (mul c price quantity)
    pub released : IsExact c cost
    pub profit : IsExact c (mul c price quantity -ℤ cost)
    pub loss : IsExact c (pos 0 -ℤ (mul c price quantity -ℤ cost))

  sell_postings-balanced :
      (cost : Option Decimal)
      → SellsExactly (or_nothing cost)
      → journal_balanced c (trade_postings c symbol currency price quantity fee sell cost) ≡ true
  unfolding trade_postings journal_balanced
  sell_postings-balanced cost exact =
      let g = mul c price quantity in
      let k = or_nothing cost in
      let profit = sub-exact c g k exact.profit in
      let g_alone = zero_add-exact c g exact.gross in
      let k_alone = zero_add-exact c k exact.released in
      elim (Bool-cases (is_positive (g -ℤ k))) [
        | inl gain ↦
            rw (profit, gain, g_alone, k_alone, add_back c g k exact.gross) (eqb_refl (add c g fee))
        | inr no_gain ↦ elim (Bool-cases (ltb_ℤ (g -ℤ k) (pos 0))) [
          | inl drop ↦
              rw
                (profit, no_gain, drop, g_alone, k_alone, take_back c g k exact.released exact.loss)
                (eqb_refl (add c k fee))
          | inr even ↦
              rw (profit, no_gain, even, g_alone, k_alone, even_eq g k no_gain even)
                (eqb_refl (add c k fee))
        ]
      ]

  -- Where the context keeps the sums exactly, a purchase always yields its journal.
  buy_balanced :
      (cost : Option Decimal)
      → BuysExactly
      → build_trade_entries c symbol currency price quantity fee buy cost
        ≡ ok (
          trade_postings c symbol currency price quantity fee buy cost,
          trade_metadata c symbol currency price quantity fee buy cost,
        )
  unfolding build_trade_entries
  buy_balanced cost exact = rw (buy_postings-balanced cost exact)

  -- Where the context keeps the sums exactly, a sale always yields its journal: with a profit, a
  -- loss or neither.
  sell_balanced :
      (cost : Option Decimal)
      → SellsExactly (or_nothing cost)
      → build_trade_entries c symbol currency price quantity fee sell cost
        ≡ ok (
          trade_postings c symbol currency price quantity fee sell cost,
          trade_metadata c symbol currency price quantity fee sell cost,
        )
  unfolding build_trade_entries
  sell_balanced cost exact = rw (sell_postings-balanced cost exact)
