-- ===== src/Perpetual/Engine/Liquidations.antt =====
-- src/crypto_trader/perpetual/engine.py, liquidation.py: what a liquidation books, and its price.
use crypto_auto_trading_syst.Base.{◌≡◌, refl, true, Option, some, Result, ok, err, arith}
use crypto_auto_trading_syst.Base.Tables.{All-find}
use crypto_auto_trading_syst.Int.{pos, ◌-ℤ◌, ◌<ℤ◌, int_laws}
use crypto_auto_trading_syst.Decimal.{Decimal, Context, sub}
use crypto_auto_trading_syst.Decimal.Laws.{IsExact}
use crypto_auto_trading_syst.Domain.Models.{Text}
use crypto_auto_trading_syst.Ledger.Journal.{LedgerTransaction, Journal}
use crypto_auto_trading_syst.Perpetual.Contract.{PerpetualContract, MarginPosition, position_of}
use crypto_auto_trading_syst.Perpetual.Calculators.{
  LiquidationResult, liquidation_price, size_of, evaluate,
}
use crypto_auto_trading_syst.Perpetual.FuturesLedger.{Call, record_close}
use crypto_auto_trading_syst.Perpetual.Projection.{FuturesProjectionSnapshot, rebuild}
use crypto_auto_trading_syst.Perpetual.Projection.Rebuilt.{
  IsBare, AllBare, EndsBare, rebuild-EndsBare,
}
use crypto_auto_trading_syst.Perpetual.Engine.{
  PerpetualPaperEngine, chosen, and_then, load_state, held, mark_to_market, liquidation, liquidate,
}

sub_zero : (c : Context) (a : Decimal) → IsExact c a → sub c a (pos 0) ≡ a
unfolding sub
sub_zero c a h = let e : a -ℤ pos 0 ≡ a = omega int_laws in rw e h

-- Without a maintenance margin, a position is liquidated at its bankruptcy price, when its whole
-- margin is lost: the two prices of an evaluation are one, where the size is positive and the context
-- keeps the margin.
evaluate-at_bankruptcy :
    (c : Context) (fee_rate : Decimal) (p : MarginPosition) (k : PerpetualContract) (mark : Decimal)
    {r : LiquidationResult c}
    → p.maintenance_margin ≡ pos 0
    → IsExact c p.initial_margin
    → pos 0 <ℤ size_of c p k
    → evaluate c fee_rate p k mark ≡ ok r
    → r.liquidation_price ≡ r.bankruptcy_price
unfolding evaluate liquidation_price
evaluate-at_bankruptcy c fee_rate p k mark {r} bare exact size h =
    ground (arith, sub_zero c p.initial_margin exact)

module _ (c : Context) (others : Journal → Journal) (e : PerpetualPaperEngine) where
  rebuilt-IsBare :
      (j : Journal) (symbol : Text) {s : FuturesProjectionSnapshot} {p : MarginPosition}
      → rebuild c j ≡ ok s
      → held c others e symbol s ≡ some p
      → IsBare p
  rebuilt-IsBare j symbol {s} {p} loaded found =
      All-find IsBare (position_of symbol) s.positions {x = p}
        (ends (rebuild c j) loaded (rebuild-EndsBare c j)) found
    where
      ends : (r : Result FuturesProjectionSnapshot) → r ≡ ok s → EndsBare r → AllBare s
      ends r same bare = rw same at bare

  recorded :
      (r : Result LedgerTransaction × Journal)
      → (and_then r (λ t j. and_then (load_state c others e j) (λ s i. (ok true, i)))).1 ≡ r.1
  unfolding load_state
  recorded (err x, j) = refl
  recorded (ok t, j) = loaded (rebuild c j)
    where
      loaded :
          (r : Result FuturesProjectionSnapshot) → (and_then (r, j) (λ s i. (ok true, i))).1 ≡ j
      loaded (ok s) = refl
      loaded (err x) = refl

  -- A liquidation books a profit of zero, whatever the price at which it happens: its closing takes
  -- the profit of the position that was rebuilt before it was marked, and that is zero.
  pub liquidate-books_nothing :
      (call : Call) (mark : Decimal) (symbol : Option Text) (j : Journal)
      {s : FuturesProjectionSnapshot} {p : MarginPosition} {r : LiquidationResult c}
      → rebuild c j ≡ ok s
      → held c others e (chosen symbol e).symbol s ≡ some p
      → evaluate c e.liquidation_fee_rate p (chosen symbol e) mark ≡ ok r
      → r.liquidated ≡ true
      → (liquidate c others e call mark symbol j).1
        ≡ (record_close c
            (chosen symbol e)
            call
            others
            (record (liquidation c others e p mark r.fee) { realized_pnl = pos 0 })
            j).1
  unfolding liquidate load_state mark_to_market
  liquidate-books_nothing call mark symbol j {s} {p} {r} loaded found judged falls =
      let bare = rebuilt-IsBare j (chosen symbol e).symbol {s = s} {p = p} loaded found in
      rw (loaded, found, loaded, judged, falls, bare.1)
        (recorded (
          record_close c (chosen symbol e) call others
            (record (liquidation c others e p mark r.fee) { realized_pnl = pos 0 }) j))
