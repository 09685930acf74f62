-- ===== src/Perpetual/Calculators.antt =====
-- src/crypto_trader/perpetual/margin.py, funding.py and liquidation.py.
pub mod Margins
use crypto_auto_trading_syst.Base.{
  ℕ, ◌*◌, ◌/◌, Bool, true, false, ◌&&◌, ◌||◌, Option, none, some, List, [], ◌∷◌, Result, ok, err,
  division_by_zero, if◌then◌else◌,
}
use crypto_auto_trading_syst.Int.{pos, leb_ℤ}
use crypto_auto_trading_syst.Decimal.{
  Decimal, Context, add, sub, mul, div, neg, abs, min, max, is_zero, is_positive,
}
use crypto_auto_trading_syst.Domain.Enums.{PositionSide}
use crypto_auto_trading_syst.Domain.Models.{Text}
use crypto_auto_trading_syst.Perpetual.Contract.{
  PerpetualContract, MarginPosition, is_flat, is_long, is_short, notional,
}

-- What `MarginState` holds.
pub record MarginState : Type 0 where
  pub balance : Decimal
  pub positions : List MarginPosition

module _ (c : Context) where
  abbrev pub whole : ℕ → Decimal
  whole n = pos (n * c.unit)

  -- `sum(f(p) for p in positions if not p.is_flat)`
  unfoldable pub sum_open : (MarginPosition → Decimal) → Decimal → List MarginPosition → Decimal
  sum_open f acc [] = acc
  sum_open f acc (p ∷ ps) =
      let next = if is_flat p then acc else add c acc (f p) in sum_open f next ps

  unfoldable pub total_initial_margin : MarginState → Decimal
  total_initial_margin s = sum_open (λ p. p.initial_margin) (pos 0) s.positions

  unfoldable pub total_maintenance_margin : MarginState → Decimal
  total_maintenance_margin s = sum_open (λ p. p.maintenance_margin) (pos 0) s.positions

  unfoldable pub total_unrealized_pnl : MarginState → Decimal
  total_unrealized_pnl s = sum_open (λ p. p.unrealized_pnl) (pos 0) s.positions

  unfoldable pub position_notional : MarginState → Decimal
  position_notional s = sum_open (notional c) (pos 0) s.positions

  unfoldable pub effective_leverage : Decimal → Decimal → Decimal
  effective_leverage leverage max_leverage =
      min (if leb_ℤ leverage (pos 0) then whole 1 else leverage) max_leverage

  abbrev pub contract_notional : PerpetualContract → Decimal → Decimal → Decimal
  contract_notional k qty price = mul c (mul c (abs c qty) price) k.contract_size

  -- `initial_margin`, with an optional provider of margin rates.
  unfoldable pub initial_margin :
      Option (Text → Decimal → Decimal)
      → PerpetualContract
      → Decimal
      → Decimal
      → Decimal
      → Result Decimal
  unfolding effective_leverage
  initial_margin (some tier) k qty price leverage =
      let n = contract_notional k qty price in ok (mul c n (tier k.symbol n))
  initial_margin none k qty price leverage =
      let lev = effective_leverage leverage k.max_leverage in
      if is_zero lev then err division_by_zero else ok (div c (contract_notional k qty price) lev)

  -- 0.005, 0.0025 and 0.001.
  unfoldable pub default_maintenance_rate : Decimal → Decimal
  default_maintenance_rate n =
      if leb_ℤ (whole 1_000_000) n
      then pos (c.unit / 200)
      else if leb_ℤ (whole 100_000) n
      then pos (c.unit / 400)
      else pos (c.unit / 1000)

  -- With the given rate, if there is one.
  unfoldable pub maintenance_margin :
      PerpetualContract → Decimal → Decimal → Option Decimal → Decimal
  maintenance_margin k qty price none =
      let n = contract_notional k qty price in mul c n (default_maintenance_rate n)
  maintenance_margin k qty price (some rate) = mul c (contract_notional k qty price) rate

  unfoldable pub available_margin : MarginState → Decimal → Decimal
  available_margin s total_balance = sub c total_balance (total_initial_margin s)

  -- The ratio, and whether it is healthy.
  unfoldable pub margin_ratio : MarginState → Decimal → Decimal × Bool
  margin_ratio s total_balance =
      let maintenance = total_maintenance_margin s in
      let ratio = div c (add c total_balance (total_unrealized_pnl s)) maintenance in
      if leb_ℤ maintenance (pos 0) then (whole 999, true) else (ratio, leb_ℤ (whole 1) ratio)

  unfoldable pub position_equity : MarginPosition → Decimal
  position_equity p = add c p.initial_margin p.unrealized_pnl

  abbrev pub size_of : MarginPosition → PerpetualContract → Decimal
  size_of p k = mul c (abs c p.quantity) k.contract_size

  -- Both branches of `liquidation_distance` compute the same.
  unfoldable pub liquidation_distance : MarginPosition → PerpetualContract → Decimal
  liquidation_distance p k =
      let per_qty = size_of p k in
      if is_flat p
      then pos 0
      else if leb_ℤ per_qty (pos 0)
      then pos 0
      else div c (sub c p.initial_margin p.maintenance_margin) per_qty

  -- `FundingCalculator.payment`: the amount, which the position receives, and the notional.
  unfoldable pub funding_payment : MarginPosition → Decimal → Decimal → Decimal → Decimal × Decimal
  funding_payment p rate mark_price contract_size =
      let n = mul c (mul c (abs c p.quantity) mark_price) contract_size in
      let raw = mul c n rate in
      if is_flat p then (pos 0, pos 0) else if is_long p.side then (neg c raw, n) else (raw, n)

  -- `FundingCalculator.apply_to_position`
  unfoldable pub apply_funding : Decimal → MarginPosition → MarginPosition
  apply_funding amount p =
      if is_positive amount
      then record p {
        funding_received = add c p.funding_received amount;
        realized_pnl = add c p.realized_pnl amount;
      }
      else record p {
        funding_paid = add c p.funding_paid (neg c amount);
        realized_pnl = add c p.realized_pnl amount;
      }

  -- The price on the losing side of the entry, at that distance.
  abbrev pub against : PositionSide → Decimal → Decimal → Decimal
  against side price distance = if is_long side then sub c price distance else add c price distance

  -- `LiquidationCalculator.liquidation_price`: the price; its distance in per cent is left out.
  unfoldable pub liquidation_price : MarginPosition → PerpetualContract → Decimal
  liquidation_price p k =
      let qty = size_of p k in
      if is_flat p
      then pos 0
      else if leb_ℤ qty (pos 0)
      then pos 0
      else against p.side p.avg_entry_price
          (div c (sub c p.initial_margin p.maintenance_margin) qty)

  pub record LiquidationResult : Type 0 where
    pub liquidated : Bool
    pub liquidation_price : Decimal
    pub bankruptcy_price : Decimal
    pub remaining_equity : Decimal
    pub fee : Decimal

  abbrev pub crosses : PositionSide → Decimal → Decimal → Bool
  crosses side mark liq = (is_long side && leb_ℤ mark liq) || (is_short side && leb_ℤ liq mark)

  -- `LiquidationCalculator.evaluate`; the bankruptcy price divides by the size.
  unfoldable pub evaluate :
      Decimal → MarginPosition → PerpetualContract → Decimal → Result LiquidationResult
  evaluate fee_rate p k mark_price =
      let liq = liquidation_price p k in
      let fee = mul c (mul c (mul c (abs c p.quantity) mark_price) k.contract_size) fee_rate in
      if is_flat p
      then ok (record {
        liquidated = false;
        liquidation_price = pos 0;
        bankruptcy_price = pos 0;
        remaining_equity = pos 0;
        fee = pos 0;
      })
      else if is_zero (size_of p k)
      then err division_by_zero
      else ok (record {
        liquidated = crosses p.side mark_price liq;
        liquidation_price = liq;
        bankruptcy_price = against p.side p.avg_entry_price (div c p.initial_margin (size_of p k));
        remaining_equity = max (sub c (add c p.initial_margin p.unrealized_pnl) fee) (pos 0);
        fee = fee;
      })
