-- ===== src/Perpetual/Engine.antt =====
-- src/crypto_trader/perpetual/engine.py: the paper engine. Its state is the journal: each operation
-- rebuilds the positions first. The cache, which every rebuild replaces, is left out.
pub mod Liquidations
use crypto_auto_trading_syst.Base.{
  Bool, true, false, ◌&&◌, Option, none, some, List, [], ◌∷◌, find, Result, ok, err, value_error,
  key_error, if◌then◌else◌, ◌==◌, not,
}
use crypto_auto_trading_syst.Int.{pos}
use crypto_auto_trading_syst.Decimal.{Decimal, Context, sub, mul, div, abs, min, is_zero}
use crypto_auto_trading_syst.Domain.Enums.{PositionSide, position_side_eq}
use crypto_auto_trading_syst.Domain.Models.{Text}
use crypto_auto_trading_syst.Order.Store.{truthy}
use crypto_auto_trading_syst.Ledger.Journal.{LedgerTransaction, Journal}
use crypto_auto_trading_syst.Perpetual.Contract.{
  PerpetualContract, MarginPosition, is_flat, is_flat_side, is_long, is_short, position_of,
}
use crypto_auto_trading_syst.Perpetual.Calculators.{
  effective_leverage, initial_margin, maintenance_margin, funding_payment, liquidation_price,
  LiquidationResult, evaluate,
}
use crypto_auto_trading_syst.Perpetual.FuturesLedger.{
  Call, Opening, Closing, record_open, record_close, record_funding,
}
use crypto_auto_trading_syst.Perpetual.Projection.{FuturesProjectionSnapshot, rebuild}

-- The primary contract, the registered ones with it among them, and the fee rate of liquidations.
pub record PerpetualPaperEngine : Type 0 where
  pub contract : PerpetualContract
  pub contracts : List PerpetualContract
  pub liquidation_fee_rate : Decimal

abbrev pub contract_of : Text → PerpetualContract → Bool
contract_of symbol k = k.symbol == symbol

unfoldable pub contract_for : Text → PerpetualPaperEngine → Option PerpetualContract
contract_for symbol e = find (contract_of symbol) e.contracts

abbrev pub or_contract : Option PerpetualContract → PerpetualContract → PerpetualContract
or_contract none k = k
or_contract (some k') k = k'

-- `self.contracts.get(symbol) if symbol else None`, or the primary contract.
unfoldable pub chosen : Option Text → PerpetualPaperEngine → PerpetualContract
unfolding contract_for
chosen none e = e.contract
chosen (some symbol) e =
    if truthy (some symbol) then or_contract (contract_for symbol e) e.contract else e.contract

abbrev pub Step : Type 0 → Type 0
Step A = Journal → Result A × Journal

-- A call that raises ends the operation; its result is the state of the next.
abbrev pub and_then : {A B : Type 0} → Result A × Journal → (A → Step B) → Result B × Journal
and_then (err x, j) next = (err x, j)
and_then (ok a, j) next = next a j

module _ (c : Context) (others : Journal → Journal) (e : PerpetualPaperEngine) where
  -- `load_state`
  unfoldable pub load_state : Step FuturesProjectionSnapshot
  load_state j = (rebuild c j, j)

  abbrev pub held : Text → FuturesProjectionSnapshot → Option MarginPosition
  held symbol s = find (position_of symbol) s.positions

  abbrev pub margined : PerpetualContract → Decimal → Option MarginPosition → Step MarginPosition
  margined k maintenance none j = (err key_error, j)
  margined k maintenance (some p) j =
      let q = record p { maintenance_margin = maintenance } in
      (ok (record q { liquidation_price = some (liquidation_price c q k) }), j)

  abbrev pub opening :
      PerpetualContract → PositionSide → Decimal → Decimal → Decimal → Decimal → Opening
  opening k side qty price lev margin = record {
    side = side;
    quantity = qty;
    entry_price = price;
    leverage = lev;
    initial_margin = margin;
    fee = mul c (mul c (mul c qty price) k.contract_size) k.taker_fee_rate;
  }

  abbrev pub open_with :
      Call → PerpetualContract → PositionSide → Decimal → Decimal → Decimal → Step MarginPosition
  open_with call k side qty price lev j =
      and_then (initial_margin c none k qty price lev, j)
        (λ margin j.
          and_then (record_open c k call others (opening k side qty price lev margin) j) (λ t j.
            and_then (load_state j)
              (λ s. margined k (maintenance_margin c k qty price none) (held k.symbol s))))

  unfoldable pub open_position :
      Call → PositionSide → Decimal → Decimal → Decimal → Option Text → Step MarginPosition
  unfolding load_state
  open_position call side quantity price leverage symbol j =
      let k = chosen symbol e in
      if is_flat_side side
      then (err value_error, j)
      else open_with call k side (abs c quantity) price
          (effective_leverage c leverage k.max_leverage) j

  -- The profit of `qty` at the exit price: the other way round unless the position is long.
  abbrev pub profit : PositionSide → Decimal → Decimal → Decimal → PerpetualContract → Decimal
  profit side entry exit qty k =
      if is_long side
      then mul c (mul c (sub c exit entry) qty) k.contract_size
      else mul c (mul c (sub c entry exit) qty) k.contract_size

  abbrev pub closing :
      PerpetualContract → MarginPosition → PositionSide → Decimal → Decimal → Closing
  closing k p side qty exit = record {
    side = side;
    quantity = qty;
    entry_price = p.avg_entry_price;
    realized_pnl = profit p.side p.avg_entry_price exit qty k;
    fee = mul c (mul c (mul c qty exit) k.contract_size) k.taker_fee_rate;
    margin_release =
        if is_zero p.quantity then pos 0 else div c (mul c p.initial_margin qty) (abs c p.quantity);
  }

  abbrev pub close_held :
      Call
      → PerpetualContract
      → PositionSide
      → Decimal
      → Decimal
      → Option MarginPosition
      → Step (Option MarginPosition)
  close_held call k side quantity exit none j = (ok none, j)
  close_held call k side quantity exit (some p) j =
      if position_side_eq p.side side
      then and_then
          (record_close c k call others
            (closing k p side (min (abs c quantity) (abs c p.quantity)) exit) j)
          (λ t j. and_then (load_state j) (λ s j. (ok (held k.symbol s), j)))
      else (ok none, j)

  unfoldable pub close_position :
      Call → PositionSide → Decimal → Decimal → Option Text → Step (Option MarginPosition)
  unfolding load_state
  close_position call side quantity exit symbol j =
      let k = chosen symbol e in
      and_then (load_state j) (λ s. close_held call k side quantity exit (held k.symbol s))

  abbrev pub fund_held :
      Call → PerpetualContract → Decimal → Decimal → Option MarginPosition → Step Decimal
  fund_held call k rate mark none j = (ok (pos 0), j)
  fund_held call k rate mark (some p) j =
      let amount = (funding_payment c p rate mark k.contract_size).0 in
      if is_flat p
      then (ok (pos 0), j)
      else if is_zero amount
      then (ok amount, j)
      else and_then (record_funding c k call others p.side amount j)
          (λ t j. and_then (load_state j) (λ s j. (ok amount, j)))

  unfoldable pub apply_funding : Call → Decimal → Decimal → Option Text → Step Decimal
  unfolding load_state
  apply_funding call rate mark symbol j =
      let k = chosen symbol e in
      and_then (load_state j) (λ s. fund_held call k rate mark (held k.symbol s))

  abbrev pub marked : PerpetualContract → Decimal → MarginPosition → MarginPosition
  marked k mark p = record p {
    mark_price = mark;
    unrealized_pnl =
        if is_flat_side p.side
        then pos 0
        else profit p.side p.avg_entry_price mark (abs c p.quantity) k;
  }

  abbrev pub mark_held : PerpetualContract → Decimal → Option MarginPosition → Option MarginPosition
  mark_held k mark none = none
  mark_held k mark (some p) = some (marked k mark p)

  -- It marks the position of a state that it loads itself.
  unfoldable pub mark_to_market : Decimal → Option Text → Step (Option MarginPosition)
  unfolding load_state
  mark_to_market mark symbol j =
      let k = chosen symbol e in
      and_then (load_state j) (λ s j. (ok (mark_held k mark (held k.symbol s)), j))

  abbrev pub liquidation : MarginPosition → Decimal → Decimal → Closing
  liquidation p mark fee = record {
    side = p.side;
    quantity = abs c p.quantity;
    entry_price = p.avg_entry_price;
    realized_pnl = p.unrealized_pnl;
    fee = fee;
    margin_release = p.initial_margin;
  }

  abbrev pub close_liquidated :
      Call → PerpetualContract → MarginPosition → Decimal → LiquidationResult c → Step Bool
  close_liquidated call k p mark r j =
      if r.liquidated
      then and_then (record_close c k call others (liquidation p mark r.fee) j)
          (λ t j. and_then (load_state j) (λ s j. (ok true, j)))
      else (ok false, j)

  -- The position is that of the first load; `mark_to_market` marks another object.
  abbrev pub liquidate_held : Call → PerpetualContract → Decimal → Option MarginPosition → Step Bool
  liquidate_held call k mark none j = (ok false, j)
  liquidate_held call k mark (some p) j = and_then (mark_to_market mark (some k.symbol) j) (λ q j.
      and_then (evaluate c e.liquidation_fee_rate p k mark, j) (close_liquidated call k p mark))

  unfoldable pub liquidate : Call → Decimal → Option Text → Step Bool
  unfolding load_state
  liquidate call mark symbol j =
      let k = chosen symbol e in
      and_then (load_state j) (λ s. liquidate_held call k mark (held k.symbol s))
