-- ===== src/Reconciliation.antt =====
-- src/crypto_trader/reconciliation/service.py: the comparison of the ledger's projection with the
-- exchange, and the simulator's start from that projection. The exchange's balances and positions
-- are dictionaries' values, without duplicates. The names of the assets that a symbol stands for are
-- functions of the symbol, one for each side. A report's texts are left out.
pub mod Agreement
pub mod Hydration
use crypto_auto_trading_syst.Base.{
  ℕ, Bool, true, false, not, ◌&&◌, ◌||◌, Option, none, some, List, [], ◌∷◌, ◌++◌, find, any, select,
  sort_by, ◌==◌, leb, if◌then◌else◌,
}
use crypto_auto_trading_syst.Int.{pos, eqb_ℤ}
use crypto_auto_trading_syst.Decimal.{Decimal, is_zero}
use crypto_auto_trading_syst.Domain.Models.{Text, Position}
use crypto_auto_trading_syst.Ledger.Projections.{
  BalanceRow, PositionView, ProjectionSnapshot, balance,
}
use crypto_auto_trading_syst.Simulator.Matching.{Holding, Wallet, held, has_symbol}

pub data Alert : Type 0 where
  balance_mismatch : Text → Decimal → Decimal → Alert
  position_mismatch : Text → Decimal → Decimal → Alert
  position_only_on_exchange : Text → Decimal → Alert

pub record ReconciliationReport : Type 0 where
  pub ok : Bool
  pub halt : Bool
  pub alerts : List Alert

abbrev pub quantity_of : Option Position → Decimal
quantity_of none = pos 0
quantity_of (some p) = p.quantity

-- Whether the exchange has the position with the same quantity.
abbrev pub is_matched : PositionView → Option Position → Bool
is_matched v none = false
is_matched v (some p) = eqb_ℤ v.quantity p.quantity

module _ (local_base exchange_base : Text → Text) where
  -- `position_covered_currencies`
  unfoldable pub covered : List PositionView → List Position → List Text
  covered [] ps = []
  covered (v ∷ vs) ps =
      let rest = covered vs ps in
      if is_matched v (find (has_symbol v.symbol) ps)
      then local_base v.symbol ∷ exchange_base v.symbol ∷ rest
      else rest

abbrev pub local_currencies : List BalanceRow → List Text
local_currencies [] = []
local_currencies (r ∷ rs) = r.currency ∷ local_currencies rs

abbrev pub exchange_currencies : List Holding → List Text
exchange_currencies [] = []
exchange_currencies (h ∷ hs) = h.currency ∷ exchange_currencies hs

abbrev pub among : List Text → Text → Bool
among xs x = any (λ y. y == x) xs

-- `sorted(set(local_balances) | set(exchange_balances))`
abbrev pub all_currencies : List Text → List Text → List Text
all_currencies ls es = sort_by leb (ls ++ select (λ e. not (among ls e)) es)

-- The first loop that reports.
unfoldable pub balance_alerts :
    List Text → List Text → ProjectionSnapshot → List Holding → List Alert
unfolding balance
balance_alerts skipped [] s hs = []
balance_alerts skipped (currency ∷ cs) s hs =
    let rest = balance_alerts skipped cs s hs in
    let left = balance currency s in
    let right = held currency hs in
    if among skipped currency || eqb_ℤ left right
    then rest
    else balance_mismatch currency left right ∷ rest

unfoldable pub position_alerts : List PositionView → List Position → List Alert
position_alerts [] ps = []
position_alerts (v ∷ vs) ps =
    let rest = position_alerts vs ps in
    let other = quantity_of (find (has_symbol v.symbol) ps) in
    if eqb_ℤ v.quantity other then rest else position_mismatch v.symbol v.quantity other ∷ rest

abbrev pub has_view : Text → PositionView → Bool
has_view symbol v = v.symbol == symbol

unfoldable pub only_alerts : List PositionView → List Position → List Alert
only_alerts vs [] = []
only_alerts vs (p ∷ ps) =
    let rest = only_alerts vs ps in
    if any (has_view p.symbol) vs
    then rest
    else position_only_on_exchange p.symbol p.quantity ∷ rest

abbrev pub halts : Alert → Bool
halts (balance_mismatch _ _ _) = true
halts (position_mismatch _ _ _) = true
halts (position_only_on_exchange _ _) = false

abbrev pub is_empty : List Alert → Bool
is_empty [] = true
is_empty (a ∷ more) = false

module _ (local_base exchange_base : Text → Text) where
  unfoldable pub find_alerts : ProjectionSnapshot → Wallet → List Alert
  unfolding covered balance_alerts position_alerts only_alerts
  find_alerts s w =
      balance_alerts (covered local_base exchange_base s.positions w.positions)
        (all_currencies (local_currencies s.balances) (exchange_currencies w.balances)) s w.balances
      ++ (position_alerts s.positions w.positions ++ only_alerts s.positions w.positions)

  unfoldable pub reconcile : ProjectionSnapshot → Wallet → ReconciliationReport
  unfolding find_alerts
  reconcile s w =
      let alerts = find_alerts s w in
      record { ok = is_empty alerts; halt = any halts alerts; alerts = alerts }

-- The balances that `hydrate_from_ledger` adopts, and its loop over the positions.
abbrev pub adopted_balances : List BalanceRow → List Holding
adopted_balances [] = []
adopted_balances (r ∷ rs) = record { currency = r.currency; total = r.total } ∷ adopted_balances rs

abbrev pub adopted_position : PositionView → Position
adopted_position v = record {
  symbol = v.symbol;
  quantity = v.quantity;
  avg_entry_price = v.avg_entry_price;
  cost_basis = v.cost_basis;
  realized_pnl = v.realized_pnl;
}

abbrev pub adopted_positions : List PositionView → List Position
adopted_positions [] = []
adopted_positions (v ∷ vs) =
    let rest = adopted_positions vs in
    if is_zero v.quantity then rest else adopted_position v ∷ rest

abbrev pub or_kept : List Holding → List Holding → List Holding
or_kept [] kept = kept
or_kept (h ∷ hs) kept = h ∷ hs

-- `hydrate_from_ledger`, from the replayed projection; no balances leave the initial ones.
unfoldable pub hydrate_from_ledger : ProjectionSnapshot → Wallet → Wallet
hydrate_from_ledger s w = record {
  balances = or_kept (adopted_balances s.balances) w.balances;
  positions = adopted_positions s.positions;
}
