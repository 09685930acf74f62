-- ===== src/Runtime/ExecutionSymbols.antt =====
-- src/crypto_trader/runtime/execution_symbols.py: the registered reference symbols, and the contracts
-- that are executed in their place. `perp` appends "_PERP" to a symbol.
pub mod Names
use crypto_auto_trading_syst.Base.{
  Bool, true, false, Option, none, some, List, [], ◌∷◌, any, ◌==◌, if◌then◌else◌,
}
use crypto_auto_trading_syst.Domain.Models.{Text}

abbrev pub or_text : Option Text → Text → Text
or_text none t = t
or_text (some u) t = u

module _ (perp : Text → Text) where
  -- A dictionary that is built from a list keeps the last value of a key.
  unfoldable pub perp_to_reference : List Text → Text → Option Text
  perp_to_reference [] symbol = none
  perp_to_reference (r ∷ rs) symbol =
      let later = perp_to_reference rs symbol in
      if perp r == symbol then some (or_text later r) else later

  unfoldable pub reference_symbol_for : List Text → Text → Text
  unfolding perp_to_reference
  reference_symbol_for references symbol = or_text (perp_to_reference references symbol) symbol

  unfoldable pub execution_symbol_for : List Text → Text → Text
  execution_symbol_for references symbol =
      if any (λ r. r == symbol) references then perp symbol else symbol

  abbrev pub is_some : Option Text → Bool
  is_some none = false
  is_some (some t) = true

  unfoldable pub is_paper_perpetual_symbol : List Text → Text → Bool
  unfolding perp_to_reference
  is_paper_perpetual_symbol references symbol = is_some (perp_to_reference references symbol)
