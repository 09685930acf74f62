-- ===== src/Simulator/SymbolMapper.antt =====
-- src/crypto_trader/exchange/symbol_mapper.py: the names of symbols on the exchanges. `okx` makes the
-- name on OKX of a symbol, and `upper` writes a text in capitals.
use crypto_auto_trading_syst.Base.{
  Bool, ◌||◌, Option, none, some, List, map, find, Result, ok, err, value_error, ◌==◌,
}
use crypto_auto_trading_syst.Domain.Models.{Text}

pub record SymbolMapping : Type 0 where
  pub canonical : Text
  pub binance : Text
  pub okx : Text

-- `MAPPINGS`, of the supported symbols.
unfoldable pub mappings : (Text → Text) → List Text → List SymbolMapping
mappings okx symbols =
    map (λ symbol. record { canonical = symbol; binance = symbol; okx = okx symbol }) symbols

abbrev pub of_canonical : Text → SymbolMapping → Bool
of_canonical symbol m = m.canonical == symbol

abbrev pub of_exchange : Text → SymbolMapping → Bool
of_exchange symbol m = m.binance == symbol || m.okx == symbol

abbrev pub name_or_raise : (SymbolMapping → Text) → Option SymbolMapping → Result Text
name_or_raise name none = err value_error
name_or_raise name (some m) = ok (name m)

module _ (upper : Text → Text) (ms : List SymbolMapping) where
  unfoldable pub to_binance : Text → Result Text
  to_binance canonical = name_or_raise (λ m. m.binance) (find (of_canonical (upper canonical)) ms)

  unfoldable pub to_okx : Text → Result Text
  to_okx canonical = name_or_raise (λ m. m.okx) (find (of_canonical (upper canonical)) ms)

  abbrev pub canonical_or : Text → Option SymbolMapping → Result Text
  canonical_or normalized (some m) = ok normalized
  canonical_or normalized none = name_or_raise (λ m. m.canonical) (find (of_exchange normalized) ms)

  unfoldable pub to_canonical : Text → Result Text
  to_canonical raw = canonical_or (upper raw) (find (of_canonical (upper raw)) ms)
