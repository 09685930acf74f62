-- ===== src/Runtime/ExecutionSymbols/Names.antt =====
-- src/crypto_trader/runtime/execution_symbols.py: from a reference symbol to its contract and back.
use crypto_auto_trading_syst.Base.{
  ◌≡◌, refl, ap, true, false, none, some, List, [], ◌∷◌, any, arith, Bool-cases, inl, inr, ◌⊎◌,
  ◌==◌,
}
use crypto_auto_trading_syst.Domain.Models.{Text}
use crypto_auto_trading_syst.Runtime.ExecutionSymbols.{
  perp_to_reference, reference_symbol_for, execution_symbol_for, is_paper_perpetual_symbol,
}

module _ (perp : Text → Text) (injective : (a b : Text) → perp a ≡ perp b → a ≡ b) where
  perp_to_reference-value :
      (references : List Text) (r : Text)
      → (perp_to_reference perp references (perp r) ≡ none)
        ⊎ (perp_to_reference perp references (perp r) ≡ some r)
  unfolding perp_to_reference
  perp_to_reference-value [] r = inl refl
  perp_to_reference-value (x ∷ xs) r = elim (Bool-cases (perp x == perp r)) [
    | inl same ↦
        let e : x ≡ r = injective x r (ground arith) in
        ground (arith, e, perp_to_reference-value xs r)
    | inr different ↦ rw different (perp_to_reference-value xs r)
  ]

  perp_to_reference-perp :
      (references : List Text) (r : Text)
      → any (λ x. x == r) references ≡ true
      → perp_to_reference perp references (perp r) ≡ some r
  unfolding perp_to_reference
  perp_to_reference-perp [] r h = cc
  perp_to_reference-perp (x ∷ xs) r h = elim (Bool-cases (x == r)) [
    | inl same ↦
        let e : perp x ≡ perp r = ap perp (ground arith) in
        let e2 : x ≡ r = ground arith in ground (arith, e, e2, perp_to_reference-value xs r)
    | inr different ↦ ground (arith, perp_to_reference-perp xs r, perp_to_reference-value xs r)
  ]

  -- The contract of a reference symbol, looked up again, leads back to it: whether the symbol is
  -- registered or not, so long as it is not itself the name of a registered contract, and where
  -- appending the suffix keeps different names different.
  pub reference_symbol_for-execution_symbol_for :
      (references : List Text) (r : Text)
      → is_paper_perpetual_symbol perp references r ≡ false
      → reference_symbol_for perp references (execution_symbol_for perp references r) ≡ r
  unfolding reference_symbol_for execution_symbol_for is_paper_perpetual_symbol
  reference_symbol_for-execution_symbol_for references r h =
      elim (Bool-cases (any (λ x. x == r) references)) [
        | inl there ↦ rw (there, perp_to_reference-perp references r there) refl
        | inr absent ↦ rw absent (ground arith)
      ]
