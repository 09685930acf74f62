-- ===== src/MarketData/Book/Depth.antt =====
-- src/crypto_trader/market_data/orderbook.py: a side of the book as a map from price to quantity.
use crypto_auto_trading_syst.Base.{
  ◌≡◌, refl, true, false, Option, none, some, List, [], ◌∷◌, ◌++◌, All, find, ok, arith, Bool-cases,
  if◌then◌else◌, inl, inr,
}
use crypto_auto_trading_syst.Int.{pos, ltb_ℤ, eqb_ℤ, eqb_ℤ→eq}
use crypto_auto_trading_syst.Decimal.{Decimal, is_zero}
use crypto_auto_trading_syst.MarketData.Book.{
  BookLevel, Levels, Change, has_price, put_level, pop_level, upsert_level, upsert,
}

abbrev pub quantity_of : Option BookLevel → Decimal
quantity_of none = pos 0
quantity_of (some l) = l.quantity

-- What is offered at a price.
unfoldable pub quantity_at : Levels → Decimal → Decimal
quantity_at ls price = quantity_of (find (has_price price) ls)

-- The specification: each change says the quantity at its price from then on.
unfoldable pub quantity_after : List Change → Decimal → Decimal → Decimal
quantity_after [] price quantity = quantity
quantity_after (u ∷ us) price quantity =
    quantity_after us price (if eqb_ℤ u.price price then u.quantity else quantity)

-- No change asks for a negative quantity.
abbrev pub IsValid : List Change → Type 0
IsValid us = All (λ u. ltb_ℤ u.quantity (pos 0) ≡ false) us

same_price : (a b c : Decimal) → eqb_ℤ a b ≡ true → eqb_ℤ a c ≡ eqb_ℤ b c
same_price a b c h = let same : a ≡ b = eqb_ℤ→eq a b h in cc

put_level-quantity :
    (l : BookLevel) (ls : Levels) (price : Decimal)
    → quantity_at (put_level l ls) price
      ≡ (if eqb_ℤ l.price price then l.quantity else quantity_at ls price)
unfolding quantity_at
put_level-quantity l [] price = ground arith
put_level-quantity l (x ∷ ls) price = elim (Bool-cases (has_price l.price x)) [
  | inl here ↦ rw (here, same_price x.price l.price price here) (ground arith)
  | inr there ↦ rw there (ground (arith, put_level-quantity l ls price))
]

pop_level-quantity :
    (gone : Decimal) (ls : Levels) (price : Decimal)
    → quantity_at (pop_level gone ls) price
      ≡ (if eqb_ℤ gone price then pos 0 else quantity_at ls price)
unfolding quantity_at
pop_level-quantity gone [] price = ground arith
pop_level-quantity gone (x ∷ ls) price = elim (Bool-cases (has_price gone x)) [
  | inl here ↦
      rw (here, same_price x.price gone price here)
        (ground (arith, pop_level-quantity gone ls price))
  | inr there ↦ rw there (ground (arith, pop_level-quantity gone ls price))
]

upsert_level-quantity :
    (u : Change) (ls : Levels) (price : Decimal)
    → quantity_at (upsert_level u ls) price
      ≡ (if eqb_ℤ u.price price then u.quantity else quantity_at ls price)
upsert_level-quantity u ls price = elim (Bool-cases (is_zero u.quantity)) [
  | inl gone ↦
      let nothing : u.quantity ≡ pos 0 = eqb_ℤ→eq u.quantity (pos 0) gone in
      rw (gone, nothing) (pop_level-quantity u.price ls price)
  | inr there ↦
      rw there (put_level-quantity (record { price = u.price; quantity = u.quantity }) ls price)
]

pub upsert-returns : (us : List Change) (ls : Levels) → IsValid us → (upsert us ls).0 ≡ ok tt
unfolding upsert
upsert-returns [] ls v = refl
upsert-returns (u ∷ us) ls v = rw (v.0) (upsert-returns us (upsert_level u ls) v.1)

pub upsert-quantity :
    (us : List Change) (ls : Levels) (price : Decimal)
    → IsValid us
    → quantity_at (upsert us ls).1 price ≡ quantity_after us price (quantity_at ls price)
unfolding upsert quantity_after
upsert-quantity [] ls price v = refl
upsert-quantity (u ∷ us) ls price v =
    rw (v.0, upsert-quantity us (upsert_level u ls) price v.1, upsert_level-quantity u ls price)

pub quantity_after-append :
    (us vs : List Change) (price quantity : Decimal)
    → quantity_after (us ++ vs) price quantity
      ≡ quantity_after vs price (quantity_after us price quantity)
unfolding quantity_after
quantity_after-append [] vs price quantity = refl
quantity_after-append (u ∷ us) vs price quantity =
    quantity_after-append us vs price (if eqb_ℤ u.price price then u.quantity else quantity)
