-- ===== src/Order/Fills/Quantities.antt =====
-- src/crypto_trader/order/manager.py: filled quantities and the sums of fills.
use crypto_auto_trading_syst.Base.{
  ◌≡◌, refl, sym, ◌∙◌, ◌==◌, inl, inr, Bool, true, false, Option, none, some, List, [], ◌∷◌, ◌++◌,
  Result, ok, err, All, find, arith, Bool-cases, if◌then◌else◌,
}
use mathlib.Core.Path.{subst}
use mathlib.Core.Option.{some-injective}
use crypto_auto_trading_syst.Base.Tables.{
  Unique, Unique-update, All-update_found, find-key, other_key,
}
use crypto_auto_trading_syst.Int.{ℤ, pos, ◌+ℤ◌, ◌≤ℤ◌, ltb_ℤ, eqb_ℤ, int_laws}
use crypto_auto_trading_syst.Decimal.{Decimal, Context, add}
use crypto_auto_trading_syst.Decimal.Laws.{IsExact, add-exact}
use crypto_auto_trading_syst.Domain.Enums.{OrderStatus, OrderEventType}
use crypto_auto_trading_syst.Domain.Models.{Text, Order, Fill}
use crypto_auto_trading_syst.Order.Store.{
  Store, OtherTasks, has_id, get, get_by_exchange, get_fill, option_is, truthy,
}
use crypto_auto_trading_syst.Order.StateMachine.{TransitionResult, transition}
use crypto_auto_trading_syst.Order.Fills.{
  NewIds, by_exchange, or_by_id, order_of_fill, fill_event, commit_fill, step_fill, fill_order,
  apply_or_known, apply_fill, after_race, fill_violates, filled_row, written_row, event_of_fill,
  fill_row, average_price,
}

-- The sum of the quantities of an order's fills.
abbrev pub fills_total : Text → List Fill → ℤ
fills_total id [] = pos 0
fills_total id (f ∷ fs) =
    if f.order_id == id then f.quantity +ℤ fills_total id fs else fills_total id fs

fills_total-append :
    (id : Text) (fs : List Fill) (f : Fill)
    → fills_total id (fs ++ f ∷ [])
      ≡ (if f.order_id == id then fills_total id fs +ℤ f.quantity else fills_total id fs)
fills_total-append id [] f = grind int_laws
fills_total-append id (g ∷ fs) f = grind (int_laws, fills_total-append id fs f)

-- The orders agree with the fills: their ids are unique, and every order has been filled by the sum
-- of its fills, and by no more than it asks for.
abbrev pub Agrees : List Fill → Order → Type 0
Agrees fills o =
    (o.filled_quantity ≤ℤ o.quantity) × (o.filled_quantity ≡ fills_total o.internal_order_id fills)

pub record IsReconciled (s : Store) : Type 0 where
  pub ids : Unique (λ o. o.internal_order_id) s.orders
  pub agree : All (Agrees s.fills) s.orders

module _ (s : Store) (u : Unique (λ o. o.internal_order_id) s.orders) where
  abbrev HasOwnId : Order → Type 0
  HasOwnId o = find (has_id o.internal_order_id) s.orders ≡ some o

  by_exchange-own :
      (b : Bool) (e : Option Text) {o : Order}
      → (if b then by_exchange e s else none) ≡ some o
      → HasOwnId o
  unfolding get_by_exchange
  by_exchange-own false e h = cc
  by_exchange-own true none h = cc
  by_exchange-own true (some x) h =
      find-key (λ o. o.internal_order_id) (λ o. option_is x o.exchange_order_id) s.orders u h

  or_by_id-own :
      (found : Option Order) (id : Text) {o : Order}
      → ((x : Order) → found ≡ some x → HasOwnId x)
      → or_by_id found id s ≡ some o
      → HasOwnId o
  unfolding get
  or_by_id-own none id own h = find-key (λ o. o.internal_order_id) (has_id id) s.orders u h
  or_by_id-own (some x) id own h = subst HasOwnId (some-injective _ _ h) (own x refl)

  order_of_fill-own : (fill : Fill) {o : Order} → order_of_fill fill s ≡ some o → HasOwnId o
  unfolding order_of_fill
  order_of_fill-own fill h =
      or_by_id-own
        (if truthy fill.exchange_order_id then by_exchange fill.exchange_order_id s else none)
        fill.order_id
        (λ x e. by_exchange-own (truthy fill.exchange_order_id) fill.exchange_order_id e) h

-- Nobody else works on the store during the call.
abbrev pub alone : OtherTasks
alone s = s

module _ (c : Context) (has_callback : Bool) (fill : Fill) (ids : NewIds) where
  after_race-store : (f : Option Fill) (s : Store) → (after_race f s).1 ≡ s
  after_race-store none s = refl
  after_race-store (some f) s = refl

  Agrees-other :
      (fills : List Fill) (f : Fill) (o : Order)
      → (f.order_id == o.internal_order_id) ≡ false
      → Agrees fills o
      → Agrees (fills ++ f ∷ []) o
  Agrees-other fills f o h (bound, sum) =
      (bound, sum ∙ sym (fills_total-append o.internal_order_id fills f ∙ rw h))

  Agrees-filled :
      (fills : List Fill) (f : Fill) (o : Order) (status : OrderStatus) (average : Decimal)
      → f.order_id ≡ o.internal_order_id
      → f.quantity ≡ fill.quantity
      → IsExact c (o.filled_quantity +ℤ fill.quantity)
      → ltb_ℤ o.quantity (add c o.filled_quantity fill.quantity) ≡ false
      → Agrees fills o
      → Agrees
          (fills ++ f ∷ [])
          (filled_row fill ids (add c o.filled_quantity fill.quantity) average status o)
  Agrees-filled fills f o status average same_id same_quantity exact fits (bound, sum) =
      let total = add-exact c o.filled_quantity fill.quantity exact in
      (ground arith, total ∙ ground (arith, fills_total-append o.internal_order_id fills f))

  commit_fill-IsReconciled :
      (o : Order) (e : OrderEventType) (status : OrderStatus) (s : Store)
      → find (has_id o.internal_order_id) s.orders ≡ some o
      → IsExact c (o.filled_quantity +ℤ fill.quantity)
      → ltb_ℤ o.quantity (add c o.filled_quantity fill.quantity) ≡ false
      → IsReconciled s
      → IsReconciled
          (commit_fill c has_callback alone fill ids o
            (add c o.filled_quantity fill.quantity)
            e
            status
            s).1
  commit_fill-IsReconciled o e status s own exact fits r =
      let new_filled = add c o.filled_quantity fill.quantity in
      let average = average_price c o fill new_filled in
      let row = filled_row fill ids new_filled average status o in
      let new_fill = fill_row row fill ids in
      elim (Bool-cases (fill_violates row new_fill (event_of_fill row fill ids e status) s)) [
        | inl bad ↦ rw (bad, after_race-store (get_fill fill.fill_id s) s) r
        | inr good ↦ rw good (record {
          ids =
              Unique-update (λ x. x.internal_order_id) (has_id o.internal_order_id)
                (written_row o fill ids new_filled average status) s.orders (λ x. refl) r.ids;
          agree =
              All-update_found (Agrees s.fills) (Agrees (s.fills ++ new_fill ∷ []))
                (λ x. x.internal_order_id) o.internal_order_id
                (written_row o fill ids new_filled average status) s.orders r.ids own
                (λ x other.
                  Agrees-other s.fills new_fill x
                    (other_key x.internal_order_id o.internal_order_id other))
                (Agrees-filled s.fills new_fill o status average refl refl exact fits) r.agree;
        })
      ]

  step_fill-IsReconciled :
      (o : Order) (e : OrderEventType) (t : Result TransitionResult) (s : Store)
      → find (has_id o.internal_order_id) s.orders ≡ some o
      → IsExact c (o.filled_quantity +ℤ fill.quantity)
      → ltb_ℤ o.quantity (add c o.filled_quantity fill.quantity) ≡ false
      → IsReconciled s
      → IsReconciled
          (step_fill c has_callback alone fill ids o
            (add c o.filled_quantity fill.quantity)
            e
            t
            s).1
  step_fill-IsReconciled o e (err x) s own exact fits r = r
  step_fill-IsReconciled o e (ok t) s own exact fits r =
      commit_fill-IsReconciled o e t.new_status s own exact fits r

  -- The sum that the fill makes is kept exactly.
  abbrev pub AddsExactly : Option Order → Type 0
  AddsExactly none = Unit
  AddsExactly (some o) = IsExact c (o.filled_quantity +ℤ fill.quantity)

  fill_order-IsReconciled :
      (found : Option Order) (s : Store)
      → ((o : Order) → found ≡ some o → find (has_id o.internal_order_id) s.orders ≡ some o)
      → AddsExactly found
      → IsReconciled s
      → IsReconciled (fill_order c has_callback alone fill ids found s).1
  fill_order-IsReconciled none s own exact r = r
  fill_order-IsReconciled (some o) s own exact r =
      let new_filled = add c o.filled_quantity fill.quantity in
      let e = fill_event (eqb_ℤ new_filled o.quantity) in
      elim (Bool-cases (ltb_ℤ o.quantity new_filled)) [
        | inl over ↦ rw over r
        | inr fits ↦
            rw fits (step_fill-IsReconciled o e (transition o.status e) s (own o refl) exact fits r)
      ]

  apply_or_known-IsReconciled :
      (known : Option Fill) (s : Store)
      → AddsExactly (order_of_fill fill s)
      → IsReconciled s
      → IsReconciled (apply_or_known c has_callback alone fill ids known s).1
  apply_or_known-IsReconciled (some f) s exact r = r
  apply_or_known-IsReconciled none s exact r =
      fill_order-IsReconciled (order_of_fill fill s) s (λ o e. order_of_fill-own s r.ids fill e)
        exact r

  -- A call on its own keeps every order filled by exactly the sum of its stored fills and by no
  -- more than it asks for, whether the fill is new, known, too large or refused; the sum that it
  -- makes has to fit the decimal context.
  pub apply_fill-IsReconciled :
      (s : Store)
      → AddsExactly (order_of_fill fill s)
      → IsReconciled s
      → IsReconciled (apply_fill c has_callback alone fill ids s).1
  unfolding apply_fill
  apply_fill-IsReconciled s exact r =
      apply_or_known-IsReconciled (get_fill fill.fill_id s) s exact r
