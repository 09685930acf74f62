-- ===== src/Order/Fills/Idempotence.antt =====
-- src/crypto_trader/order/manager.py: `apply_fill` over sequences of deliveries.
use crypto_auto_trading_syst.Base.{
  ◌≡◌, refl, ◌==◌, ◌⊎◌, inl, inr, Bool, true, false, Option, none, some, List, [], ◌∷◌, ◌++◌,
  Result, ok, err, any, All, arith, Bool-cases,
}
use crypto_auto_trading_syst.Base.Tables.{Unique, any-append}
use crypto_auto_trading_syst.Int.{ltb_ℤ, eqb_ℤ}
use crypto_auto_trading_syst.Decimal.{Decimal, Context, add}
use crypto_auto_trading_syst.Domain.Enums.{OrderStatus, OrderEventType}
use crypto_auto_trading_syst.Domain.Models.{Text, Order, Fill}
use crypto_auto_trading_syst.Order.Store.{Store, OtherTasks, has_fill_id, get, get_fill}
use crypto_auto_trading_syst.Order.StateMachine.{TransitionResult, transition}
use crypto_auto_trading_syst.Order.Fills.{
  FillOutcome, NewIds, order_of_fill, fill_event, commit_fill, step_fill, fill_order,
  apply_or_known, apply_fill, known_fill, after_race, fill_violates, filled_row, event_of_fill,
  fill_row, average_price, settlements,
}

abbrev pub has_fill : Text → Store → Bool
has_fill id s = any (has_fill_id id) s.fills

-- Other tasks never remove a fill.
abbrev pub KeepsFills : OtherTasks → Type 0
KeepsFills others = (id : Text) (s : Store) → has_fill id s ≡ true → has_fill id (others s) ≡ true

-- The fills that a call hands to the settlement callback.
abbrev pub settled_by : Result FillOutcome → List Fill
settled_by (ok r) = r.settled
settled_by (err e) = []

-- What one call does with the fills: it settles nothing, or it settles its fill, which was not there
-- and is there afterwards. No fill is removed.
abbrev pub SettlesOnce : Fill → Store → Result FillOutcome × Store → Type 0
SettlesOnce fill s (r, t) =
    ((settled_by r ≡ [])
      ⊎ ((settled_by r ≡ fill ∷ [])
          × (has_fill fill.fill_id s ≡ false)
          × (has_fill fill.fill_id t ≡ true)))
    × ((id : Text) → has_fill id s ≡ true → has_fill id t ≡ true)

module _ (c : Context) (has_callback : Bool) (others : OtherTasks) (fill : Fill)
    (ids : NewIds) where
  known-settles : (o : Option Order) (f : Fill) → settled_by (known_fill o f) ≡ []
  known-settles none f = refl
  known-settles (some o) f = refl

  after_race-SettlesOnce : (f : Option Fill) (s : Store) → SettlesOnce fill s (after_race f s)
  after_race-SettlesOnce none s = (inl refl, λ id h. h)
  after_race-SettlesOnce (some f) s = (inl (known-settles (get f.order_id s) f), λ id h. h)

  settlements-cases : (b : Bool) → (settlements b fill ≡ []) ⊎ (settlements b fill ≡ fill ∷ [])
  settlements-cases true = inr refl
  settlements-cases false = inl refl

  -- The row, the event and the fill that `commit_fill` writes.
  abbrev written : Order → Decimal → OrderStatus → Order
  written o new_filled status =
      filled_row fill ids new_filled (average_price c o fill new_filled) status o

  abbrev violates : Order → Decimal → OrderEventType → OrderStatus → Store → Bool
  violates o new_filled e status s =
      fill_violates (written o new_filled status) (fill_row (written o new_filled status) fill ids)
        (event_of_fill (written o new_filled status) fill ids e status) s

  violates-fill :
      (o : Order) (new_filled : Decimal) (e : OrderEventType) (status : OrderStatus) (s : Store)
      → violates o new_filled e status s ≡ false
      → has_fill fill.fill_id s ≡ false
  violates-fill o new_filled e status s h = ground arith

  has_fill-append :
      (id : Text) (f : Fill) (fills : List Fill)
      → any (has_fill_id id) fills ≡ true
      → any (has_fill_id id) (fills ++ f ∷ []) ≡ true
  has_fill-append id f fills h = rw (any-append (has_fill_id id) fills f, h)

  has_fill-appended :
      (f : Fill) (fills : List Fill) → any (has_fill_id f.fill_id) (fills ++ f ∷ []) ≡ true
  has_fill-appended f fills = ground (arith, any-append (has_fill_id f.fill_id) fills f)

  commit_fill-SettlesOnce :
      (o : Order) (new_filled : Decimal) (e : OrderEventType) (status : OrderStatus) (s : Store)
      → SettlesOnce fill s (commit_fill c has_callback others fill ids o new_filled e status s)
  commit_fill-SettlesOnce o new_filled e status s =
      let row = written o new_filled status in
      elim (Bool-cases (violates o new_filled e status s)) [
        | inl bad ↦ rw bad (after_race-SettlesOnce (get_fill fill.fill_id s) s)
        | inr good ↦ rw good (
          elim (settlements-cases has_callback) [
            | inl quiet ↦ inl quiet
            | inr called ↦ inr (
              called,
              violates-fill o new_filled e status s good,
              has_fill-appended (fill_row row fill ids) s.fills,
            )
          ],
          λ id h. has_fill-append id (fill_row row fill ids) s.fills h,
        )
      ]

  module _ (keep : KeepsFills others) where
    SettlesOnce-others :
        (s : Store) (out : Result FillOutcome × Store)
        → SettlesOnce fill (others s) out
        → SettlesOnce fill s out
    SettlesOnce-others s (r, t) (cases, grows) = (
      elim cases [
        | inl quiet ↦ inl quiet
        | inr (called, new, there) ↦ inr (called, absent (has_fill fill.fill_id s) refl new, there)
      ],
      λ id h. grows id (keep id s h),
    )
      where
        absent :
            (b : Bool)
            → has_fill fill.fill_id s ≡ b
            → has_fill fill.fill_id (others s) ≡ false
            → has_fill fill.fill_id s ≡ false
        absent false e h = e
        absent true e h = cc (keep fill.fill_id s e)

    step_fill-SettlesOnce :
        (o : Order) (new_filled : Decimal) (e : OrderEventType) (r : Result TransitionResult)
        (s : Store)
        → SettlesOnce fill s (step_fill c has_callback others fill ids o new_filled e r s)
    step_fill-SettlesOnce o new_filled e (err x) s = (inl refl, λ id h. h)
    step_fill-SettlesOnce o new_filled e (ok r) s =
        SettlesOnce-others s
          (commit_fill c has_callback others fill ids o new_filled e r.new_status (others s))
          (commit_fill-SettlesOnce o new_filled e r.new_status (others s))

    fill_order-SettlesOnce :
        (o : Option Order) (s : Store)
        → SettlesOnce fill s (fill_order c has_callback others fill ids o s)
    fill_order-SettlesOnce none s = (inl refl, λ id h. h)
    fill_order-SettlesOnce (some o) s =
        let new_filled = add c o.filled_quantity fill.quantity in
        let e = fill_event (eqb_ℤ new_filled o.quantity) in
        elim (Bool-cases (ltb_ℤ o.quantity new_filled)) [
          | inl over ↦ rw over (inl refl, λ id h. h)
          | inr fits ↦ rw fits (step_fill-SettlesOnce o new_filled e (transition o.status e) s)
        ]

    apply_or_known-SettlesOnce :
        (f : Option Fill) (s : Store)
        → SettlesOnce fill s (apply_or_known c has_callback others fill ids f s)
    apply_or_known-SettlesOnce none s = fill_order-SettlesOnce (order_of_fill fill s) s
    apply_or_known-SettlesOnce (some f) s = (inl (known-settles (get f.order_id s) f), λ id h. h)

    apply_fill-SettlesOnce :
        (s : Store) → SettlesOnce fill s (apply_fill c has_callback others fill ids s)
    unfolding apply_fill
    apply_fill-SettlesOnce s = apply_or_known-SettlesOnce (get_fill fill.fill_id s) s

-- One delivery of a fill: what other tasks do during the call, the fill, and the identifiers drawn.
pub record Delivery : Type 0 where
  pub others : OtherTasks
  pub fill : Fill
  pub ids : NewIds

-- Any number of deliveries in any order, repeated or not: the fills settled.
unfoldable pub settle_all : Context → Bool → List Delivery → Store → List Fill
settle_all c has_callback [] s = []
settle_all c has_callback (d ∷ ds) s =
    let (r, t) = apply_fill c has_callback d.others d.fill d.ids s in
    settled_by r ++ settle_all c has_callback ds t

abbrev pub KeepFills : List Delivery → Type 0
KeepFills ds = All (λ d. KeepsFills d.others) ds

different : (a b : Text) (s : Store) → has_fill a s ≡ false → has_fill b s ≡ true → (a == b) ≡ false
different a b s h k = ground arith

-- A fill that is in the store already is settled by no delivery.
settle_all-absent :
    (c : Context) (b : Bool) (ds : List Delivery) (s : Store) (id : Text)
    → KeepFills ds
    → has_fill id s ≡ true
    → any (has_fill_id id) (settle_all c b ds s) ≡ false
unfolding settle_all
settle_all-absent c b [] s id keep h = refl
settle_all-absent c b (d ∷ ds) s id keep h =
    let (cases, grows) = apply_fill-SettlesOnce c b d.others d.fill d.ids keep.0 s in
    let out = apply_fill c b d.others d.fill d.ids s in
    let rest = settle_all-absent c b ds out.1 id keep.1 (grows id h) in
    elim cases [
      | inl quiet ↦ rw quiet rest
      | inr (called, new, there) ↦ rw called (rw (different d.fill.fill_id id s new h) rest)
    ]

-- Over any sequence of deliveries, with repetitions, in any order, and with other tasks working on
-- the same store in between, no fill id is handed to the settlement callback twice.
pub settled_once :
    (c : Context) (has_callback : Bool) (ds : List Delivery) (s : Store)
    → KeepFills ds
    → Unique (λ f. f.fill_id) (settle_all c has_callback ds s)
unfolding settle_all
settled_once c b [] s keep = tt
settled_once c b (d ∷ ds) s keep =
    let out = apply_fill c b d.others d.fill d.ids s in
    elim (apply_fill-SettlesOnce c b d.others d.fill d.ids keep.0 s).0 [
      | inl quiet ↦ rw quiet (settled_once c b ds out.1 keep.1)
      | inr (called, new, there) ↦ rw called (
        settle_all-absent c b ds out.1 d.fill.fill_id keep.1 there,
        settled_once c b ds out.1 keep.1,
      )
    ]
