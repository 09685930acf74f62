-- ===== src/Base/Tables.antt =====
-- Tables: lists of rows with a number as their key.
use Prim.Native.Nat.{ℕ}
use mathlib.Core.Path.{◌≡◌, refl, subst, sym}
use mathlib.Core.Bool.{Bool, true, false}
use mathlib.Core.Option.{Option, none, some}
use mathlib.Core.List.{List, [], ◌∷◌, ◌++◌}
use mathlib.Core.Logic.{◌⊎◌, inl, inr}
use native.Mathlib.Omega.{arith}
use crypto_auto_trading_syst.Base.Tests.{Bool-cases, ◌==◌, if◌then◌else◌}
use crypto_auto_trading_syst.Base.Lists.{find, any, update, All}

module _ {ℓ} {A : Type ℓ} where
  -- No two rows have one key.
  abbrev pub Unique : (A → ℕ) → List A → Type 0
  Unique key [] = Unit
  Unique key (x ∷ xs) = (any (λ y. key y == key x) xs ≡ false) × Unique key xs

  abbrev pub apply_some : (A → A) → Option A → Option A
  apply_some f none = none
  apply_some f (some x) = some (f x)

  pub any-append :
      (p : A → Bool) (xs : List A) (x : A) → any p (xs ++ x ∷ []) ≡ (if any p xs then true else p x)
  any-append p [] x = ground arith
  any-append p (y ∷ ys) x = ground (arith, any-append p ys x)

  pub find-append :
      (p : A → Bool) (xs : List A) (x : A)
      → any p xs ≡ false
      → p x ≡ true
      → find p (xs ++ x ∷ []) ≡ some x
  find-append p [] x h k = ground arith
  find-append p (y ∷ ys) x h k = ground (arith, find-append p ys x)

  pub any_of_find : (p : A → Bool) (xs : List A) → find p xs ≡ none → any p xs ≡ false
  any_of_find p [] h = refl
  any_of_find p (x ∷ xs) h = ground (arith, any_of_find p xs)

  pub find-none : (p : A → Bool) (xs : List A) → any p xs ≡ false → find p xs ≡ none
  find-none p [] h = refl
  find-none p (x ∷ xs) h = ground (arith, find-none p xs)

  pub find-holds : (p : A → Bool) (xs : List A) {x : A} → find p xs ≡ some x → p x ≡ true
  find-holds p [] h = cc
  find-holds p (y ∷ ys) {x} h = ground (arith, find-holds p ys {x = x})

  pub find-update :
      (key : A → ℕ) (k : ℕ) (f : A → A) (xs : List A)
      → ((x : A) → key (f x) ≡ key x)
      → find (λ x. key x == k) (update (λ x. key x == k) f xs)
        ≡ apply_some f (find (λ x. key x == k) xs)
  find-update key k f [] h = refl
  find-update key k f (x ∷ xs) h = ground (arith, h x, find-update key k f xs h)

  pub any-update :
      (q : A → Bool) (p : A → Bool) (f : A → A) (xs : List A)
      → ((x : A) → q (f x) ≡ q x)
      → any q (update p f xs) ≡ any q xs
  any-update q p f [] h = refl
  any-update q p f (x ∷ xs) h = ground (arith, h x, any-update q p f xs h)

  pub Unique-append :
      (key : A → ℕ) (xs : List A) (x : A)
      → any (λ y. key y == key x) xs ≡ false
      → Unique key xs
      → Unique key (xs ++ x ∷ [])
  Unique-append key [] x h u = (refl, tt)
  Unique-append key (y ∷ ys) x h u =
      ground (arith, any-append (λ z. key z == key y) ys x, Unique-append key ys x)

  pub Unique-update :
      (key : A → ℕ) (p : A → Bool) (f : A → A) (xs : List A)
      → ((x : A) → key (f x) ≡ key x)
      → Unique key xs
      → Unique key (update p f xs)
  Unique-update key p f [] h u = tt
  Unique-update key p f (x ∷ xs) h u = ground (
    arith,
    h x,
    any-update (λ y. key y == key x) p f xs (λ y. ap_key y),
    Unique-update key p f xs h u.1,
  )
    where
      ap_key : (y : A) → (key (f y) == key x) ≡ (key y == key x)
      ap_key y = rw (h y)

  pub All-append {κ} :
      (P : A → Type κ) (xs : List A) (x : A) → All P xs → P x → All P (xs ++ x ∷ [])
  All-append P [] x h p = (p, tt)
  All-append P (y ∷ ys) x h p = (h.0, All-append P ys x h.1 p)

  pub All-update {κ} :
      (P : A → Type κ) (p : A → Bool) (f : A → A) (xs : List A)
      → ((x : A) → p x ≡ true → P x → P (f x))
      → All P xs
      → All P (update p f xs)
  All-update P p f [] h a = tt
  All-update P p f (x ∷ xs) h a = (step (p x) refl, All-update P p f xs h a.1)
    where
      step : (b : Bool) → p x ≡ b → P (if b then f x else x)
      step true e = h x e a.0
      step false e = a.0

  find_head :
      (p : A → Bool) (y : A) (ys : List A) {x : A}
      → find p (y ∷ ys) ≡ some x
      → (y ≡ x) ⊎ (find p ys ≡ some x)
  find_head p y ys h = ground arith

  pub All-find {κ} :
      (P : A → Type κ) (p : A → Bool) (xs : List A) {x : A} → All P xs → find p xs ≡ some x → P x
  All-find P p [] a h = cc
  All-find P p (y ∷ ys) a h = elim (find_head p y ys h) [
    | inl e ↦ subst P e a.0
    | inr r ↦ All-find P p ys a.1 r
  ]

pub same_key : (a b : ℕ) → (a == b) ≡ true → a ≡ b
same_key a b h = ground arith

pub other_key : (a b : ℕ) → (a == b) ≡ false → (b == a) ≡ false
other_key a b h = ground arith

module _ {ℓ} {A : Type ℓ} where
  any_tail :
      (p : A → Bool) (x : A) (xs : List A)
      → any p (x ∷ xs) ≡ false
      → (p x ≡ false) × (any p xs ≡ false)
  any_tail p x xs h = ground arith

  find_hit :
      (p : A → Bool) (x : A) (xs : List A) {o : A} → p x ≡ true → find p (x ∷ xs) ≡ some o → x ≡ o
  find_hit p x xs h e = ground arith

  find_miss :
      (p : A → Bool) (x : A) (xs : List A) {o : A}
      → p x ≡ false
      → find p (x ∷ xs) ≡ some o
      → find p xs ≡ some o
  find_miss p x xs h e = ground arith

  any_at :
      (p q : A → Bool) (xs : List A) {o : A} → any q xs ≡ false → find p xs ≡ some o → q o ≡ false
  any_at p q [] h e = cc
  any_at p q (x ∷ xs) {o} h e = ground (arith, any_at p q xs {o = o})

  -- A row that any query finds is the one that the query by its key finds.
  pub find-key :
      (key : A → ℕ) (p : A → Bool) (xs : List A) {o : A}
      → Unique key xs
      → find p xs ≡ some o
      → find (λ x. key x == key o) xs ≡ some o
  find-key key p [] u e = cc
  find-key key p (x ∷ xs) {o} u e = elim (Bool-cases (p x)) [
    | inl hit ↦ let same : x ≡ o = find_hit p x xs hit e in ground arith
    | inr miss ↦
        let found = find_miss p x xs miss e in
        rw (other_key (key o) (key x) (any_at p (λ y. key y == key x) xs u.0 found))
          (find-key key p xs u.1 found)
  ]

module _ {ℓ κ κ'} {A : Type ℓ} (P : A → Type κ) (Q : A → Type κ') (key : A → ℕ) (k : ℕ)
    (f : A → A) where
  All-update_none :
      (xs : List A)
      → any (λ x. key x == k) xs ≡ false
      → ((x : A) → (key x == k) ≡ false → P x → Q x)
      → All P xs
      → All Q (update (λ x. key x == k) f xs)
  All-update_none [] h other a = tt
  All-update_none (x ∷ xs) h other a =
      let (e, rest) = any_tail (λ y. key y == k) x xs h in
      rw e (other x e a.0, All-update_none xs rest other a.1)

  -- An update of the one row with a key turns `P` of all rows into `Q` of all rows.
  pub All-update_found :
      (xs : List A) {o : A}
      → Unique key xs
      → find (λ x. key x == k) xs ≡ some o
      → ((x : A) → (key x == k) ≡ false → P x → Q x)
      → (P o → Q (f o))
      → All P xs
      → All Q (update (λ x. key x == k) f xs)
  All-update_found [] u h other here a = cc
  All-update_found (x ∷ xs) u h other here a = elim (Bool-cases (key x == k)) [
    | inl e ↦ rw e (
      subst (λ y. P y → Q (f y)) (sym (find_hit (λ y. key y == k) x xs e h)) here a.0,
      All-update_none xs (subst (λ j. any (λ y. key y == j) xs ≡ false) (same_key (key x) k e) u.0)
          other a.1,
    )
    | inr e ↦ rw e (
      other x e a.0,
      All-update_found xs u.1 (find_miss (λ y. key y == k) x xs e h) other here a.1,
    )
  ]
