-- ===== src/Base/Lists.antt =====
-- Lists measured by native numbers, and searched, updated and filtered by a Boolean test.
use Prim.Native.Nat.{ℕ, zero, suc, ◌+◌}
use mathlib.Core.Path.{◌≡◌, refl}
use mathlib.Core.Bool.{Bool, true, false}
use mathlib.Core.Option.{Option, none, some}
use mathlib.Core.List.{List, [], ◌∷◌, ◌++◌}
use native.Mathlib.Omega.{arith}
use real_time_chat_app.Base.Tests.{if◌then◌else◌}

module _ {ℓ} {A : Type ℓ} where
  abbrev pub length : List A → ℕ
  length [] = 0
  length (x ∷ xs) = suc (length xs)

  abbrev pub take : ℕ → List A → List A
  take zero xs = []
  take (suc n) [] = []
  take (suc n) (x ∷ xs) = x ∷ take n xs

  pub length-append : (xs ys : List A) → length (xs ++ ys) ≡ length xs + length ys
  length-append [] ys = omega arith
  length-append (x ∷ xs) ys = omega (arith, length-append xs ys)

  -- The first element that passes the test.
  unfoldable pub find : (A → Bool) → List A → Option A
  find p [] = none
  find p (x ∷ xs) = if p x then some x else find p xs

  unfoldable pub filter : (A → Bool) → List A → List A
  filter p [] = []
  filter p (x ∷ xs) = let rest = filter p xs in if p x then x ∷ rest else rest

  -- `f` on the elements that pass the test.
  unfoldable pub update : (A → Bool) → (A → A) → List A → List A
  update q f [] = []
  update q f (x ∷ xs) = (if q x then f x else x) ∷ update q f xs

  pub find-append_one :
      (p : A → Bool) (xs : List A) (y : A)
      → find p (xs ++ y ∷ [])
        ≡ elim (find p xs) [ some x ↦ some x | none ↦ if p y then some y else none ]
  unfolding find
  find-append_one p [] y = ground arith
  find-append_one p (x ∷ xs) y = ground (arith, find-append_one p xs y)

  pub find-true : (p : A → Bool) (xs : List A) (x : A) → find p xs ≡ some x → p x ≡ true
  unfolding find
  find-true p [] x h = cc
  find-true p (y ∷ xs) x h = ground (arith, find-true p xs x)

  -- What one search finds does not pass the test of a search that finds nothing.
  pub find-none :
      (p q : A → Bool) (xs : List A) (x : A) → find p xs ≡ none → find q xs ≡ some x → p x ≡ false
  unfolding find
  find-none p q [] x missing found = cc
  find-none p q (y ∷ xs) x missing found = ground (arith, find-none p q xs x)

  pub find-filter_keep :
      (p q : A → Bool) (xs : List A)
      → ((x : A) → p x ≡ true → q x ≡ true)
      → find p (filter q xs) ≡ find p xs
  unfolding find filter
  find-filter_keep p q [] h = refl
  find-filter_keep p q (x ∷ xs) h = ground (arith, h x, find-filter_keep p q xs h)

  pub find-filter_drop :
      (p q : A → Bool) (xs : List A)
      → ((x : A) → p x ≡ true → q x ≡ false)
      → find p (filter q xs) ≡ none
  unfolding find filter
  find-filter_drop p q [] h = refl
  find-filter_drop p q (x ∷ xs) h = ground (arith, h x, find-filter_drop p q xs h)

  abbrev pub touched : (A → Bool) → (A → A) → Option A → Option A
  touched q f none = none
  touched q f (some x) = some (if q x then f x else x)

  -- An update that leaves the search's test alone commutes with the search.
  pub find-update :
      (p q : A → Bool) (f : A → A) (xs : List A)
      → ((x : A) → p (f x) ≡ p x)
      → find p (update q f xs) ≡ touched q f (find p xs)
  unfolding find update
  find-update p q f [] h = refl
  find-update p q f (x ∷ xs) h = ground (arith, h x, find-update p q f xs h)

module _ {ℓ} {A : Type ℓ} where
  abbrev pub is_some : Option A → Bool
  is_some none = false
  is_some (some x) = true

  -- Insertion sort: `before x y` says that `x` may stand before `y`.
  unfoldable pub insert_sorted : (A → A → Bool) → A → List A → List A
  insert_sorted before x [] = x ∷ []
  insert_sorted before x (y ∷ ys) = if before x y then x ∷ y ∷ ys else y ∷ insert_sorted before x ys

  unfoldable pub sort : (A → A → Bool) → List A → List A
  unfolding insert_sorted
  sort before [] = []
  sort before (x ∷ xs) = insert_sorted before x (sort before xs)

  -- The defined results of `f`, in order.
  unfoldable pub filter_map {κ} : {B : Type κ} → (A → Option B) → List A → List B
  filter_map f [] = []
  filter_map f (x ∷ xs) =
      let rest = filter_map f xs in elim (f x) [ none ↦ rest | some y ↦ y ∷ rest ]
