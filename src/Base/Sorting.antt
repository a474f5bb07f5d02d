-- ===== src/Base/Sorting.antt =====
-- The insertion sort that stands for `ORDER BY`, its order and its elements; a prefix of a list and
-- the rest.
use Prim.Native.Nat.{ℕ, zero, suc, min}
use mathlib.Core.Path.{◌≡◌, refl, ap, ◌∙◌}
use mathlib.Core.Logic.{inl, inr}
use mathlib.Core.Logic.Or
use mathlib.Core.Bool.{Bool, true, false, Bool-set}
use mathlib.Core.List.{
  List, [], ◌∷◌, ◌++◌, Perm, Pairwise, eq-or-mem_of_mem-cons, Pairwise-cons, not-mem-nil, reverse,
  reverse-cons,
}
use mathlib.Core.List.Perm
use native.Mathlib.Omega.{arith}
use real_time_chat_app.Base.Tests.{Bool-cases}
use real_time_chat_app.Base.Lists.{length, length-append, take, insert_sorted, sort}

module _ {A : Type 0} where
  pub take-rest : (n : ℕ) (xs : List A) → (rest : List A) × (take n xs ++ rest ≡ xs)
  take-rest zero xs = (xs, refl)
  take-rest (suc n) [] = ([], refl)
  take-rest (suc n) (x ∷ xs) =
      let (rest, e) = take-rest n xs in (rest, ap (λ (ys : List A). x ∷ ys) e)

  pub length-take : (n : ℕ) (xs : List A) → length (take n xs) ≡ min n (length xs)
  length-take zero xs = omega arith
  length-take (suc n) [] = omega arith
  length-take (suc n) (x ∷ xs) = omega (arith, length-take n xs)

  pub length-reverse : (xs : List A) → length (reverse xs) ≡ length xs
  length-reverse [] = refl
  length-reverse (x ∷ xs) =
      ap (λ (ys : List A). length ys) (reverse-cons x xs)
      ∙ omega (arith, length-append (reverse xs) (x ∷ []), length-reverse xs)

module _ {A : Type 0} (before : A → A → Bool) where
  insert_sorted-Perm : (x : A) (ys : List A) → Perm (insert_sorted before x ys) (x ∷ ys)
  unfolding insert_sorted
  insert_sorted-Perm x [] = Perm.refl (x ∷ [])
  insert_sorted-Perm x (y ∷ ys) = elim (Bool-cases (before x y)) [
    | inl first ↦ rw first (Perm.refl (x ∷ y ∷ ys))
    | inr later ↦ rw later (Perm.trans (Perm.cons y (insert_sorted-Perm x ys)) (Perm.swap x y ys))
  ]

  pub sort-Perm : (xs : List A) → Perm (sort before xs) xs
  unfolding sort
  sort-Perm [] = Perm.refl []
  sort-Perm (x ∷ xs) =
      Perm.trans (insert_sorted-Perm x (sort before xs)) (Perm.cons x (sort-Perm xs))

  length-insert_sorted :
      (x : A) (ys : List A) → length (insert_sorted before x ys) ≡ suc (length ys)
  unfolding insert_sorted
  length-insert_sorted x [] = refl
  length-insert_sorted x (y ∷ ys) = ground (arith, length-insert_sorted x ys)

  pub length-sort : (xs : List A) → length (sort before xs) ≡ length xs
  unfolding sort
  length-sort [] = refl
  length-sort (x ∷ xs) = ground (arith, length-insert_sorted x (sort before xs), length-sort xs)

  abbrev pub Comes : A → A → Type 0
  Comes a b = before a b ≡ true

  module _ (total : (a b : A) → before a b ≡ false → before b a ≡ true)
      (trans : (a b c : A) → before a b ≡ true → before b c ≡ true → before a c ≡ true) where
    insert_sorted-Pairwise :
        (x : A) (ys : List A) → Pairwise Comes ys → Pairwise Comes (insert_sorted before x ys)
    unfolding insert_sorted
    insert_sorted-Pairwise x [] p = Pairwise.cons (λ a m. absurd (not-mem-nil m)) p
    insert_sorted-Pairwise x (y ∷ ys) p =
        let (below, q) = Pairwise-cons.0 p in
        elim (Bool-cases (before x y)) [
          | inl first ↦ rw first (
              Pairwise.cons
                (λ a m.
                  Or.elim (Bool-set (before x a) true) (eq-or-mem_of_mem-cons m) (λ e. rw e first)
                    (λ m'. trans x y a first (below a m')))
                p)
          | inr later ↦ rw later (
              Pairwise.cons
                (λ a m.
                  Or.elim (Bool-set (before y a) true)
                    (eq-or-mem_of_mem-cons ((Perm.mem_iff (insert_sorted-Perm x ys)).0 m))
                    (λ e. rw e (total x y later)) (λ m'. below a m'))
                (insert_sorted-Pairwise x ys q))
        ]

    pub sort-Pairwise : (xs : List A) → Pairwise Comes (sort before xs)
    unfolding sort
    sort-Pairwise [] = Pairwise.nil
    sort-Pairwise (x ∷ xs) = insert_sorted-Pairwise x (sort before xs) (sort-Pairwise xs)
