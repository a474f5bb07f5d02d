-- ===== src/Repository/Reverse.antt =====
-- The loop of `reverseMessages` in backend/internal/repositories/message_repository.go, as two
-- stretches in place and one between them.
use real_time_chat_app.Base.{
  ℕ, zero, suc, ◌+◌, ◌-◌, ◌≤◌, ◌≡◌, refl, sym, ap, ◌∙◌, List, [], ◌∷◌, ◌++◌, ltb, arith, length,
  length-append, true, false,
}
use mathlib.Core.List.{reverse, reverse-append, reverse-cons, append_assoc, append-nil}
use real_time_chat_app.Repository.Messages.{get_or, set, swap}
use real_time_chat_app.Repository.Pages.{reverse_loop, reverse_messages}

module _ {ℓ} {A : Type ℓ} where
  get_or-append : (pre post : List A) (x d : A) → get_or (pre ++ x ∷ post) (length pre) d ≡ x
  unfolding get_or
  get_or-append [] post x d = refl
  get_or-append (y ∷ ys) post x d = get_or-append ys post x d

  set-append :
      (pre post : List A) (x v : A) → set (pre ++ x ∷ post) (length pre) v ≡ pre ++ v ∷ post
  unfolding set
  set-append [] post x v = refl
  set-append (y ∷ ys) post x v = ap (λ (zs : List A). y ∷ zs) (set-append ys post x v)

  swap-set :
      (xs : List A) (left right : ℕ) (a b : A)
      → ((d : A) → get_or xs left d ≡ a)
      → ((d : A) → get_or xs right d ≡ b)
      → swap xs left right ≡ set (set xs left b) right a
  unfolding swap set
  swap-set [] left right a b at_left at_right = refl
  swap-set (x ∷ xs) left right a b at_left at_right = rw (at_left x, at_right x) refl

  -- A stretch between two others.
  abbrev within : List A → A → List A → A → List A → List A
  within pre a mid b post = pre ++ (a ∷ (mid ++ b ∷ post))

  regroup :
      (pre mid post : List A) (a b : A) → (pre ++ a ∷ mid) ++ b ∷ post ≡ within pre a mid b post
  regroup pre mid post a b = append_assoc pre (a ∷ mid) (b ∷ post)

  -- The ends of a stretch change places.
  swap-ends :
      (pre mid post : List A) (a b : A) (right : ℕ)
      → right ≡ length pre + suc (length mid)
      → swap (within pre a mid b post) (length pre) right ≡ within pre b mid a post
  swap-ends pre mid post a b right at =
      let place : (x : A) → right ≡ length (pre ++ x ∷ mid) =
        λ x. at ∙ sym (length-append pre (x ∷ mid)) in
      swap-set (within pre a mid b post) (length pre) right a b
        (λ d. get_or-append pre (mid ++ b ∷ post) a d)
        (λ d.
          rw (sym (regroup pre mid post a b), place a) (get_or-append (pre ++ a ∷ mid) post b d))
      ∙ ap (λ (xs : List A). set xs right a) (set-append pre (mid ++ b ∷ post) a b)
      ∙ rw (sym (regroup pre mid post b b), place b)
          (set-append (pre ++ b ∷ mid) post b a ∙ regroup pre mid post b a)

  -- A list by its two ends.
  data Ends : List A → Type ℓ where
    none_left : Ends []
    one_left : (a : A) → Ends (a ∷ [])
    both_left : (a : A) (mid : List A) (b : A) → Ends (a ∷ (mid ++ b ∷ []))

  Ends-cons : (a : A) (xs : List A) → Ends xs → Ends (a ∷ xs)
  Ends-cons a _ none_left = one_left a
  Ends-cons a _ (one_left b) = both_left a [] b
  Ends-cons a _ (both_left b mid c) = both_left a (b ∷ mid) c

  ends : (xs : List A) → Ends xs
  ends [] = none_left
  ends (x ∷ xs) = Ends-cons x xs (ends xs)

  reverse-ends :
      (a b : A) (mid : List A) → reverse (a ∷ (mid ++ b ∷ [])) ≡ b ∷ (reverse mid ++ a ∷ [])
  reverse-ends a b mid =
      reverse-cons a (mid ++ b ∷ [])
      ∙ ap (λ (xs : List A). xs ++ a ∷ []) (reverse-append mid (b ∷ []))

  pass_end : (pre xs : List A) (b : A) → pre ++ (b ∷ xs) ≡ (pre ++ b ∷ []) ++ xs
  pass_end pre xs b = sym (append_assoc pre (b ∷ []) xs)

  length-pass_end : (pre : List A) (b : A) → length pre + 1 ≡ length (pre ++ b ∷ [])
  length-pass_end pre b = sym (length-append pre (b ∷ []))

  reversed_ends :
      (pre mid post : List A) (a b : A)
      → (pre ++ b ∷ []) ++ (reverse mid ++ (a ∷ post))
        ≡ pre ++ (reverse (a ∷ (mid ++ b ∷ [])) ++ post)
  reversed_ends pre mid post a b =
      sym (pass_end pre (reverse mid ++ (a ∷ post)) b)
      ∙ ap (λ (xs : List A). pre ++ (b ∷ xs)) (pass_end (reverse mid) post a)
      ∙ ap (λ (xs : List A). pre ++ (xs ++ post)) (sym (reverse-ends a b mid))

  -- A round of the loop, and what the rounds after it do.
  round-reverse :
      (fuel : ℕ) (pre mid post : List A) (right : ℕ) (a b : A)
      → right ≡ length pre + suc (length mid)
      → reverse_loop fuel
          ((pre ++ b ∷ []) ++ (mid ++ (a ∷ post)))
          (length (pre ++ b ∷ []))
          (right - 1)
        ≡ (pre ++ b ∷ []) ++ (reverse mid ++ (a ∷ post))
      → reverse_loop fuel
          (swap (pre ++ (a ∷ ((mid ++ b ∷ []) ++ post))) (length pre) right)
          (length pre + 1)
          (right - 1)
        ≡ pre ++ (reverse (a ∷ (mid ++ b ∷ [])) ++ post)
  round-reverse fuel pre mid post right a b at rest =
      ap
        (λ (xs : List A).
          reverse_loop fuel (swap (pre ++ (a ∷ xs)) (length pre) right) (length pre + 1)
            (right - 1))
        (sym (pass_end mid post b))
      ∙ ap (λ (xs : List A). reverse_loop fuel xs (length pre + 1) (right - 1))
          (swap-ends pre mid post a b right at ∙ pass_end pre (mid ++ (a ∷ post)) b)
      ∙ ap (λ (n : ℕ). reverse_loop fuel ((pre ++ b ∷ []) ++ (mid ++ (a ∷ post))) n (right - 1))
          (length-pass_end pre b)
      ∙ rest
      ∙ reversed_ends pre mid post a b

  reverse_loop-reverse :
      (fuel : ℕ) (pre mid post : List A) (right : ℕ)
      → length mid ≤ fuel
      → right ≡ length pre + length mid - 1
      → Ends mid
      → reverse_loop fuel (pre ++ (mid ++ post)) (length pre) right ≡ pre ++ (reverse mid ++ post)
  unfolding reverse_loop
  reverse_loop-reverse zero pre _ post right enough at none_left = refl
  reverse_loop-reverse zero pre _ post right enough at (one_left a) = refl
  reverse_loop-reverse zero pre _ post right enough at (both_left a mid b) = ground arith
  reverse_loop-reverse (suc fuel) pre _ post right enough at none_left =
      let stop : ltb (length pre) right ≡ false = ground arith in rw stop refl
  reverse_loop-reverse (suc fuel) pre _ post right enough at (one_left a) =
      let stop : ltb (length pre) right ≡ false = ground arith in rw stop refl
  reverse_loop-reverse (suc fuel) pre _ post right enough at (both_left a mid b) =
      let size = length-append mid (b ∷ []) in
      let go : ltb (length pre) right ≡ true = ground (arith, size) in
      rw go (
        round-reverse fuel pre mid post right a b (ground (arith, size)) (
          reverse_loop-reverse fuel (pre ++ b ∷ []) mid (a ∷ post) (right - 1)
            (ground (arith, size)) (ground (arith, size, length-append pre (b ∷ []))) (ends mid)))

  -- The loop on indices that swaps the ends reverses every list.
  pub reverse_messages-reverse : (xs : List A) → reverse_messages xs ≡ reverse xs
  unfolding reverse_messages
  reverse_messages-reverse xs =
      ap (λ (ys : List A). reverse_loop (length xs) ys 0 (length xs - 1)) (sym (append-nil xs))
      ∙ reverse_loop-reverse (length xs) [] xs [] (length xs - 1) (omega arith) (omega arith)
          (ends xs)
      ∙ append-nil (reverse xs)
