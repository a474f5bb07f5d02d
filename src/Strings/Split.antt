-- ===== src/Strings/Split.antt =====
-- Splitting a text at a byte, and joining the parts.
use mathlib.Core.List.{append-nil}
use real_time_chat_app.Base.{
  ℕ, false, List, [], ◌∷◌, ◌++◌, ◌==◌, ==_refl, Text, ◌≡◌, ◌≢◌, refl, ◌∙◌, arith, ap, Bool-cases,
  inl, inr,
}
use real_time_chat_app.Strings.{put_front, split, behind, join, has_byte}

-- No part holds the byte.
abbrev pub AllLack : ℕ → List Text → Type 0
AllLack b [] = Unit {0}
AllLack b (part ∷ parts) = (has_byte b part ≡ false) × AllLack b parts

put_front-AllLack :
    (b c : ℕ) (parts : List Text)
    → (c == b) ≡ false
    → AllLack b parts
    → AllLack b (put_front c parts)
unfolding has_byte
put_front-AllLack b c [] h a = (ground arith, tt)
put_front-AllLack b c (part ∷ parts) h (lack, a) = (ground arith, a)

pub split-AllLack : (b : ℕ) (s : Text) → AllLack b (split b s)
unfolding split has_byte
split-AllLack b [] = (refl, tt)
split-AllLack b (c ∷ s) = elim (Bool-cases (c == b)) [
  | inl cut ↦ rw cut (refl, split-AllLack b s)
  | inr kept ↦ rw kept (put_front-AllLack b c (split b s) kept (split-AllLack b s))
]

split-ne-nil : (b : ℕ) (s : Text) → split b s ≢ []
unfolding split
split-ne-nil b [] = λ h. cc
split-ne-nil b (c ∷ s) = ground (arith, split-ne-nil b s)

-- A part without the byte, before the byte or the end.
split_part :
    (b : ℕ) (part rest : Text)
    → has_byte b part ≡ false
    → split b (part ++ (b ∷ rest)) ≡ part ∷ split b rest
unfolding split has_byte
split_part b [] rest lack = rw (==_refl b) refl
split_part b (c ∷ part) rest lack = ground (arith, split_part b part rest)

split_last : (b : ℕ) (part : Text) → has_byte b part ≡ false → split b part ≡ part ∷ []
unfolding split has_byte
split_last b [] lack = refl
split_last b (c ∷ part) lack = ground (arith, split_last b part)

split-behind :
    (b : ℕ) (part : Text) (parts : List Text)
    → has_byte b part ≡ false
    → AllLack b parts
    → split b (part ++ behind (b ∷ []) parts) ≡ part ∷ parts
split-behind b part [] lack all = rw append-nil (split_last b part lack)
split-behind b part (next ∷ parts) lack (lack', all) =
    split_part b part _ lack
    ∙ ap (λ (rest : List Text). part ∷ rest) (split-behind b next parts lack' all)

-- Splitting a join gives the parts back.
pub split-join :
    (b : ℕ) (parts : List Text)
    → parts ≢ []
    → AllLack b parts
    → split b (join (b ∷ []) parts) ≡ parts
unfolding join
split-join b [] h all = absurd (h refl)
split-join b (part ∷ parts) h (lack, all) = split-behind b part parts lack all
