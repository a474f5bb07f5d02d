-- ===== src/TrimSpace.antt =====
-- Go's `strings.TrimSpace` on the bytes of a string: it cuts the white space of Unicode, in UTF-8,
-- at both ends.
use real_time_chat_app.Base.{ℕ, Bool, ◌&&◌, ◌||◌, [], ◌∷◌, ◌==◌, leb, if◌then◌else◌, Text}
use mathlib.Core.List.{reverse}

-- U+0020 and U+0009 to U+000D.
abbrev pub is_ascii_space : ℕ → Bool
is_ascii_space a = a == 0x20 || leb 0x09 a && leb a 0x0d

-- U+0085 and U+00A0.
abbrev pub is_space_pair : ℕ → ℕ → Bool
is_space_pair a b = a == 0xc2 && (b == 0x85 || b == 0xa0)

-- U+1680, U+2000 to U+200A, U+2028, U+2029, U+202F, U+205F and U+3000.
abbrev pub is_space_triple : ℕ → ℕ → ℕ → Bool
is_space_triple a b c =
    a == 0xe1 && b == 0x9a && c == 0x80
    || a == 0xe2 && b == 0x80 && (leb 0x80 c && leb c 0x8a || c == 0xa8 || c == 0xa9 || c == 0xaf)
    || a == 0xe2 && b == 0x81 && c == 0x9f
    || a == 0xe3 && b == 0x80 && c == 0x80

-- What follows the white space at the front.
unfoldable pub trim_left : Text → Text
trim_left [] = []
trim_left (a ∷ []) = if is_ascii_space a then [] else a ∷ []
trim_left (a ∷ b ∷ []) =
    if is_ascii_space a then trim_left (b ∷ []) else if is_space_pair a b then [] else a ∷ b ∷ []
trim_left (a ∷ b ∷ c ∷ s) =
    let past_one = trim_left (b ∷ c ∷ s) in
    let past_two = trim_left (c ∷ s) in
    let past_three = trim_left s in
    if is_ascii_space a
    then past_one
    else if is_space_pair a b
    then past_two
    else if is_space_triple a b c
    then past_three
    else a ∷ b ∷ c ∷ s

-- The same on a reversed text, whose runes have their bytes in reverse.
unfoldable pub trim_reversed : Text → Text
trim_reversed [] = []
trim_reversed (a ∷ []) = if is_ascii_space a then [] else a ∷ []
trim_reversed (a ∷ b ∷ []) =
    if is_ascii_space a
    then trim_reversed (b ∷ [])
    else if is_space_pair b a
    then []
    else a ∷ b ∷ []
trim_reversed (a ∷ b ∷ c ∷ s) =
    let past_one = trim_reversed (b ∷ c ∷ s) in
    let past_two = trim_reversed (c ∷ s) in
    let past_three = trim_reversed s in
    if is_ascii_space a
    then past_one
    else if is_space_pair b a
    then past_two
    else if is_space_triple c b a
    then past_three
    else a ∷ b ∷ c ∷ s

unfoldable pub trim_space : Text → Text
unfolding trim_left trim_reversed
trim_space s = reverse (trim_reversed (reverse (trim_left s)))
