-- ===== src/Strings.antt =====
-- Functions of Go's packages strings and slices, on the bytes of strings.
pub mod Split
use real_time_chat_app.TrimSpace.{is_ascii_space, is_space_pair, is_space_triple}
use real_time_chat_app.Base.{
  ℕ, ◌+◌, Bool, true, false, ◌&&◌, ◌||◌, List, [], ◌∷◌, ◌++◌, ◌==◌, leb, if◌then◌else◌, Text,
  text_eq, length,
}

abbrev pub put_front : ℕ → List Text → List Text
put_front c [] = (c ∷ []) ∷ []
put_front c (part ∷ parts) = (c ∷ part) ∷ parts

-- `strings.Split` at a separator of one byte.
unfoldable pub split : ℕ → Text → List Text
split sep [] = [] ∷ []
split sep (c ∷ s) = let parts = split sep s in if c == sep then [] ∷ parts else put_front c parts

abbrev pub behind : Text → List Text → Text
behind sep [] = []
behind sep (part ∷ parts) = sep ++ (part ++ behind sep parts)

-- `strings.Join`
unfoldable pub join : Text → List Text → Text
join sep [] = []
join sep (part ∷ parts) = part ++ behind sep parts

-- `strings.Contains` with one byte.
unfoldable pub has_byte : ℕ → Text → Bool
has_byte b [] = false
has_byte b (c ∷ s) = c == b || has_byte b s

-- `slices.Contains`
unfoldable pub contains : Text → List Text → Bool
contains name [] = false
contains name (n ∷ names) = if text_eq n name then true else contains name names

abbrev pub flushed : Text → List Text → List Text
flushed [] parts = parts
flushed (c ∷ cur) parts = (c ∷ cur) ∷ parts

-- The fields of a text behind the bytes of a field that has begun.
unfoldable pub fields_from : Text → Text → List Text
fields_from cur [] = flushed cur []
fields_from cur (a ∷ []) = if is_ascii_space a then flushed cur [] else (cur ++ a ∷ []) ∷ []
fields_from cur (a ∷ b ∷ []) =
    let past_one = flushed cur (fields_from [] (b ∷ [])) in
    let on = fields_from (cur ++ a ∷ []) (b ∷ []) in
    if is_ascii_space a then past_one else if is_space_pair a b then flushed cur [] else on
fields_from cur (a ∷ b ∷ c ∷ s) =
    let past_one = flushed cur (fields_from [] (b ∷ c ∷ s)) in
    let past_two = flushed cur (fields_from [] (c ∷ s)) in
    let past_three = flushed cur (fields_from [] s) in
    let on = fields_from (cur ++ a ∷ []) (b ∷ c ∷ s) in
    if is_ascii_space a
    then past_one
    else if is_space_pair a b
    then past_two
    else if is_space_triple a b c
    then past_three
    else on

-- `strings.Fields`
unfoldable pub fields : Text → List Text
unfolding fields_from
fields s = fields_from [] s

abbrev pub lower_byte : ℕ → ℕ
lower_byte c = if leb b'A' c && leb c b'Z' then c + 32 else c

-- `strings.EqualFold` with an ASCII text that has neither k nor s, which alone fold with others.
unfoldable pub equal_fold : Text → Text → Bool
equal_fold [] [] = true
equal_fold [] (b ∷ t) = false
equal_fold (a ∷ s) [] = false
equal_fold (a ∷ s) (b ∷ t) = (lower_byte a == lower_byte b) && equal_fold s t
