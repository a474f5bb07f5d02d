-- ===== src/Router/Bearer.antt =====
-- `bearerToken` of backend/internal/middleware/auth.go on a header as clients write it.
use real_time_chat_app.Base.{
  ℕ, ◌≤◌, ◌≡◌, ◌≢◌, refl, sym, ◌∙◌, ap, true, false, List, [], ◌∷◌, ◌++◌, Text, codes, arith,
}
use mathlib.Core.List.{append_assoc, append-nil}
use real_time_chat_app.TrimSpace.{is_ascii_space, is_space_pair, is_space_triple}
use real_time_chat_app.Strings.{fields, fields_from, flushed, equal_fold}
use real_time_chat_app.Router.{bearer_token}

-- Printable ASCII without the space.
abbrev pub AllVisible : Text → Type 0
AllVisible [] = Unit {0}
AllVisible (a ∷ s) = (0x21 ≤ a) × (a ≤ 0x7e) × AllVisible s

visible_lem :
    (a b c : ℕ)
    → 0x21 ≤ a
    → a ≤ 0x7e
    → (is_ascii_space a ≡ false) × (is_space_pair a b ≡ false) × (is_space_triple a b c ≡ false)
visible_lem a b c low high = (ground arith, ground arith, ground arith)

flushed_cons :
    (cur : Text) (a : ℕ) (s : Text) (parts : List Text)
    → flushed (cur ++ (a ∷ s)) parts ≡ (cur ++ (a ∷ s)) ∷ parts
flushed_cons [] a s parts = refl
flushed_cons (c ∷ cur) a s parts = refl

fields_from-cons :
    (cur : Text) (a : ℕ) (s : Text)
    → 0x21 ≤ a
    → a ≤ 0x7e
    → fields_from cur (a ∷ s) ≡ fields_from (cur ++ a ∷ []) s
unfolding fields_from
fields_from-cons cur a [] low high =
    rw (visible_lem a 0 0 low high).0 (sym (flushed_cons cur a [] []))
fields_from-cons cur a (b ∷ []) low high =
    let (ascii, pair, _) = visible_lem a b 0 low high in rw (ascii, pair) refl
fields_from-cons cur a (b ∷ c ∷ s) low high =
    let (ascii, pair, triple) = visible_lem a b c low high in rw (ascii, pair, triple) refl

-- A run of visible bytes goes to the field.
fields_from-append :
    (cur part rest : Text)
    → AllVisible part
    → fields_from cur (part ++ rest) ≡ fields_from (cur ++ part) rest
fields_from-append cur [] rest v = ap (λ (t : Text). fields_from t rest) (sym (append-nil cur))
fields_from-append cur (a ∷ part) rest (low, high, v) =
    fields_from-cons cur a (part ++ rest) low high
    ∙ (fields_from-append (cur ++ a ∷ []) part rest v
        ∙ ap (λ (t : Text). fields_from t rest) (append_assoc cur (a ∷ []) part))

fields_from-space :
    (cur rest : Text) → fields_from cur (0x20 ∷ rest) ≡ flushed cur (fields_from [] rest)
unfolding fields_from
fields_from-space cur [] = refl
fields_from-space cur (b ∷ []) = refl
fields_from-space cur (b ∷ c ∷ s) = refl

fields_from-end : (cur : Text) → fields_from cur [] ≡ flushed cur []
unfolding fields_from
fields_from-end cur = refl

-- The scheme in any case, one space and a token of visible ASCII bytes: the token is what is found.
pub bearer_token-append :
    (scheme token : Text)
    → AllVisible scheme
    → equal_fold scheme (codes "Bearer") ≡ true
    → AllVisible token
    → token ≢ []
    → bearer_token (scheme ++ (0x20 ∷ token)) ≡ token
unfolding bearer_token
bearer_token-append [] token s folds v full = unfold equal_fold in cc
bearer_token-append (a ∷ scheme) [] s folds v full = absurd (full refl)
bearer_token-append (a ∷ scheme) (b ∷ token) s folds v full =
    let parts : fields ((a ∷ scheme) ++ (0x20 ∷ b ∷ token)) ≡ (a ∷ scheme) ∷ (b ∷ token) ∷ [] =
      fields_from-append [] (a ∷ scheme) (0x20 ∷ b ∷ token) s
      ∙ (fields_from-space (a ∷ scheme) (b ∷ token)
          ∙ ap (λ (ps : List Text). (a ∷ scheme) ∷ ps)
              (ap (λ (t : Text). fields_from [] t) (sym (append-nil (b ∷ token)))
                ∙ (fields_from-append [] (b ∷ token) [] v ∙ fields_from-end (b ∷ token)))) in
    rw (parts, folds) refl
