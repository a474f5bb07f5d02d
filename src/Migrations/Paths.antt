-- ===== src/Migrations/Paths.antt =====
-- What backend/internal/migrations/runner.go takes of the packages path/filepath, os and sort, on a
-- directory whose path is clean.
use mathlib.Core.List.{reverse, List}
use real_time_chat_app.Base.{
  Bool, true, false, ◌&&◌, ◌||◌, ◌==◌, ltb, Option, [], ◌∷◌, ◌++◌, map, filter, if◌then◌else◌, Text,
  codes, text_eq,
}

-- `well_formed` says whether the pattern of the directory is one; `entries` are the names in it, in
-- any order, and `read` is `os.ReadFile`.
pub record Directory : Type 0 where
  pub path : Text
  pub well_formed : Bool
  pub entries : List Text
  pub read : Text → Option Text

-- `<=` on strings, by bytes.
unfoldable pub text_le : Text → Text → Bool
text_le [] t = true
text_le (a ∷ s) [] = false
text_le (a ∷ s) (b ∷ t) = ltb a b || a == b && text_le s t

unfoldable pub has_prefix : Text → Text → Bool
has_prefix [] t = true
has_prefix (a ∷ s) [] = false
has_prefix (a ∷ s) (b ∷ t) = (a == b) && has_prefix s t

-- The names that match `*.sql`.
unfoldable pub is_sql : Text → Bool
unfolding has_prefix
is_sql name = has_prefix (reverse (codes ".sql")) (reverse name)

-- `filepath.Join`
unfoldable pub join_path : Text → Text → Text
unfolding text_eq
join_path dir name = if text_eq dir [] then name else dir ++ (b'/' ∷ name)

-- `filepath.Glob`
unfoldable pub matches : Directory → List Text
unfolding is_sql join_path filter
matches d = map (join_path d.path) (filter is_sql d.entries)

unfoldable pub skip_slashes : Text → Text
skip_slashes [] = []
skip_slashes (c ∷ s) = let rest = skip_slashes s in if c == b'/' then rest else c ∷ s

unfoldable pub up_to_slash : Text → Text
up_to_slash [] = []
up_to_slash (c ∷ s) = let rest = up_to_slash s in if c == b'/' then [] else c ∷ rest

abbrev pub or_slash : Text → Text
or_slash [] = codes "/"
or_slash (c ∷ s) = c ∷ s

-- `filepath.Base`
unfoldable pub base : Text → Text
unfolding skip_slashes up_to_slash
base [] = codes "."
base (c ∷ s) = or_slash (reverse (up_to_slash (skip_slashes (reverse (c ∷ s)))))
