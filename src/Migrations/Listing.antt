-- ===== src/Migrations/Listing.antt =====
-- The order of the migration files in backend/internal/migrations/runner.go: `sort.Strings`.
use mathlib.Core.List.{foldr, Perm}
use mathlib.Core.List.Perm
use mathlib.Core.Path.{ap₂, fun_ext}
use real_time_chat_app.Base.{
  true, false, Option, List, [], ◌∷◌, if◌then◌else◌, Text, ◌≡◌, refl, arith, inl, inr, sym, ◌∙◌, ap,
  Bool-cases, sort, insert_sorted, map, filter,
}
use real_time_chat_app.Migrations.{
  Outcome, done, failed, migration_files, bad_pattern, Action, run_files, apply_pending, run,
  Server, ◌>>◌, ◌>>=◌, ensure_schema_migrations, continue,
}
use real_time_chat_app.Migrations.Paths.{Directory, text_le, matches, is_sql, join_path}

text_le_total : (s t : Text) → text_le s t ≡ false → text_le t s ≡ true
unfolding text_le
text_le_total [] t h = cc
text_le_total (a ∷ s) [] h = refl
text_le_total (a ∷ s) (b ∷ t) h = ground (arith, text_le_total s t)

text_le_trans : (s t u : Text) → text_le s t ≡ true → text_le t u ≡ true → text_le s u ≡ true
unfolding text_le
text_le_trans [] t u h k = refl
text_le_trans (a ∷ s) [] u h k = cc
text_le_trans (a ∷ s) (b ∷ t) [] h k = cc
text_le_trans (a ∷ s) (b ∷ t) (c ∷ u) h k = ground (arith, text_le_trans s t u)

text_le_antisym : (s t : Text) → text_le s t ≡ true → text_le t s ≡ true → s ≡ t
unfolding text_le
text_le_antisym [] [] h k = refl
text_le_antisym [] (b ∷ t) h k = cc
text_le_antisym (a ∷ s) [] h k = cc
text_le_antisym (a ∷ s) (b ∷ t) h k = ground (arith, text_le_antisym s t)

insert_comm :
    (x y : Text) (l : List Text)
    → insert_sorted text_le x (insert_sorted text_le y l)
      ≡ insert_sorted text_le y (insert_sorted text_le x l)
unfolding insert_sorted
insert_comm x y [] = ground (arith, text_le_total x y, text_le_antisym x y)
insert_comm x y (z ∷ l) = ground (
  arith,
  text_le_total x y,
  text_le_total y x,
  text_le_antisym x y,
  text_le_trans x y z,
  text_le_trans y x z,
  text_le_total x z,
  text_le_total y z,
  text_le_total z x,
  text_le_total z y,
  insert_comm x y l,
)

Texts-set : IsSet (List Text)
Texts-set = hlevel

module _ (d : Directory) where
  -- One name on the way into the sorted list of paths.
  listed : Text → List Text → List Text
  listed name files =
      if is_sql name then insert_sorted text_le (join_path d.path name) files else files

  listed_comm :
      (m n : Text) (files : List Text) → listed m (listed n files) ≡ listed n (listed m files)
  unfolding listed
  listed_comm m n files =
      ground (arith, insert_comm (join_path d.path m) (join_path d.path n) files)

  sort-foldr :
      (names : List Text)
      → sort text_le (map (join_path d.path) (filter is_sql names)) ≡ foldr listed [] names
  unfolding sort filter listed
  sort-foldr [] = refl
  sort-foldr (name ∷ names) = elim (Bool-cases (is_sql name)) [
    | inl yes_sql ↦
        rw yes_sql (ap (insert_sorted text_le (join_path d.path name)) (sort-foldr names))
    | inr not_sql ↦ rw not_sql (sort-foldr names)
  ]

  pub migration_files-perm :
      (entries : List Text)
      → Perm d.entries entries
      → migration_files d ≡ migration_files (record d { entries = entries })
  unfolding migration_files matches
  migration_files-perm entries p =
      ap (λ (files : List Text). if d.well_formed then done files else failed bad_pattern)
        (sort-foldr d.entries
          ∙ (Perm.foldr-eq Texts-set listed listed_comm p [] ∙ sym (sort-foldr entries)))

  module _ {Schema : Type 0} (exec : Text → Schema → Option Schema) (entries : List Text) where
    run_files-entries :
        (files : List Text)
        → run_files exec d files ≡ run_files exec (record d { entries = entries }) files
    unfolding run_files apply_pending
    run_files-entries [] = refl
    run_files-entries (file ∷ files) =
        ap (λ (rest : Action Schema (Unit {0})). apply_pending exec d file >> rest)
          (run_files-entries files)

    -- A run does the same, in whatever order the system lists the directory.
    pub run-perm :
        Perm d.entries entries
        → (s : Server Schema) → run exec d s ≡ run exec (record d { entries = entries }) s
    unfolding run
    run-perm p s =
        ap₂
          (λ (m : Outcome (List Text)) (g : List Text → Action Schema (Unit {0})).
            (ensure_schema_migrations >>= λ _ s'. continue g (m, s')) s)
          (migration_files-perm entries p) (fun_ext run_files-entries)
