-- ===== src/Migrations/Runs.antt =====
-- The runs of backend/internal/migrations/runner.go, interrupted or not, against what they are to do.
use real_time_chat_app.Base.{
  Bool, true, false, Option, List, [], ◌∷◌, ◌++◌, Text, ◌≡◌, refl, inl, inr, sym, ◌∙◌, ap,
}
use real_time_chat_app.Migrations.{
  Outcome, done, failed, Failure, unavailable, Tables, Server, apply_pending,
  ensure_schema_migrations, statement, migration_files, run_files, run, continue,
}
use real_time_chat_app.Migrations.Paths.{Directory}
use real_time_chat_app.Migrations.Replay.{
  View, view, HasTable, Whole, migrate_one, replay, apply_pending-Whole,
}

module _ {Schema : Type 0} (exec : Text → Schema → Option Schema) (d : Directory) where
  -- A run over `files` from `v` has done the first of them, all where it succeeded.
  pub record Stopped (files : List Text) (v : View Schema) (r : Outcome (Unit {0}) × Server Schema)
      : Type 0 where
    pub finished : List Text
    pub left : List Text
    pub splits : files ≡ finished ++ left
    pub replayed : replay exec d finished v ≡ done (view r.1.tables)
    pub complete : r.0 ≡ done tt → left ≡ []

  replay-cons :
      (file : Text) (files : List Text) (v mid : View Schema)
      → migrate_one exec d file v ≡ done mid
      → replay exec d (file ∷ files) v ≡ replay exec d files mid
  unfolding replay
  replay-cons file files v mid e = rw (e, replay) refl

  stay-Stopped :
      (files : List Text) (v : View Schema) (e : Failure) (s : Server Schema)
      → view s.tables ≡ v
      → Stopped files v (failed e, s)
  unfolding replay
  stay-Stopped files v e s same = record {
    finished = [];
    left = files;
    splits = refl;
    replayed = ap (λ (u : View Schema). done u) (sym same);
    complete = λ h. cc;
  }

  cons-Stopped :
      (file : Text) (files : List Text) (v mid : View Schema)
      (r : Outcome (Unit {0}) × Server Schema)
      → migrate_one exec d file v ≡ done mid
      → Stopped files mid r
      → Stopped (file ∷ files) v r
  cons-Stopped file files v mid r e h = record {
    finished = file ∷ h.finished;
    left = h.left;
    splits = ap (λ (l : List Text). file ∷ l) h.splits;
    replayed = replay-cons file h.finished v mid e ∙ h.replayed;
    complete = h.complete;
  }

  nothing-Stopped : (s : Server Schema) → Stopped [] (view s.tables) (done tt, s)
  unfolding replay
  nothing-Stopped s = record {
    finished = [];
    left = [];
    splits = refl;
    replayed = refl;
    complete = λ _. refl;
  }

  next-Stopped :
      (file : Text) (files : List Text) (t : Tables Schema) (r : Outcome (Unit {0}) × Server Schema)
      → Whole exec (migrate_one exec d file (view t)) t r
      → ((s : Server Schema)
          → HasTable s.tables.applied
          → Stopped files (view s.tables) (run_files exec d files s))
      → Stopped (file ∷ files) (view t) (continue (λ _. run_files exec d files) r)
  next-Stopped file files t (done a, s) (inl (_, has, e)) later =
      cons-Stopped file files (view t) (view s.tables) _ e (later s has)
  next-Stopped file files t (done a, s) (inr (e, h, _)) later = cc
  next-Stopped file files t (failed e, s) (inl (h, _, _)) later = cc
  next-Stopped file files t (failed e, s) (inr (_, _, same)) later =
      stay-Stopped (file ∷ files) (view t) e s (ap (λ (u : Tables Schema). view u) same)

  run_files-Stopped :
      (files : List Text) (s : Server Schema)
      → HasTable s.tables.applied
      → Stopped files (view s.tables) (run_files exec d files s)
  unfolding run_files
  run_files-Stopped [] s has = nothing-Stopped s
  run_files-Stopped (file ∷ files) s has =
      next-Stopped file files s.tables (apply_pending exec d file s)
        (apply_pending-Whole exec d file s has) (run_files-Stopped files)

  abbrev pub listing : Outcome (List Text) → List Text
  listing (done files) = files
  listing (failed e) = []

  begun-Stopped :
      (m : Outcome (List Text)) (s : Server Schema)
      → HasTable s.tables.applied
      → Stopped (listing m) (view s.tables) (continue (λ fs. run_files exec d fs) (m, s))
  begun-Stopped (done files) s has = run_files-Stopped files s has
  begun-Stopped (failed e) s has = stay-Stopped [] (view s.tables) e s refl

  started-Stopped :
      (t : Tables Schema) (outages : List Bool)
      → Stopped
          (listing (migration_files d))
          (view t)
          (run exec d (record { tables = t; outages = outages }))
  unfolding run ensure_schema_migrations statement
  started-Stopped t [] = begun-Stopped (migration_files d) _ refl
  started-Stopped t (true ∷ later) = stay-Stopped _ (view t) unavailable _ refl
  started-Stopped t (false ∷ later) = begun-Stopped (migration_files d) _ refl

  -- Whatever outages a run meets, it has run and recorded the first of the sorted migration files
  -- that were not recorded, each whole, and all of them where it succeeds.
  pub run-Stopped :
      (s : Server Schema) → Stopped (listing (migration_files d)) (view s.tables) (run exec d s)
  run-Stopped s = started-Stopped s.tables s.outages
