-- ===== src/Migrations/Resume.antt =====
-- Runs of backend/internal/migrations/runner.go one after another.
use real_time_chat_app.Base.{
  Bool, true, false, Option, List, [], ◌∷◌, ◌++◌, Text, ◌≡◌, ◌≢◌, refl, arith, sym, ◌∙◌, ap,
}
use real_time_chat_app.Migrations.{
  Outcome, done, failed, Failure, Tables, Server, ensure_schema_migrations, statement,
  migration_files, run_files, run, continue,
}
use real_time_chat_app.Migrations.Paths.{Directory}
use real_time_chat_app.Migrations.Replay.{
  answering, View, view, migrate_one, replay, progress, online, online_after, apply_pending-online,
}
use real_time_chat_app.Migrations.Runs.{Stopped, listing, run-Stopped}
use real_time_chat_app.Migrations.Progress.{replay-AllSeen, progress-seen, progress-Stopped}

module _ {Schema : Type 0} (exec : Text → Schema → Option Schema) (d : Directory) where
  run_on :
      (files : List Text) (v : View Schema) (o : Outcome (View Schema))
      → ((mid : View Schema)
          → run_files exec d files (online exec mid)
            ≡ online_after exec (progress exec d files mid))
      → ◌≡◌ {A = Outcome (Unit {0}) × Server Schema}
          (continue
            (λ _. run_files exec d files)
            (online_after exec (elim o [ failed e ↦ (failed e, v) | done mid ↦ (done tt, mid) ])))
          (online_after exec
            (elim o [ failed e ↦ (failed e, v) | done mid ↦ progress exec d files mid ]))
  run_on files v (done mid) h = h mid
  run_on files v (failed e) h = refl

  run_files-online :
      (files : List Text) (v : View Schema)
      → run_files exec d files (online exec v) ≡ online_after exec (progress exec d files v)
  unfolding run_files progress
  run_files-online [] v = refl
  run_files-online (file ∷ files) v =
      ap (λ (r : Outcome (Unit {0}) × Server Schema). continue (λ _. run_files exec d files) r)
        (apply_pending-online exec d file v)
      ∙ run_on files v (migrate_one exec d file v) (run_files-online files)

  abbrev result_of : Outcome (List Text) → View Schema → Outcome (Unit {0}) × View Schema
  result_of (done files) v = progress exec d files v
  result_of (failed e) v = (failed e, v)

  begun-online :
      (m : Outcome (List Text)) (v : View Schema)
      → continue (λ fs. run_files exec d fs) (m, online exec v) ≡ online_after exec (result_of m v)
  begun-online (done files) v = run_files-online files v
  begun-online (failed e) v = refl

  run-online :
      (t : Tables Schema)
      → run exec d (answering t) ≡ online_after exec (result_of (migration_files d) (view t))
  unfolding run ensure_schema_migrations statement
  run-online t = begun-online (migration_files d) (view t)

  none_done :
      (files left : List Text) (v v' : View Schema)
      → ◌≡◌ {A = List Text} [] (files ++ left)
      → replay exec d files v ≡ done v'
      → v' ≡ v
  unfolding replay
  none_done [] left v v' none_listed e = ground arith
  none_done (file ∷ files) left v v' none_listed e = cc

  result_of-Stopped :
      (m : Outcome (List Text)) (v : View Schema) (r : Outcome (Unit {0}) × Server Schema)
      → Stopped exec d (listing exec d m) v r
      → result_of m (view r.1.tables) ≡ result_of m v
  result_of-Stopped (done files) v r h = progress-Stopped exec d files v r h
  result_of-Stopped (failed e) v r h =
      ap (λ (u : View Schema). (failed e, u)) (none_done h.finished h.left v _ h.splits h.replayed)

  -- Runs one after another, each with its outages.
  unfoldable pub attempts : List (List Bool) → Tables Schema → Tables Schema
  attempts [] t = t
  attempts (outages ∷ later) t =
      attempts later (run exec d (record { tables = t; outages = outages })).1.tables

  -- However many runs were interrupted, and where, the first run that the server answers ends as it
  -- would have ended without them: with the same result, schema and names.
  pub run-attempts :
      (interrupted : List (List Bool)) (t : Tables Schema)
      → run exec d (answering (attempts interrupted t)) ≡ run exec d (answering t)
  unfolding attempts
  run-attempts [] t = refl
  run-attempts (outages ∷ later) t =
      let s : Server Schema = record { tables = t; outages = outages } in
      let t' = (run exec d s).1.tables in
      run-attempts later t'
      ∙ (run-online t'
          ∙ (ap (online_after exec) (
                result_of-Stopped (migration_files d) (view t) (run exec d s)
                  (run-Stopped exec d s))
              ∙ sym (run-online t)))

  all_done :
      (files : List Text) (v : View Schema) (r : Outcome (Unit {0}) × Server Schema)
      → Stopped exec d files v r
      → r.0 ≡ done tt
      → progress exec d files (view r.1.tables) ≡ (done tt, view r.1.tables)
  all_done files v r h success =
      let reached = view r.1.tables in
      rw (h.splits, h.complete success)
        (progress-seen exec d h.finished [] reached
            (replay-AllSeen exec d h.finished v reached h.replayed)
          ∙ unfold progress in refl)

  settled :
      (m : Outcome (List Text)) (v : View Schema) (r : Outcome (Unit {0}) × Server Schema)
      → Stopped exec d (listing exec d m) v r
      → r.0 ≡ done tt
      → ((e : Failure) → m ≢ failed e)
      → result_of m (view r.1.tables) ≡ (done tt, view r.1.tables)
  settled (done files) v r h success listed = all_done files v r h success
  settled (failed e) v r h success listed = absurd (listed e refl)

  begun-listed :
      (m : Outcome (List Text)) (s : Server Schema) (e : Failure)
      → (continue (λ fs. run_files exec d fs) (m, s)).0 ≡ done tt
      → m ≢ failed e
  begun-listed (done files) s e success = λ h. cc
  begun-listed (failed x) s e success = cc

  listed :
      (t : Tables Schema) (outages : List Bool) (e : Failure)
      → (run exec d (record { tables = t; outages = outages })).0 ≡ done tt
      → migration_files d ≢ failed e
  unfolding run ensure_schema_migrations statement
  listed t [] e success = begun-listed (migration_files d) _ e success
  listed t (true ∷ later) e success = cc
  listed t (false ∷ later) e success = begun-listed (migration_files d) _ e success

  -- After a run that succeeded, the next one succeeds and changes neither the schema nor the names.
  pub run-again :
      (s : Server Schema)
      → (run exec d s).0 ≡ done tt
      → let t = (run exec d s).1.tables in
        run exec d (answering t) ≡ (done tt, online exec (view t))
  run-again s success =
      run-online (run exec d s).1.tables
      ∙ ap (online_after exec) (
          settled (migration_files d) (view s.tables) (run exec d s) (run-Stopped exec d s) success
            (λ e. listed s.tables s.outages e success))
