-- ===== src/Startup/Migrating.antt =====
-- backend/cmd/migrate/main.go, run once and once more.
use real_time_chat_app.Base.{
  subst, ◌≡◌, ◌∙◌, refl, sym, ap, arith, Bool, true, false, Option, none, some, [], Text, codes,
  text_eq_iff,
}
use real_time_chat_app.Config.{Config, load, validate_migrate, if_missing, required_error}
use real_time_chat_app.Migrations.{Outcome, done, failed, Server, run}
use real_time_chat_app.Migrations.Paths.{Directory}
use real_time_chat_app.Migrations.Replay.{view, online, answering}
use real_time_chat_app.Migrations.Resume.{run-again}
use real_time_chat_app.Startup.{
  Surroundings, Resources, Ending, returned, nothing_open, migrations_dir, State, after_run,
  migrating, migrate_validated, migrate_main,
}
use real_time_chat_app.Startup.Serving.{
  one_pool, Attempt, made, not_made, DatabaseUp, connect_database-Attempt,
}

abbrev pub is_returned : Ending → Bool
is_returned returned = true
is_returned _ = false

module _ {Schema : Type 0} (env : Surroundings) (exec : Text → Schema → Option Schema)
    (directories : Text → Directory) where
  -- The command has done a run, or has changed nothing and fails.
  data Ran (fact : Type 0) (s : Server Schema) (outcome : Outcome (Unit {0}) × Server Schema)
      (r : Ending × State env exec directories) : Type 0 where
    ran : fact → r ≡ after_run env exec directories one_pool outcome → Ran fact s outcome r
    did_not : ¬ fact → is_returned r.0 ≡ false → r.1.1 ≡ s → Ran fact s outcome r

  module _ (variables : Text → Text) where
    abbrev run_of : Server Schema → Outcome (Unit {0}) × Server Schema
    run_of s = run exec (directories (migrations_dir variables)) s

    migrating-Ran :
        (s : Server Schema) (url : Text) (r : Option Text × Resources)
        → Attempt (DatabaseUp env url) nothing_open one_pool r
        → Ran (DatabaseUp env url) s (run_of s) (migrating env exec directories variables s r)
    unfolding migrating
    migrating-Ran s url r (made up q) = ran up (ap (migrating env exec directories variables s) q)
    migrating-Ran s url r (not_made down e q) =
        did_not down
          (ap
            (λ (x : Option Text × Resources).
              is_returned (migrating env exec directories variables s x).0)
            q)
          (ap (λ (x : Option Text × Resources). (migrating env exec directories variables s x).1.1)
            q)

    missing-down :
        (url : Text) (e : Text)
        → required_error (if_missing url (codes "DATABASE_URL") []) ≡ some e
        → ¬ DatabaseUp env url
    unfolding required_error
    missing-down url e missing up = ground (arith, text_eq_iff url [])

    validated-Ran :
        (s : Server Schema) (cfg : Config) (o : Option Text)
        → validate_migrate cfg ≡ o
        → Ran
            (DatabaseUp env cfg.database_url)
            s
            (run_of s)
            (migrate_validated env exec directories variables cfg s o)
    unfolding migrate_validated validate_migrate
    validated-Ran s cfg none valid =
        migrating-Ran s cfg.database_url _ (connect_database-Attempt env cfg.database_url)
    validated-Ran s cfg (some e) missing =
        did_not (missing-down cfg.database_url e missing) refl refl

    migrate_main-Ran :
        (s : Server Schema)
        → Ran
            (DatabaseUp env (load variables).database_url)
            s
            (run_of s)
            (migrate_main env exec directories variables s)
    unfolding migrate_main
    migrate_main-Ran s = validated-Ran s (load variables) (validate_migrate (load variables)) refl

    after_run-server :
        (o : Outcome (Unit {0}) × Server Schema)
        → (after_run env exec directories one_pool o).1.1 ≡ o.1
    after_run-server (done a, s) = refl
    after_run-server (failed e, s) = refl

    after_run-done :
        (o : Outcome (Unit {0}) × Server Schema)
        → is_returned (after_run env exec directories one_pool o).0 ≡ true
        → o.0 ≡ done tt
    after_run-done (done tt, s) e = refl
    after_run-done (failed e, s) returns = cc

    -- What the command leaves of a server, once it is known to return.
    record Returns (s after : Server Schema) : Type 0 where
      up : DatabaseUp env (load variables).database_url
      success : (run_of s).0 ≡ done tt
      leaves : after ≡ (run_of s).1

    returned_run :
        (s : Server Schema) (r : Ending × State env exec directories)
        → Ran (DatabaseUp env (load variables).database_url) s (run_of s) r
        → is_returned r.0 ≡ true
        → Returns s r.1.1
    returned_run s r (ran up q) e = record {
      up = up;
      success =
          after_run-done (run_of s)
            (ap (λ (x : Ending × State env exec directories). is_returned x.0) (sym q) ∙ e);
      leaves =
          ap (λ (x : Ending × State env exec directories). x.1.1) q ∙ after_run-server (run_of s);
    }
    returned_run s r (did_not down fails same) e = cc

    rerun :
        (s : Server Schema) (r : Ending × State env exec directories)
        → (run_of s).0 ≡ done tt
        → DatabaseUp env (load variables).database_url
        → Ran
            (DatabaseUp env (load variables).database_url)
            (answering (run_of s).1.tables)
            (run_of (answering (run_of s).1.tables))
            r
        → r ≡ (returned, (nothing_open, online exec (view (run_of s).1.tables)))
    rerun s r success up (did_not down fails same) = absurd (down up)
    rerun s r success up (ran again q) =
        q
        ∙ ap (after_run env exec directories one_pool)
            (run-again exec (directories (migrations_dir variables)) s success)

    -- After a command that returned, the next one that meets no outage returns, with nothing left open,
    -- and changes neither the schema nor the names of the migrations.
    pub migrate_main-again :
        (s : Server Schema)
        → is_returned (migrate_main env exec directories variables s).0 ≡ true
        → let t = (migrate_main env exec directories variables s).1.1.tables in
          migrate_main env exec directories variables (answering t)
          ≡ (returned, (nothing_open, online exec (view t)))
    migrate_main-again s e =
        let r =
          returned_run s (migrate_main env exec directories variables s) (migrate_main-Ran s) e in
        subst
          (λ (left : Server Schema).
            migrate_main env exec directories variables (answering left.tables)
            ≡ (returned, (nothing_open, online exec (view left.tables))))
          (sym r.leaves)
          (rerun s _ r.success r.up (migrate_main-Ran (answering (run_of s).1.tables)))
