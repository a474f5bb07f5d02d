-- ===== src/Tests/Startup.antt =====
-- The theorems on migrations and configuration at concrete inputs.
use mathlib.Core.List.Perm
use real_time_chat_app.Base.{
  ◌||◌, ◌&&◌, ap, ◌≡◌, refl, Bool, true, false, Option, none, some, List, [], ◌∷◌, ◌++◌, Text,
  codes, text_eq, sort, insert_sorted, filter, if◌then◌else◌,
}
use real_time_chat_app.Strings.{contains, join, has_byte}
use real_time_chat_app.TrimSpace.{trim_space, trim_left, trim_reversed}
use real_time_chat_app.Config.{
  load, get_env, validate_migrate, required_error, cors_allowed_origins,
}
use real_time_chat_app.Config.Origins.{cors_allowed_origins-join}
use real_time_chat_app.Startup.{
  Surroundings, Ending, State, returned, nothing_open, after_run, connect_database, migrate_main,
}
use real_time_chat_app.Startup.Migrating.{is_returned, migrate_main-again}
use real_time_chat_app.Migrations.{
  Outcome, done, failed, unavailable, Tables, Server, run, migration_files, statement, run_files,
  apply_pending, apply_contents, is_applied, insert_name, exec_script, roll_back, run_statement,
}
use real_time_chat_app.Migrations.Paths.{
  Directory, base, matches, is_sql, has_prefix, join_path, skip_slashes, up_to_slash, text_le,
}
use real_time_chat_app.Migrations.Replay.{view, online, answering}
use real_time_chat_app.Migrations.Runs.{Stopped, listing, run-Stopped}
use real_time_chat_app.Migrations.Resume.{attempts, run-attempts}
use real_time_chat_app.Migrations.Listing.{run-perm}

-- A schema is the scripts that made it; an empty script is refused.
abbrev append_script : Text → List Text → Option (List Text)
append_script [] schema = none
append_script (c ∷ s) schema = some (schema ++ (c ∷ s) ∷ [])

abbrev contents_of : Text → Option Text
contents_of file = if text_eq file (codes "m/1.sql") then some (codes "A") else some (codes "B")

abbrev scripts : Directory
scripts = record {
  path = codes "m";
  well_formed = true;
  entries = codes "2.sql" ∷ codes "1.sql" ∷ codes "notes" ∷ [];
  read = contents_of;
}

abbrev new_tables : Tables (List Text)
new_tables = record { schema = []; applied = none }

-- FIX of the first run is its `INSERT` for the first script, and meets an outage.
abbrev fifth : List Bool
fifth = false ∷ false ∷ false ∷ false ∷ true ∷ []

abbrev migrated : Server (List Text)
migrated = record {
  tables = record {
    schema = codes "A" ∷ codes "B" ∷ [];
    applied = some (codes "1.sql" ∷ codes "2.sql" ∷ []);
  };
  outages = [];
}

both_run : run append_script scripts (answering new_tables) ≡ (done tt, migrated)
unfolding run migration_files statement run_files apply_contents is_applied contains run_statement
    base skip_slashes up_to_slash text_le matches is_sql has_prefix join_path sort insert_sorted
    filter text_eq apply_pending exec_script insert_name roll_back
both_run = refl

interrupted :
    (run append_script scripts (record { tables = new_tables; outages = fifth })).0
    ≡ failed unavailable
unfolding run migration_files statement run_files apply_contents is_applied contains run_statement
    base skip_slashes up_to_slash text_le matches is_sql has_prefix join_path sort insert_sorted
    filter text_eq apply_pending exec_script insert_name roll_back
interrupted = refl

run-Stopped_example :
    Stopped append_script scripts
      (listing append_script scripts (migration_files scripts))
      ([], [])
      (run append_script scripts (record { tables = new_tables; outages = fifth }))
run-Stopped_example =
    run-Stopped append_script scripts (record { tables = new_tables; outages = fifth })

run-attempts_example :
    run append_script scripts
      (answering (attempts append_script scripts (fifth ∷ (true ∷ []) ∷ []) new_tables))
    ≡ run append_script scripts (answering new_tables)
run-attempts_example = run-attempts append_script scripts (fifth ∷ (true ∷ []) ∷ []) new_tables

both_run_ok : (run append_script scripts (answering new_tables)).0 ≡ done tt
both_run_ok = ap (λ (r : Outcome (Unit {0}) × Server (List Text)). r.0) both_run

-- An origin has a scheme.
abbrev has_scheme : Text → Bool
has_scheme origin = has_prefix (codes "http://") origin || has_prefix (codes "https://") origin

abbrev all_have_scheme : List Text → Bool
all_have_scheme [] = true
all_have_scheme (origin ∷ origins) = has_scheme origin && all_have_scheme origins

abbrev takes_origins : List Text → Option Text
takes_origins [] = some (codes "conflict settings: all origins disabled")
takes_origins origins =
    if all_have_scheme origins
    then none
    else some (codes "bad origin: origins must include a scheme")

-- Everything answers.
abbrev surroundings : Surroundings
surroundings = record {
  new_pool = λ url. none;
  ping_pool = λ url. none;
  parse_redis_url = λ url. none;
  ping_redis = λ url. none;
  known_mode = λ mode. true;
  new_cors = takes_origins;
  listen = λ address. none;
}

abbrev command : Server (List Text) → Ending × State surroundings append_script (λ dir. scripts)
command = migrate_main surroundings append_script (λ dir. scripts) (λ key. codes "m")

command_returns : is_returned (command (answering new_tables)).0 ≡ true
unfolding migrate_main load get_env validate_migrate required_error connect_database text_eq run
command_returns =
    ap
      (λ (o : Outcome (Unit {0}) × Server (List Text)).
        is_returned
          (after_run surroundings append_script (λ dir. scripts) (record { pools = 1; clients = 0 })
            o).0)
      both_run

migrate_main-again_example :
    let t = (command (answering new_tables)).1.1.tables in
    command (answering t) ≡ (returned, (nothing_open, online append_script (view t)))
migrate_main-again_example =
    migrate_main-again surroundings append_script (λ dir. scripts) (λ key. codes "m")
      (answering new_tables) command_returns

run-perm_example :
    run append_script scripts (answering new_tables)
    ≡ run append_script
        (record scripts { entries = codes "1.sql" ∷ codes "2.sql" ∷ codes "notes" ∷ [] })
        (answering new_tables)
run-perm_example =
    run-perm scripts append_script (codes "1.sql" ∷ codes "2.sql" ∷ codes "notes" ∷ [])
      (Perm.swap (codes "1.sql") (codes "2.sql") (codes "notes" ∷ [])) (answering new_tables)

abbrev environment : Text → Text
environment key =
    if text_eq key (codes "PORT") || text_eq key (codes "CORS_ALLOWED_ORIGIN")
    then []
    else codes "x"

abbrev origins : List Text
origins = codes "http://a" ∷ codes "http://b:5173" ∷ []

cors_allowed_origins-join_example :
    cors_allowed_origins
      (record (load environment) { cors_allowed_origin = join (b',' ∷ []) origins })
    ≡ origins
unfolding has_byte trim_space trim_left trim_reversed
cors_allowed_origins-join_example =
    cors_allowed_origins-join (load environment) origins (λ h. cc) (refl, (refl, tt))
      ((λ h. cc), refl, ((λ h. cc), refl, tt))
