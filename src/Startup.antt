-- ===== src/Startup.antt =====
-- backend/cmd/server/main.go, backend/cmd/migrate/main.go and backend/internal/db. What the programs
-- reach is an argument: errors are texts, `none` is no error. `log.Fatal` ends the program without the
-- deferred calls, a panic with them.
pub mod Serving
pub mod Migrating
use real_time_chat_app.Base.{
  List, ℕ, ◌+◌, ◌-◌, Bool, Option, none, some, [], ◌++◌, if◌then◌else◌, Text, codes, text_eq,
}
use real_time_chat_app.Config.{
  Config, cors_allowed_origins, load, get_env, validate_server, validate_migrate,
}
use real_time_chat_app.Migrations.{Failure, Outcome, done, failed, Server, run}
use real_time_chat_app.Migrations.Paths.{Directory}

-- What pgx, go-redis, gin, gin-contrib/cors and the system answer. `new_cors` is the panic of `cors.New`
-- on a list of origins that it does not take.
pub record Surroundings : Type 0 where
  pub new_pool : Text → Option Text
  pub ping_pool : Text → Option Text
  pub parse_redis_url : Text → Option Text
  pub ping_redis : Text → Option Text
  pub known_mode : Text → Bool
  pub new_cors : List Text → Option Text
  pub listen : Text → Option Text

-- The pools and the Redis clients that are open.
pub record Resources : Type 0 where
  pub pools : ℕ
  pub clients : ℕ

pub data Ending : Type 0 where
  fatal panicked : Text → Ending
  run_failed : Failure → Ending
  returned : Ending
  serving : Text → Ending

abbrev pub pinged_pool : Option Text → Resources → Option Text × Resources
pinged_pool none r = (none, r)
pinged_pool (some e) r = (some e, record r { pools = r.pools - 1 })

abbrev pub made_pool : Option Text → Option Text → Resources → Option Text × Resources
made_pool (some e) ping r = (some e, r)
made_pool none ping r = pinged_pool ping (record r { pools = r.pools + 1 })

-- `Connect`
unfoldable pub connect_database : Surroundings → Text → Resources → Option Text × Resources
unfolding text_eq
connect_database env url r =
    if text_eq url []
    then (some (codes "DATABASE_URL is required"), r)
    else made_pool (env.new_pool url) (env.ping_pool url) r

abbrev pub pinged_client : Option Text → Resources → Option Text × Resources
pinged_client none r = (none, r)
pinged_client (some e) r = (some e, record r { clients = r.clients - 1 })

abbrev pub made_client : Option Text → Option Text → Resources → Option Text × Resources
made_client (some e) ping r = (some e, r)
made_client none ping r = pinged_client ping (record r { clients = r.clients + 1 })

-- `ConnectRedis`
unfoldable pub connect_redis : Surroundings → Text → Resources → Option Text × Resources
unfolding text_eq
connect_redis env url r =
    if text_eq url []
    then (some (codes "REDIS_URL is required"), r)
    else made_client (env.parse_redis_url url) (env.ping_redis url) r

-- The deferred `Close` of both.
abbrev pub close_all : Resources → Resources
close_all r = record { pools = r.pools - 1; clients = r.clients - 1 }

abbrev pub nothing_open : Resources
nothing_open = record { pools = 0; clients = 0 }

module _ (env : Surroundings) where
  abbrev pub listened : Text → Option Text → Resources → Ending × Resources
  listened address none r = (serving address, r)
  listened address (some e) r = (panicked e, close_all r)

  -- `NewRouter` and `Run`.
  abbrev pub routed : Config → Option Text → Resources → Ending × Resources
  routed cfg (some e) r = (panicked e, close_all r)
  routed cfg none r = listened (codes ":" ++ cfg.port) (env.listen (codes ":" ++ cfg.port)) r

  abbrev pub redis_connected : Config → Option Text × Resources → Ending × Resources
  unfolding cors_allowed_origins
  redis_connected cfg (some e, r) = (fatal (codes "connect redis: " ++ e), r)
  redis_connected cfg (none, r) = routed cfg (env.new_cors (cors_allowed_origins cfg)) r

  abbrev pub database_connected : Config → Option Text × Resources → Ending × Resources
  unfolding connect_redis
  database_connected cfg (some e, r) = (fatal (codes "connect database: " ++ e), r)
  database_connected cfg (none, r) = redis_connected cfg (connect_redis env cfg.redis_url r)

  abbrev pub validated : Config → Option Text → Ending × Resources
  unfolding connect_database
  validated cfg (some e) = (fatal e, nothing_open)
  validated cfg none = database_connected cfg (connect_database env cfg.database_url nothing_open)

  abbrev pub configured : Config → Ending × Resources
  unfolding validate_server
  configured cfg =
      if env.known_mode cfg.gin_mode
      then validated cfg (validate_server cfg)
      else (panicked (codes "gin mode unknown: " ++ cfg.gin_mode), nothing_open)

  -- `main` of the server.
  unfoldable pub server_main : (Text → Text) → Ending × Resources
  unfolding load
  server_main variables = configured (load variables)

-- The directory of the migrations.
abbrev pub migrations_dir : (Text → Text) → Text
unfolding get_env
migrations_dir variables = get_env variables (codes "MIGRATIONS_DIR") (codes "migrations")

module _ {Schema : Type 0} (env : Surroundings) (exec : Text → Schema → Option Schema)
    (directories : Text → Directory) where
  abbrev pub State : Type 0
  State = Resources × Server Schema

  abbrev pub after_run : Resources → Outcome (Unit {0}) × Server Schema → Ending × State
  after_run r (done a, s) = (returned, (close_all r, s))
  after_run r (failed e, s) = (run_failed e, (r, s))

  abbrev pub migrating : (Text → Text) → Server Schema → Option Text × Resources → Ending × State
  unfolding run
  migrating variables s (some e, r) = (fatal (codes "connect database: " ++ e), (r, s))
  migrating variables s (none, r) =
      after_run r (run exec (directories (migrations_dir variables)) s)

  abbrev pub migrate_validated :
      (Text → Text) → Config → Server Schema → Option Text → Ending × State
  unfolding connect_database
  migrate_validated variables cfg s (some e) = (fatal e, (nothing_open, s))
  migrate_validated variables cfg s none =
      migrating variables s (connect_database env cfg.database_url nothing_open)

  -- `main` of the migrations.
  unfoldable pub migrate_main : (Text → Text) → Server Schema → Ending × State
  unfolding load validate_migrate
  migrate_main variables s =
      migrate_validated variables (load variables) s (validate_migrate (load variables))
