-- ===== src/Migrations.antt =====
-- backend/internal/migrations/runner.go. `exec` is what PostgreSQL makes of a script on the schema,
-- the tables other than `schema_migrations`. Each round trip to the server meets an outage or not.
pub mod Paths
pub mod Listing
pub mod Replay
pub mod Runs
pub mod Progress
pub mod Resume
use real_time_chat_app.Base.{
  Bool, true, false, not, Option, none, some, List, [], ◌∷◌, ◌++◌, if◌then◌else◌, sort, Text,
  text_eq,
}
use real_time_chat_app.Strings.{contains}
use real_time_chat_app.Migrations.Paths.{text_le, base, Directory, matches}

pub data Failure : Type 0 where
  unavailable no_table unique_violation unreadable bad_pattern : Failure
  apply_failed : Text → Failure

pub data Outcome (A : Type 0) : Type 0 where
  done : A → Outcome A
  failed : Failure → Outcome A

-- `applied` holds the names in `schema_migrations`, where that table exists.
pub record Tables (Schema : Type 0) : Type 0 where
  pub schema : Schema
  pub applied : Option (List Text)

pub record Server (Schema : Type 0) : Type 0 where
  pub tables : Tables Schema
  pub outages : List Bool

abbrev pub Action : Type 0 → Type 0 → Type 0
Action Schema A = Server Schema → Outcome A × Server Schema

abbrev pub names_of : Option (List Text) → List Text
names_of none = []
names_of (some names) = names

abbrev pub applied_in : Text → Option (List Text) → Outcome Bool
applied_in name none = failed no_table
applied_in name (some names) = done (contains name names)

-- `migrationFiles`
unfoldable pub migration_files : Directory → Outcome (List Text)
unfolding matches sort text_le
migration_files d = if d.well_formed then done (sort text_le (matches d)) else failed bad_pattern

module _ {Schema : Type 0} where
  -- A statement that reached the server has its effect or fails with none.
  abbrev pub commit_to :
      {A : Type 0}
      → Tables Schema
      → List Bool
      → Outcome (A × Tables Schema)
      → Outcome A × Server Schema
  commit_to t later (done (a, t')) = (done a, record { tables = t'; outages = later })
  commit_to t later (failed e) = (failed e, record { tables = t; outages = later })

  unfoldable pub run_statement :
      {A : Type 0}
      → (Tables Schema → Outcome (A × Tables Schema))
      → Tables Schema
      → List Bool
      → Outcome A × Server Schema
  run_statement q t [] = commit_to t [] (q t)
  run_statement q t (true ∷ later) = (failed unavailable, record { tables = t; outages = later })
  run_statement q t (false ∷ later) = commit_to t later (q t)

  unfoldable pub statement :
      {A : Type 0} → (Tables Schema → Outcome (A × Tables Schema)) → Action Schema A
  unfolding run_statement
  statement q s = run_statement q s.tables s.outages

  abbrev pub continue :
      {A B : Type 0} → (A → Action Schema B) → Outcome A × Server Schema → Outcome B × Server Schema
  continue f (done a, s) = f a s
  continue f (failed e, s) = (failed e, s)

  infixl 10 ◌>>=◌ ◌>>◌
  abbrev pub ◌>>=◌ : {A B : Type 0} → Action Schema A → (A → Action Schema B) → Action Schema B
  ◌>>=◌ m f s = continue f (m s)

  abbrev pub ◌>>◌ : {A B : Type 0} → Action Schema A → Action Schema B → Action Schema B
  m >> n = m >>= λ _. n

  abbrev pub pure : {A : Type 0} → Outcome A → Action Schema A
  pure r s = (r, s)

  -- The deferred `tx.Rollback`.
  unfoldable pub roll_back :
      Tables Schema → Outcome (Unit {0}) × Server Schema → Outcome (Unit {0}) × Server Schema
  roll_back saved (done a, s) = (done a, s)
  roll_back saved (failed e, s) = (failed e, record s { tables = saved })

  -- `CREATE TABLE IF NOT EXISTS schema_migrations`
  unfoldable pub ensure_schema_migrations : Action Schema (Unit {0})
  ensure_schema_migrations =
      statement λ t. done (tt, record t { applied = some (names_of t.applied) })

  abbrev pub reading : Tables Schema → Outcome Bool → Outcome (Bool × Tables Schema)
  reading t (done b) = done (b, t)
  reading t (failed e) = failed e

  unfoldable pub is_applied : Text → Action Schema Bool
  is_applied name = statement λ t. reading t (applied_in name t.applied)

  abbrev pub inserted :
      Text → Tables Schema → Option (List Text) → Outcome (Unit {0} × Tables Schema)
  inserted name t none = failed no_table
  inserted name t (some names) =
      if contains name names
      then failed unique_violation
      else done (tt, record t { applied = some (names ++ name ∷ []) })

  -- `INSERT INTO schema_migrations (name) VALUES ($1)`; the name is the primary key.
  unfoldable pub insert_name : Text → Action Schema (Unit {0})
  insert_name name = statement λ t. inserted name t t.applied

  abbrev pub round_trip : Action Schema (Unit {0})
  round_trip = statement λ t. done (tt, t)

module _ {Schema : Type 0} (exec : Text → Schema → Option Schema) where
  abbrev pub altered : Text → Tables Schema → Option Schema → Outcome (Unit {0} × Tables Schema)
  altered name t none = failed (apply_failed name)
  altered name t (some schema) = done (tt, record t { schema = schema })

  unfoldable pub exec_script : Text → Text → Action Schema (Unit {0})
  exec_script name contents = statement λ t. altered name t (exec contents t.schema)

  -- `apply` from `Begin` on.
  unfoldable pub apply_contents : Text → Text → Action Schema (Unit {0})
  unfolding exec_script insert_name roll_back statement
  apply_contents name contents s =
      roll_back s.tables
        ((do round_trip; exec_script name contents; insert_name name; round_trip) s)

  unfoldable pub apply : Text → Option Text → Action Schema (Unit {0})
  apply name none = pure (failed unreadable)
  apply name (some contents) = apply_contents name contents

  -- The body of the loop of `Run`.
  unfoldable pub apply_pending : Directory → Text → Action Schema (Unit {0})
  unfolding is_applied apply
  apply_pending d file = do
    seen ← is_applied (base file)
    if seen then pure (done tt) else apply (base file) (d.read file)

  unfoldable pub run_files : Directory → List Text → Action Schema (Unit {0})
  unfolding apply_pending
  run_files d [] = pure (done tt)
  run_files d (file ∷ files) = apply_pending d file >> run_files d files

  unfoldable pub run : Directory → Action Schema (Unit {0})
  unfolding ensure_schema_migrations run_files migration_files
  run d = do ensure_schema_migrations; files ← pure (migration_files d); run_files d files
