-- ===== src/Migrations/Replay.antt =====
-- What the migration runner of backend/internal/migrations is to do: the scripts in order, each that
-- is not recorded run and recorded, up to the first that cannot be.
use real_time_chat_app.Base.{
  Bool, true, false, Option, none, some, List, [], ◌∷◌, ◌++◌, if◌then◌else◌, Text, ◌≡◌, refl, arith,
  Bool-cases, ◌⊎◌, inl, inr,
}
use real_time_chat_app.Strings.{contains}
use real_time_chat_app.Migrations.{
  Outcome, done, failed, Failure, unreadable, unavailable, apply_failed, Tables, Server, names_of,
  apply_contents, apply, apply_pending, statement, pure,
}
use real_time_chat_app.Migrations.Paths.{Directory, base}

-- The schema and the names recorded.
abbrev pub View : Type 0 → Type 0
View Schema = Schema × List Text

module _ {Schema : Type 0} where
  abbrev pub view : Tables Schema → View Schema
  view t = (t.schema, names_of t.applied)

  -- A server with no outage to come.
  abbrev pub answering : Tables Schema → Server Schema
  answering t = record { tables = t; outages = [] }

abbrev pub HasTable : Option (List Text) → Type 0
HasTable applied = applied ≡ some (names_of applied)

module _ {Schema : Type 0} (exec : Text → Schema → Option Schema) where
  abbrev noted : Text → List Text → Option Schema → Outcome (View Schema)
  noted name names none = failed (apply_failed name)
  noted name names (some schema) = done (schema, names ++ name ∷ [])

  abbrev executed : Text → Schema → List Text → Option Text → Outcome (View Schema)
  executed name schema names none = failed unreadable
  executed name schema names (some contents) = noted name names (exec contents schema)

  unfoldable pub migrate_one : Directory → Text → View Schema → Outcome (View Schema)
  migrate_one d file (schema, names) =
      if contains (base file) names
      then done (schema, names)
      else executed (base file) schema names (d.read file)

  apply_contents-cases :
      (name contents : Text) (schema : Schema) (names : List Text) (outages : List Bool)
      → contains name names ≡ false
      → let t : Tables Schema = record { schema = schema; applied = some names } in
        let (r, s) = apply_contents exec name contents (record { tables = t; outages = outages }) in
        ((r ≡ done tt)
          × HasTable s.tables.applied
          × (noted name names (exec contents schema) ≡ done (view s.tables)))
        ⊎ ((e : Failure) × (r ≡ failed e) × (s.tables ≡ t))
  unfolding apply_contents
  apply_contents-cases name contents schema names outages new = ground arith

  -- All is done for a script, so that `o` is what is to be done, or nothing.
  abbrev pub Whole :
      Outcome (View Schema) → Tables Schema → Outcome (Unit {0}) × Server Schema → Type 0
  Whole o t (r, s) =
      ((r ≡ done tt) × HasTable s.tables.applied × (o ≡ done (view s.tables)))
      ⊎ ((e : Failure) × (r ≡ failed e) × (s.tables ≡ t))

  apply-Whole :
      (name : Text) (given : Option Text) (schema : Schema) (names : List Text)
      (outages : List Bool)
      → contains name names ≡ false
      → let t : Tables Schema = record { schema = schema; applied = some names } in
        Whole
          (executed name schema names given)
          t
          (apply exec name given (record { tables = t; outages = outages }))
  unfolding apply
  apply-Whole name none schema names outages new = inr (unreadable, refl, refl)
  apply-Whole name (some contents) schema names outages new =
      apply_contents-cases name contents schema names outages new

  chosen-Whole :
      (d : Directory) (file : Text) (schema : Schema) (names : List Text) (outages : List Bool)
      → let t : Tables Schema = record { schema = schema; applied = some names } in
        Whole (migrate_one d file (schema, names)) t (
          (if contains (base file) names
              then pure (done tt)
              else apply exec (base file) (d.read file))
            (record { tables = t; outages = outages }))
  unfolding migrate_one
  chosen-Whole d file schema names outages = elim (Bool-cases (contains (base file) names)) [
    | inl old ↦ rw old (inl (refl, refl, refl))
    | inr new ↦ rw new (apply-Whole (base file) (d.read file) schema names outages new)
  ]

  found-Whole :
      (d : Directory) (file : Text) (schema : Schema) (names : List Text) (outages : List Bool)
      → let t : Tables Schema = record { schema = schema; applied = some names } in
        Whole
          (migrate_one d file (schema, names))
          t
          (apply_pending exec d file (record { tables = t; outages = outages }))
  unfolding apply_pending statement contains
  found-Whole d file schema names [] = chosen-Whole d file schema names []
  found-Whole d file schema names (true ∷ later) = inr (unavailable, refl, refl)
  found-Whole d file schema names (false ∷ later) = chosen-Whole d file schema names later

  -- One round of the loop does all that is to be done for a script, or nothing.
  pub apply_pending-Whole :
      (d : Directory) (file : Text) (s : Server Schema)
      → HasTable s.tables.applied
      → Whole (migrate_one d file (view s.tables)) s.tables (apply_pending exec d file s)
  apply_pending-Whole d file s has = at s.tables.applied has
    where
      at :
          (applied : Option (List Text))
          → HasTable applied
          → let t : Tables Schema = record { schema = s.tables.schema; applied = applied } in
            Whole
              (migrate_one d file (view t))
              t
              (apply_pending exec d file (record { tables = t; outages = s.outages }))
      at none has = cc
      at (some names) has = found-Whole d file s.tables.schema names s.outages

  unfoldable pub replay : Directory → List Text → View Schema → Outcome (View Schema)
  replay d [] v = done v
  replay d (file ∷ files) v = elim (migrate_one d file v) [
    | failed e ↦ failed e
    | done v' ↦ replay d files v'
  ]

  -- The same, with what is done before a failure.
  unfoldable pub progress : Directory → List Text → View Schema → Outcome (Unit {0}) × View Schema
  progress d [] v = (done tt, v)
  progress d (file ∷ files) v = elim (migrate_one d file v) [
    | failed e ↦ (failed e, v)
    | done v' ↦ progress d files v'
  ]

  abbrev pub online : View Schema → Server Schema
  online (schema, names) = record {
    tables = record { schema = schema; applied = some names };
    outages = [];
  }

  abbrev pub online_after : Outcome (Unit {0}) × View Schema → Outcome (Unit {0}) × Server Schema
  online_after (r, v) = (r, online v)

  pub apply_pending-online :
      (d : Directory) (file : Text) (v : View Schema)
      → ◌≡◌ {A = Outcome (Unit {0}) × Server Schema} (apply_pending exec d file (online v)) (
          online_after
            (elim (migrate_one d file v) [ failed e ↦ (failed e, v) | done v' ↦ (done tt, v') ]))
  unfolding apply_pending apply_contents migrate_one
  apply_pending-online d file v = ground arith
