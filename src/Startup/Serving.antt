-- ===== src/Startup/Serving.antt =====
-- When the server of backend/cmd/server/main.go comes to serve.
use real_time_chat_app.Base.{
  ◌≡◌, ◌≢◌, refl, Bool, true, false, Option, none, some, [], ◌++◌, Text, codes, text_eq,
  text_eq_iff, by_test, if◌then◌else◌,
}
use real_time_chat_app.Config.{Config, cors_allowed_origins, load}
use real_time_chat_app.Startup.{
  Surroundings, Resources, Ending, serving, nothing_open, connect_database, made_pool,
}

abbrev pub is_serving : Ending → Bool
is_serving (serving address) = true
is_serving _ = false

abbrev pub one_each : Resources
one_each = record { pools = 1; clients = 1 }

abbrev pub one_pool : Resources
one_pool = record { pools = 1; clients = 0 }

-- An attempt that needs a fact: it is made good, or fails and leaves what was open as it was.
pub data Attempt (fact : Type 0) (before after : Resources) (r : Option Text × Resources)
    : Type 0 where
  made : fact → r ≡ (none, after) → Attempt fact before after r
  not_made : ¬ fact → (e : Text) → r ≡ (some e, before) → Attempt fact before after r

module _ (env : Surroundings) where
  abbrev pub DatabaseUp : Text → Type 0
  DatabaseUp url = (url ≢ []) × ((env.new_pool url ≡ none) × (env.ping_pool url ≡ none))

  abbrev pub RedisUp : Text → Type 0
  RedisUp url = (url ≢ []) × ((env.parse_redis_url url ≡ none) × (env.ping_redis url ≡ none))

  made_pool-Attempt :
      (new ping : Option Text)
      → Attempt
          ((new ≡ none) × (ping ≡ none))
          nothing_open
          one_pool
          (made_pool new ping nothing_open)
  made_pool-Attempt (some e) ping = not_made (λ h. cc) e refl
  made_pool-Attempt none (some e) = not_made (λ h. cc) e refl
  made_pool-Attempt none none = made (refl, refl) refl

  -- Where the URL is given, the attempt is the rest of it.
  given-Attempt :
      (url e : Text) (fact : Type 0) (before after : Resources) (rest : Option Text × Resources)
      → Attempt fact before after rest
      → Attempt ((url ≢ []) × fact) before after (if text_eq url [] then (some e, before) else rest)
  given-Attempt url e fact before after rest h =
      let (equal, same) = text_eq_iff url [] in
      by_test (λ b. Attempt ((url ≢ []) × fact) before after (if b then (some e, before) else rest))
        (text_eq url []) (λ empty. not_made (λ (given, f). given (equal empty)) e refl)
        (λ full. elim h [
          | made f r ↦ made ((λ empty. let t = same empty in cc), f) r
          | not_made down why r ↦ not_made (λ (given, f). down f) why r
        ])

  pub connect_database-Attempt :
      (url : Text)
      → Attempt (DatabaseUp url) nothing_open one_pool (connect_database env url nothing_open)
  unfolding connect_database
  connect_database-Attempt url =
      given-Attempt url _ _ _ _ _ (made_pool-Attempt (env.new_pool url) (env.ping_pool url))

  -- The start comes to serve at an address with everything open, where a fact holds, and else not.
  pub data Started (fact : Type 0) (address : Text) (r : Ending × Resources) : Type 0 where
    serves : fact → r ≡ (serving address, one_each) → Started fact address r
    stops : ¬ fact → is_serving r.0 ≡ false → Started fact address r

  -- The router takes the configured origins, and the port is free.
  abbrev pub RouterUp : Config → Type 0
  RouterUp cfg =
      (env.new_cors (cors_allowed_origins cfg) ≡ none) × (env.listen (codes ":" ++ cfg.port) ≡ none)

  -- What is needed after the configuration is checked.
  abbrev pub Reachable : Config → Type 0
  Reachable cfg = DatabaseUp cfg.database_url × (RedisUp cfg.redis_url × RouterUp cfg)

  module _ (cfg : Config) where
    abbrev address_of : Text
    address_of = codes ":" ++ cfg.port

  -- What a start needs: gin knows its mode, the environment sets the secret and the addresses of the
  -- database and of Redis, both answer, the router takes the configured origins, and the port is free.
  abbrev pub Needs : (Text → Text) → Type 0
  Needs variables =
      (env.known_mode (load variables).gin_mode ≡ true)
      × ((variables (codes "JWT_SECRET") ≢ []) × Reachable (load variables))
