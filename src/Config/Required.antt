-- ===== src/Config/Required.antt =====
-- What a start requires of the environment: backend/internal/config/config.go.
use real_time_chat_app.Base.{[], none, Text, codes, text_eq_iff, ◌≡◌, ◌≢◌, ◌↔◌, arith}
use real_time_chat_app.Config.{load, get_env, if_missing, required_error, validate_server}

set_iff :
    (database redis secret : Text)
    → (required_error (
          if_missing secret
            (codes "JWT_SECRET")
            (if_missing redis (codes "REDIS_URL") (if_missing database (codes "DATABASE_URL") [])))
        ≡ none)
      ↔ ((database ≢ []) × (redis ≢ []) × (secret ≢ []))
unfolding required_error
set_iff database redis secret =
    let d = text_eq_iff database [] in
    let r = text_eq_iff redis [] in
    let s = text_eq_iff secret [] in
    ((λ h. (ground arith, ground arith, ground arith)), (λ h. ground arith))

pub get_env-empty : (env : Text → Text) (key : Text) → get_env env key [] ≡ env key
unfolding get_env
get_env-empty env key = ground (arith, text_eq_iff (env key) [])

-- The configuration that is loaded passes the check of the server exactly when the environment sets
-- the database, Redis and the secret.
pub load-validate_server :
    (env : Text → Text)
    → (validate_server (load env) ≡ none) ↔ (
        (env (codes "DATABASE_URL") ≢ [])
        × (env (codes "REDIS_URL") ≢ [])
        × (env (codes "JWT_SECRET") ≢ []))
unfolding load validate_server
load-validate_server env =
    rw
      (
        get_env-empty env (codes "DATABASE_URL"),
        get_env-empty env (codes "REDIS_URL"),
        get_env-empty env (codes "JWT_SECRET"),
      )
      (set_iff (env (codes "DATABASE_URL")) (env (codes "REDIS_URL")) (env (codes "JWT_SECRET")))
