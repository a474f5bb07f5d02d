-- ===== src/Config.antt =====
-- backend/internal/config/config.go. The environment is a function, empty where a variable is not
-- set, after `godotenv.Load`.
pub mod Origins
pub mod Required
use real_time_chat_app.Base.{
  Option, none, some, List, [], ◌∷◌, ◌++◌, if◌then◌else◌, Text, codes, text_eq,
}
use real_time_chat_app.Strings.{split, join}
use real_time_chat_app.TrimSpace.{trim_space}

pub record Config : Type 0 where
  pub port : Text
  pub gin_mode : Text
  pub database_url : Text
  pub redis_url : Text
  pub jwt_secret : Text
  pub cors_allowed_origin : Text

abbrev pub default_cors_allowed_origin : Text
default_cors_allowed_origin = codes "http://localhost:5173,http://127.0.0.1:5173"

unfoldable pub get_env : (Text → Text) → Text → Text → Text
unfolding text_eq
get_env env key fallback = if text_eq (env key) [] then fallback else env key

unfoldable pub load : (Text → Text) → Config
unfolding get_env
load env = record {
  port = get_env env (codes "PORT") (codes "8080");
  gin_mode = get_env env (codes "GIN_MODE") (codes "debug");
  database_url = get_env env (codes "DATABASE_URL") [];
  redis_url = get_env env (codes "REDIS_URL") [];
  jwt_secret = get_env env (codes "JWT_SECRET") [];
  cors_allowed_origin = get_env env (codes "CORS_ALLOWED_ORIGIN") default_cors_allowed_origin;
}

-- The loop of `CORSAllowedOrigins`.
unfoldable pub trimmed_parts : List Text → List Text → List Text
trimmed_parts [] origins = origins
trimmed_parts (part ∷ parts) origins =
    trimmed_parts parts
      (if text_eq (trim_space part) [] then origins else origins ++ trim_space part ∷ [])

unfoldable pub cors_allowed_origins : Config → List Text
unfolding trimmed_parts
cors_allowed_origins c = trimmed_parts (split b',' c.cors_allowed_origin) []

-- `if value == "" { missing = append(missing, name) }`
abbrev pub if_missing : Text → Text → List Text → List Text
if_missing value name missing = if text_eq value [] then missing ++ name ∷ [] else missing

-- `requiredError`
unfoldable pub required_error : List Text → Option Text
unfolding join
required_error [] = none
required_error (name ∷ missing) =
    some (codes "missing required environment variables: " ++ join (codes ", ") (name ∷ missing))

unfoldable pub validate_server : Config → Option Text
unfolding required_error text_eq
validate_server c = required_error (
    if_missing c.jwt_secret (codes "JWT_SECRET") (
      if_missing c.redis_url (codes "REDIS_URL")
        (if_missing c.database_url (codes "DATABASE_URL") [])))

unfoldable pub validate_migrate : Config → Option Text
unfolding required_error text_eq
validate_migrate c = required_error (if_missing c.database_url (codes "DATABASE_URL") [])
