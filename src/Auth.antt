-- ===== src/Auth.antt =====
-- backend/internal/auth/token.go. `Jwt` is the library golang-jwt, and `uuid_string` is `UUID.String`.
-- Times are whole seconds, as the dates of a token are.
use real_time_chat_app.Base.{ℕ, ◌+◌, Bool, Option, none, some, if◌then◌else◌, Text}
use real_time_chat_app.Models.{Uuid, Time, User}

-- `8 * time.Hour`
abbrev pub token_expiration : ℕ
token_expiration = 28800

-- `Claims`, the fields of `jwt.RegisteredClaims` that are set among them.
pub record Claims : Type 0 where
  pub user_id : Text
  pub email : Text
  pub subject : Text
  pub issued_at : Option Time
  pub expires_at : Option Time

-- `jwt.SigningMethodHS256`, and the others by their names.
pub data SigningMethod : Type 0 where
  hs256 : SigningMethod
  other_method : Text → SigningMethod

pub record Token : Type 0 where
  pub claims : Claims
  pub valid : Bool

-- `NewWithClaims` with `SignedString`, and `ParseWithClaims` at a time, which asks for the key to a
-- method; `none` is an error.
pub record Jwt : Type 0 where
  pub sign : SigningMethod → Claims → Text → Option Text
  pub parse : (SigningMethod → Option Text) → Time → Text → Option Token

-- The claims of a token made for a user.
abbrev pub claims_of : (Uuid → Text) → Time → User → Claims
claims_of uuid_string now user = record {
  user_id = uuid_string user.id;
  email = user.email;
  subject = uuid_string user.id;
  issued_at = some now;
  expires_at = some (now + token_expiration);
}

-- `GenerateToken`
unfoldable pub generate_token : Jwt → (Uuid → Text) → Text → Time → User → Option Text
generate_token jwt uuid_string secret now user =
    jwt.sign hs256 (claims_of uuid_string now user) secret

-- The key is given out for the one method only.
abbrev pub key_for : Text → SigningMethod → Option Text
key_for secret hs256 = some secret
key_for secret (other_method name) = none

-- What `ParseToken` makes of the token; its claims are of the type that was asked for.
abbrev pub valid_claims : Option Token → Option Claims
valid_claims none = none
valid_claims (some token) = if token.valid then some token.claims else none

unfoldable pub parse_token : Jwt → Text → Time → Text → Option Claims
parse_token jwt secret now value = valid_claims (jwt.parse (key_for secret) now value)
