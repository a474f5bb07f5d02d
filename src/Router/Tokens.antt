-- ===== src/Router/Tokens.antt =====
-- A token of backend/internal/auth/token.go in a header that backend/internal/middleware/auth.go reads.
use real_time_chat_app.Base.{
  ◌<◌, ◌≤◌, ◌+◌, ◌≡◌, ◌≢◌, ◌∙◌, refl, sym, ap, true, Option, none, some, [], ◌∷◌, ◌++◌,
  if◌then◌else◌, ltb, Text, codes, text_eq, text_eq_iff, arith, by_test,
}
use real_time_chat_app.Models.{Uuid, Time, User}
use real_time_chat_app.Strings.{equal_fold}
use real_time_chat_app.Auth.{
  Claims, SigningMethod, hs256, Jwt, claims_of, token_expiration, generate_token, key_for,
  valid_claims, parse_token,
}
use real_time_chat_app.Router.{bearer_token, authorize}
use real_time_chat_app.Router.Bearer.{AllVisible, bearer_token-append}

-- What golang-jwt promises of a text that it signed: it is three parts in base64url between dots, and
-- whoever has its key reads its claims until the time at which they expire.
pub record IsSigned (jwt : Jwt) (method : SigningMethod) (claims : Claims) (secret value : Text)
    : Type 0 where
  pub visible : AllVisible value
  pub full : value ≢ []
  pub reads :
      (key : SigningMethod → Option Text) (now end : Time)
      → key method ≡ some secret
      → claims.expires_at ≡ some end
      → now < end
      → jwt.parse key now value ≡ some (record { claims = claims; valid = true })
  pub expires :
      (key : SigningMethod → Option Text) (now end : Time)
      → claims.expires_at ≡ some end
      → end ≤ now
      → jwt.parse key now value ≡ none

authorize-given :
    (parse : Text → Option Claims) (header value : Text)
    → bearer_token header ≡ value
    → value ≢ []
    → authorize parse header ≡ parse value
unfolding authorize
authorize-given parse header value found full =
    by_test (λ b. (if b then none else parse (bearer_token header)) ≡ parse value)
      (text_eq (bearer_token header) [])
      (λ empty.
        let (equal, _) = text_eq_iff (bearer_token header) [] in
        absurd (full (sym found ∙ equal empty)))
      (λ some_token. ap parse found)

module _ (jwt : Jwt) (uuid_string : Uuid → Text) (secret : Text) (issued : Time) (user : User) where
  parse_token-signed :
      (value : Text) (now : Time)
      → IsSigned jwt hs256 (claims_of uuid_string issued user) secret value
      → parse_token jwt secret now value ≡ (
          if ltb now (issued + token_expiration)
          then some (claims_of uuid_string issued user)
          else none)
  unfolding parse_token
  parse_token-signed value now signed =
      by_test
        (λ b.
          valid_claims (jwt.parse (key_for secret) now value)
          ≡ (if b then some (claims_of uuid_string issued user) else none))
        (ltb now (issued + token_expiration))
        (λ early.
          ap valid_claims (
            signed.reads (key_for secret) now (issued + token_expiration) refl refl (ground arith)))
        (λ late.
          ap valid_claims
            (signed.expires (key_for secret) now (issued + token_expiration) refl (ground arith)))

  -- While golang-jwt keeps what it promises of what it signs: the token that `GenerateToken` made for a user,
  -- behind the scheme Bearer in any case and a space, makes `Auth` let requests through as that user for
  -- eight hours, and no longer.
  pub generate_token-authorize :
      (scheme value : Text) (now : Time)
      → AllVisible scheme
      → equal_fold scheme (codes "Bearer") ≡ true
      → generate_token jwt uuid_string secret issued user ≡ some value
      → ((given : Text)
          → jwt.sign hs256 (claims_of uuid_string issued user) secret ≡ some given
          → IsSigned jwt hs256 (claims_of uuid_string issued user) secret given)
      → authorize (parse_token jwt secret now) (scheme ++ (0x20 ∷ value)) ≡ (
          if ltb now (issued + token_expiration)
          then some (claims_of uuid_string issued user)
          else none)
  unfolding generate_token
  generate_token-authorize scheme value now s folds made promise =
      let signed = promise value made in
      authorize-given (parse_token jwt secret now) (scheme ++ (0x20 ∷ value)) value
        (bearer_token-append scheme value s folds signed.visible signed.full) signed.full
      ∙ parse_token-signed value now signed
