-- ===== src/Handlers/Accounts/SignIn.antt =====
-- Registering and then logging in through the handlers of backend/internal/handlers/auth.go.
use real_time_chat_app.Base.{Bool, true, Option, some, [], ◌∷◌, Text, ◌≡◌, refl, ◌∙◌, arith, ap}
use real_time_chat_app.Models.{Uuid, User}
use real_time_chat_app.Store.{World, Result, ok, err}
use real_time_chat_app.Service.Users
use real_time_chat_app.Service.Users.{LoginResult}
use real_time_chat_app.Service.Users.Login.{register-login}
use real_time_chat_app.Handlers.{
  success, created, unauthorized, Reply, require, rendered, respond, silent,
}
use real_time_chat_app.Handlers.Accounts.{
  RegisterRequest, LoginRequest, UserResponse, new_user_response, new_login_response,
  validate_register_request, validate_login_request, register_failure, if_valid, register, login,
}

abbrev pub credentials : RegisterRequest → LoginRequest
credentials req = record { email = req.email; password = req.password }

-- What passes the checks of a registration passes those of a login.
validate_login_request-credentials :
    (req : RegisterRequest)
    → validate_register_request req ≡ []
    → validate_login_request (credentials req) ≡ []
unfolding validate_register_request validate_login_request
validate_login_request-credentials req valid = ground arith

abbrev pub registered_reply : UserResponse → Reply UserResponse
registered_reply response = record { status = created; body = some response; notices = [] }

created_outcome :
    (outcome : Result User × World) (after : World) (response : UserResponse)
    → ◌≡◌ {A = Reply UserResponse × World}
        (respond created register_failure silent (rendered new_user_response outcome))
        (registered_reply response, after)
    → (user : User) × (◌≡◌ {A = Result User × World} outcome (ok user, after))
      × (new_user_response user ≡ response)
unfolding respond
created_outcome (ok user, w') after response e = (user, ground arith, ground arith)
created_outcome (err x, w') after response e = cc

-- The account behind a reply that reports one.
created_account :
    (message : Text) (m : World → Result User × World) (w after : World) (response : UserResponse)
    → ◌≡◌ {A = Reply UserResponse × World}
        (if_valid message
          (λ w'. respond created register_failure silent (rendered new_user_response (m w')))
          w)
        (registered_reply response, after)
    → (user : User) × (message ≡ [])
      × (◌≡◌ {A = Result User × World} (m w) (ok user, after))
      × (new_user_response user ≡ response)
created_account [] m w after response e =
    let (user, made, shown) = created_outcome (m w) after response e in (user, refl, made, shown)
created_account (c ∷ message) m w after response e = cc

signed_reply :
    (outcome : Result LoginResult × World) (result : LoginResult)
    → outcome.0 ≡ ok result
    → (respond success (λ e. unauthorized) silent (rendered new_login_response outcome)).0
      ≡ record { status = success; body = some (new_login_response result); notices = [] }
unfolding respond
signed_reply (ok found, w) result e = ground arith
signed_reply (err x, w) result e = cc

module _ (to_lower : Text → Text) (hash : Text → Option Text) (check : Text → Text → Bool)
    (sign : User → Option Text) where
  -- Who has registered through the handler can log in through the handler with the same address and
  -- password, and the reply shows the same account and its token: while the database answers, bcrypt
  -- accepts the hash that it made of the password, and the token of the account can be signed.
  pub register-login-success :
      (new_id : Uuid) (req : RegisterRequest) (response : UserResponse) (hashed : Text)
      (token : User → Text) (w after : World)
      → hash req.password ≡ some hashed
      → check req.password hashed ≡ true
      → ((user : User) → new_user_response user ≡ response → sign user ≡ some (token user))
      → w.outages ≡ []
      → register to_lower hash new_id (some req) w ≡ (registered_reply response, after)
      → (user : User) × (new_user_response user ≡ response)
        × ((login to_lower check sign (some (credentials req)) after).0 ≡ record {
          status = success;
          body = some (record { user = response; token = token user });
          notices = [];
        })
  unfolding register login require
  register-login-success new_id req response hashed token w after hash_eq check_eq sign_eq up e =
      let m = λ (w' : World).
        Users.register to_lower hash new_id req.username req.email req.password w' in
      let (user, valid, made, shown) =
        created_account (validate_register_request req) m w after response e in
      let entered =
        register-login to_lower hash check sign new_id req.username req.email req.email req.password
          hashed (token user) user w after hash_eq check_eq (sign_eq user shown) refl up made in
      (
        user,
        shown,
        rw (validate_login_request-credentials req valid) (
            signed_reply _ _ entered
            ∙ ap
                (λ (seen : UserResponse). record {
                  status = success;
                  body = some (record { user = seen; token = token user });
                  notices = [];
                })
                shown),
      )
