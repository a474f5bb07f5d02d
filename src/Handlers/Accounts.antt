-- ===== src/Handlers/Accounts.antt =====
-- backend/internal/handlers/auth.go, a function for each handler, and the response of
-- backend/internal/models/user_response.go. `parse` is `uuid.Parse`; the other arguments are those of
-- the services.
pub mod SignIn
pub mod Names
pub mod Online
use real_time_chat_app.Base.{
  ℕ, Bool, true, false, not, Option, none, some, List, [], ◌∷◌, ◌++◌, map, ltb, if◌then◌else◌, Text,
  codes, text_eq, length,
}
use real_time_chat_app.Models.{Uuid, Time, User}
use real_time_chat_app.Store.{
  World, Error, no_rows, email_already_registered, invalid_user_search_query, Result, ok, err,
}
use real_time_chat_app.Strings.{split, has_byte}
use real_time_chat_app.TrimSpace.{trim_space}
use real_time_chat_app.Service.Users
use real_time_chat_app.Service.Users.{LoginResult}
use real_time_chat_app.Presence.{Presence, statuses, put}
use real_time_chat_app.Handlers.{
  Status, success, created, bad_request, unauthorized, not_found, conflict, internal_error, Reply,
  Request, authenticated, refused, rendered, respond, silent, require,
}
use real_time_chat_app.Handlers.Messages.{positive_int}

pub record RegisterRequest : Type 0 where
  pub username : Text
  pub email : Text
  pub password : Text

pub record LoginRequest : Type 0 where
  pub email : Text
  pub password : Text

-- `UserResponse` has no field for the hash of the password.
pub record UserResponse : Type 0 where
  pub id : Uuid
  pub username : Text
  pub email : Text
  pub created_at : Time
  pub updated_at : Time

pub record LoginResponse : Type 0 where
  pub user : UserResponse
  pub token : Text

pub record PresenceResponse : Type 0 where
  pub user_id : Uuid
  pub online : Bool

abbrev pub new_user_response : User → UserResponse
new_user_response user = record {
  id = user.id;
  username = user.username;
  email = user.email;
  created_at = user.created_at;
  updated_at = user.updated_at;
}

abbrev pub new_user_responses : List User → List UserResponse
new_user_responses users = map new_user_response users

abbrev pub new_login_response : LoginResult → LoginResponse
new_login_response result = record { user = new_user_response result.user; token = result.token }

-- `validateRegisterRequest`; the empty text is no error.
unfoldable pub validate_register_request : RegisterRequest → Text
unfolding text_eq has_byte
validate_register_request req =
    if text_eq (trim_space req.username) []
    then codes "username is required"
    else if ltb (length (trim_space req.username)) 3
    then codes "username must be at least 3 characters"
    else if text_eq (trim_space req.email) []
    then codes "email is required"
    else if not (has_byte b'@' (trim_space req.email))
    then codes "email must be valid"
    else if text_eq req.password []
    then codes "password is required"
    else if ltb (length req.password) 8
    then codes "password must be at least 8 characters"
    else []

unfoldable pub validate_login_request : LoginRequest → Text
unfolding text_eq has_byte
validate_login_request req =
    if text_eq (trim_space req.email) []
    then codes "email is required"
    else if not (has_byte b'@' (trim_space req.email))
    then codes "email must be valid"
    else if text_eq req.password []
    then codes "password is required"
    else []

-- `positiveIntQuery`
unfoldable pub positive_int_query : Text → Option ℕ
unfolding positive_int
positive_int_query value = if text_eq value [] then some 0 else positive_int value

abbrev pub register_failure : Error → Status
register_failure email_already_registered = conflict
register_failure _ = internal_error

abbrev pub me_failure : Error → Status
me_failure no_rows = not_found
me_failure _ = internal_error

abbrev pub search_failure : Error → Status
search_failure invalid_user_search_query = bad_request
search_failure _ = internal_error

module _ {B : Type 0} where
  -- `if validationError != "" { c.JSON(http.StatusBadRequest, ...); return }`
  abbrev pub if_valid : Text → (World → Reply B × World) → World → Reply B × World
  if_valid [] next w = next w
  if_valid (c ∷ message) next w = (refused bad_request, w)

module _ (to_lower : Text → Text) where
  unfoldable pub register :
      (Text → Option Text) → Uuid → Option RegisterRequest → World → Reply UserResponse × World
  unfolding validate_register_request
  register hash new_id body = require body bad_request λ req.
      if_valid (validate_register_request req) λ w. respond created register_failure silent (
        rendered new_user_response
          (Users.register to_lower hash new_id req.username req.email req.password w))

  unfoldable pub login :
      (Text → Text → Bool)
      → (User → Option Text)
      → Option LoginRequest
      → World
      → Reply LoginResponse × World
  unfolding validate_login_request
  login check sign body = require body bad_request λ req. if_valid (validate_login_request req) λ w.
      respond success (λ e. unauthorized) silent
        (rendered new_login_response (Users.login to_lower check sign req.email req.password w))

unfoldable pub me : (Text → Option Uuid) → Request → World → Reply UserResponse × World
me parse request = require (authenticated parse request) unauthorized λ user w.
    respond success me_failure silent (rendered new_user_response (Users.find_by_id user w))

unfoldable pub search :
    (Text → Text → Bool)
    → (Text → Text → Bool)
    → Request
    → World
    → Reply (List UserResponse) × World
unfolding positive_int_query
search ilike collate request = require (positive_int_query request.limit) bad_request λ limit w.
    respond success search_failure silent
      (rendered new_user_responses (Users.search ilike collate request.search limit w))

-- The loop over the identifiers of `Presence`; `none` is the reply to one that is no UUID.
unfoldable pub parse_ids : (Text → Option Uuid) → List Text → List Uuid → Option (List Uuid)
parse_ids parse [] user_ids = some user_ids
parse_ids parse (id ∷ ids) user_ids = elim (text_eq (trim_space id) []) [
  | true ↦ parse_ids parse ids user_ids
  | false ↦ elim (parse (trim_space id)) [
    | none ↦ none
    | some u ↦ parse_ids parse ids (user_ids ++ u ∷ [])
  ]
]

-- The Go map with the statuses.
unfoldable pub as_map : (Uuid → Bool) → List (Uuid × Bool) → Uuid → Bool
as_map m [] = m
as_map m ((u, online) ∷ found) = as_map (put m u online) found

unfoldable pub presence_responses : List Uuid → (Uuid → Bool) → List PresenceResponse
presence_responses user_ids m = map (λ u. record { user_id = u; online = m u }) user_ids

abbrev pub presence_reply :
    List Uuid → Option (List (Uuid × Bool)) × Presence → Reply (List PresenceResponse) × Presence
unfolding as_map presence_responses
presence_reply user_ids (none, s) = (refused internal_error, s)
presence_reply user_ids (some found, s) = (
  record {
    status = success;
    body = some (presence_responses user_ids (as_map (λ u. false) found));
    notices = [];
  },
  s,
)

abbrev pub presence_of : Option (List Uuid) → Presence → Reply (List PresenceResponse) × Presence
presence_of none s = (refused bad_request, s)
presence_of (some user_ids) s = presence_reply user_ids (statuses user_ids s)

-- `Presence`, at the parameter `ids`.
unfoldable pub presence :
    (Text → Option Uuid) → Text → Presence → Reply (List PresenceResponse) × Presence
unfolding parse_ids
presence parse ids s = presence_of (parse_ids parse (split b',' ids) []) s
