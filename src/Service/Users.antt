-- ===== src/Service/Users.antt =====
-- backend/internal/services/user_service.go: accounts. `uuid.New()` is an argument, and so are the
-- libraries behind it: `to_lower` is `strings.ToLower`, `hash` and `check` are bcrypt's, `hash` with
-- the salt of the call, and `sign` makes the signed token of a user at the time of the call.
pub mod Login
pub mod Unique
use real_time_chat_app.Base.{
  ℕ, Bool, not, Option, none, some, List, [], ◌==◌, ltb, if◌then◌else◌, Text, length,
}
use real_time_chat_app.Models.{Uuid, User}
use real_time_chat_app.Store.{
  Store, Result, ok, err, unique_violation, email_already_registered, invalid_credentials,
  invalid_user_search_query, password_hashing, token_signing, pure, fail, attempt, guard, ◌>>=◌,
  ◌>>◌,
}
use real_time_chat_app.TrimSpace.{trim_space}
use real_time_chat_app.Repository.Users.{
  create as insert_new, find_by_id as find_user_by_id, find_by_email, search as search_users,
}

abbrev pub default_user_search_limit : ℕ
default_user_search_limit = 20

abbrev pub max_user_search_limit : ℕ
max_user_search_limit = 20

abbrev pub min_user_search_length : ℕ
min_user_search_length = 2

-- `LoginResult`
pub record LoginResult : Type 0 where
  pub user : User
  pub token : Text

-- `strings.TrimSpace(strings.ToLower(email))`
abbrev pub normalize_email : (Text → Text) → Text → Text
normalize_email to_lower email = trim_space (to_lower email)

-- `isUniqueViolation` and what `Register` does of it.
unfoldable pub registered : Result User → Store User
registered (ok user) = pure user
registered (err unique_violation) = fail email_already_registered
registered (err e) = fail e

abbrev pub account : (Text → Text) → Uuid → Text → Text → Text → User
account to_lower new_id username email password_hash = record {
  id = new_id;
  username = trim_space username;
  email = normalize_email to_lower email;
  password_hash = password_hash;
  created_at = 0;
  updated_at = 0;
}

-- `Register` after the hashing.
unfoldable pub register_hashed : (Text → Text) → Uuid → Text → Text → Option Text → Store User
unfolding registered
register_hashed to_lower new_id username email none = fail password_hashing
register_hashed to_lower new_id username email (some password_hash) = do
  outcome ← attempt (insert_new (account to_lower new_id username email password_hash))
  registered outcome

unfoldable pub register :
    (Text → Text) → (Text → Option Text) → Uuid → Text → Text → Text → Store User
unfolding register_hashed
register to_lower hash new_id username email password =
    register_hashed to_lower new_id username email (hash password)

-- `Login` after the signing.
unfoldable pub signed : User → Option Text → Store LoginResult
signed user none = fail token_signing
signed user (some token) = pure (record { user = user; token = token })

-- `Login` with the outcome of the look-up, any error of which is the same to the caller.
unfoldable pub login_found :
    (Text → Text → Bool) → (User → Option Text) → Text → Result User → Store LoginResult
unfolding signed
login_found check sign password (err e) = fail invalid_credentials
login_found check sign password (ok user) = do
  guard (check password user.password_hash) invalid_credentials
  signed user (sign user)

unfoldable pub login :
    (Text → Text) → (Text → Text → Bool) → (User → Option Text) → Text → Text → Store LoginResult
unfolding login_found
login to_lower check sign email password = do
  found ← attempt (find_by_email (normalize_email to_lower email))
  login_found check sign password found

unfoldable pub find_by_id : Uuid → Store User
find_by_id u = find_user_by_id u

abbrev pub search_limit : ℕ → ℕ
search_limit limit =
    if limit == 0
    then default_user_search_limit
    else if ltb max_user_search_limit limit
    then max_user_search_limit
    else limit

-- The limit is one that the handler has made non-negative.
unfoldable pub search : (Text → Text → Bool) → (Text → Text → Bool) → Text → ℕ → Store (List User)
search ilike collate given limit = do
  let text = trim_space given
  guard (not (ltb (length text) min_user_search_length)) invalid_user_search_query
  search_users ilike collate text (search_limit limit)
