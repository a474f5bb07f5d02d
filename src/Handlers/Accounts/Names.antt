-- ===== src/Handlers/Accounts/Names.antt =====
-- What the requests on accounts of backend/internal/handlers/auth.go do to the accounts.
use real_time_chat_app.Base.{
  ℕ, ◌≤◌, Bool, true, false, Option, none, some, List, [], ◌∷◌, ◌++◌, Text, length, ◌≡◌, refl, sym,
  ◌∙◌, arith, ap, subst,
}
use real_time_chat_app.Models.{Uuid, User}
use real_time_chat_app.Store.{
  World, Db, Error, Result, ok, err, attempt, ◌>>=◌, query, pure, fail, guard,
}
use real_time_chat_app.Store.Effect.{Post, Reads-query}
use real_time_chat_app.Repository.Users.{insert_user, find_by_email}
use real_time_chat_app.Repository.Users as UserRepository
use real_time_chat_app.TrimSpace.{trim_space}
use real_time_chat_app.Service.Calls.{discard}
use real_time_chat_app.Service.Users
use real_time_chat_app.Service.Users.{account, login_found, signed, normalize_email, search_limit}
use real_time_chat_app.Service.Users.Unique.{AreUnique, insert_user-AreUnique, register-keeps}
use real_time_chat_app.Handlers.{
  success, unauthorized, bad_request, created, Status, Reply, Request, require, rendered, respond,
  silent, authenticated,
}
use real_time_chat_app.Handlers.Accounts.{
  new_user_response, new_user_responses, new_login_response, validate_login_request,
  register_failure, RegisterRequest, LoginRequest, validate_register_request, if_valid, register,
  login, me, search, positive_int_query,
}

-- Every name has three bytes at least.
abbrev pub AllNamed : List User → Type 0
AllNamed [] = Unit {0}
AllNamed (user ∷ users) = (3 ≤ length user.username) × AllNamed users

AllNamed-append_one :
    (users : List User) (user : User)
    → AllNamed users
    → 3 ≤ length user.username
    → AllNamed (users ++ user ∷ [])
AllNamed-append_one [] user all named = (named, tt)
AllNamed-append_one (x ∷ users) user (first, all) named =
    (first, AllNamed-append_one users user all named)

abbrev pub AreAccounts : Db → Type 0
AreAccounts db = AreUnique db × AllNamed db.users

insert_user-AllNamed :
    (given row : User) (db after : Db)
    → 3 ≤ length given.username
    → AllNamed db.users
    → insert_user given db ≡ ok (row, after)
    → AllNamed after.users
unfolding insert_user
insert_user-AllNamed given row db after named all e =
    let users : after.users ≡ db.users ++ row ∷ [] = ground arith in
    let same : row.username ≡ given.username = ground arith in
    rw users (AllNamed-append_one db.users row all (rw same named))

validate_register_request-named :
    (req : RegisterRequest)
    → validate_register_request req ≡ []
    → 3 ≤ length (trim_space req.username)
unfolding validate_register_request
validate_register_request-named req valid = ground arith

module _ {A B : Type 0} where
  respond-world :
      (status : Status) (failure : Error → Status) (response : A → B) (r : Result A × World)
      → (respond status failure silent (rendered response r)).1 ≡ discard r
  unfolding respond
  respond-world status failure response (ok a, w) = refl
  respond-world status failure response (err e, w) = refl

-- What a read leaves of the database.
read_db :
    {A : Type 0} (db : Db) (R : A → Type 0) (r : Result A × World)
    → Post db (λ a after. (after ≡ db) × R a) r
    → (discard r).db ≡ db
read_db db R (ok a, w) post = post.0
read_db db R (err e, w) post = post

query-db : {A : Type 0} (q : Db → Result A) (w : World) → (discard (query q w)).db ≡ w.db
query-db q w = read_db w.db (λ a. q w.db ≡ ok a) (query q w) ((Reads-query w.db q).at w refl)

login_found-world :
    (check : Text → Text → Bool) (sign : User → Option Text) (password : Text) (found : Result User)
    (w : World)
    → discard (login_found check sign password found w) ≡ w
unfolding login_found signed guard pure fail ◌>>=◌
login_found-world check sign password (err e) w = refl
login_found-world check sign password (ok user) w = ground arith

module _ (to_lower : Text → Text) (check : Text → Text → Bool) (sign : User → Option Text) where
  login-db :
      (email password : Text) (w : World)
      → (discard (Users.login to_lower check sign email password w)).db ≡ w.db
  unfolding Users.login attempt ◌>>=◌ find_by_email
  login-db email password w =
      ap (λ (w' : World). w'.db) (login_found-world check sign password _ _) ∙ query-db _ w

guarded-db :
    {A : Type 0} (b : Bool) (e : Error) (q : Db → Result A) (w : World)
    → (discard ((guard b e >>= λ _. query q) w)).db ≡ w.db
unfolding guard pure fail ◌>>=◌
guarded-db true e q w = query-db q w
guarded-db false e q w = refl

search-db :
    (ilike collate : Text → Text → Bool) (given : Text) (limit : ℕ) (w : World)
    → (discard (Users.search ilike collate given limit w)).db ≡ w.db
unfolding Users.search UserRepository.search
search-db ilike collate given limit w = guarded-db _ _ _ w

find_by_id-db : (u : Uuid) (w : World) → (discard (Users.find_by_id u w)).db ≡ w.db
unfolding Users.find_by_id UserRepository.find_by_id
find_by_id-db u w = query-db _ w

-- A request on accounts, with the identifier of a new account and the hash with the salt of the call.
pub data AccountRoute : Type 0 where
  register_user : (Text → Option Text) → Uuid → Option RegisterRequest → AccountRoute
  log_in : Option LoginRequest → AccountRoute
  current_user : Request → AccountRoute
  search_users : Request → AccountRoute

module _ {A B : Type 0} where
  -- A reply that is made behind a required value leaves what the handler leaves.
  pub require-db :
      (o : Option A) (status : Status) (next : A → World → Reply B × World) (w : World)
      → ((a : A) → (next a w).1.db ≡ w.db)
      → (require o status next w).1.db ≡ w.db
  unfolding require
  require-db none status next w h = refl
  require-db (some a) status next w h = h a

if_valid-db :
    {B : Type 0} (message : Text) (next : World → Reply B × World) (w : World)
    → (next w).1.db ≡ w.db
    → (if_valid message next w).1.db ≡ w.db
if_valid-db [] next w h = h
if_valid-db (c ∷ message) next w h = refl

module _ (parse : Text → Option Uuid) (to_lower : Text → Text) (check : Text → Text → Bool)
    (sign : User → Option Text) (ilike collate : Text → Text → Bool) where
  -- The world after a request.
  unfoldable pub serve_account : AccountRoute → World → World
  serve_account (register_user hash new_id body) w = (register to_lower hash new_id body w).1
  serve_account (log_in body) w = (login to_lower check sign body w).1
  serve_account (current_user request) w = (me parse request w).1
  serve_account (search_users request) w = (search ilike collate request w).1

  unfoldable pub serve_accounts : List AccountRoute → World → World
  serve_accounts [] w = w
  serve_accounts (route ∷ routes) w = serve_accounts routes (serve_account route w)

  valid-AreAccounts :
      (hash : Text → Option Text) (new_id : Uuid) (req : RegisterRequest) (message : Text)
      (w : World)
      → validate_register_request req ≡ message
      → AreAccounts w.db
      → AreAccounts
          (if_valid message
            (λ w'. respond created register_failure silent (
              rendered new_user_response
                (Users.register to_lower hash new_id req.username req.email req.password w')))
            w).1.db
  valid-AreAccounts hash new_id req [] w valid holds = rw respond-world (
      register-keeps AreAccounts to_lower hash new_id req.username req.email req.password w holds
        λ hashed row after e.
          let given = account to_lower new_id req.username req.email hashed in
          (
            insert_user-AreUnique given row w.db after holds.0 e,
            insert_user-AllNamed given row w.db after (validate_register_request-named req valid)
                holds.1 e,
          ))
  valid-AreAccounts hash new_id req (c ∷ message) w valid holds = holds

  login_reply-db :
      (body : Option LoginRequest) (w : World) → (login to_lower check sign body w).1.db ≡ w.db
  unfolding login
  login_reply-db body w = require-db body bad_request _ w λ req.
      if_valid-db (validate_login_request req) _ w (
        ap (λ (w' : World). w'.db) (respond-world success _ new_login_response _)
        ∙ login-db to_lower check sign req.email req.password w)

  me-db : (request : Request) (w : World) → (me parse request w).1.db ≡ w.db
  unfolding me
  me-db request w = require-db (authenticated parse request) unauthorized _ w λ u.
      ap (λ (w' : World). w'.db) (respond-world success _ new_user_response _) ∙ find_by_id-db u w

  search_reply-db : (request : Request) (w : World) → (search ilike collate request w).1.db ≡ w.db
  unfolding search
  search_reply-db request w = require-db (positive_int_query request.limit) bad_request _ w λ limit.
      ap (λ (w' : World). w'.db) (respond-world success _ new_user_responses _)
      ∙ search-db ilike collate request.search limit w

  serve_account-AreAccounts :
      (route : AccountRoute) (w : World) → AreAccounts w.db → AreAccounts (serve_account route w).db
  unfolding serve_account register require
  serve_account-AreAccounts (register_user hash new_id none) w holds = holds
  serve_account-AreAccounts (register_user hash new_id (some req)) w holds =
      valid-AreAccounts hash new_id req (validate_register_request req) w refl holds
  serve_account-AreAccounts (log_in body) w holds =
      subst AreAccounts (sym (login_reply-db body w)) holds
  serve_account-AreAccounts (current_user request) w holds =
      subst AreAccounts (sym (me-db request w)) holds
  serve_account-AreAccounts (search_users request) w holds =
      subst AreAccounts (sym (search_reply-db request w)) holds

  -- Every sequence of requests on accounts keeps what the accounts satisfy: no two have the same name
  -- or the same address, and every name has three bytes at least.
  pub serve_accounts-AreAccounts :
      (routes : List AccountRoute) (w : World)
      → AreAccounts w.db
      → AreAccounts (serve_accounts routes w).db
  unfolding serve_accounts
  serve_accounts-AreAccounts [] w holds = holds
  serve_accounts-AreAccounts (route ∷ routes) w holds =
      serve_accounts-AreAccounts routes (serve_account route w)
        (serve_account-AreAccounts route w holds)
