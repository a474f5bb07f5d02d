-- ===== src/Tests/Accounts.antt =====
-- The theorems on the handlers of accounts at the sample states.
use real_time_chat_app.Base.{
  true, false, ◌+◌, ◌-◌, ◌≡◌, refl, arith, false, Option, none, some, [], ◌∷◌, ◌++◌, Text, codes,
  text_eq, map, find,
}
use real_time_chat_app.Models.{Uuid, User}
use real_time_chat_app.Store.{World, attempt, ◌>>=◌, statement, pure}
use real_time_chat_app.Store.Tables.{find_user}
use real_time_chat_app.Strings.{join, has_byte}
use real_time_chat_app.TrimSpace.{trim_space, trim_left, trim_reversed}
use real_time_chat_app.Service.Users
use real_time_chat_app.Service.Users.{register_hashed, registered}
use real_time_chat_app.Repository.Users.{create, insert_user}
use real_time_chat_app.Presence.{Presence}
use real_time_chat_app.Presence.Sessions.{run, opens, closes}
use real_time_chat_app.Handlers.{success, respond, require}
use real_time_chat_app.Handlers.Accounts.{
  RegisterRequest, new_user_response, register, login, presence, validate_register_request,
}
use real_time_chat_app.Handlers.Accounts.SignIn.{
  credentials, registered_reply, register-login-success,
}
use real_time_chat_app.Handlers.Accounts.Names.{
  AreAccounts, serve_accounts, register_user, log_in, serve_accounts-AreAccounts,
}
use real_time_chat_app.Handlers.Accounts.Online.{presence-run}
use real_time_chat_app.Tests.{start}

abbrev to_self : Text → Text
to_self s = s

abbrev to_hash : Text → Option Text
to_hash s = some s

abbrev name_token : User → Text
name_token user = user.username

abbrev sign_name : User → Option Text
sign_name user = some (name_token user)

abbrev cleo : RegisterRequest
cleo = record { username = codes " cleo"; email = codes "c@x "; password = codes "password" }

abbrev cleo_account : User
cleo_account = record {
  id = 4;
  username = codes "cleo";
  email = codes "c@x";
  password_hash = codes "password";
  created_at = 0;
  updated_at = 0;
}

abbrev with_cleo : World
with_cleo = record start { db = record start.db { users = start.db.users ++ cleo_account ∷ [] } }

cleo_registers :
    register to_self to_hash 4 (some cleo) start
    ≡ (registered_reply (new_user_response cleo_account), with_cleo)
unfolding register require respond validate_register_request Users.register register_hashed
    registered attempt ◌>>=◌ create statement insert_user find find_user trim_space trim_left
    trim_reversed text_eq has_byte pure
cleo_registers = refl

register-login-success_example :
    (user : User) × (new_user_response user ≡ new_user_response cleo_account)
    × ((login to_self text_eq sign_name (some (credentials cleo)) with_cleo).0 ≡ record {
      status = success;
      body = some (record { user = new_user_response cleo_account; token = name_token user });
      notices = [];
    })
unfolding text_eq
register-login-success_example =
    register-login-success to_self to_hash text_eq sign_name 4 cleo (new_user_response cleo_account)
      (codes "password") name_token start with_cleo refl refl (λ user e. refl) refl cleo_registers

abbrev short_name : RegisterRequest
short_name = record { username = codes "al"; email = codes "a@x"; password = codes "password" }

serve_accounts-AreAccounts_example :
    AreAccounts
      (serve_accounts
        (λ s. none)
        to_self
        text_eq
        sign_name
        text_eq
        text_eq
        (register_user to_hash 4 (some cleo)
          ∷ register_user to_hash 5 (some short_name)
          ∷ log_in (some (credentials cleo))
          ∷ [])
        start).db
unfolding find text_eq
serve_accounts-AreAccounts_example =
    serve_accounts-AreAccounts (λ s. none) to_self text_eq sign_name text_eq text_eq
      (register_user to_hash 4 (some cleo)
        ∷ register_user to_hash 5 (some short_name)
        ∷ log_in (some (credentials cleo))
        ∷ [])
      start (((refl, (refl, (refl, tt))), (refl, (refl, (refl, tt)))), (omega arith))

abbrev digit : Uuid → Text
digit u = (u + 0x30) ∷ []

abbrev parse_digit : Text → Option Uuid
parse_digit [] = none
parse_digit (c ∷ s) = some (c - 0x30)

abbrev nobody : Presence
nobody = record { counts = λ u. 0; online = λ u. false; outages = [] }

presence-run_example :
    (presence parse_digit
      (join (b',' ∷ []) (map digit (1 ∷ 2 ∷ [])))
      (run (opens 1 ∷ opens 2 ∷ closes 2 ∷ []) nobody)).0
    ≡ record {
      status = success;
      body =
          some
            (record { user_id = 1; online = true } ∷ record { user_id = 2; online = false } ∷ []);
      notices = [];
    }
unfolding text_eq has_byte trim_space trim_left trim_reversed
presence-run_example =
    presence-run parse_digit digit (1 ∷ 2 ∷ []) (opens 1 ∷ opens 2 ∷ closes 2 ∷ []) nobody []
      (
        record { read = refl; full = refl; trimmed = refl; lacks_comma = refl },
        (record { read = refl; full = refl; trimmed = refl; lacks_comma = refl }, tt),
      )
      (record { counted = λ u. refl; shown = λ u. refl; reliable = refl })
