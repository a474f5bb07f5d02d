-- ===== src/Router.antt =====
-- backend/internal/middleware/auth.go, and the routes of backend/internal/httpserver/router.go that
-- change conversations and messages, read from the database or show the presence of users, behind their
-- middleware. `parse_token` is `auth.ParseToken`, with the secret of the server and the time.
pub mod Guarded
pub mod Budgets
pub mod Hits
pub mod Limits
pub mod Bearer
pub mod Tokens
use real_time_chat_app.Base.{
  ℕ, Bool, true, false, Option, none, some, List, [], ◌∷◌, if◌then◌else◌, Text, codes, text_eq,
}
use real_time_chat_app.Strings.{fields, equal_fold}
use real_time_chat_app.Models.{Uuid, Time}
use real_time_chat_app.Auth.{Claims}
use real_time_chat_app.Store.{World}
use real_time_chat_app.RateLimit.{
  Redis, Outcome, unauthorized, internal_error, too_many, passed, rate_limit,
}
use real_time_chat_app.Handlers.{Request}
use real_time_chat_app.Handlers.Replies.{Answer}
use real_time_chat_app.Presence.{Presence}
use real_time_chat_app.Handlers.Accounts.{presence}
use real_time_chat_app.Handlers.Reading.{Reading, Libraries, serve_reading}
use real_time_chat_app.Handlers.Requests.{
  Route, create_room, create_direct, mark_read, update_room_name, delete_room, add_participant,
  update_participant_role, remove_participant, leave_room, transfer_ownership, create_message,
  update_message, delete_message, serve,
}

abbrev pub token_of : List Text → Text
token_of (scheme ∷ token ∷ []) = if equal_fold scheme (codes "Bearer") then token else []
token_of _ = []

-- `bearerToken`
unfoldable pub bearer_token : Text → Text
unfolding fields equal_fold
bearer_token header = token_of (fields header)

-- `Auth`; `none` is the reply to a header without a valid token.
unfoldable pub authorize : (Text → Option Claims) → Text → Option Claims
unfolding bearer_token text_eq
authorize parse_token header =
    if text_eq (bearer_token header) [] then none else parse_token (bearer_token header)

-- The rate limits that the routes of users share.
pub data Group : Type 0 where
  read_api write_api messages : Group

abbrev pub group_name : Group → Text
group_name read_api = codes "read_api"
group_name write_api = codes "write_api"
group_name messages = codes "messages"

abbrev pub group_limit : Group → ℕ
group_limit read_api = 3000
group_limit write_api = 600
group_limit messages = 240

-- `time.Minute`
abbrev pub minute : ℕ
minute = 60

-- A route: one that changes conversations and messages, one that reads from the database, or that of
-- the presence of users.
pub data Target : Type 0 where
  changes : Route → Target
  reads : Reading → Target
  shows_presence : Target

abbrev pub group_of_change : Route → Group
group_of_change create_room = write_api
group_of_change create_direct = write_api
group_of_change mark_read = read_api
group_of_change update_room_name = write_api
group_of_change delete_room = write_api
group_of_change add_participant = write_api
group_of_change update_participant_role = write_api
group_of_change remove_participant = write_api
group_of_change leave_room = write_api
group_of_change transfer_ownership = write_api
group_of_change create_message = messages
group_of_change update_message = messages
group_of_change delete_message = messages

unfoldable pub group_of : Target → Group
group_of (changes route) = group_of_change route
group_of (reads reading) = read_api
group_of shows_presence = read_api

pub record Backend : Type 0 where
  pub redis : Redis
  pub world : World
  pub presence : Presence

-- A middleware stopped the request, or the handler answered it.
pub data Response : Type 0 where
  stopped : Outcome → Response
  served : Answer → Response

-- A request on a route, at a time, with its header `Authorization`.
pub record Visit : Type 0 where
  pub route : Target
  pub header : Text
  pub now : Time
  pub new_id : Uuid
  pub request : Request

module _ (libs : Libraries) where
  unfoldable pub serve_target : Uuid → Target → Request → Backend → Answer × Backend
  serve_target n (changes route) q b =
      let (answer, w) = serve libs.parse n route q b.world in (answer, record b { world = w })
  serve_target n (reads reading) q b =
      let (answer, w) = serve_reading libs reading q b.world in (answer, record b { world = w })
  serve_target n shows_presence q b =
      let (reply, p) = presence libs.parse q.ids b.presence in
      (record { status = reply.status; notices = reply.notices }, record b { presence = p })

  -- `c.Next()` if the limit is not exceeded; the handler finds the claim of the token in the context.
  unfoldable pub after_limit : Text → Visit → Backend → Outcome × Redis → Response × Backend
  unfolding serve_target
  after_limit user_id v b (passed limit remaining, r) =
      let (answer, b') =
        serve_target v.new_id v.route (record v.request { user_id = some user_id })
          (record b { redis = r }) in
      (served answer, b')
  after_limit user_id v b (unauthorized, r) = (stopped unauthorized, record b { redis = r })
  after_limit user_id v b (internal_error, r) = (stopped internal_error, record b { redis = r })
  after_limit user_id v b (too_many limit remaining retry_after, r) =
      (stopped (too_many limit remaining retry_after), record b { redis = r })

  abbrev pub after_auth : Visit → Backend → Option Claims → Response × Backend
  unfolding after_limit
  after_auth v b none = (stopped unauthorized, b)
  after_auth v b (some claims) = after_limit claims.user_id v b (
      rate_limit (group_name (group_of v.route)) claims.user_id v.now
        (group_limit (group_of v.route)) minute b.redis)

  -- The chain of a route: `Auth`, `RateLimit` by the user, the handler.
  unfoldable pub serve_route : (Text → Option Claims) → Visit → Backend → Response × Backend
  unfolding after_limit
  serve_route parse_token v b = after_auth v b (authorize parse_token v.header)
