-- ===== src/Handlers/Messages.antt =====
-- backend/internal/handlers/messages.go, a function for each handler. `parse_time` is `time.Parse`
-- with the layout RFC 3339.
use real_time_chat_app.Base.{
  ℕ, ◌+◌, ◌*◌, ◌-◌, ◌&&◌, Option, none, some, List, [], ◌∷◌, ltb, leb, ◌==◌, if◌then◌else◌, Text,
  text_eq,
}
use real_time_chat_app.Models.{Uuid, Time}
use real_time_chat_app.Models.Responses.{
  MessageResponse, new_message_response, new_message_responses,
}
use real_time_chat_app.Store.{
  World, Error, no_rows, conversation_access_denied, invalid_message_content,
  message_content_too_long, message_ownership_denied,
}
use real_time_chat_app.Service
use real_time_chat_app.Handlers.{
  Status, success, created, no_content, bad_request, unauthorized, forbidden, not_found,
  internal_error, message_created, message_updated, message_deleted, Reply, Request, authenticated,
  rendered, respond, silent, require,
}

-- `strconv.Atoi` on digits, with what the digits before them make.
unfoldable pub digits : ℕ → Text → Option ℕ
digits n [] = some n
digits n (a ∷ s) =
    let rest = digits (n * 10 + (a - 0x30)) s in if leb 0x30 a && leb a 0x39 then rest else none

-- A number that is positive and an `int` of 64 bits.
abbrev pub in_range : Option ℕ → Option ℕ
in_range none = none
in_range (some n) = if ltb 0 n && ltb n 0x8000000000000000 then some n else none

-- `strconv.Atoi`, where the result is positive: behind a minus there is no such result.
unfoldable pub positive_int : Text → Option ℕ
unfolding digits
positive_int [] = none
positive_int (a ∷ []) = in_range (digits 0 (a ∷ []))
positive_int (a ∷ b ∷ s) = in_range (digits 0 (if a == 0x2b then b ∷ s else a ∷ b ∷ s))

-- `limitQuery`: 0 stands for no limit given.
unfoldable pub limit_query : Text → Option ℕ
unfolding positive_int
limit_query value = if text_eq value [] then some 0 else positive_int value

abbrev pub given_time : Option Time → Option (Option Time)
given_time none = none
given_time (some t) = some (some t)

-- `beforeQuery`
unfoldable pub before_query : (Text → Option Time) → Text → Option (Option Time)
before_query parse_time value =
    if text_eq value [] then some none else given_time (parse_time value)

abbrev pub create_failure : Error → Status
create_failure conversation_access_denied = forbidden
create_failure invalid_message_content = bad_request
create_failure message_content_too_long = bad_request
create_failure no_rows = not_found
create_failure _ = internal_error

abbrev pub list_failure : Error → Status
list_failure conversation_access_denied = forbidden
list_failure no_rows = not_found
list_failure _ = internal_error

abbrev pub delete_failure : Error → Status
delete_failure message_ownership_denied = forbidden
delete_failure e = list_failure e

abbrev pub update_failure : Error → Status
update_failure invalid_message_content = bad_request
update_failure message_content_too_long = bad_request
update_failure e = delete_failure e

module _ (parse : Text → Option Uuid) where
  unfoldable pub create : Uuid → Request → World → Reply MessageResponse × World
  create new_id request = require (authenticated parse request) unauthorized λ user.
      require (parse request.conversation_id) bad_request λ c.
        require request.body bad_request λ content w.
          respond created create_failure (λ response. (c, message_created response) ∷ [])
            (rendered new_message_response (Service.Messages.create new_id c user content w))

  unfoldable pub list :
      (Text → Option Time) → Request → World → Reply (List MessageResponse) × World
  unfolding limit_query before_query
  list parse_time request = require (authenticated parse request) unauthorized λ user.
      require (parse request.conversation_id) bad_request λ c.
        require (limit_query request.limit) bad_request λ limit.
          require (before_query parse_time request.before) bad_request λ before w.
            respond success list_failure silent (
              rendered new_message_responses
                (Service.Messages.list_for_conversation c user before limit w))

  unfoldable pub update : Request → World → Reply MessageResponse × World
  update request = require (authenticated parse request) unauthorized λ user.
      require (parse request.conversation_id) bad_request λ c.
        require (parse request.message_id) bad_request λ m.
          require request.body bad_request λ content w.
            respond success update_failure (λ response. (c, message_updated response) ∷ [])
              (rendered new_message_response (Service.Messages.update c m user content w))

  unfoldable pub delete : Request → World → Reply (Unit {0}) × World
  delete request = require (authenticated parse request) unauthorized λ user.
      require (parse request.conversation_id) bad_request λ c.
        require (parse request.message_id) bad_request λ m w.
          respond no_content delete_failure (λ _. (c, message_deleted m c) ∷ [])
            (Service.Messages.delete c m user w)
