-- ===== src/Service/Messages.antt =====
-- backend/internal/services/message_service.go. `uuid.New()` is an argument; a limit is an `int`
-- that the handler has made non-negative.
pub mod History
use real_time_chat_app.Base.{
  ℕ, Bool, false, not, Option, none, some, List, [], ◌==◌, ltb, if◌then◌else◌, Text, length,
  text_eq,
}
use real_time_chat_app.Models.{Uuid, Time, Message}
use real_time_chat_app.Store.{
  Store, conversation_access_denied, invalid_message_content, message_content_too_long,
  message_ownership_denied, guard, ◌>>=◌, ◌>>◌,
}
use real_time_chat_app.TrimSpace.{trim_space}
use real_time_chat_app.Repository.Participants
use real_time_chat_app.Repository.Messages.{create as insert_new}
use real_time_chat_app.Repository.Pages

abbrev pub default_message_limit : ℕ
default_message_limit = 50

abbrev pub max_message_limit : ℕ
max_message_limit = 100

-- In bytes, after trimming.
abbrev pub max_message_length : ℕ
max_message_length = 2000

unfoldable pub ensure_participant : Uuid → Uuid → Store (Unit {0})
ensure_participant c u = do
  is_participant ← Participants.is_participant c u
  guard is_participant conversation_access_denied

unfoldable pub create : Uuid → Uuid → Uuid → Text → Store Message
create new_id c sender given = do
  ensure_participant c sender
  let content = trim_space given
  guard (not (text_eq content [])) invalid_message_content
  guard (not (ltb max_message_length (length content))) message_content_too_long
  insert_new (record {
    id = new_id;
    conversation_id = c;
    sender_id = some sender;
    content = content;
    created_at = 0;
    updated_at = 0;
  })

abbrev pub at_least_default : ℕ → ℕ
at_least_default limit = if limit == 0 then default_message_limit else limit

unfoldable pub clamp_limit : ℕ → ℕ
clamp_limit limit =
    if ltb max_message_limit (at_least_default limit)
    then max_message_limit
    else at_least_default limit

unfoldable pub list_for_conversation : Uuid → Uuid → Option Time → ℕ → Store (List Message)
unfolding clamp_limit
list_for_conversation c u before limit = do
  ensure_participant c u
  Pages.list_for_conversation c before (clamp_limit limit)

-- `message.SenderID != nil && *message.SenderID == input.UserID`
abbrev pub sent_by : Uuid → Option Uuid → Bool
sent_by u none = false
sent_by u (some s) = s == u

unfoldable pub update : Uuid → Uuid → Uuid → Text → Store Message
update c m u given = do
  ensure_participant c u
  message ← Pages.find_by_id m
  guard (message.conversation_id == c) message_ownership_denied
  guard (sent_by u message.sender_id) message_ownership_denied
  let content = trim_space given
  guard (not (text_eq content [])) invalid_message_content
  guard (not (ltb max_message_length (length content))) message_content_too_long
  Pages.update_content m content

unfoldable pub delete : Uuid → Uuid → Uuid → Store (Unit {0})
delete c m u = do
  ensure_participant c u
  message ← Pages.find_by_id m
  guard (message.conversation_id == c) message_ownership_denied
  guard (sent_by u message.sender_id) message_ownership_denied
  Pages.delete m
