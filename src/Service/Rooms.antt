-- ===== src/Service/Rooms.antt =====
-- backend/internal/services/conversation_service.go: conversations, and who may manage them.
-- `uuid.New()` is an argument.
pub mod Reading
pub mod Lookup
pub mod Reuse
use real_time_chat_app.Base.{
  ℕ, Bool, not, ◌||◌, none, some, List, [], ◌==◌, ltb, if◌then◌else◌, Text, length, text_eq,
}
use real_time_chat_app.Models.{
  Uuid, nil_id, room, direct, is_room, ParticipantRole, is_owner, is_admin, Conversation,
  ConversationParticipant, ConversationListItem,
}
use real_time_chat_app.Store.{
  Store, Result, ok, err, no_rows, invalid_room_name, invalid_direct_conversation,
  conversation_management_denied, pure, fail, attempt, guard, ◌>>=◌, ◌>>◌,
}
use real_time_chat_app.TrimSpace.{trim_space}
use real_time_chat_app.Repository.Conversations
use real_time_chat_app.Repository.Participants
use real_time_chat_app.Repository.Listing

abbrev pub min_room_name_length : ℕ
min_room_name_length = 3

abbrev pub max_room_name_length : ℕ
max_room_name_length = 80

-- `len` counts bytes.
abbrev pub bad_name : Text → Bool
bad_name name = ltb (length name) min_room_name_length || ltb max_room_name_length (length name)

unfoldable pub create_room : Uuid → Text → Uuid → Store Conversation
create_room new_id given creator = do
  let name = trim_space given
  guard (not (bad_name name)) invalid_room_name
  Conversations.create_room
      (record {
        id = new_id;
        type = room;
        name = some name;
        created_by = none;
        created_at = 0;
        updated_at = 0;
      })
      creator

-- The look-up's outcome: a direct conversation that is there is returned.
unfoldable pub reuse_or_create : Uuid → Uuid → Uuid → Result Conversation → Store Conversation
reuse_or_create new_id u v (ok existing) = pure existing
reuse_or_create new_id u v (err no_rows) =
    Conversations.create_direct
      (record {
        id = new_id;
        type = direct;
        name = none;
        created_by = none;
        created_at = 0;
        updated_at = 0;
      })
      u v
reuse_or_create new_id u v (err e) = fail e

unfoldable pub create_direct : Uuid → Uuid → Uuid → Store Conversation
unfolding reuse_or_create
create_direct new_id u v = do
  guard (not (u == nil_id || v == nil_id || u == v)) invalid_direct_conversation
  found ← attempt (Conversations.find_direct_between_users u v)
  reuse_or_create new_id u v found

unfoldable pub list_for_user : Uuid → Store (List ConversationListItem)
list_for_user u = Listing.list_for_user u

unfoldable pub search_for_user :
    (Text → Text → Bool) → Uuid → Text → Store (List ConversationListItem)
search_for_user ilike u text =
    if text_eq (trim_space text) []
    then Listing.list_for_user u
    else Listing.search_rooms_for_user ilike u (trim_space text)

unfoldable pub mark_read : Uuid → Uuid → Store ConversationParticipant
mark_read c u = do
  is_participant ← Participants.is_participant c u
  guard is_participant conversation_management_denied
  Participants.mark_read c u

abbrev pub may_manage : ParticipantRole → Bool
may_manage role = is_owner role || is_admin role

unfoldable pub update_room_name : Uuid → Uuid → Text → Store Conversation
update_room_name c actor given = do
  let name = trim_space given
  guard (not (bad_name name)) invalid_room_name
  conversation ← Conversations.find_by_id c
  guard (is_room conversation.type) conversation_management_denied
  acting ← Participants.find_participant c actor
  guard (may_manage acting.role) conversation_management_denied
  Conversations.update_room_name c name

unfoldable pub delete_room : Uuid → Uuid → Store (Unit {0})
delete_room c actor = do
  conversation ← Conversations.find_by_id c
  guard (is_room conversation.type) conversation_management_denied
  acting ← Participants.find_participant c actor
  guard (is_owner acting.role) conversation_management_denied
  Conversations.delete_conversation c
