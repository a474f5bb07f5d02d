-- ===== src/Service/Members.antt =====
-- backend/internal/services/conversation_service.go: the participants of a conversation.
use real_time_chat_app.Base.{Bool, not, ◌&&◌, ◌||◌, List, ◌==◌}
use real_time_chat_app.Models.{
  Uuid, nil_id, is_room, ParticipantRole, member, is_owner, is_admin, is_member,
  ConversationParticipant,
}
use real_time_chat_app.Store.{
  Store, conversation_management_denied, invalid_participant, invalid_participant_role, guard,
  ◌>>=◌, ◌>>◌,
}
use real_time_chat_app.Repository.Conversations
use real_time_chat_app.Repository.Participants
use real_time_chat_app.Service.Rooms.{may_manage}

-- `input.UserID == uuid.Nil || input.ActorID == uuid.Nil || input.UserID == input.ActorID`
abbrev pub bad_pair : Uuid → Uuid → Bool
bad_pair user actor = user == nil_id || actor == nil_id || user == actor

unfoldable pub add_room_participant : Uuid → Uuid → Uuid → Store ConversationParticipant
add_room_participant c actor user = do
  guard (not (bad_pair user actor)) invalid_participant
  conversation ← Conversations.find_by_id c
  guard (is_room conversation.type) conversation_management_denied
  acting ← Participants.find_participant c actor
  guard (may_manage acting.role) conversation_management_denied
  Participants.add_participant c user member

unfoldable pub list_participants : Uuid → Uuid → Store (List ConversationParticipant)
list_participants c user = do
  is_participant ← Participants.is_participant c user
  guard is_participant conversation_management_denied
  Participants.list_participants c

unfoldable pub update_participant_role :
    Uuid → Uuid → Uuid → ParticipantRole → Store ConversationParticipant
update_participant_role c actor user role = do
  guard (not (bad_pair user actor)) invalid_participant
  guard (is_admin role || is_member role) invalid_participant_role
  acting ← Participants.find_participant c actor
  guard (is_owner acting.role) conversation_management_denied
  target ← Participants.find_participant c user
  guard (not (is_owner target.role)) conversation_management_denied
  Participants.update_participant_role c user role

unfoldable pub remove_participant : Uuid → Uuid → Uuid → Store (Unit {0})
remove_participant c actor user = do
  guard (not (bad_pair user actor)) invalid_participant
  conversation ← Conversations.find_by_id c
  guard (is_room conversation.type) conversation_management_denied
  acting ← Participants.find_participant c actor
  guard (may_manage acting.role) conversation_management_denied
  target ← Participants.find_participant c user
  guard (not (is_owner target.role)) conversation_management_denied
  guard (not (is_admin acting.role && not (is_member target.role))) conversation_management_denied
  Participants.remove_participant c user

unfoldable pub leave_room : Uuid → Uuid → Store (Unit {0})
leave_room c user = do
  guard (not (user == nil_id)) invalid_participant
  conversation ← Conversations.find_by_id c
  guard (is_room conversation.type) conversation_management_denied
  participant ← Participants.find_participant c user
  guard (not (is_owner participant.role)) conversation_management_denied
  Participants.remove_participant c user

unfoldable pub transfer_ownership : Uuid → Uuid → Uuid → Store ConversationParticipant
transfer_ownership c actor user = do
  guard (not (bad_pair user actor)) invalid_participant
  conversation ← Conversations.find_by_id c
  guard (is_room conversation.type) conversation_management_denied
  acting ← Participants.find_participant c actor
  guard (is_owner acting.role) conversation_management_denied
  target ← Participants.find_participant c user
  guard (not (is_owner target.role)) conversation_management_denied
  Participants.transfer_ownership c actor user
