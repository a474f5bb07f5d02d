-- ===== src/Models/Responses.antt =====
-- The files *_response.go of backend/internal/models: what clients are shown of conversations,
-- participants and messages.
use real_time_chat_app.Base.{ℕ, Option, List, map, Text}
use real_time_chat_app.Models.{
  Uuid, Time, ConversationType, ParticipantRole, Conversation, ConversationListItem,
  ConversationParticipant, Message,
}

pub record ConversationResponse : Type 0 where
  pub id : Uuid
  pub type : ConversationType
  pub name : Option Text
  pub created_by : Option Uuid
  pub created_at : Time
  pub updated_at : Time

pub record ConversationListItemResponse : Type 0 where
  pub id : Uuid
  pub type : ConversationType
  pub name : Option Text
  pub created_by : Option Uuid
  pub created_at : Time
  pub updated_at : Time
  pub unread_count : ℕ

pub record MessageResponse : Type 0 where
  pub id : Uuid
  pub conversation_id : Uuid
  pub sender_id : Option Uuid
  pub content : Text
  pub created_at : Time
  pub updated_at : Time

pub record ParticipantResponse : Type 0 where
  pub conversation_id : Uuid
  pub user_id : Uuid
  pub username : Text
  pub email : Text
  pub role : ParticipantRole
  pub joined_at : Time
  pub last_read_at : Option Time

abbrev pub new_conversation_response : Conversation → ConversationResponse
new_conversation_response conversation = record {
  id = conversation.id;
  type = conversation.type;
  name = conversation.name;
  created_by = conversation.created_by;
  created_at = conversation.created_at;
  updated_at = conversation.updated_at;
}

abbrev pub new_conversation_list_item_response : ConversationListItem → ConversationListItemResponse
new_conversation_list_item_response item = record {
  id = item.conversation.id;
  type = item.conversation.type;
  name = item.conversation.name;
  created_by = item.conversation.created_by;
  created_at = item.conversation.created_at;
  updated_at = item.conversation.updated_at;
  unread_count = item.unread_count;
}

abbrev pub new_conversation_list_item_responses :
    List ConversationListItem → List ConversationListItemResponse
new_conversation_list_item_responses items = map new_conversation_list_item_response items

abbrev pub new_message_response : Message → MessageResponse
new_message_response message = record {
  id = message.id;
  conversation_id = message.conversation_id;
  sender_id = message.sender_id;
  content = message.content;
  created_at = message.created_at;
  updated_at = message.updated_at;
}

abbrev pub new_message_responses : List Message → List MessageResponse
new_message_responses messages = map new_message_response messages

abbrev pub new_participant_response : ConversationParticipant → ParticipantResponse
new_participant_response participant = record {
  conversation_id = participant.conversation_id;
  user_id = participant.user_id;
  username = participant.username;
  email = participant.email;
  role = participant.role;
  joined_at = participant.joined_at;
  last_read_at = participant.last_read_at;
}

abbrev pub new_participant_responses : List ConversationParticipant → List ParticipantResponse
new_participant_responses participants = map new_participant_response participants
