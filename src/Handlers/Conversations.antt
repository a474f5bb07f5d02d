-- ===== src/Handlers/Conversations.antt =====
-- backend/internal/handlers/conversations.go, a function for each handler.
use real_time_chat_app.Base.{Bool, Option, List, [], ◌∷◌, Text}
use real_time_chat_app.Models.{Uuid, to_role}
use real_time_chat_app.Models.Responses.{
  ConversationResponse, ConversationListItemResponse, ParticipantResponse,
  new_conversation_response, new_conversation_list_item_responses, new_participant_response,
  new_participant_responses,
}
use real_time_chat_app.Store.{
  World, Error, no_rows, invalid_room_name, invalid_direct_conversation, invalid_participant,
  invalid_participant_role, conversation_management_denied,
}
use real_time_chat_app.Service.Rooms
use real_time_chat_app.Service.Members
use real_time_chat_app.Handlers.{
  Status, success, created, no_content, bad_request, unauthorized, forbidden, not_found,
  internal_error, conversation_read, Reply, Request, authenticated, rendered, respond, silent,
  require,
}

abbrev pub create_room_failure : Error → Status
create_room_failure invalid_room_name = bad_request
create_room_failure _ = internal_error

abbrev pub create_direct_failure : Error → Status
create_direct_failure invalid_direct_conversation = bad_request
create_direct_failure _ = internal_error

abbrev pub access_failure : Error → Status
access_failure conversation_management_denied = forbidden
access_failure no_rows = not_found
access_failure _ = internal_error

abbrev pub update_room_name_failure : Error → Status
update_room_name_failure invalid_room_name = bad_request
update_room_name_failure e = access_failure e

abbrev pub participant_failure : Error → Status
participant_failure invalid_participant = bad_request
participant_failure e = access_failure e

abbrev pub update_participant_role_failure : Error → Status
update_participant_role_failure invalid_participant_role = bad_request
update_participant_role_failure e = participant_failure e

module _ (parse : Text → Option Uuid) where
  unfoldable pub create_room : Uuid → Request → World → Reply ConversationResponse × World
  create_room new_id request = require (authenticated parse request) unauthorized λ user.
      require request.body bad_request λ name w.
        respond created create_room_failure silent
          (rendered new_conversation_response (Rooms.create_room new_id name user w))

  unfoldable pub create_direct : Uuid → Request → World → Reply ConversationResponse × World
  create_direct new_id request = require (authenticated parse request) unauthorized λ user.
      require request.body bad_request λ other_user.
        require (parse other_user) bad_request λ other w.
          respond created create_direct_failure silent
            (rendered new_conversation_response (Rooms.create_direct new_id user other w))

  unfoldable pub list :
      (Text → Text → Bool) → Request → World → Reply (List ConversationListItemResponse) × World
  list ilike request = require (authenticated parse request) unauthorized λ user w.
      respond success (λ e. internal_error) silent
        (rendered new_conversation_list_item_responses
          (Rooms.search_for_user ilike user request.search w))

  unfoldable pub mark_read : Request → World → Reply ParticipantResponse × World
  mark_read request = require (authenticated parse request) unauthorized λ user.
      require (parse request.conversation_id) bad_request λ c w.
        respond success access_failure (λ response. (c, conversation_read response) ∷ [])
          (rendered new_participant_response (Rooms.mark_read c user w))

  unfoldable pub update_room_name : Request → World → Reply ConversationResponse × World
  update_room_name request = require (authenticated parse request) unauthorized λ actor.
      require (parse request.conversation_id) bad_request λ c.
        require request.body bad_request λ name w.
          respond success update_room_name_failure silent
            (rendered new_conversation_response (Rooms.update_room_name c actor name w))

  unfoldable pub delete_room : Request → World → Reply (Unit {0}) × World
  delete_room request = require (authenticated parse request) unauthorized λ actor.
      require (parse request.conversation_id) bad_request
        λ c w. respond no_content access_failure silent (Rooms.delete_room c actor w)

  unfoldable pub add_participant : Request → World → Reply ParticipantResponse × World
  add_participant request = require (authenticated parse request) unauthorized λ actor.
      require (parse request.conversation_id) bad_request λ c.
        require request.body bad_request λ given. require (parse given) bad_request λ user w.
          respond created participant_failure silent
            (rendered new_participant_response (Members.add_room_participant c actor user w))

  unfoldable pub list_participants : Request → World → Reply (List ParticipantResponse) × World
  list_participants request = require (authenticated parse request) unauthorized λ user.
      require (parse request.conversation_id) bad_request λ c w.
        respond success access_failure silent
          (rendered new_participant_responses (Members.list_participants c user w))

  unfoldable pub update_participant_role : Request → World → Reply ParticipantResponse × World
  update_participant_role request = require (authenticated parse request) unauthorized λ actor.
      require (parse request.conversation_id) bad_request λ c.
        require (parse request.participant_id) bad_request λ user.
          require request.body bad_request λ role w.
            respond success update_participant_role_failure silent (
              rendered new_participant_response
                (Members.update_participant_role c actor user (to_role role) w))

  unfoldable pub remove_participant : Request → World → Reply (Unit {0}) × World
  remove_participant request = require (authenticated parse request) unauthorized λ actor.
      require (parse request.conversation_id) bad_request λ c.
        require (parse request.participant_id) bad_request λ user w.
          respond no_content participant_failure silent (Members.remove_participant c actor user w)

  unfoldable pub leave_room : Request → World → Reply (Unit {0}) × World
  leave_room request = require (authenticated parse request) unauthorized λ user.
      require (parse request.conversation_id) bad_request
        λ c w. respond no_content participant_failure silent (Members.leave_room c user w)

  unfoldable pub transfer_ownership : Request → World → Reply ParticipantResponse × World
  transfer_ownership request = require (authenticated parse request) unauthorized λ actor.
      require (parse request.conversation_id) bad_request λ c.
        require request.body bad_request λ given. require (parse given) bad_request λ user w.
          respond success participant_failure silent
            (rendered new_participant_response (Members.transfer_ownership c actor user w))
