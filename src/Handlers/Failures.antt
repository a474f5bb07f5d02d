-- ===== src/Handlers/Failures.antt =====
-- backend/internal/handlers: the statuses for the errors of the services, none a success.
use real_time_chat_app.Base.{◌≡◌, refl, false}
use real_time_chat_app.Store.{
  Error, no_rows, invalid_room_name, invalid_direct_conversation, invalid_participant,
  invalid_participant_role, conversation_management_denied, conversation_access_denied,
  message_ownership_denied, invalid_message_content, message_content_too_long,
}
use real_time_chat_app.Handlers.{is_success}
use real_time_chat_app.Handlers.Conversations.{
  create_room_failure, create_direct_failure, access_failure, update_room_name_failure,
  participant_failure, update_participant_role_failure,
}
use real_time_chat_app.Handlers.Messages.{
  create_failure, list_failure, delete_failure, update_failure,
}

pub create_room_failure_lem : (e : Error) → is_success (create_room_failure e) ≡ false
create_room_failure_lem invalid_room_name = refl
create_room_failure_lem _ = refl

pub create_direct_failure_lem : (e : Error) → is_success (create_direct_failure e) ≡ false
create_direct_failure_lem invalid_direct_conversation = refl
create_direct_failure_lem _ = refl

pub access_failure_lem : (e : Error) → is_success (access_failure e) ≡ false
access_failure_lem conversation_management_denied = refl
access_failure_lem no_rows = refl
access_failure_lem _ = refl

pub update_room_name_failure_lem : (e : Error) → is_success (update_room_name_failure e) ≡ false
update_room_name_failure_lem invalid_room_name = refl
update_room_name_failure_lem e = access_failure_lem e

pub participant_failure_lem : (e : Error) → is_success (participant_failure e) ≡ false
participant_failure_lem invalid_participant = refl
participant_failure_lem e = access_failure_lem e

pub update_participant_role_failure_lem :
    (e : Error) → is_success (update_participant_role_failure e) ≡ false
update_participant_role_failure_lem invalid_participant_role = refl
update_participant_role_failure_lem e = participant_failure_lem e

pub create_failure_lem : (e : Error) → is_success (create_failure e) ≡ false
create_failure_lem conversation_access_denied = refl
create_failure_lem _ = refl

pub list_failure_lem : (e : Error) → is_success (list_failure e) ≡ false
list_failure_lem conversation_access_denied = refl
list_failure_lem _ = refl

pub delete_failure_lem : (e : Error) → is_success (delete_failure e) ≡ false
delete_failure_lem message_ownership_denied = refl
delete_failure_lem e = list_failure_lem e

pub update_failure_lem : (e : Error) → is_success (update_failure e) ≡ false
update_failure_lem invalid_message_content = refl
update_failure_lem message_content_too_long = refl
update_failure_lem e = delete_failure_lem e
