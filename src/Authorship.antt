-- ===== src/Authorship.antt =====
-- Who may change and delete messages: backend/internal/services/message_service.go among the calls.
pub mod Frame
pub mod Writes
pub mod Authors
use real_time_chat_app.Base.{◌≡◌, ◌⊎◌, false, none, some}
use real_time_chat_app.Models.{Uuid, owner, Message}
use real_time_chat_app.Store.{Db}
use real_time_chat_app.Store.Tables.{find_message}
use real_time_chat_app.Service.Messages.{sent_by}
use real_time_chat_app.Membership.{view}

-- A message of somebody else is as it was, or it went with its conversation, which the caller owned.
abbrev pub Spares : Uuid → Db → Db → Type 0
Spares actor db after =
    (m : Uuid) (message : Message)
    → find_message m db ≡ some message
    → sent_by actor message.sender_id ≡ false
    → (find_message m after ≡ some message)
      ⊎ (((view db).role_of message.conversation_id actor ≡ some owner)
          × ((view after).type_of message.conversation_id ≡ none))
