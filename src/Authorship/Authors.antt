-- ===== src/Authorship/Authors.antt =====
-- What each call of backend/internal/services does to the messages of others.
use real_time_chat_app.Base.{◌≡◌, refl, ◌⊎◌, inl, false, none, some, Text, arith}
use real_time_chat_app.Models.{Uuid, owner, Message}
use real_time_chat_app.Store.{World, Db, Result, ok, err, Store}
use real_time_chat_app.Store.Effect.{
  Post, Effect, Effect-bind, Reads-guard, Reads-query, Effect-statement, Effect-transaction,
  Reaches-bind, Reaches-statement, Reaches-pure,
}
use real_time_chat_app.Store.Keeps.{Keeps}
use real_time_chat_app.Store.Tables.{find_message}
use real_time_chat_app.Repository.Conversations
use real_time_chat_app.Repository.Messages as MessageTable
use real_time_chat_app.Repository.Messages.{touch_conversation}
use real_time_chat_app.Repository.Pages
use real_time_chat_app.Service.Rooms
use real_time_chat_app.Service.Messages
use real_time_chat_app.Service.Messages.{sent_by}
use real_time_chat_app.Service.Calls.{
  Call, create_room, create_direct, mark_read, update_room_name, delete_room, add_room_participant,
  update_participant_role, remove_participant, leave_room, transfer_ownership, create_message,
  update_message, delete_message, perform, discard,
}
use real_time_chat_app.Membership.{view}
use real_time_chat_app.Membership.Reads.{Effect-in_room, Effect-checked, owner_of}
use real_time_chat_app.Membership.MessageServices.{Reads-ensure_participant}
use real_time_chat_app.Authorship.{Spares}
use real_time_chat_app.Authorship.Writes.{
  insert_message-Spares, set_content-Spares, without_message-Spares, without_conversation-Spares,
}
use real_time_chat_app.Authorship.Frame.{
  messages_of, create_room-Keeps, create_direct-Keeps, mark_read-Keeps, update_room_name-Keeps,
  add_room_participant-Keeps, update_participant_role-Keeps, remove_participant-Keeps,
  leave_room-Keeps, transfer_ownership-Keeps,
}

touch_conversation-messages :
    (c t : Uuid) (mid after : Db) (done : Unit {0})
    → touch_conversation c t mid ≡ ok (done, after)
    → after.messages ≡ mid.messages
unfolding touch_conversation
touch_conversation-messages c t mid after done e = ground arith

module _ (actor : Uuid) (db : Db) where
  insert_new-Spares :
      (message : Message)
      → Effect db (MessageTable.create message) (λ _ after. Spares actor db after)
  unfolding MessageTable.create
  insert_new-Spares message = Effect-transaction db _ (
      Reaches-bind db _ _
        (Reaches-statement (λ made mid. MessageTable.insert_message message db ≡ ok (made, mid)) db
          _ (λ made mid e. e))
        λ made mid first.
          Reaches-bind mid _ _
            (Reaches-statement (λ _ after. Spares actor db after) mid _
              (λ done after e.
                insert_message-Spares actor db mid message made after first
                  (touch_conversation-messages _ _ mid after done e)))
            λ done after spares. Reaches-pure _ after made spares)

  create-Spares :
      (n c : Uuid) (content : Text)
      → Effect db (Messages.create n c actor content) (λ _ after. Spares actor db after)
  unfolding Messages.create
  create-Spares n c content = Effect-bind db _ _ (Reads-ensure_participant db c actor) λ _ _.
      Effect-bind db _ _ (Reads-guard db _ _)
        λ _ _. Effect-bind db _ _ (Reads-guard db _ _) λ _ _. insert_new-Spares _

  update-Spares :
      (c m : Uuid) (content : Text)
      → Effect db (Messages.update c m actor content) (λ _ after. Spares actor db after)
  unfolding Messages.update Pages.find_by_id Pages.update_content
  update-Spares c m content = Effect-bind db _ _ (Reads-ensure_participant db c actor) λ _ _.
      Effect-bind db _ _ (Reads-query db _) λ old read.
        Effect-bind db _ _ (Reads-guard db _ _) λ _ _.
          Effect-bind db _ _ (Reads-guard db _ _) λ _ mine.
            Effect-bind db _ _ (Reads-guard db _ _) λ _ _.
              Effect-bind db _ _ (Reads-guard db _ _) λ _ _.
                Effect-statement db _
                  λ row after e. set_content-Spares actor db after m _ old row read mine e

  delete-Spares :
      (c m : Uuid) → Effect db (Messages.delete c m actor) (λ _ after. Spares actor db after)
  unfolding Messages.delete Pages.find_by_id Pages.delete
  delete-Spares c m = Effect-bind db _ _ (Reads-ensure_participant db c actor) λ _ _.
      Effect-bind db _ _ (Reads-query db _) λ old read.
        Effect-bind db _ _ (Reads-guard db _ _) λ _ _.
          Effect-bind db _ _ (Reads-guard db _ _) λ _ mine. Effect-statement db _ λ done after e.
            let same : after ≡ Pages.without_message m db = ground arith in
            rw same (without_message-Spares actor db m old read mine)

  delete_room-Spares :
      (c : Uuid) → Effect db (Rooms.delete_room c actor) (λ _ after. Spares actor db after)
  unfolding Rooms.delete_room Conversations.delete_conversation
  delete_room-Spares c = Effect-in_room db c _ _ λ is_room.
      Effect-checked db c actor _ _ _ λ acting row owns. Effect-statement db _ λ done after e.
        let same : after ≡ Conversations.without_conversation c db = ground arith in
        rw same (without_conversation-Spares actor db c (owner_of db c actor acting row owns))

module _ {A : Type 0} (actor : Uuid) (w : World) where
  Post-Spares :
      (r : Result A × World)
      → Post w.db (λ _ after. Spares actor w.db after) r
      → Spares actor w.db (discard r).db
  Post-Spares (ok a, w') h = h
  Post-Spares (err e, w') same = λ m message found other. inl (rw same found)

  by_Effect :
      (m : Store A)
      → Effect w.db m (λ _ after. Spares actor w.db after)
      → Spares actor w.db (discard (m w)).db
  by_Effect m h = Post-Spares (m w) (h.at w refl)

  by_Keeps : (m : Store A) → Keeps messages_of m → Spares actor w.db (discard (m w)).db
  unfolding find_message
  by_Keeps m h n message found other = inl (rw (h.at w) found)

perform-Spares :
    (actor : Uuid) (call : Call) (w : World) → Spares actor w.db (perform actor call w).db
unfolding perform
perform-Spares actor (create_room n name) w = by_Keeps actor w _ (create_room-Keeps n name actor)
perform-Spares actor (create_direct n u) w = by_Keeps actor w _ (create_direct-Keeps n actor u)
perform-Spares actor (mark_read c) w = by_Keeps actor w _ (mark_read-Keeps c actor)
perform-Spares actor (update_room_name c name) w =
    by_Keeps actor w _ (update_room_name-Keeps c actor name)
perform-Spares actor (delete_room c) w = by_Effect actor w _ (delete_room-Spares actor w.db c)
perform-Spares actor (add_room_participant c u) w =
    by_Keeps actor w _ (add_room_participant-Keeps c actor u)
perform-Spares actor (update_participant_role c u r) w =
    by_Keeps actor w _ (update_participant_role-Keeps c actor u r)
perform-Spares actor (remove_participant c u) w =
    by_Keeps actor w _ (remove_participant-Keeps c actor u)
perform-Spares actor (leave_room c) w = by_Keeps actor w _ (leave_room-Keeps c actor)
perform-Spares actor (transfer_ownership c u) w =
    by_Keeps actor w _ (transfer_ownership-Keeps c actor u)
perform-Spares actor (create_message n c content) w =
    by_Effect actor w _ (create-Spares actor w.db n c content)
perform-Spares actor (update_message c m content) w =
    by_Effect actor w _ (update-Spares actor w.db c m content)
perform-Spares actor (delete_message c m) w = by_Effect actor w _ (delete-Spares actor w.db c m)

-- A call by anybody but its author leaves a message as it was, unless the caller owns its conversation
-- and the conversation is gone after the call.
pub message_is_safe :
    (actor : Uuid) (call : Call) (w : World) (m : Uuid) (message : Message)
    → find_message m w.db ≡ some message
    → sent_by actor message.sender_id ≡ false
    → let after = perform actor call w in
      (find_message m after.db ≡ some message)
      ⊎ (((view w.db).role_of message.conversation_id actor ≡ some owner)
          × ((view after.db).type_of message.conversation_id ≡ none))
message_is_safe actor call w m message found other =
    perform-Spares actor call w m message found other
