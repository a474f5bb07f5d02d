-- ===== src/Authorship/Writes.antt =====
-- The statements of backend/internal/repositories on messages, and what becomes of a message of
-- somebody else.
use real_time_chat_app.Base.{
  ◌≡◌, refl, inl, inr, Bool, true, not, some, ◌==◌, arith, Text, find, filter, find-append_one,
  find-true, find-update, List, [], ◌∷◌, Bool-cases,
}
use real_time_chat_app.Models.{Uuid, owner, Message}
use real_time_chat_app.Store.{Db, ok, no_rows, or_fail}
use real_time_chat_app.Store.Tables.{is_message, find_message}
use real_time_chat_app.Repository.Conversations.{without_conversation}
use real_time_chat_app.Repository.Messages.{insert_message}
use real_time_chat_app.Repository.Pages.{set_content, without_message, edited}
use real_time_chat_app.Service.Messages.{sent_by}
use real_time_chat_app.Membership.{view}
use real_time_chat_app.Membership.Writes.{without_conversation-closed}
use real_time_chat_app.Authorship.{Spares}

find-filter_found :
    {A : Type 0} (p q : A → Bool) (xs : List A) (x : A)
    → find p xs ≡ some x
    → q x ≡ true
    → find p (filter q xs) ≡ some x
unfolding find filter
find-filter_found p q [] x e kept = cc
find-filter_found p q (y ∷ ys) x e kept = ground (arith, find-filter_found p q ys x)

module _ (actor : Uuid) (db after : Db) where
  -- The two statements of a new message, the second of which leaves the messages alone.
  pub insert_message-Spares :
      (given made : Message) (last : Db)
      → insert_message given db ≡ ok (made, after)
      → last.messages ≡ after.messages
      → Spares actor db last
  unfolding insert_message find_message
  insert_message-Spares given made last e same m message found other =
      inl (ground (arith, find-append_one (is_message m) db.messages made))

  pub set_content-Spares :
      (m : Uuid) (content : Text) (old row : Message)
      → or_fail (find_message m db) no_rows ≡ ok old
      → sent_by actor old.sender_id ≡ true
      → set_content m content db ≡ ok (row, after)
      → Spares actor db after
  unfolding set_content find_message or_fail
  set_content-Spares m content old row read mine e n message found other = inl (
      ground (
        arith,
        find-true (is_message n) db.messages message,
        find-update (is_message n) (is_message m) (edited content db.now) db.messages (λ x. refl),
      ))

module _ (actor : Uuid) (db : Db) where
  pub without_message-Spares :
      (m : Uuid) (old : Message)
      → or_fail (find_message m db) no_rows ≡ ok old
      → sent_by actor old.sender_id ≡ true
      → Spares actor db (without_message m db)
  unfolding without_message find_message or_fail
  without_message-Spares m old read mine n message found other = inl (
      ground (
        arith,
        find-true (is_message n) db.messages message,
        find-filter_found (is_message n) (λ row. not (is_message m row)) db.messages message found,
      ))

  pub without_conversation-Spares :
      (c : Uuid)
      → (view db).role_of c actor ≡ some owner
      → Spares actor db (without_conversation c db)
  unfolding without_conversation find_message
  without_conversation-Spares c owns n message found other =
      elim (Bool-cases (message.conversation_id == c)) [
        | inl here ↦ inr (
          ground arith,
          ground (arith, (without_conversation-closed db c).0 message.conversation_id),
        )
        | inr away ↦ inl (
            find-filter_found (is_message n) (λ row. not (row.conversation_id == c)) db.messages
              message found (ground arith))
      ]
