-- ===== src/Repository/Listing.antt =====
-- backend/internal/repositories/conversation_repository.go, the lists of a user's conversations.
-- `ilike` is PostgreSQL's operator `ILIKE`.
use real_time_chat_app.Base.{
  ℕ, Bool, true, false, not, ◌&&◌, Option, none, some, List, ◌++◌, ◌==◌, ltb, leb, Text, codes,
  filter, length, sort, filter_map,
}
use real_time_chat_app.Models.{Uuid, Time, is_room, Conversation, ConversationListItem, Message}
use real_time_chat_app.Store.{Db, Store, ok, query}
use real_time_chat_app.Store.Tables.{find_row}

-- `m.sender_id IS DISTINCT FROM $1`
abbrev pub sent_by_other : Uuid → Option Uuid → Bool
sent_by_other u none = true
sent_by_other u (some s) = not (s == u)

-- `cp.last_read_at IS NULL OR m.created_at > cp.last_read_at`
abbrev pub after_read : Option Time → Time → Bool
after_read none t = true
after_read (some read) t = ltb read t

abbrev pub is_unread : Uuid → Uuid → Option Time → Message → Bool
is_unread c u read m =
    m.conversation_id == c && (sent_by_other u m.sender_id && after_read read m.created_at)

unfoldable pub unread : Uuid → Uuid → Option Time → List Message → ℕ
unread c u read messages = length (filter (is_unread c u read) messages)

-- The row that the joins and the grouping make of a conversation of the user.
abbrev pub list_item : Uuid → Db → Conversation → Option ConversationListItem
list_item u db c = elim (find_row c.id u db.participants) [
  | none ↦ none
  | some row ↦
      some (record { conversation = c; unread_count = unread c.id u row.last_read_at db.messages })
]

abbrev pub updated_after : ConversationListItem → ConversationListItem → Bool
updated_after a b = leb b.updated_at a.updated_at

unfoldable pub list_for_user : Uuid → Store (List ConversationListItem)
list_for_user u = query λ db. ok (sort updated_after (filter_map (list_item u db) db.conversations))

abbrev pub name_matches : (Text → Text → Bool) → Text → Option Text → Bool
name_matches ilike pattern none = false
name_matches ilike pattern (some name) = ilike name pattern

abbrev pub is_match : (Text → Text → Bool) → Text → Conversation → Bool
is_match ilike pattern c = is_room c.type && name_matches ilike pattern c.name

unfoldable pub search_rooms_for_user :
    (Text → Text → Bool) → Uuid → Text → Store (List ConversationListItem)
search_rooms_for_user ilike u text = query λ db. ok (
    sort updated_after (
      filter_map (list_item u db)
        (filter (is_match ilike (codes "%" ++ (text ++ codes "%"))) db.conversations)))
