-- ===== src/Repository/Conversations.antt =====
-- backend/internal/repositories/conversation_repository.go. A `SELECT` of one row takes the first
-- that fits, in the order of insertion. `ILIKE` is PostgreSQL's, an argument.
use real_time_chat_app.Base.{
  Bool, not, ◌&&◌, none, some, List, [], ◌==◌, if◌then◌else◌, Text, find, filter, update, is_some,
}
use real_time_chat_app.Models.{
  Uuid, Time, room, direct, is_room, owner, member, Conversation, ConversationParticipant,
}
use real_time_chat_app.Store.{
  ParticipantRow, Db, Store, Result, ok, err, no_rows, check_violation, or_fail, pure, statement,
  query, transaction, ◌>>=◌, ◌>>◌,
}
use real_time_chat_app.Store.Tables.{
  and_then, has_id, find_conversation, find_row, insert_conversation, insert_participant,
}

-- `scanConversationParticipant`: the columns that the query lacks stay empty.
abbrev pub scan_participant : ParticipantRow → ConversationParticipant
scan_participant row = record {
  conversation_id = row.conversation_id;
  user_id = row.user_id;
  username = [];
  email = [];
  role = row.role;
  joined_at = row.joined_at;
  last_read_at = row.last_read_at;
}

unfoldable pub create_room : Conversation → Uuid → Store Conversation
create_room conversation creator = transaction do
  created ← statement (insert_conversation conversation.id room conversation.name creator)
  statement (insert_participant created.id creator owner)
  pure created

-- One `INSERT` of two rows.
unfoldable pub insert_pair : Uuid → Uuid → Uuid → Db → Result (ParticipantRow × Db)
insert_pair c u v db =
    and_then (insert_participant c u member db) λ (_, db'). insert_participant c v member db'

unfoldable pub create_direct : Conversation → Uuid → Uuid → Store Conversation
create_direct conversation u v = transaction do
  created ← statement (insert_conversation conversation.id direct none u)
  statement (insert_pair created.id u v)
  pure created

-- The conversations that the double join selects.
abbrev pub joins : List ParticipantRow → Uuid → Uuid → Conversation → Bool
joins rows u v c =
    not (is_room c.type) && (is_some (find_row c.id u rows) && is_some (find_row c.id v rows))

unfoldable pub find_direct_between_users : Uuid → Uuid → Store Conversation
find_direct_between_users u v =
    query λ db. or_fail (find (joins db.participants u v) db.conversations) no_rows

unfoldable pub find_by_id : Uuid → Store Conversation
find_by_id c = query λ db. or_fail (find_conversation c db) no_rows

-- `ON DELETE CASCADE` takes the participants and messages along.
unfoldable pub without_conversation : Uuid → Db → Db
without_conversation c db = record db {
  conversations = filter (λ row. not (has_id c row)) db.conversations;
  participants = filter (λ row. not (row.conversation_id == c)) db.participants;
  messages = filter (λ row. not (row.conversation_id == c)) db.messages;
}

unfoldable pub delete_conversation : Uuid → Store (Unit {0})
delete_conversation c = statement λ db. ok (tt, without_conversation c db)

abbrev pub renamed : Text → Time → Conversation → Conversation
renamed name now row = record row { name = some name; updated_at = now }

-- The table's `CHECK` refuses a name on a direct conversation.
unfoldable pub set_name : Uuid → Text → Db → Result (Conversation × Db)
set_name c name db = and_then (or_fail (find_conversation c db) no_rows) λ row.
    if not (is_room row.type)
    then err check_violation
    else ok (
      renamed name db.now row,
      record db { conversations = update (has_id c) (renamed name db.now) db.conversations },
    )

unfoldable pub update_room_name : Uuid → Text → Store Conversation
update_room_name c name = statement (set_name c name)
