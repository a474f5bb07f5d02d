-- ===== src/Store/Tables.antt =====
-- backend/migrations/*.sql: the keys and constraints of the tables, and the rows that an `INSERT`
-- adds. A row that breaks a constraint is refused.
use real_time_chat_app.Base.{
  ◌≡◌, refl, Bool, true, false, not, ◌&&◌, Option, none, some, List, [], ◌∷◌, ◌++◌, ◌==◌,
  if◌then◌else◌, Text, find, is_some,
}
use real_time_chat_app.Models.{
  Uuid, ConversationType, room, direct, ParticipantRole, other, User, Conversation, Message,
}
use real_time_chat_app.Store.{
  ParticipantRow, Db, Result, ok, err, unique_violation, foreign_key_violation, check_violation,
}

abbrev pub and_then : {A B : Type 0} → Result A → (A → Result B) → Result B
and_then (ok a) f = f a
and_then (err e) f = err e

pub and_then-ok :
    {A B : Type 0} (r : Result A) (f : A → Result B) (b : B)
    → and_then r f ≡ ok b
    → (a : A) × (r ≡ ok a) × (f a ≡ ok b)
and_then-ok (ok a) f b e = (a, refl, e)
and_then-ok (err x) f b e = cc

-- `WHERE id = $1`
abbrev pub has_id : Uuid → Conversation → Bool
has_id c row = row.id == c

abbrev pub is_user : Uuid → User → Bool
is_user u row = row.id == u

abbrev pub is_message : Uuid → Message → Bool
is_message m row = row.id == m

-- `WHERE conversation_id = $1 AND user_id = $2`
abbrev pub at_key : Uuid → Uuid → ParticipantRow → Bool
at_key c u row = row.conversation_id == c && row.user_id == u

unfoldable pub find_conversation : Uuid → Db → Option Conversation
find_conversation c db = find (has_id c) db.conversations

unfoldable pub find_row : Uuid → Uuid → List ParticipantRow → Option ParticipantRow
find_row c u rows = find (at_key c u) rows

unfoldable pub find_user : Uuid → Db → Option User
find_user u db = find (is_user u) db.users

unfoldable pub find_message : Uuid → Db → Option Message
find_message m db = find (is_message m) db.messages

-- `CHECK (role IN ('owner', 'admin', 'member'))`
abbrev pub known_role : ParticipantRole → Bool
known_role (other s) = false
known_role _ = true

-- `CHECK ((type = 'room' AND name IS NOT NULL) OR (type = 'direct' AND name IS NULL))`
abbrev pub name_fits : ConversationType → Option Text → Bool
name_fits room (some s) = true
name_fits room none = false
name_fits direct (some s) = false
name_fits direct none = true

unfoldable pub insert_conversation :
    Uuid → ConversationType → Option Text → Uuid → Db → Result (Conversation × Db)
unfolding find_conversation find_user
insert_conversation c type name creator db =
    if not (name_fits type name)
    then err check_violation
    else if is_some (find_conversation c db)
    then err unique_violation
    else if not (is_some (find_user creator db))
    then err foreign_key_violation
    else ok (row, record db { conversations = db.conversations ++ row ∷ [] })
  where
    row : Conversation
    row = record {
      id = c;
      type = type;
      name = name;
      created_by = some creator;
      created_at = db.now;
      updated_at = db.now;
    }

abbrev pub new_row : Uuid → Uuid → ParticipantRole → Db → ParticipantRow
new_row c u role db = record {
  conversation_id = c;
  user_id = u;
  role = role;
  joined_at = db.now;
  last_read_at = none;
}

unfoldable pub insert_participant :
    Uuid → Uuid → ParticipantRole → Db → Result (ParticipantRow × Db)
unfolding find_conversation find_user find_row
insert_participant c u role db =
    if not (known_role role)
    then err check_violation
    else if is_some (find_row c u db.participants)
    then err unique_violation
    else if not (is_some (find_conversation c db))
    then err foreign_key_violation
    else if not (is_some (find_user u db))
    then err foreign_key_violation
    else ok (
      new_row c u role db,
      record db { participants = db.participants ++ new_row c u role db ∷ [] },
    )
