-- ===== src/Repository/Participants.antt =====
-- backend/internal/repositories/conversation_repository.go, the methods on the participants.
use real_time_chat_app.Base.{
  Bool, not, Option, none, some, List, ◌==◌, leb, if◌then◌else◌, find, filter, update, is_some,
  sort, filter_map,
}
use real_time_chat_app.Models.{
  Uuid, Time, ParticipantRole, owner, admin, User, ConversationParticipant,
}
use real_time_chat_app.Store.{
  ParticipantRow, Db, Store, Result, ok, err, no_rows, check_violation, or_fail, pure, statement,
  query, transaction, ◌>>=◌, ◌>>◌,
}
use real_time_chat_app.Store.Tables.{
  and_then, is_user, at_key, find_row, known_role, insert_participant,
}
use real_time_chat_app.Repository.Conversations.{scan_participant}

unfoldable pub is_participant : Uuid → Uuid → Store Bool
is_participant c u = query λ db. ok (is_some (find_row c u db.participants))

unfoldable pub find_participant : Uuid → Uuid → Store ConversationParticipant
find_participant c u =
    query λ db.
      and_then (or_fail (find_row c u db.participants) no_rows) λ row. ok (scan_participant row)

-- A row joined with its user, `scanConversationParticipantWithUser`.
abbrev pub with_user : ParticipantRow → User → ConversationParticipant
with_user row user = record (scan_participant row) { username = user.username; email = user.email }

abbrev pub joined_row : Uuid → List User → ParticipantRow → Option ConversationParticipant
joined_row c users row =
    if row.conversation_id == c
    then elim (find (is_user row.user_id) users) [
      | none ↦ none
      | some user ↦ some (with_user row user)
    ]
    else none

abbrev pub joined_before : ConversationParticipant → ConversationParticipant → Bool
joined_before p q = leb p.joined_at q.joined_at

unfoldable pub list_participants : Uuid → Store (List ConversationParticipant)
list_participants c =
    query λ db. ok (sort joined_before (filter_map (joined_row c db.users) db.participants))

-- `ON CONFLICT DO UPDATE SET role = conversation_participants.role`: a row that is there stays.
unfoldable pub upsert_participant :
    Uuid → Uuid → ParticipantRole → Db → Result (ConversationParticipant × Db)
unfolding insert_participant
upsert_participant c u role db =
    if not (known_role role) then err check_violation else elim (find_row c u db.participants) [
      | some row ↦ ok (scan_participant row, db)
      | none ↦
          and_then (insert_participant c u role db) λ (row, db'). ok (scan_participant row, db')
    ]

unfoldable pub add_participant : Uuid → Uuid → ParticipantRole → Store ConversationParticipant
add_participant c u role = statement (upsert_participant c u role)

abbrev pub with_role : ParticipantRole → ParticipantRow → ParticipantRow
with_role role row = record row { role = role }

-- `UPDATE ... SET role`, on the rows alone.
unfoldable pub assign_role :
    Uuid → Uuid → ParticipantRole → List ParticipantRow → List ParticipantRow
assign_role c u role rows = update (at_key c u) (with_role role) rows

-- The same with `RETURNING`, which the code scans one row of.
unfoldable pub set_role : Uuid → Uuid → ParticipantRole → Db → Result (ConversationParticipant × Db)
set_role c u role db = and_then (or_fail (find_row c u db.participants) no_rows) λ row.
    if not (known_role role)
    then err check_violation
    else ok (
      scan_participant (with_role role row),
      record db { participants = assign_role c u role db.participants },
    )

unfoldable pub update_participant_role :
    Uuid → Uuid → ParticipantRole → Store ConversationParticipant
update_participant_role c u role = statement (set_role c u role)

unfoldable pub without_participant : Uuid → Uuid → Db → Db
without_participant c u db = record db {
  participants = filter (λ row. not (at_key c u row)) db.participants;
}

unfoldable pub remove_participant : Uuid → Uuid → Store (Unit {0})
remove_participant c u = statement λ db. ok (tt, without_participant c u db)

abbrev pub read_at : Time → ParticipantRow → ParticipantRow
read_at now row = record row { last_read_at = some now }

unfoldable pub set_read : Uuid → Uuid → Db → Result (ConversationParticipant × Db)
set_read c u db = and_then (or_fail (find_row c u db.participants) no_rows) λ row. ok (
  scan_participant (read_at db.now row),
  record db { participants = update (at_key c u) (read_at db.now) db.participants },
)

unfoldable pub mark_read : Uuid → Uuid → Store ConversationParticipant
mark_read c u = statement (set_read c u)

-- The first `UPDATE` of `TransferOwnership`, without `RETURNING`: no row is no error.
unfoldable pub demote : Uuid → Uuid → Db → Result (Unit {0} × Db)
unfolding assign_role
demote c u db = ok (tt, record db { participants = assign_role c u admin db.participants })

unfoldable pub transfer_ownership : Uuid → Uuid → Uuid → Store ConversationParticipant
unfolding demote set_role
transfer_ownership c current_owner new_owner = transaction do
  statement (demote c current_owner)
  promoted ← statement (set_role c new_owner owner)
  pure promoted
