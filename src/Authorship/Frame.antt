-- ===== src/Authorship/Frame.antt =====
-- The calls of backend/internal/services/conversation_service.go beside the table of messages, on
-- which they have no statement.
use real_time_chat_app.Base.{◌≡◌, ◌∙◌, Bool, arith, Text, Option, List}
use real_time_chat_app.Models.{
  Uuid, ConversationType, ParticipantRole, owner, member, Conversation, ConversationParticipant,
  Message,
}
use real_time_chat_app.Store.{
  Db, Error, guard, query, ◌>>=◌, Result, ok, err, no_rows, or_fail, Store, ParticipantRow,
}
use real_time_chat_app.Store.Keeps.{
  Keeps, Keeps-pure, Keeps-fail, Keeps-statement, Keeps-query, Keeps-attempt, Keeps-guard,
  Keeps-bind, Keeps-transaction,
}
use real_time_chat_app.Store.Tables.{insert_conversation, insert_participant, and_then-ok}
use real_time_chat_app.Repository.Conversations
use real_time_chat_app.Repository.Conversations.{insert_pair, set_name}
use real_time_chat_app.Repository.Participants
use real_time_chat_app.Repository.Participants.{
  upsert_participant, set_role, without_participant, set_read, demote,
}
use real_time_chat_app.Service.Rooms
use real_time_chat_app.Service.Members

abbrev pub messages_of : Db → List Message
messages_of db = db.messages

module _ (db : Db) where
  insert_conversation-messages :
      (c : Uuid) (t : ConversationType) (name : Option Text) (creator : Uuid) (a : Conversation)
      (after : Db)
      → insert_conversation c t name creator db ≡ ok (a, after)
      → messages_of after ≡ messages_of db
  unfolding insert_conversation
  insert_conversation-messages c t name creator a after e = ground arith

  insert_participant-messages :
      (c u : Uuid) (r : ParticipantRole) (a : ParticipantRow) (after : Db)
      → insert_participant c u r db ≡ ok (a, after)
      → messages_of after ≡ messages_of db
  unfolding insert_participant
  insert_participant-messages c u r a after e = ground arith

  set_name-messages :
      (c : Uuid) (name : Text) (a : Conversation) (after : Db)
      → set_name c name db ≡ ok (a, after)
      → messages_of after ≡ messages_of db
  unfolding set_name or_fail
  set_name-messages c name a after e = ground arith

  upsert_participant-messages :
      (c u : Uuid) (r : ParticipantRole) (a : ConversationParticipant) (after : Db)
      → upsert_participant c u r db ≡ ok (a, after)
      → messages_of after ≡ messages_of db
  unfolding upsert_participant
  upsert_participant-messages c u r a after e = ground (arith)

  set_role-messages :
      (c u : Uuid) (r : ParticipantRole) (a : ConversationParticipant) (after : Db)
      → set_role c u r db ≡ ok (a, after)
      → messages_of after ≡ messages_of db
  unfolding set_role or_fail
  set_role-messages c u r a after e = ground arith

  set_read-messages :
      (c u : Uuid) (a : ConversationParticipant) (after : Db)
      → set_read c u db ≡ ok (a, after)
      → messages_of after ≡ messages_of db
  unfolding set_read or_fail
  set_read-messages c u a after e = ground arith

insert_pair-messages :
    (db : Db) (c u v : Uuid) (a : ParticipantRow) (after : Db)
    → insert_pair c u v db ≡ ok (a, after)
    → messages_of after ≡ messages_of db
unfolding insert_pair
insert_pair-messages db c u v a after e =
    let ((row, mid), first, second) = and_then-ok (insert_participant c u member db) _ _ e in
    insert_participant-messages mid c v member a after second
    ∙ insert_participant-messages db c u member row mid first

-- What the services do before a write: guards and queries.
module _ {A B : Type 0} where
  asking :
      (q : Db → Result A) (k : A → Store B)
      → ((a : A) → Keeps messages_of (k a))
      → Keeps messages_of (query q >>= k)
  asking q k h = Keeps-bind messages_of _ _ (Keeps-query messages_of q) h

module _ {A : Type 0} where
  checking :
      (b : Bool) (e : Error) (k : Unit {0} → Store A)
      → Keeps messages_of (k tt)
      → Keeps messages_of (guard b e >>= k)
  checking b e k h = Keeps-bind messages_of _ _ (Keeps-guard messages_of b e) λ _. h

pub create_room-Keeps :
    (n : Uuid) (name : Text) (u : Uuid) → Keeps messages_of (Rooms.create_room n name u)
unfolding Rooms.create_room Conversations.create_room
create_room-Keeps n name u = checking _ _ _ (
    Keeps-transaction messages_of _ (
      Keeps-bind messages_of _ _
        (Keeps-statement messages_of _
          λ db a after e. insert_conversation-messages db _ _ _ _ a after e)
        λ made.
          Keeps-bind messages_of _ _
            (Keeps-statement messages_of _
              λ db a after e. insert_participant-messages db _ _ _ a after e)
            λ _. Keeps-pure messages_of made))

create_new-Keeps :
    (c : Conversation) (u v : Uuid) → Keeps messages_of (Conversations.create_direct c u v)
unfolding Conversations.create_direct
create_new-Keeps c u v = Keeps-transaction messages_of _ (
    Keeps-bind messages_of _ _
      (Keeps-statement messages_of _
        λ db a after e. insert_conversation-messages db _ _ _ _ a after e)
      λ made.
        Keeps-bind messages_of _ _
          (Keeps-statement messages_of _ λ db a after e. insert_pair-messages db _ _ _ a after e)
          λ _. Keeps-pure messages_of made)

reuse_or_create-Keeps :
    (n u v : Uuid) (found : Result Conversation)
    → Keeps messages_of (Rooms.reuse_or_create n u v found)
unfolding Rooms.reuse_or_create
reuse_or_create-Keeps n u v (ok existing) = Keeps-pure messages_of existing
reuse_or_create-Keeps n u v (err no_rows) = create_new-Keeps _ u v
reuse_or_create-Keeps n u v (err e) = Keeps-fail messages_of e

pub create_direct-Keeps : (n u v : Uuid) → Keeps messages_of (Rooms.create_direct n u v)
unfolding Rooms.create_direct Conversations.find_direct_between_users
create_direct-Keeps n u v = checking _ _ _ (
    Keeps-bind messages_of _ _ (Keeps-attempt messages_of _ (Keeps-query messages_of _))
      (reuse_or_create-Keeps n u v))

pub mark_read-Keeps : (c u : Uuid) → Keeps messages_of (Rooms.mark_read c u)
unfolding Rooms.mark_read Participants.is_participant Participants.mark_read
mark_read-Keeps c u = asking _ _ λ _.
    checking _ _ _
      (Keeps-statement messages_of _ λ db a after e. set_read-messages db _ _ a after e)

pub update_room_name-Keeps :
    (c actor : Uuid) (name : Text) → Keeps messages_of (Rooms.update_room_name c actor name)
unfolding Rooms.update_room_name Conversations.find_by_id Participants.find_participant
    Conversations.update_room_name
update_room_name-Keeps c actor name = checking _ _ _ (
    asking _ _ λ _. checking _ _ _ (
      asking _ _ λ _.
        checking _ _ _
          (Keeps-statement messages_of _ λ db a after e. set_name-messages db _ _ a after e)))

pub add_room_participant-Keeps :
    (c actor u : Uuid) → Keeps messages_of (Members.add_room_participant c actor u)
unfolding Members.add_room_participant Conversations.find_by_id Participants.find_participant
    Participants.add_participant
add_room_participant-Keeps c actor u = checking _ _ _ (
    asking _ _ λ _. checking _ _ _ (
      asking _ _ λ _. checking _ _ _ (
        Keeps-statement messages_of _
          λ db a after e. upsert_participant-messages db _ _ _ a after e)))

pub update_participant_role-Keeps :
    (c actor u : Uuid) (r : ParticipantRole)
    → Keeps messages_of (Members.update_participant_role c actor u r)
unfolding Members.update_participant_role Participants.find_participant
    Participants.update_participant_role
update_participant_role-Keeps c actor u r = checking _ _ _ (
    checking _ _ _ (
      asking _ _ λ _. checking _ _ _ (
        asking _ _ λ _.
          checking _ _ _
            (Keeps-statement messages_of _ λ db a after e. set_role-messages db _ _ _ a after e))))

removal-Keeps : (c u : Uuid) → Keeps messages_of (Participants.remove_participant c u)
unfolding Participants.remove_participant without_participant
removal-Keeps c u = Keeps-statement messages_of _ λ db a after e. ground arith

pub remove_participant-Keeps :
    (c actor u : Uuid) → Keeps messages_of (Members.remove_participant c actor u)
unfolding Members.remove_participant Conversations.find_by_id Participants.find_participant
remove_participant-Keeps c actor u = checking _ _ _ (
    asking _ _ λ _. checking _ _ _ (
      asking _ _
        λ _. checking _ _ _ (asking _ _ λ _. checking _ _ _ (checking _ _ _ (removal-Keeps c u)))))

pub leave_room-Keeps : (c u : Uuid) → Keeps messages_of (Members.leave_room c u)
unfolding Members.leave_room Conversations.find_by_id Participants.find_participant
leave_room-Keeps c u =
    checking _ _ _
      (asking _ _ λ _. checking _ _ _ (asking _ _ λ _. checking _ _ _ (removal-Keeps c u)))

handover-Keeps : (c u v : Uuid) → Keeps messages_of (Participants.transfer_ownership c u v)
unfolding Participants.transfer_ownership demote
handover-Keeps c u v = Keeps-transaction messages_of _ (
    Keeps-bind messages_of _ _ (Keeps-statement messages_of _ λ db a after e. ground arith) λ _.
      Keeps-bind messages_of _ _
        (Keeps-statement messages_of _ λ db a after e. set_role-messages db _ _ owner a after e)
        λ promoted. Keeps-pure messages_of promoted)

pub transfer_ownership-Keeps :
    (c actor u : Uuid) → Keeps messages_of (Members.transfer_ownership c actor u)
unfolding Members.transfer_ownership Conversations.find_by_id Participants.find_participant
transfer_ownership-Keeps c actor u = checking _ _ _ (
    asking _ _ λ _.
      checking _ _ _ (
        asking _ _ λ _. checking _ _ _ (asking _ _ λ _. checking _ _ _ (handover-Keeps c actor u))))
