-- ===== src/Membership/Transactions.antt =====
-- The transactions of the conversation repository: a failed one changes nothing, wherever it failed,
-- and a committed one makes all of its writes.
use real_time_chat_app.Base.{◌&&◌, ◌||◌, ◌≡◌, none, some, ◌==◌, if◌then◌else◌, arith, subst}
use real_time_chat_app.Models.{
  Uuid, room, direct, owner, admin, member, Conversation, ConversationParticipant,
}
use real_time_chat_app.Store.{ParticipantRow, Db, ok}
use real_time_chat_app.Store.Effect.{
  Effect, Effect-transaction, Reaches-bind, Reaches-statement, Reaches-pure,
}
use real_time_chat_app.Store.Tables.{insert_participant, find_row, find_conversation, and_then-ok}
use real_time_chat_app.Repository.Conversations.{create_room, create_direct, insert_pair}
use real_time_chat_app.Repository.Participants.{transfer_ownership, demote, set_role, assign_role}
use real_time_chat_app.Membership.{View, view, SameTypes, RoleSet, TypeSet}
use real_time_chat_app.Membership.Writes.{
  Added, Enrolled, insert_conversation-TypeSet, insert_participant-RoleSet, set_role-RoleSet,
  role_in-assign_role,
}

-- What a committed `CreateRoom` has done.
pub record RoomOpened (v w : View) (c creator : Uuid) : Type 0 where
  pub fresh : v.type_of c ≡ none
  pub types : TypeSet v w c (some room)
  pub roles : RoleSet v w c creator (some owner)

room_opened :
    (db mid after : Db) (c creator : Uuid) (made : Conversation)
    → Added db mid c room made
    → Enrolled mid after made.id creator owner
    → RoomOpened (view db) (view after) c creator
unfolding find_conversation find_row
room_opened db mid after c creator made (fresh, types, rows, id) (absent, roles, kept) = record {
  fresh = fresh;
  types = λ x. ground (arith, types x);
  roles = λ x y. ground (arith, roles x y);
}

module _ (db : Db) where
  pub create_room-RoomOpened :
      (conversation : Conversation) (creator : Uuid)
      → Effect db
          (create_room conversation creator)
          (λ made after. RoomOpened (view db) (view after) conversation.id creator)
  unfolding create_room
  create_room-RoomOpened conversation creator =
      let c = conversation.id in
      Effect-transaction db _ (
        Reaches-bind db _ _
          (Reaches-statement (λ made mid. Added db mid c room made) db _
            (λ made mid. insert_conversation-TypeSet db mid c room conversation.name creator made))
          λ made mid added.
            Reaches-bind mid _ _
              (Reaches-statement (λ _ after. RoomOpened (view db) (view after) c creator) mid _
                (λ row after e.
                  room_opened db mid after c creator made added
                    (insert_participant-RoleSet mid after made.id creator owner row e)))
              λ row after opened. Reaches-pure _ after made opened)

-- What a committed `CreateDirect` has done.
pub record DirectOpened (v w : View) (c a b : Uuid) : Type 0 where
  pub fresh : v.type_of c ≡ none
  pub types : TypeSet v w c (some direct)
  pub roles :
      (x y : Uuid)
      → w.role_of x y ≡ (if x == c && (y == a || y == b) then some member else v.role_of x y)

direct_opened :
    (db mid late after : Db) (c a b : Uuid) (made : Conversation)
    → Added db mid c direct made
    → Enrolled mid late made.id a member
    → Enrolled late after made.id b member
    → DirectOpened (view db) (view after) c a b
unfolding find_conversation find_row
direct_opened db mid late after c a b made (fresh, types, rows, id) (_, first, kept)
      (_, second, still) =
    record {
      fresh = fresh;
      types = λ x. ground (arith, types x);
      roles = λ x y. ground (arith, first x y, second x y);
    }

insert_pair-DirectOpened :
    (db mid after : Db) (c a b : Uuid) (made : Conversation) (row : ParticipantRow)
    → Added db mid c direct made
    → insert_pair made.id a b mid ≡ ok (row, after)
    → DirectOpened (view db) (view after) c a b
unfolding insert_pair
insert_pair-DirectOpened db mid after c a b made row added e =
    let ((first, late), e₁, e₂) = and_then-ok (insert_participant made.id a member mid) _ _ e in
    direct_opened db mid late after c a b made added
      (insert_participant-RoleSet mid late made.id a member first e₁)
      (insert_participant-RoleSet late after made.id b member row e₂)

-- What a committed `TransferOwnership` has done.
abbrev pub Transferred : View → View → Uuid → Uuid → Uuid → Type 0
Transferred v w c old new =
    SameTypes v w
    × ((x y : Uuid)
        → w.role_of x y ≡ (
            if x == c && y == new
            then some owner
            else if x == c && y == old
            then some admin
            else v.role_of x y))

demoted : (db : Db) (c u : Uuid) → Db
demoted db c u = record db { participants = assign_role c u admin db.participants }

demote-demoted :
    (db mid : Db) (c u : Uuid) (done : Unit {0})
    → demote c u db ≡ ok (done, mid)
    → mid ≡ demoted db c u
unfolding demote demoted
demote-demoted db mid c u done e = ground arith

set_role-Transferred :
    (db after : Db) (c old new : Uuid) (row : ParticipantRow) (promoted : ConversationParticipant)
    → find_row c old db.participants ≡ some row
    → set_role c new owner (demoted db c old) ≡ ok (promoted, after)
    → Transferred (view db) (view after) c old new
unfolding demoted find_conversation
set_role-Transferred db after c old new row promoted found e =
    let (_, types, roles) = set_role-RoleSet (demoted db c old) after c new owner promoted e in
    (
      (λ x. ground (arith, types x)),
      (λ x y. ground (arith, roles x y, role_in-assign_role db c old admin x y row found)),
    )

module _ (db : Db) where
  pub create_direct-DirectOpened :
      (conversation : Conversation) (a b : Uuid)
      → Effect db
          (create_direct conversation a b)
          (λ made after. DirectOpened (view db) (view after) conversation.id a b)
  unfolding create_direct
  create_direct-DirectOpened conversation a b =
      let c = conversation.id in
      Effect-transaction db _ (
        Reaches-bind db _ _
          (Reaches-statement (λ made mid. Added db mid c direct made) db _
            (λ made mid. insert_conversation-TypeSet db mid c direct none a made))
          λ made mid added.
            Reaches-bind mid _ _
              (Reaches-statement (λ _ after. DirectOpened (view db) (view after) c a b) mid _
                (λ row after. insert_pair-DirectOpened db mid after c a b made row added))
              λ row after opened. Reaches-pure _ after made opened)

  pub transfer_ownership-Transferred :
      (c old new : Uuid) (row : ParticipantRow)
      → find_row c old db.participants ≡ some row
      → Effect db
          (transfer_ownership c old new)
          (λ promoted after. Transferred (view db) (view after) c old new)
  unfolding transfer_ownership
  transfer_ownership-Transferred c old new row found = Effect-transaction db _ (
      Reaches-bind db _ _
        (Reaches-statement (λ _ mid. mid ≡ demoted db c old) db _
          (λ done mid. demote-demoted db mid c old done))
        λ _ mid same.
          Reaches-bind mid _ _
            (Reaches-statement (λ _ after. Transferred (view db) (view after) c old new) mid _
              (λ promoted after e.
                set_role-Transferred db after c old new row promoted found
                  (subst (λ d. set_role c new owner d ≡ ok (promoted, after)) same e)))
            λ promoted after moved. Reaches-pure _ after promoted moved)
