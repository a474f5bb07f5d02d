-- ===== src/Membership/Writes.antt =====
-- What each write of the conversation repository does to the abstract state.
use real_time_chat_app.Base.{
  not, ◌&&◌, ◌≡◌, ◌≢◌, refl, ◌⊎◌, inl, inr, Option, none, some, ◌==◌, if◌then◌else◌, arith,
  Bool-cases, Option-cases, Text, find, find-append_one, find-true, find-filter_keep,
  find-filter_drop, find-update,
}
use real_time_chat_app.Models.{
  Uuid, ConversationType, ParticipantRole, Conversation, ConversationParticipant,
}
use real_time_chat_app.Store.{ParticipantRow, Db, Result, ok, or_fail}
use real_time_chat_app.Store.Tables.{
  find_conversation, find_row, insert_conversation, insert_participant, new_row, has_id, at_key,
}
use real_time_chat_app.Repository.Conversations.{without_conversation, set_name, renamed}
use real_time_chat_app.Repository.Participants.{
  upsert_participant, set_role, without_participant, set_read, assign_role, with_role, read_at,
}
use real_time_chat_app.Membership.{View, view, role_in, SameTypes, RoleSet, TypeSet}

-- A new conversation is there, with its identifier, and the participants are as they were.
abbrev pub Added : Db → Db → Uuid → ConversationType → Conversation → Type 0
Added db after c t made =
    ((view db).type_of c ≡ none)
    × TypeSet (view db) (view after) c (some t)
    × (after.participants ≡ db.participants)
    × (made.id ≡ c)

-- A new participant is there, and the conversations are as they were.
abbrev pub Enrolled : Db → Db → Uuid → Uuid → ParticipantRole → Type 0
Enrolled db after c u r =
    ((view db).role_of c u ≡ none)
    × RoleSet (view db) (view after) c u (some r)
    × (after.conversations ≡ db.conversations)

module _ (db after : Db) where
  pub insert_conversation-TypeSet :
      (c : Uuid) (t : ConversationType) (name : Option Text) (creator : Uuid) (made : Conversation)
      → insert_conversation c t name creator db ≡ ok (made, after)
      → Added db after c t made
  unfolding insert_conversation
  insert_conversation-TypeSet c t name creator made e = (
    ground arith,
    (λ x. ground (arith, find-append_one (has_id x) db.conversations made)),
    ground arith,
    ground arith,
  )

  pub insert_participant-RoleSet :
      (c u : Uuid) (r : ParticipantRole) (made : ParticipantRow)
      → insert_participant c u r db ≡ ok (made, after)
      → Enrolled db after c u r
  unfolding insert_participant
  insert_participant-RoleSet c u r made e = (
    ground arith,
    (λ x y. ground (arith, find-append_one (at_key x y) db.participants made)),
    ground arith,
  )

abbrev pub Same : View → View → Type 0
Same v w = SameTypes v w × ((x y : Uuid) → w.role_of x y ≡ v.role_of x y)

module _ (db : Db) where
  pub without_conversation-closed :
      (c : Uuid)
      → TypeSet (view db) (view (without_conversation c db)) c none
        × ((x y : Uuid)
            → (view (without_conversation c db)).role_of x y
              ≡ (if x == c then none else (view db).role_of x y))
  unfolding without_conversation find_conversation find_row
  without_conversation-closed c = (
    (λ x. elim (Bool-cases (x == c)) [
      | inl same ↦ ground (
        arith,
        find-filter_drop (has_id x) (λ row. not (has_id c row)) db.conversations
            (λ row h. ground arith),
      )
      | inr other ↦ ground (
        arith,
        find-filter_keep (has_id x) (λ row. not (has_id c row)) db.conversations
            (λ row h. ground arith),
      )
    ]),
    (λ x y. elim (Bool-cases (x == c)) [
      | inl same ↦ ground (
        arith,
        find-filter_drop (at_key x y) (λ row. not (row.conversation_id == c)) db.participants
            (λ row h. ground arith),
      )
      | inr other ↦ ground (
        arith,
        find-filter_keep (at_key x y) (λ row. not (row.conversation_id == c)) db.participants
            (λ row h. ground arith),
      )
    ]),
  )

  pub without_participant-RoleSet :
      (c u : Uuid) → RoleSet (view db) (view (without_participant c u db)) c u none
  unfolding without_participant find_row
  without_participant-RoleSet c u x y = elim (Bool-cases (x == c && y == u)) [
    | inl same ↦ ground (
      arith,
      find-filter_drop (at_key x y) (λ row. not (at_key c u row)) db.participants
          (λ row h. ground arith),
    )
    | inr other ↦ ground (
      arith,
      find-filter_keep (at_key x y) (λ row. not (at_key c u row)) db.participants
          (λ row h. ground arith),
    )
  ]

  pub role_in-assign_role :
      (c u : Uuid) (r : ParticipantRole) (x y : Uuid) (row : ParticipantRow)
      → find_row c u db.participants ≡ some row
      → role_in (find_row x y (assign_role c u r db.participants))
        ≡ (if x == c && y == u then some r else (view db).role_of x y)
  unfolding assign_role find_row
  role_in-assign_role c u r x y row found =
      let commuted =
        find-update (at_key x y) (at_key c u) (with_role r) db.participants (λ row. refl) in
      elim (Option-cases (find (at_key x y) db.participants)) [
        | inl absent ↦ ground (arith, commuted)
        | inr (there, e) ↦ ground (arith, commuted, find-true (at_key x y) db.participants there e)
      ]

module _ (db after : Db) where
  pub set_name-Same :
      (c : Uuid) (name : Text) (row : Conversation)
      → set_name c name db ≡ ok (row, after)
      → Same (view db) (view after)
  unfolding set_name find_conversation or_fail
  set_name-Same c name row e = (
    (λ x. ground (
      arith,
      find-update (has_id x) (has_id c) (renamed name db.now) db.conversations (λ row. refl),
    )),
    (λ x y. ground arith),
  )

  pub set_read-Same :
      (c u : Uuid) (row : ConversationParticipant)
      → set_read c u db ≡ ok (row, after)
      → Same (view db) (view after)
  unfolding set_read find_row find_conversation or_fail
  set_read-Same c u row e = (
    (λ x. ground arith),
    (λ x y. ground (
      arith,
      find-update (at_key x y) (at_key c u) (read_at db.now) db.participants (λ row. refl),
    )),
  )

  -- An upsert adds the row or leaves everything as it was.
  pub upsert_participant-RoleSet :
      (c u : Uuid) (r : ParticipantRole) (row : ConversationParticipant)
      → upsert_participant c u r db ≡ ok (row, after)
      → (after ≡ db)
        ⊎ (((view db).role_of c u ≡ none)
            × SameTypes (view db) (view after)
            × RoleSet (view db) (view after) c u (some r))
  unfolding upsert_participant
  upsert_participant-RoleSet c u r row e = elim (Option-cases (find_row c u db.participants)) [
    | inl absent ↦ inr (
      ground arith,
      (λ x. ground arith),
      (λ x y. ground (arith, find-append_one (at_key x y) db.participants (new_row c u r db))),
    )
    | inr (there, found) ↦ inl (ground arith)
  ]

  pub set_role-RoleSet :
      (c u : Uuid) (r : ParticipantRole) (row : ConversationParticipant)
      → set_role c u r db ≡ ok (row, after)
      → ((view db).role_of c u ≢ none)
        × SameTypes (view db) (view after)
        × RoleSet (view db) (view after) c u (some r)
  unfolding set_role or_fail find_conversation
  set_role-RoleSet c u r row e = elim (Option-cases (find_row c u db.participants)) [
    | inl absent ↦ cc
    | inr (there, found) ↦ (
      (λ x. ground arith),
      (λ x. ground arith),
      (λ x y. ground (arith, role_in-assign_role db c u r x y there found)),
    )
  ]

-- The statements that are sure to pass.
module _ (db after : Db) (done : Unit {0}) where
  pub removed :
      (c u : Uuid)
      → ◌≡◌ {A = Result (Unit {0} × Db)} (ok (tt, without_participant c u db)) (ok (done, after))
      → SameTypes (view db) (view after) × RoleSet (view db) (view after) c u none
  unfolding without_participant find_conversation
  removed c u e =
      ((λ x. ground arith), (λ x y. ground (arith, without_participant-RoleSet db c u x y)))

  pub closed :
      (c : Uuid)
      → ◌≡◌ {A = Result (Unit {0} × Db)} (ok (tt, without_conversation c db)) (ok (done, after))
      → TypeSet (view db) (view after) c none
        × ((x y : Uuid)
            → (view after).role_of x y ≡ (if x == c then none else (view db).role_of x y))
  closed c e =
      let (types, roles) = without_conversation-closed db c in
      ((λ x. ground (arith, types x)), (λ x y. ground (arith, roles x y)))
