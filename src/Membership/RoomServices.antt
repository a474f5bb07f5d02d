-- ===== src/Membership/RoomServices.antt =====
-- The calls of the conversation service on whole conversations, as `Step`s of their caller.
use real_time_chat_app.Base.{
  ◌≡◌, ◌≢◌, refl, inl, inr, none, find, find-true, find-none, arith, Option-cases, Text,
}
use real_time_chat_app.Models.{Uuid, Conversation}
use real_time_chat_app.Store.{Db, Result, ok, err, no_rows}
use real_time_chat_app.Store.Effect.{
  Effect-weaken, Effect-bind, Effect-pure, Effect-fail, Reads-guard, Reads-query, Effect-statement,
}
use real_time_chat_app.Store.Tables.{find_conversation, has_id}
use real_time_chat_app.Repository.Conversations
use real_time_chat_app.Repository.Conversations.{joins}
use real_time_chat_app.Repository.Participants
use real_time_chat_app.Service.Rooms.{
  create_room, create_direct, reuse_or_create, mark_read, update_room_name, delete_room,
}
use real_time_chat_app.Membership.{view, stay, open_room, open_direct, close_room, NoDirect}
use real_time_chat_app.Membership.Reads.{
  Effect-in_room, Effect-checked, owner_of, Reads-find_direct,
}
use real_time_chat_app.Membership.Writes.{set_name-Same, set_read-Same, closed}
use real_time_chat_app.Membership.Transactions.{create_room-RoomOpened, create_direct-DirectOpened}
use real_time_chat_app.Membership.Services.{Acts}

module _ (db : Db) (actor : Uuid) where
  pub create_room-Acts :
      (new_id : Uuid) (name : Text) → Acts actor db (create_room new_id name actor)
  unfolding create_room
  create_room-Acts new_id name = Effect-bind db _ _ (Reads-guard db _ _) λ _ fit.
      Effect-weaken db _
        (λ made after opened. open_room new_id opened.fresh opened.types opened.roles)
        (create_room-RoomOpened db _ actor)

  pub mark_read-Acts : (c : Uuid) → Acts actor db (mark_read c actor)
  unfolding mark_read Participants.is_participant Participants.mark_read
  mark_read-Acts c = Effect-bind db _ _ (Reads-query db _) λ there found.
      Effect-bind db _ _ (Reads-guard db there _) λ _ test.
        Effect-statement db _ λ row after e.
          let (types, roles) = set_read-Same db after c actor row e in stay types roles

  pub update_room_name-Acts :
      (c : Uuid) (name : Text) → Acts actor db (update_room_name c actor name)
  unfolding update_room_name Conversations.update_room_name
  update_room_name-Acts c name = Effect-bind db _ _ (Reads-guard db _ _) λ _ fit.
      Effect-in_room db c _ _ λ is_room. Effect-checked db c actor _ _ _ λ acting row manages.
        Effect-statement db _ λ renamed after e.
          let (types, roles) = set_name-Same db after c _ renamed e in stay types roles

  pub delete_room-Acts : (c : Uuid) → Acts actor db (delete_room c actor)
  unfolding delete_room Conversations.delete_conversation
  delete_room-Acts c = Effect-in_room db c _ _ λ is_room.
      Effect-checked db c actor _ _ _ λ acting row owns. Effect-statement db _ λ done after e.
        let (types, roles) = closed db after done c e in
        close_room c is_room (owner_of db c actor acting row owns) types roles

NoDirect-of :
    (db : Db) (u v : Uuid)
    → find (joins db.participants u v) db.conversations ≡ none
    → NoDirect (view db) u v
unfolding find_conversation
NoDirect-of db u v missing c is_direct = elim (Option-cases (find (has_id c) db.conversations)) [
  | inl absent ↦ ground arith
  | inr (row, found) ↦ ground (
    arith,
    find-true (has_id c) db.conversations row found,
    find-none (joins db.participants u v) (has_id c) db.conversations row missing found,
  )
]

module _ (db : Db) (actor : Uuid) where
  reuse_or_create-Acts :
      (new_id u : Uuid) (r : Result Conversation)
      → actor ≢ u
      → (r ≡ err no_rows → find (joins db.participants actor u) db.conversations ≡ none)
      → Acts actor db (reuse_or_create new_id actor u r)
  unfolding reuse_or_create
  reuse_or_create-Acts new_id u (ok existing) apart missing =
      Effect-pure db existing (stay (λ x. refl) (λ x y. refl))
  reuse_or_create-Acts new_id u (err no_rows) apart missing =
      Effect-weaken db _
        (λ made after opened.
          open_direct new_id u apart opened.fresh (NoDirect-of db actor u (missing refl))
            opened.types opened.roles)
        (create_direct-DirectOpened db _ actor u)
  reuse_or_create-Acts new_id u (err e) apart missing = Effect-fail db e

  pub create_direct-Acts : (new_id u : Uuid) → Acts actor db (create_direct new_id actor u)
  unfolding create_direct
  create_direct-Acts new_id u = Effect-bind db _ _ (Reads-guard db _ _) λ _ fit.
      Effect-bind db _ _ (Reads-find_direct db actor u)
        λ found missing. reuse_or_create-Acts new_id u found (λ same. ground arith) missing
