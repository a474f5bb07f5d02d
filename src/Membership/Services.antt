-- ===== src/Membership/Services.antt =====
-- The calls of backend/internal/services/conversation_service.go on participants, as `Step`s of
-- their caller.
use real_time_chat_app.Base.{◌≡◌, ◌≢◌, inl, inr, true, ◌||◌, some, arith}
use real_time_chat_app.Models.{
  Uuid, room, ParticipantRole, owner, member, is_room, is_admin, is_member,
}
use real_time_chat_app.Store.{Db, Store}
use real_time_chat_app.Store.Effect.{
  Effect, Effect-weaken, Effect-bind, Reads-guard, Effect-statement,
}
use real_time_chat_app.Repository.Participants
use real_time_chat_app.Service.Members.{
  add_room_participant, update_participant_role, remove_participant, leave_room, transfer_ownership,
}
use real_time_chat_app.Membership.{
  view, Step, stay, join, appoint, remove, leave, transfer, Manages, IsGuest,
}
use real_time_chat_app.Membership.Reads.{
  Effect-in_room, Effect-checked, apart_of, Manages-of, owner_of, IsGuest-of, MayRemove-of,
}
use real_time_chat_app.Membership.Writes.{upsert_participant-RoleSet, set_role-RoleSet, removed}
use real_time_chat_app.Membership.Transactions.{transfer_ownership-Transferred}

-- The action makes a step of `actor`, or fails and changes nothing.
abbrev pub Acts : {A : Type 0} → Uuid → Db → Store A → Type 0
Acts actor db m = Effect db m (λ _ after. Step actor (view db) (view after))

module _ (db : Db) (actor : Uuid) where
  add_participant-Acts :
      (c u : Uuid)
      → actor ≢ u
      → (view db).type_of c ≡ some room
      → Manages (view db) c actor
      → Acts actor db (Participants.add_participant c u member)
  unfolding Participants.add_participant
  add_participant-Acts c u apart is_room manages = Effect-statement db _ λ row after e.
      elim (upsert_participant-RoleSet db after c u member row e) [
        | inl same ↦ stay (λ x. rw same) (λ x y. rw same)
        | inr (absent, types, roles) ↦ join c u apart is_room manages absent types roles
      ]

  pub add_room_participant-Acts : (c u : Uuid) → Acts actor db (add_room_participant c actor u)
  unfolding add_room_participant
  add_room_participant-Acts c u = Effect-bind db _ _ (Reads-guard db _ _) λ _ fit.
      Effect-in_room db c _ _ λ is_room. Effect-checked db c actor _ _ _ λ acting row allowed.
        add_participant-Acts c u (apart_of u actor fit) is_room
          (Manages-of db c actor acting row allowed)

  appoint-Acts :
      (c u : Uuid) (r : ParticipantRole)
      → actor ≢ u
      → is_admin r || is_member r ≡ true
      → (view db).role_of c actor ≡ some owner
      → IsGuest (view db) c u
      → Acts actor db (Participants.update_participant_role c u r)
  unfolding Participants.update_participant_role
  appoint-Acts c u r apart fit owns guest = Effect-statement db _ λ row after e.
      let (_, types, roles) = set_role-RoleSet db after c u r row e in
      appoint c u r apart (ground arith) owns guest types roles

  pub update_participant_role-Acts :
      (c u : Uuid) (r : ParticipantRole) → Acts actor db (update_participant_role c actor u r)
  unfolding update_participant_role
  update_participant_role-Acts c u r = Effect-bind db _ _ (Reads-guard db _ _) λ _ fit.
      Effect-bind db _ _ (Reads-guard db _ _) λ _ known.
        Effect-checked db c actor _ _ _ λ acting row owns.
          Effect-checked db c u _ _ _ λ target there guest.
            appoint-Acts c u r (apart_of u actor fit) known (owner_of db c actor acting row owns)
              (IsGuest-of db c u target there guest)

  pub remove_participant-Acts : (c u : Uuid) → Acts actor db (remove_participant c actor u)
  unfolding remove_participant Participants.remove_participant
  remove_participant-Acts c u = Effect-bind db _ _ (Reads-guard db _ _) λ _ fit.
      Effect-in_room db c _ _ λ is_room. Effect-checked db c actor _ _ _ λ acting row manages.
        Effect-checked db c u _ _ _ λ target there guest.
          Effect-bind db _ _ (Reads-guard db _ _) λ _ rank. Effect-statement db _ λ done after e.
            let (types, roles) = removed db after done c u e in
            remove c u (apart_of u actor fit) is_room
              (MayRemove-of db c actor u acting target row manages there guest rank) types roles

  pub leave_room-Acts : (c : Uuid) → Acts actor db (leave_room c actor)
  unfolding leave_room Participants.remove_participant
  leave_room-Acts c = Effect-bind db _ _ (Reads-guard db _ _) λ _ fit.
      Effect-in_room db c _ _ λ is_room. Effect-checked db c actor _ _ _ λ participant there guest.
        Effect-statement db _ λ done after e.
          let (types, roles) = removed db after done c actor e in
          leave c is_room (IsGuest-of db c actor participant there guest) types roles

  pub transfer_ownership-Acts : (c u : Uuid) → Acts actor db (transfer_ownership c actor u)
  unfolding transfer_ownership
  transfer_ownership-Acts c u = Effect-bind db _ _ (Reads-guard db _ _) λ _ fit.
      Effect-in_room db c _ _ λ is_room. Effect-checked db c actor _ _ _ λ acting row owns.
        Effect-checked db c u _ _ _ λ target there guest.
          Effect-weaken db _
            (λ promoted after moved.
              transfer c u (apart_of u actor fit) is_room (owner_of db c actor acting row owns)
                (IsGuest-of db c u target there guest) moved.0 moved.1)
            (transfer_ownership-Transferred db c actor u row.0 row.1)
