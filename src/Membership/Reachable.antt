-- ===== src/Membership/Reachable.antt =====
-- The policy and the invariant for the calls of Service/Calls.antt and for their histories.
use real_time_chat_app.Base.{refl, List, [], ◌∷◌}
use real_time_chat_app.Models.{Uuid, Time}
use real_time_chat_app.Store.{World, Db, Result, ok, err, Store}
use real_time_chat_app.Store.Effect.{Post}
use real_time_chat_app.Store.Tables.{find_conversation}
use real_time_chat_app.Service.Calls.{
  Call, create_room, create_direct, mark_read, update_room_name, delete_room, add_room_participant,
  update_participant_role, remove_participant, leave_room, transfer_ownership, create_message,
  update_message, delete_message, perform, discard, at_time, run,
}
use real_time_chat_app.Membership.{view, Step, stay}
use real_time_chat_app.Membership.Invariant.{IsConsistent}
use real_time_chat_app.Membership.Preserved.{Step-IsConsistent}
use real_time_chat_app.Membership.Services.{
  Acts, add_room_participant-Acts, update_participant_role-Acts, remove_participant-Acts,
  leave_room-Acts, transfer_ownership-Acts,
}
use real_time_chat_app.Membership.RoomServices.{
  create_room-Acts, create_direct-Acts, mark_read-Acts, update_room_name-Acts, delete_room-Acts,
}
use real_time_chat_app.Membership.MessageServices.{create-Acts, update-Acts, delete-Acts}

module _ {A : Type 0} (actor : Uuid) where
  Step-Post :
      (db : Db) (r : Result A × World)
      → Post db (λ _ after. Step actor (view db) (view after)) r
      → Step actor (view db) (view (discard r).db)
  Step-Post db (ok a, w) s = s
  Step-Post db (err e, w) same = stay (λ x. rw same) (λ x y. rw same)

  Step-of_Acts :
      (m : Store A) (w : World)
      → Acts actor w.db m
      → Step actor (view w.db) (view (discard (m w)).db)
  Step-of_Acts m w acts = Step-Post w.db (m w) (acts.at w refl)

-- Whatever the caller asks, in every state and whatever statements meet an outage, a call makes one
-- step of the membership policy on the conversations and roles, where a step may leave them alone.
pub perform-Step :
    (actor : Uuid) (call : Call) (w : World)
    → Step actor (view w.db) (view (perform actor call w).db)
unfolding perform
perform-Step actor (create_room n name) w =
    Step-of_Acts actor _ w (create_room-Acts w.db actor n name)
perform-Step actor (create_direct n u) w =
    Step-of_Acts actor _ w (create_direct-Acts w.db actor n u)
perform-Step actor (mark_read c) w = Step-of_Acts actor _ w (mark_read-Acts w.db actor c)
perform-Step actor (update_room_name c name) w =
    Step-of_Acts actor _ w (update_room_name-Acts w.db actor c name)
perform-Step actor (delete_room c) w = Step-of_Acts actor _ w (delete_room-Acts w.db actor c)
perform-Step actor (add_room_participant c u) w =
    Step-of_Acts actor _ w (add_room_participant-Acts w.db actor c u)
perform-Step actor (update_participant_role c u r) w =
    Step-of_Acts actor _ w (update_participant_role-Acts w.db actor c u r)
perform-Step actor (remove_participant c u) w =
    Step-of_Acts actor _ w (remove_participant-Acts w.db actor c u)
perform-Step actor (leave_room c) w = Step-of_Acts actor _ w (leave_room-Acts w.db actor c)
perform-Step actor (transfer_ownership c u) w =
    Step-of_Acts actor _ w (transfer_ownership-Acts w.db actor c u)
perform-Step actor (create_message n c content) w =
    Step-of_Acts actor _ w (create-Acts w.db n c actor content)
perform-Step actor (update_message c m content) w =
    Step-of_Acts actor _ w (update-Acts w.db c m actor content)
perform-Step actor (delete_message c m) w = Step-of_Acts actor _ w (delete-Acts w.db c m actor)

pub IsConsistent-at_time :
    (t : Time) (w : World) → IsConsistent (view w.db) → IsConsistent (view (at_time t w).db)
unfolding find_conversation
IsConsistent-at_time t w valid = valid

-- From a consistent state, every history of calls by any callers at any times, failed calls and
-- database outages included, ends in a consistent state: nobody takes part in a conversation that is
-- not there, each room has exactly one owner, each direct conversation joins exactly two users, both
-- plain members, and no two direct conversations join the same users.
pub run-IsConsistent :
    (calls : List (Time × Uuid × Call)) (w : World)
    → IsConsistent (view w.db)
    → IsConsistent (view (run calls w).db)
unfolding run
run-IsConsistent [] w valid = valid
run-IsConsistent ((t, actor, call) ∷ calls) w valid =
    run-IsConsistent calls (perform actor call (at_time t w)) (
      Step-IsConsistent actor _ _ (IsConsistent-at_time t w valid)
        (perform-Step actor call (at_time t w)))
