-- ===== src/Service/Calls.antt =====
-- The calls of the services that change conversations and messages, as one type, and a run of them:
-- at each call the clock has some time, and some caller is authenticated.
use real_time_chat_app.Base.{List, [], ◌∷◌, Text}
use real_time_chat_app.Models.{Uuid, Time, ParticipantRole}
use real_time_chat_app.Store.{World, Result}
use real_time_chat_app.Service.Rooms
use real_time_chat_app.Service.Members
use real_time_chat_app.Service.Messages

pub data Call : Type 0 where
  create_room : Uuid → Text → Call
  create_direct : Uuid → Uuid → Call
  mark_read : Uuid → Call
  update_room_name : Uuid → Text → Call
  delete_room : Uuid → Call
  add_room_participant : Uuid → Uuid → Call
  update_participant_role : Uuid → Uuid → ParticipantRole → Call
  remove_participant : Uuid → Uuid → Call
  leave_room : Uuid → Call
  transfer_ownership : Uuid → Uuid → Call
  create_message : Uuid → Uuid → Text → Call
  update_message : Uuid → Uuid → Text → Call
  delete_message : Uuid → Uuid → Call

abbrev pub discard : {A : Type 0} → Result A × World → World
discard (r, w) = w

-- The state after a call, whether it succeeded or failed.
unfoldable pub perform : Uuid → Call → World → World
perform actor (create_room new_id name) w = discard (Rooms.create_room new_id name actor w)
perform actor (create_direct new_id u) w = discard (Rooms.create_direct new_id actor u w)
perform actor (mark_read c) w = discard (Rooms.mark_read c actor w)
perform actor (update_room_name c name) w = discard (Rooms.update_room_name c actor name w)
perform actor (delete_room c) w = discard (Rooms.delete_room c actor w)
perform actor (add_room_participant c u) w = discard (Members.add_room_participant c actor u w)
perform actor (update_participant_role c u r) w =
    discard (Members.update_participant_role c actor u r w)
perform actor (remove_participant c u) w = discard (Members.remove_participant c actor u w)
perform actor (leave_room c) w = discard (Members.leave_room c actor w)
perform actor (transfer_ownership c u) w = discard (Members.transfer_ownership c actor u w)
perform actor (create_message new_id c content) w =
    discard (Messages.create new_id c actor content w)
perform actor (update_message c m content) w = discard (Messages.update c m actor content w)
perform actor (delete_message c m) w = discard (Messages.delete c m actor w)

abbrev pub at_time : Time → World → World
at_time t w = record w { db = record w.db { now = t } }

unfoldable pub run : List (Time × Uuid × Call) → World → World
run [] w = w
run ((t, actor, call) ∷ calls) w = run calls (perform actor call (at_time t w))
