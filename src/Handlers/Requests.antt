-- ===== src/Handlers/Requests.antt =====
-- backend/internal/httpserver/router.go: the routes that change conversations and messages, behind
-- one function, and what a request on them does to the conversations.
use real_time_chat_app.Base.{refl, Option, some, List, [], ◌∷◌, Text}
use real_time_chat_app.Models.{Uuid, Time, to_role}
use real_time_chat_app.Store.{World}
use real_time_chat_app.Service.Calls
use real_time_chat_app.Service.Calls.{Call, perform, at_time}
use real_time_chat_app.Membership.{view}
use real_time_chat_app.Membership.Invariant.{IsConsistent}
use real_time_chat_app.Membership.Preserved.{Step-IsConsistent}
use real_time_chat_app.Membership.Reachable.{perform-Step, IsConsistent-at_time}
use real_time_chat_app.Handlers.{Request, authenticated}
use real_time_chat_app.Handlers.Replies.{
  Answer, answered, succeeds, read, rejected, performed, Answers, turned_away, taken, enter,
  parameter, reply, shown,
}
use real_time_chat_app.Handlers.Conversations
use real_time_chat_app.Handlers.Messages
use real_time_chat_app.Handlers.Failures.{
  create_room_failure_lem, create_direct_failure_lem, access_failure_lem,
  update_room_name_failure_lem, participant_failure_lem, update_participant_role_failure_lem,
  create_failure_lem, delete_failure_lem, update_failure_lem,
}

-- The routes with a method that writes.
pub data Route : Type 0 where
  create_room create_direct mark_read update_room_name delete_room : Route
  add_participant update_participant_role remove_participant leave_room : Route
  transfer_ownership create_message update_message delete_message : Route

-- A handler, with the identifier that `uuid.New()` gives if the handler's service draws one.
unfoldable pub serve : (Text → Option Uuid) → Uuid → Route → Request → World → Answer × World
serve parse n create_room q w = answered (Conversations.create_room parse n q w)
serve parse n create_direct q w = answered (Conversations.create_direct parse n q w)
serve parse n mark_read q w = answered (Conversations.mark_read parse q w)
serve parse n update_room_name q w = answered (Conversations.update_room_name parse q w)
serve parse n delete_room q w = answered (Conversations.delete_room parse q w)
serve parse n add_participant q w = answered (Conversations.add_participant parse q w)
serve parse n update_participant_role q w =
    answered (Conversations.update_participant_role parse q w)
serve parse n remove_participant q w = answered (Conversations.remove_participant parse q w)
serve parse n leave_room q w = answered (Conversations.leave_room parse q w)
serve parse n transfer_ownership q w = answered (Conversations.transfer_ownership parse q w)
serve parse n create_message q w = answered (Messages.create parse n q w)
serve parse n update_message q w = answered (Messages.update parse q w)
serve parse n delete_message q w = answered (Messages.delete parse q w)

-- The call that a request asks for, if its parameters and its body can be read.
unfoldable pub asked : (Text → Option Uuid) → Uuid → Route → Request → Option Call
asked parse n create_room q = read q.body λ name. some (Calls.create_room n name)
asked parse n create_direct q =
    read q.body λ given. read (parse given) λ u. some (Calls.create_direct n u)
asked parse n mark_read q = read (parse q.conversation_id) λ c. some (Calls.mark_read c)
asked parse n update_room_name q =
    read (parse q.conversation_id) λ c. read q.body λ name. some (Calls.update_room_name c name)
asked parse n delete_room q = read (parse q.conversation_id) λ c. some (Calls.delete_room c)
asked parse n add_participant q =
    read (parse q.conversation_id)
      λ c. read q.body λ given. read (parse given) λ u. some (Calls.add_room_participant c u)
asked parse n update_participant_role q = read (parse q.conversation_id) λ c.
    read (parse q.participant_id)
      λ u. read q.body λ role. some (Calls.update_participant_role c u (to_role role))
asked parse n remove_participant q =
    read (parse q.conversation_id)
      λ c. read (parse q.participant_id) λ u. some (Calls.remove_participant c u)
asked parse n leave_room q = read (parse q.conversation_id) λ c. some (Calls.leave_room c)
asked parse n transfer_ownership q =
    read (parse q.conversation_id)
      λ c. read q.body λ given. read (parse given) λ u. some (Calls.transfer_ownership c u)
asked parse n create_message q =
    read (parse q.conversation_id)
      λ c. read q.body λ content. some (Calls.create_message n c content)
asked parse n update_message q = read (parse q.conversation_id) λ c.
    read (parse q.message_id) λ m. read q.body λ content. some (Calls.update_message c m content)
asked parse n delete_message q =
    read (parse q.conversation_id)
      λ c. read (parse q.message_id) λ m. some (Calls.delete_message c m)

module _ (parse : Text → Option Uuid) (n : Uuid) (q : Request) (w : World) where
  -- On every route that writes: a request whose caller is not authenticated gets the status
  -- unauthorized and changes nothing. A request of an authenticated caller that cannot be read as the
  -- call that the route stands for is a bad request and changes nothing; another does what that call
  -- by the caller does, and gets a status of success just if the call succeeds. Nothing is published
  -- unless the call succeeds.
  pub serve-Answers :
      (route : Route)
      → Answers (authenticated parse q) (asked parse n route q) w (serve parse n route q w)
  unfolding serve asked perform succeeds Conversations.create_room Conversations.create_direct
      Conversations.mark_read Conversations.update_room_name Conversations.delete_room
      Conversations.add_participant Conversations.update_participant_role
      Conversations.remove_participant Conversations.leave_room Conversations.transfer_ownership
      Messages.create Messages.update Messages.delete
  serve-Answers create_room = enter w _ _ _ λ actor. parameter actor w q.body _ _ λ name.
      shown actor w (Calls.create_room n name) _ _ _ _ _ refl create_room_failure_lem refl refl
  serve-Answers create_direct = enter w _ _ _ λ actor. parameter actor w q.body _ _ λ given.
      parameter actor w _ _ _ λ other.
        shown actor w (Calls.create_direct n other) _ _ _ _ _ refl create_direct_failure_lem refl
          refl
  serve-Answers mark_read = enter w _ _ _ λ actor.
      parameter actor w _ _ _
        λ c. shown actor w (Calls.mark_read c) _ _ _ _ _ refl access_failure_lem refl refl
  serve-Answers update_room_name = enter w _ _ _ λ actor. parameter actor w _ _ _ λ c.
      parameter actor w q.body _ _ λ name.
        shown actor w (Calls.update_room_name c name) _ _ _ _ _ refl update_room_name_failure_lem
          refl refl
  serve-Answers delete_room = enter w _ _ _ λ actor.
      parameter actor w _ _ _
        λ c. reply actor w (Calls.delete_room c) _ _ _ _ refl access_failure_lem refl refl
  serve-Answers add_participant = enter w _ _ _ λ actor. parameter actor w _ _ _ λ c.
      parameter actor w q.body _ _ λ given. parameter actor w _ _ _ λ u.
        shown actor w (Calls.add_room_participant c u) _ _ _ _ _ refl participant_failure_lem refl
          refl
  serve-Answers update_participant_role = enter w _ _ _ λ actor. parameter actor w _ _ _ λ c.
      parameter actor w _ _ _ λ u. parameter actor w q.body _ _ λ role.
        shown actor w (Calls.update_participant_role c u (to_role role)) _ _ _ _ _ refl
          update_participant_role_failure_lem refl refl
  serve-Answers remove_participant = enter w _ _ _ λ actor. parameter actor w _ _ _ λ c.
      parameter actor w _ _ _ λ u.
        reply actor w (Calls.remove_participant c u) _ _ _ _ refl participant_failure_lem refl refl
  serve-Answers leave_room = enter w _ _ _ λ actor.
      parameter actor w _ _ _
        λ c. reply actor w (Calls.leave_room c) _ _ _ _ refl participant_failure_lem refl refl
  serve-Answers transfer_ownership = enter w _ _ _ λ actor. parameter actor w _ _ _ λ c.
      parameter actor w q.body _ _ λ given. parameter actor w _ _ _ λ u.
        shown actor w (Calls.transfer_ownership c u) _ _ _ _ _ refl participant_failure_lem refl
          refl
  serve-Answers create_message = enter w _ _ _ λ actor. parameter actor w _ _ _ λ c.
      parameter actor w q.body _ _ λ content.
        shown actor w (Calls.create_message n c content) _ _ _ _ _ refl create_failure_lem refl refl
  serve-Answers update_message = enter w _ _ _ λ actor. parameter actor w _ _ _ λ c.
      parameter actor w _ _ _ λ m. parameter actor w q.body _ _ λ content.
        shown actor w (Calls.update_message c m content) _ _ _ _ _ refl update_failure_lem refl refl
  serve-Answers delete_message = enter w _ _ _ λ actor. parameter actor w _ _ _ λ c.
      parameter actor w _ _ _
        λ m. reply actor w (Calls.delete_message c m) _ _ _ _ refl delete_failure_lem refl refl

-- A request is one step of the policy by its caller, or changes nothing.
serve-IsConsistent :
    (parse : Text → Option Uuid) (n : Uuid) (q : Request) (w : World) (route : Route)
    → IsConsistent (view w.db)
    → IsConsistent (view (serve parse n route q w).1.db)
serve-IsConsistent parse n q w route valid = elim (serve-Answers parse n q w route) [
  | turned_away who status notices same ↦ rw same valid
  | taken actor who (rejected unread status notices same) ↦ rw same valid
  | taken actor who (performed call read_as after same notices) ↦
      rw after (Step-IsConsistent actor _ _ valid (perform-Step actor call w))
]

-- Requests one after the other, at each its time and the identifier that a new row would get.
unfoldable pub serve_all :
    (Text → Option Uuid) → List (Time × Uuid × Route × Request) → World → World
serve_all parse [] w = w
serve_all parse ((t, n, route, q) ∷ requests) w =
    serve_all parse requests (serve parse n route q (at_time t w)).1

-- From a consistent state, every sequence of requests on the routes that write, with any bodies,
-- parameters and claims and any database outages, ends in a consistent state.
pub serve_all-IsConsistent :
    (parse : Text → Option Uuid) (requests : List (Time × Uuid × Route × Request)) (w : World)
    → IsConsistent (view w.db)
    → IsConsistent (view (serve_all parse requests w).db)
unfolding serve_all
serve_all-IsConsistent parse [] w valid = valid
serve_all-IsConsistent parse ((t, n, route, q) ∷ requests) w valid =
    serve_all-IsConsistent parse requests (serve parse n route q (at_time t w)).1
      (serve-IsConsistent parse n q (at_time t w) route (IsConsistent-at_time t w valid))
