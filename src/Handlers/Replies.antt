-- ===== src/Handlers/Replies.antt =====
-- What a handler's reply says of the call behind it, and the rules that prove it: one for the check
-- of the caller, one for each parameter, one for the reply to the service's outcome.
use real_time_chat_app.Base.{◌≡◌, refl, ◌∙◌, Bool, true, false, Option, none, some, List, []}
use real_time_chat_app.Models.{Uuid}
use real_time_chat_app.Store.{World, Error, Result, ok, err}
use real_time_chat_app.Service.Rooms
use real_time_chat_app.Service.Members
use real_time_chat_app.Service.Messages
use real_time_chat_app.Service.Calls
use real_time_chat_app.Service.Calls.{Call, discard, perform}
use real_time_chat_app.Handlers.{
  Status, is_success, unauthorized, bad_request, Notice, Reply, rendered, respond, require,
}

abbrev pub is_ok : {A : Type 0} → Result A × World → Bool
is_ok (ok a, w) = true
is_ok (err e, w) = false

-- Whether a call succeeds.
unfoldable pub succeeds : Uuid → Call → World → Bool
succeeds actor (Calls.create_room n name) w = is_ok (Rooms.create_room n name actor w)
succeeds actor (Calls.create_direct n u) w = is_ok (Rooms.create_direct n actor u w)
succeeds actor (Calls.mark_read c) w = is_ok (Rooms.mark_read c actor w)
succeeds actor (Calls.update_room_name c name) w = is_ok (Rooms.update_room_name c actor name w)
succeeds actor (Calls.delete_room c) w = is_ok (Rooms.delete_room c actor w)
succeeds actor (Calls.add_room_participant c u) w = is_ok (Members.add_room_participant c actor u w)
succeeds actor (Calls.update_participant_role c u r) w =
    is_ok (Members.update_participant_role c actor u r w)
succeeds actor (Calls.remove_participant c u) w = is_ok (Members.remove_participant c actor u w)
succeeds actor (Calls.leave_room c) w = is_ok (Members.leave_room c actor w)
succeeds actor (Calls.transfer_ownership c u) w = is_ok (Members.transfer_ownership c actor u w)
succeeds actor (Calls.create_message n c content) w = is_ok (Messages.create n c actor content w)
succeeds actor (Calls.update_message c m content) w = is_ok (Messages.update c m actor content w)
succeeds actor (Calls.delete_message c m) w = is_ok (Messages.delete c m actor w)

-- What is left of a reply on every route: the status and what is published.
pub record Answer : Type 0 where
  pub status : Status
  pub notices : List (Uuid × Notice)

abbrev pub answered : {A : Type 0} → Reply A × World → Answer × World
answered (reply, w) = (record { status = reply.status; notices = reply.notices }, w)

-- A parameter of the request that a call is made of.
abbrev pub read : {A : Type 0} → Option A → (A → Option Call) → Option Call
read none make = none
read (some a) make = make a

-- The answer to an authenticated caller whose request asks for a call, or for none that can be read:
-- a bad request, or the outcome of the call. The status is a success just if the call is, and only
-- then is anything published.
pub data Taken (actor : Uuid) (asked : Option Call) (w : World) (r : Answer × World) : Type 0 where
  rejected :
      asked ≡ none → r.0.status ≡ bad_request → r.0.notices ≡ [] → r.1 ≡ w → Taken actor asked w r
  performed :
      (call : Call)
      → asked ≡ some call
      → r.1 ≡ perform actor call w
      → is_success r.0.status ≡ succeeds actor call w
      → (succeeds actor call w ≡ false → r.0.notices ≡ [])
      → Taken actor asked w r

pub data Answers (who : Option Uuid) (asked : Option Call) (w : World) (r : Answer × World)
    : Type 0 where
  turned_away :
      who ≡ none → r.0.status ≡ unauthorized → r.0.notices ≡ [] → r.1 ≡ w → Answers who asked w r
  taken : (actor : Uuid) → who ≡ some actor → Taken actor asked w r → Answers who asked w r

module _ {A : Type 0} (w : World) where
  pub enter :
      (who : Option Uuid) (asked : Option Call) (next : Uuid → World → Reply A × World)
      → ((actor : Uuid) → Taken actor asked w (answered (next actor w)))
      → Answers who asked w (answered (require who unauthorized next w))
  unfolding require
  enter none asked next h = turned_away refl refl refl refl
  enter (some actor) asked next h = taken actor refl (h actor)

module _ {A B : Type 0} (actor : Uuid) (w : World) where
  pub parameter :
      (o : Option A) (make : A → Option Call) (next : A → World → Reply B × World)
      → ((a : A) → Taken actor (make a) w (answered (next a w)))
      → Taken actor (read o make) w (answered (require o bad_request next w))
  unfolding require
  parameter none make next h = rejected refl refl refl refl
  parameter (some a) make next h = h a

module _ {A : Type 0} (actor : Uuid) (w : World) (call : Call) where
  pub reply :
      (status : Status) (failure : Error → Status) (notices : A → List (Uuid × Notice))
      (r : Result A × World)
      → is_success status ≡ true
      → ((e : Error) → is_success (failure e) ≡ false)
      → discard r ≡ perform actor call w
      → is_ok r ≡ succeeds actor call w
      → Taken actor (some call) w (answered (respond status failure notices r))
  unfolding respond
  reply status failure notices (ok a, w') good bad after same =
      performed call refl after (good ∙ same) (λ e. cc)
  reply status failure notices (err x, w') good bad after same =
      performed call refl after (bad x ∙ same) (λ e. refl)

module _ {A B : Type 0} (actor : Uuid) (w : World) (call : Call) where
  -- The same where a response is made of what the service gives.
  pub shown :
      (status : Status) (failure : Error → Status) (notices : B → List (Uuid × Notice))
      (response : A → B) (r : Result A × World)
      → is_success status ≡ true
      → ((e : Error) → is_success (failure e) ≡ false)
      → discard r ≡ perform actor call w
      → is_ok r ≡ succeeds actor call w
      → Taken actor (some call) w (answered (respond status failure notices (rendered response r)))
  shown status failure notices response (ok a, w') good bad after same =
      reply actor w call status failure notices (ok (response a), w') good bad after same
  shown status failure notices response (err x, w') good bad after same =
      reply actor w call status failure notices (err x, w') good bad after same
