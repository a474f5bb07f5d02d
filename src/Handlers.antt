-- ===== src/Handlers.antt =====
-- backend/internal/handlers: what the HTTP handlers make of a request and of the errors of the
-- services. `parse` is `uuid.Parse`; a body is what gin binds of it, `none` where it is no such JSON.
-- `hub.Publish` is recorded in the reply: its error is only logged.
pub mod Conversations
pub mod Messages
pub mod Accounts
pub mod Sockets
pub mod Failures
pub mod Replies
pub mod Requests
pub mod Reading
use real_time_chat_app.Base.{Bool, true, false, Option, none, some, List, [], Text}
use real_time_chat_app.Models.{Uuid}
use real_time_chat_app.Models.Responses.{ParticipantResponse, MessageResponse}
use real_time_chat_app.Store.{World, Error, Result, ok, err, Store}

-- The statuses that the handlers answer with.
pub data Status : Type 0 where
  success created no_content : Status
  bad_request unauthorized forbidden not_found conflict internal_error : Status

abbrev pub is_success : Status → Bool
is_success success = true
is_success created = true
is_success no_content = true
is_success _ = false

-- An event with its data.
pub data Notice : Type 0 where
  conversation_read : ParticipantResponse → Notice
  message_created message_updated : MessageResponse → Notice
  message_deleted : Uuid → Uuid → Notice

pub record Reply (A : Type 0) : Type 0 where
  pub status : Status
  pub body : Option A
  pub notices : List (Uuid × Notice)

-- `user_id` is the claim of the token, where the middleware has set it; the parameters of the path
-- and the query are texts; a request body has one field.
pub record Request : Type 0 where
  pub user_id : Option Text
  pub conversation_id : Text
  pub participant_id : Text
  pub message_id : Text
  pub body : Option Text
  pub search : Text
  pub limit : Text
  pub before : Text
  pub ids : Text

-- `authenticatedUserID`
abbrev pub authenticated : (Text → Option Uuid) → Request → Option Uuid
authenticated parse request = elim request.user_id [ none ↦ none | some claim ↦ parse claim ]

module _ {A : Type 0} where
  abbrev pub refused : Status → Reply A
  refused status = record { status = status; body = none; notices = [] }

  -- A reply to the outcome of a service.
  unfoldable pub respond :
      Status → (Error → Status) → (A → List (Uuid × Notice)) → Result A × World → Reply A × World
  respond status failure notices (ok a, w) =
      (record { status = status; body = some a; notices = notices a }, w)
  respond status failure notices (err e, w) = (refused (failure e), w)

  abbrev pub silent : A → List (Uuid × Notice)
  silent a = []

module _ {A B : Type 0} where
  -- The response that is made of a result.
  abbrev pub rendered : (A → B) → Result A × World → Result B × World
  rendered response (ok a, w) = (ok (response a), w)
  rendered response (err e, w) = (err e, w)

module _ {A B : Type 0} where
  -- `if !ok { c.JSON(status, ...); return }`
  unfoldable pub require :
      Option A → Status → (A → World → Reply B × World) → World → Reply B × World
  require none status next w = (refused status, w)
  require (some a) status next w = next a w
