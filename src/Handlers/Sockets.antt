-- ===== src/Handlers/Sockets.antt =====
-- backend/internal/handlers/websocket.go. `parse` is `uuid.Parse`, `parse_token` gives the user of a
-- token that is valid, `encode` is the JSON of a `typingEventResponse`; `upgradable` says whether the
-- rest of the handshake, apart from the origin, succeeds. Redis commands meet the outages of Presence.
pub mod Sessions
pub mod Distinct
pub mod Openings
pub mod Histories
pub mod Admission
pub mod Entry
pub mod Typing
use real_time_chat_app.Base.{
  Bool, true, false, ◌&&◌, Option, none, some, List, [], ◌∷◌, ◌++◌, if◌then◌else◌, Text, codes,
  text_eq,
}
use real_time_chat_app.Strings.{contains}
use real_time_chat_app.Models.{Uuid}
use real_time_chat_app.Store.{World, Result, ok, err}
use real_time_chat_app.Repository.Participants.{is_participant}
use real_time_chat_app.Presence.{Presence, connect, disconnect}
use real_time_chat_app.Hub.{ClientId, Event, Hub, put, new_client, subscribe, unsubscribe}
use real_time_chat_app.Handlers.{Status, bad_request, unauthorized, forbidden, internal_error}

-- What the handler works on; `published` are the events that Redis has taken, in order.
pub record Site : Type 0 where
  pub world : World
  pub presence : Presence
  pub hub : Hub
  pub published : List (Uuid × Event)

pub record SocketRequest : Type 0 where
  pub conversation_id : Text
  pub token : Text
  pub origin : Text
  pub upgradable : Bool

-- How the handler gets on: `hung_up` is a failed upgrade or a connection closed at once.
pub data Opening : Type 0 where
  refused : Status → Opening
  hung_up : Opening
  opened : Uuid → Uuid → Opening

-- `checkOrigin`
unfoldable pub check_origin : List Text → Text → Bool
unfolding text_eq contains
check_origin allowed_origins origin =
    if text_eq origin [] then true else contains origin allowed_origins

-- `Hub.Publish`, whose error is only logged.
unfoldable pub publish : Uuid → Event → Site → Site
publish c event site = elim site.presence.outages [
  | [] ↦ record site { published = site.published ++ (c, event) ∷ [] }
  | down ∷ later ↦
      if down
      then record site { presence = record site.presence { outages = later } }
      else record site {
        presence = record site.presence { outages = later };
        published = site.published ++ (c, event) ∷ [];
      }
]

-- `NewClient`, at an identifier that no other client has.
abbrev pub with_client : ClientId → Hub → Hub
with_client k h = record h { clients = put h.clients k new_client }

-- From `Presence.Connect` on.
unfoldable pub connected : Uuid → Uuid → ClientId → Bool × Presence → Site → Opening × Site
connected c u k (false, p) site = (hung_up, record site { presence = p })
connected c u k (true, p) site =
    (opened c u, record site { presence = p; hub = subscribe c k (with_client k site.hub) })

-- From the answer of `IsParticipant` on.
unfoldable pub admitted :
    List Text → SocketRequest → Uuid → Uuid → ClientId → Result Bool × World → Site → Opening × Site
unfolding check_origin connected
admitted allowed_origins request c u k (err e, w) site =
    (refused internal_error, record site { world = w })
admitted allowed_origins request c u k (ok false, w) site =
    (refused forbidden, record site { world = w })
admitted allowed_origins request c u k (ok true, w) site =
    if check_origin allowed_origins request.origin && request.upgradable
    then connected c u k (connect u site.presence) (record site { world = w })
    else (hung_up, record site { world = w })

abbrev pub or_refused :
    {A : Type 0} → Option A → Status → (A → Site → Opening × Site) → Site → Opening × Site
or_refused none status next site = (refused status, site)
or_refused (some a) status next site = next a site

-- `Conversation` up to the pumps.
unfoldable pub open_conversation :
    (Text → Option Uuid)
    → (Text → Option Text)
    → List Text
    → SocketRequest
    → ClientId
    → Site
    → Opening × Site
unfolding admitted
open_conversation parse parse_token allowed_origins request k =
    or_refused (parse request.conversation_id) bad_request λ c.
      or_refused (parse_token request.token) unauthorized λ claim.
        or_refused (parse claim) unauthorized
          λ u site. admitted allowed_origins request c u k (is_participant c u site.world) site

abbrev pub event_typing_started : Text
event_typing_started = codes "typing.started"

abbrev pub event_typing_stopped : Text
event_typing_stopped = codes "typing.stopped"

module _ (encode : Uuid → Uuid → Text) where
  abbrev pub typing_event : Text → Uuid → Uuid → Event
  typing_event type c u = record { type = type; payload = encode c u }

  unfoldable pub handle_incoming_event : Uuid → Uuid → Event → Site → Site
  unfolding publish text_eq
  handle_incoming_event c u event site =
      if text_eq event.type event_typing_started
      then publish c (typing_event event.type c u) site
      else if text_eq event.type event_typing_stopped
      then publish c (typing_event event.type c u) site
      else site

  unfoldable pub publish_typing_stopped : Uuid → Uuid → Site → Site
  unfolding publish
  publish_typing_stopped c u site = publish c (typing_event event_typing_stopped c u) site

  -- The deferred calls of `Conversation`, when the connection has ended.
  unfoldable pub close_conversation : Uuid → Uuid → ClientId → Site → Site
  unfolding publish_typing_stopped
  close_conversation c u k site =
      let told = publish_typing_stopped c u site in
      let left = record told { hub = unsubscribe c k told.hub } in
      record left { presence = (disconnect u left.presence).1 }
