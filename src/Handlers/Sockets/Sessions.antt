-- ===== src/Handlers/Sockets/Sessions.antt =====
-- The connections of backend/internal/handlers/websocket.go over time: presence and hub together.
use real_time_chat_app.Base.{
  ◌+◌, ◌<◌, ◌≡◌, Bool, true, false, not, ◌&&◌, ◌||◌, Option, none, some, List, [], ◌∷◌, map, ◌==◌,
  find, filter, Text,
}
use real_time_chat_app.Models.{Uuid}
use real_time_chat_app.Presence.Sessions.{Tracks}
use real_time_chat_app.Hub.{ClientId, Event, Hub, put, member, clients_of, broadcast}
use real_time_chat_app.Hub.Invariant.{IsSound}
use real_time_chat_app.Handlers.Sockets.{
  Site, SocketRequest, Opening, refused, hung_up, opened, open_conversation, close_conversation,
  handle_incoming_event,
}

pub record Session : Type 0 where
  pub conversation : Uuid
  pub user : Uuid
  pub client : ClientId

-- The connections that are open, and an identifier that no client has had.
pub record Live : Type 0 where
  pub site : Site
  pub sessions : List Session
  pub next_client : ClientId

pub data Move : Type 0 where
  opens : SocketRequest → Move
  says : ClientId → Event → Move
  ends : ClientId → Move
  arrives : Uuid → Event → Move
  takes : ClientId → Move

abbrev pub has_client : ClientId → Session → Bool
has_client k s = s.client == k

abbrev pub after_opening : ClientId → List Session → Opening × Site → Live
after_opening k sessions (refused status, site) = record {
  site = site;
  sessions = sessions;
  next_client = k + 1;
}
after_opening k sessions (hung_up, site) = record {
  site = site;
  sessions = sessions;
  next_client = k + 1;
}
after_opening k sessions (opened c u, site) = record {
  site = site;
  sessions = record { conversation = c; user = u; client = k } ∷ sessions;
  next_client = k + 1;
}

module _ (encode : Uuid → Uuid → Text) where
  abbrev pub said : Event → Option Session → Live → Live
  said event none l = l
  said event (some s) l = record l {
    site = handle_incoming_event encode s.conversation s.user event l.site;
  }

  abbrev pub ended : Option Session → Live → Live
  ended none l = l
  ended (some s) l = record l {
    site = close_conversation encode s.conversation s.user s.client l.site;
    sessions = filter (λ x. not (has_client s.client x)) l.sessions;
  }

abbrev pub arrived : Option Hub → Live → Option Live
arrived none l = none
arrived (some h) l = some (record l { site = record l.site { hub = h } })

abbrev pub without_first : List Event → List Event
without_first [] = []
without_first (event ∷ queue) = queue

-- `WritePump` takes an event from the channel of its client.
abbrev pub taken : ClientId → Hub → Hub
taken k h = record h {
  clients = put h.clients k (record (h.clients k) { queue = without_first (h.clients k).queue });
}

module _ (parse : Text → Option Uuid) (parse_token : Text → Option Text)
    (allowed_origins : List Text) (encode : Uuid → Uuid → Text) where
  -- `none` is the panic of a send on a closed channel.
  unfoldable pub step : Move → Live → Option Live
  step (opens request) l = some (
      after_opening l.next_client l.sessions
        (open_conversation parse parse_token allowed_origins request l.next_client l.site))
  step (says k event) l = some (said encode event (find (has_client k) l.sessions) l)
  step (ends k) l = some (ended encode (find (has_client k) l.sessions) l)
  step (arrives c event) l = arrived (broadcast c event l.site.hub) l
  step (takes k) l = some (record l { site = record l.site { hub = taken k l.site.hub } })

  unfoldable pub run : List Move → Live → Option Live
  run [] l = some l
  run (move ∷ moves) l = elim (step move l) [ none ↦ none | some l' ↦ run moves l' ]

abbrev pub users_of : List Session → List Uuid
users_of sessions = map (λ s. s.user) sessions

-- Whether the client is that of a connection to the conversation.
abbrev pub holds : Uuid → ClientId → List Session → Bool
holds c k [] = false
holds c k (s ∷ sessions) = (s.conversation == c) && (s.client == k) || holds c k sessions

abbrev pub AllOlder : ClientId → List Session → Type 0
AllOlder next [] = Unit {0}
AllOlder next (s ∷ sessions) = (s.client < next) × AllOlder next sessions

abbrev pub AllApart : List Session → Type 0
AllApart [] = Unit {0}
AllApart (s ∷ sessions) = (find (has_client s.client) sessions ≡ none) × AllApart sessions

pub record IsLive (l : Live) : Type 0 where
  pub sound : IsSound l.site.hub
  -- Presence counts the connections that are open, and shows the users who have one.
  pub tracked : Tracks l.site.presence (users_of l.sessions)
  -- Who is listed in a conversation has a connection to it that is open.
  pub owned :
      (c : Uuid) (k : ClientId)
      → member k (clients_of l.site.hub c) ≡ true
      → holds c k l.sessions ≡ true
  -- Who has a connection and has not been dropped is listed.
  pub served :
      (c : Uuid) (k : ClientId)
      → holds c k l.sessions ≡ true
      → (l.site.hub.clients k).is_closed ≡ false
      → member k (clients_of l.site.hub c) ≡ true
  pub older : AllOlder l.next_client l.sessions
  pub apart : AllApart l.sessions
