-- ===== src/Handlers/Sockets/Entry.antt =====
-- What a request for a connection comes to in backend/internal/handlers/websocket.go.
use real_time_chat_app.Base.{
  ◌+◌, ◌≡◌, ◌≢◌, Bool, true, false, ◌||◌, ◌==◌, Option, List, [], if◌then◌else◌, Text,
}
use real_time_chat_app.Models.{Uuid}
use real_time_chat_app.Hub.{ClientId, Hub, member, clients_of}
use real_time_chat_app.Handlers.Sockets.{Site, SocketRequest, Opening, refused, hung_up, opened}
use real_time_chat_app.Handlers.Sockets.Admission.{MayEnter}

abbrev pub is_opened : Opening → Bool
is_opened (opened c u) = true
is_opened (refused status) = false
is_opened hung_up = false

-- The user of a new client counts once more, and the client, with an open and empty channel, is listed
-- in the conversation; everybody else stays as they were.
pub record IsIn (c u : Uuid) (k : ClientId) (before after : Site) : Type 0 where
  pub listed :
      (d : Uuid) (j : ClientId)
      → member j (clients_of after.hub d) ≡ (
          if d == c
          then member j (clients_of before.hub c) || (k == j)
          else member j (clients_of before.hub d))
  pub waits : (after.hub.clients k).queue ≡ []
  pub listens : (after.hub.clients k).is_closed ≡ false
  pub others : (j : ClientId) → j ≢ k → after.hub.clients j ≡ before.hub.clients j
  pub counted :
      (x : Uuid)
      → after.presence.counts x
        ≡ (if x == u then before.presence.counts x + 1 else before.presence.counts x)
  pub shown : before.presence.counts u ≡ 0 → after.presence.online u ≡ true
  pub unchanged : (x : Uuid) → x ≢ u → after.presence.online x ≡ before.presence.online x

-- A request is let in as a user who may enter, or nobody may enter by it and nothing happens.
pub data Entry (parse : Text → Option Uuid) (parse_token : Text → Option Text)
    (allowed_origins : List Text) (request : SocketRequest) (k : ClientId) (before : Site)
    (out : Opening × Site) : Type 0 where
  lets_in :
      (c u : Uuid)
      → MayEnter parse parse_token allowed_origins request before.world.db c u
      → out.0 ≡ opened c u
      → IsIn c u k before out.1
      → Entry parse parse_token allowed_origins request k before out
  turns_away :
      ((c u : Uuid) → ¬ MayEnter parse parse_token allowed_origins request before.world.db c u)
      → is_opened out.0 ≡ false
      → out.1.presence ≡ before.presence
      → out.1.hub ≡ before.hub
      → Entry parse parse_token allowed_origins request k before out
