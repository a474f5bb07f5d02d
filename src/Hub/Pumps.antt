-- ===== src/Hub/Pumps.antt =====
-- The two loops of a connection in backend/internal/realtime/client.go. `WritePump` goes a round at a
-- time, as its channels let it; `decode` is `json.Unmarshal`.
pub mod Order
pub mod Ending
use real_time_chat_app.Base.{
  ℕ, Bool, true, false, Option, none, some, List, [], ◌∷◌, ◌++◌, ltb, if◌then◌else◌, Text, length,
}
use real_time_chat_app.Hub.{Event, Client, close_client, enqueue}

pub data Frame : Type 0 where
  json : Event → Frame
  close_message ping : Frame

-- A connection: the client, what was written to it, and whether `WritePump` has returned.
pub record Connection : Type 0 where
  pub client : Client
  pub written : List Frame
  pub is_stopped : Bool

-- What happens to a connection: an event is sent to the client, the client is closed, `WritePump`
-- looks at the channel or hears the ticker. The Booleans say whether the write succeeds.
pub data Happening : Type 0 where
  sends : Event → Happening
  closes : Happening
  wakes ticks : Bool → Happening

abbrev pub write : Frame → Bool → Connection → Connection
write frame true x = record x { written = x.written ++ frame ∷ [] }
write frame false x = record x { is_stopped = true }

-- `event, ok := <-c.send`, which waits on a channel that is open and empty.
unfoldable pub receive : Bool → List Event → Connection → Connection
receive success (event ∷ queue) x =
    write (json event) success (record x { client = record x.client { queue = queue } })
receive success [] x =
    if x.client.is_closed then record (write close_message success x) { is_stopped = true } else x

-- A round of `WritePump`, for each case of its `select`.
unfoldable pub wake : Bool → Connection → Connection
unfolding receive
wake success x = if x.is_stopped then x else receive success x.client.queue x

unfoldable pub tick : Bool → Connection → Connection
tick success x = if x.is_stopped then x else write ping success x

-- Nothing is sent to a client that is closed.
unfoldable pub happen : Happening → Connection → Connection
unfolding wake tick
happen (sends event) x =
    if x.client.is_closed then x else record x { client = enqueue event x.client }
happen closes x = record x { client = close_client x.client }
happen (wakes success) x = wake success x
happen (ticks success) x = tick success x

unfoldable pub happen_all : List Happening → Connection → Connection
happen_all [] x = x
happen_all (h ∷ hs) x = happen_all hs (happen h x)

abbrev pub read_limit : ℕ
read_limit = 1024

module _ {S : Type 0} (decode : Text → Option Event) (handle : Event → S → S) where
  abbrev pub handle_decoded : Option Event → S → S
  handle_decoded none s = s
  handle_decoded (some event) s = handle event s

  -- `ReadPump` on the messages that come before the connection fails; one above the limit makes the
  -- read fail.
  unfoldable pub read_pump : List Text → S → S
  read_pump [] s = s
  read_pump (payload ∷ payloads) s = elim (ltb read_limit (length payload)) [
    | true ↦ s
    | false ↦ read_pump payloads (handle_decoded (decode payload) s)
  ]
