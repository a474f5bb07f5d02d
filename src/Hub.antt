-- ===== src/Hub.antt =====
-- backend/internal/realtime/hub.go and client.go: the clients of each conversation and their send
-- channels. A client, an identifier here, has a buffered channel that is closed once; a send on a
-- closed channel panics. Redis Pub/Sub is behind the number of subscriptions that are open on it.
pub mod Invariant
pub mod Leaving
pub mod Race
pub mod Broadcast
pub mod Pumps
use real_time_chat_app.Base.{
  ℕ, suc, ◌+◌, ◌-◌, Bool, true, false, not, ◌&&◌, ◌||◌, Option, none, some, List, [], ◌∷◌, ◌++◌,
  ◌==◌, ltb, if◌then◌else◌, length, Text,
}
use real_time_chat_app.Models.{Uuid}

abbrev pub ClientId : Type 0
ClientId = ℕ

-- `Event`, with its data as JSON.
pub record Event : Type 0 where
  pub type : Text
  pub payload : Text

pub record Client : Type 0 where
  pub queue : List Event
  pub is_closed : Bool

abbrev pub send_buffer_size : ℕ
send_buffer_size = 256

-- `NewClient`
abbrev pub new_client : Client
new_client = record { queue = []; is_closed = false }

-- The maps of the hub: a nil set of clients is `none`. `redis_open` counts the Redis subscriptions of
-- a conversation that are not closed.
pub record Hub : Type 0 where
  pub conversations : Uuid → Option (List ClientId)
  pub subscribed : Uuid → Bool
  pub redis_open : Uuid → ℕ
  pub clients : ClientId → Client

abbrev pub put {ℓ} : {A : Type ℓ} → (ℕ → A) → ℕ → A → ℕ → A
put m k a x = if x == k then a else m x

unfoldable pub member : ClientId → List ClientId → Bool
member k [] = false
member k (x ∷ xs) = x == k || member k xs

unfoldable pub without : ClientId → List ClientId → List ClientId
without k [] = []
without k (x ∷ xs) = let rest = without k xs in if x == k then rest else x ∷ rest

abbrev pub clients_in : Option (List ClientId) → List ClientId
clients_in none = []
clients_in (some ks) = ks

abbrev pub clients_of : Hub → Uuid → List ClientId
clients_of h c = clients_in (h.conversations c)

unfoldable pub add_client : ClientId → List ClientId → List ClientId
unfolding member
add_client k ks = if member k ks then ks else ks ++ k ∷ []

unfoldable pub subscribe : Uuid → ClientId → Hub → Hub
unfolding add_client
subscribe c k h = record h {
  conversations = put h.conversations c (some (add_client k (clients_of h c)));
  subscribed = put h.subscribed c true;
  redis_open = put h.redis_open c (if h.subscribed c then h.redis_open c else h.redis_open c + 1);
}

-- `Client.Close`: once.
abbrev pub close_client : Client → Client
close_client k = record k { is_closed = true }

-- `delete(clients, client)` and the close, if the client is there.
unfoldable pub drop_client : Uuid → ClientId → List ClientId → Hub → Hub
unfolding member without
drop_client c k ks h =
    if member k ks
    then record h {
      conversations = put h.conversations c (some (without k ks));
      clients = put h.clients k (close_client (h.clients k));
    }
    else h

-- The last client of a conversation takes the subscription along.
unfoldable pub release_empty : Uuid → List ClientId → Hub → Hub
release_empty c [] h = record h {
  conversations = put h.conversations c none;
  subscribed = put h.subscribed c false;
  redis_open = put h.redis_open c (if h.subscribed c then h.redis_open c - 1 else h.redis_open c);
}
release_empty c (k ∷ ks) h = h

unfoldable pub unsubscribe_from : Uuid → ClientId → Option (List ClientId) → Hub → Hub
unfolding drop_client release_empty
unsubscribe_from c k none h = h
unsubscribe_from c k (some ks) h =
    release_empty c (clients_of (drop_client c k ks h) c) (drop_client c k ks h)

unfoldable pub unsubscribe : Uuid → ClientId → Hub → Hub
unfolding unsubscribe_from
unsubscribe c k h = unsubscribe_from c k (h.conversations c) h

abbrev pub enqueue : Event → Client → Client
enqueue event client = record client { queue = client.queue ++ event ∷ [] }

-- One round of the loop of `broadcastLocal`: `none` is the panic of a send on a closed channel; a
-- client whose buffer is full is dropped.
unfoldable pub deliver : Uuid → Event → ClientId → Hub → Option Hub
unfolding unsubscribe
deliver c event k h =
    if (h.clients k).is_closed
    then none
    else (if ltb (length (h.clients k).queue) send_buffer_size
        then some (record h { clients = put h.clients k (enqueue event (h.clients k)) })
        else some (unsubscribe c k h))

unfoldable pub deliver_all : Uuid → Event → List ClientId → Hub → Option Hub
deliver_all c event [] h = some h
deliver_all c event (k ∷ ks) h = elim (deliver c event k h) [
  | none ↦ none
  | some h' ↦ deliver_all c event ks h'
]

-- `broadcastLocal`, with nothing between the copy of the targets and the sends.
unfoldable pub broadcast : Uuid → Event → Hub → Option Hub
unfolding deliver_all
broadcast c event h = deliver_all c event (clients_of h c) h
