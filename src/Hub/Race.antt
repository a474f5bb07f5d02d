-- ===== src/Hub/Race.antt =====
-- The lock is not held during the sends: what an `Unsubscribe` between the copy of the targets and
-- the sends does to a broadcast.
use real_time_chat_app.Base.{
  ◌≡◌, ◌∙◌, inl, inr, true, Option, none, some, List, [], ◌∷◌, arith, Option-cases,
}
use real_time_chat_app.Models.{Uuid}
use real_time_chat_app.Hub.{
  ClientId, Event, Hub, member, clients_of, drop_client, release_empty, unsubscribe_from,
  unsubscribe, deliver, deliver_all,
}
use real_time_chat_app.Hub.Invariant.{IsSound}
use real_time_chat_app.Hub.Broadcast.{deliver_all-some, deliver_all-none}
use real_time_chat_app.Hub.Leaving.{unsubscribe-HasLeft}

abbrev IsClosed : ClientId → Hub → Type 0
IsClosed j h = (h.clients j).is_closed ≡ true

drop_client-IsClosed :
    (c : Uuid) (j k : ClientId) (ks : List ClientId) (h : Hub)
    → IsClosed j h
    → IsClosed j (drop_client c k ks h)
unfolding drop_client
drop_client-IsClosed c j k ks h closed = ground arith

release_empty-IsClosed :
    (c : Uuid) (j : ClientId) (ks : List ClientId) (h : Hub)
    → IsClosed j h
    → IsClosed j (release_empty c ks h)
unfolding release_empty
release_empty-IsClosed c j [] h closed = closed
release_empty-IsClosed c j (x ∷ xs) h closed = closed

unsubscribe_from-IsClosed :
    (c : Uuid) (j k : ClientId) (o : Option (List ClientId)) (h : Hub)
    → IsClosed j h
    → IsClosed j (unsubscribe_from c k o h)
unfolding unsubscribe_from
unsubscribe_from-IsClosed c j k none h closed = closed
unsubscribe_from-IsClosed c j k (some ks) h closed =
    release_empty-IsClosed c j (clients_of (drop_client c k ks h) c) (drop_client c k ks h)
      (drop_client-IsClosed c j k ks h closed)

-- A closed channel stays closed under every send.
deliver-IsClosed :
    (c : Uuid) (event : Event) (j k : ClientId) (h after : Hub)
    → IsClosed j h
    → deliver c event k h ≡ some after
    → IsClosed j after
unfolding deliver unsubscribe
deliver-IsClosed c event j k h after closed e =
    ground (arith, unsubscribe_from-IsClosed c j k (h.conversations c) h closed)

-- A send that succeeded was not to the closed client.
not_sent :
    (c : Uuid) (event : Event) (j k : ClientId) (ks : List ClientId) (h after : Hub)
    → member j (k ∷ ks) ≡ true
    → IsClosed j h
    → deliver c event k h ≡ some after
    → member j ks ≡ true
unfolding deliver member
not_sent c event j k ks h after there closed e = ground arith

deliver_all-panics :
    (c : Uuid) (event : Event) (j : ClientId) (ks : List ClientId) (h : Hub)
    → member j ks ≡ true
    → IsClosed j h
    → deliver_all c event ks h ≡ none
unfolding deliver_all member
deliver_all-panics c event j [] h there closed = cc
deliver_all-panics c event j (k ∷ ks) h there closed = elim (Option-cases (deliver c event k h)) [
  | inl panic ↦ deliver_all-none c event k ks h panic
  | inr (after, e) ↦
      deliver_all-some c event k ks h after e
      ∙ deliver_all-panics c event j ks after (not_sent c event j k ks h after there closed e)
          (deliver-IsClosed c event j k h after closed e)
]

-- Whatever client of a conversation unsubscribes after a broadcast has copied its targets and before
-- it sends to them, the broadcast panics on a closed channel.
pub broadcast_race :
    (c : Uuid) (event : Event) (k : ClientId) (h : Hub)
    → IsSound h
    → member k (clients_of h c) ≡ true
    → deliver_all c event (clients_of h c) (unsubscribe c k h) ≡ none
broadcast_race c event k h s there =
    deliver_all-panics c event k (clients_of h c) (unsubscribe c k h) there
      (ground (arith, (unsubscribe-HasLeft c k h s).states k))
