-- ===== src/Hub/Broadcast.antt =====
-- backend/internal/realtime/hub.go, `broadcastLocal` with nothing in between.
use real_time_chat_app.Base.{
  ◌≡◌, ◌≢◌, refl, ◌∙◌, inl, inr, true, false, none, some, List, [], ◌∷◌, ◌==◌, ltb, if◌then◌else◌,
  arith, Bool-cases, length,
}
use real_time_chat_app.Models.{Uuid}
use real_time_chat_app.Hub.{
  ClientId, Event, Client, send_buffer_size, Hub, put, member, clients_of, close_client,
  unsubscribe, enqueue, deliver, deliver_all, broadcast,
}
use real_time_chat_app.Hub.Invariant.{Distinct, IsSound}
use real_time_chat_app.Hub.Leaving.{unsubscribe-HasLeft, HasLeft-IsSound, member_after}

-- A client after the event: a full buffer closes it.
abbrev pub settled : Event → Client → Client
settled event client =
    if ltb (length client.queue) send_buffer_size then enqueue event client else close_client client

-- Who is listed was listed, and who was listed and is not closed is listed.
pub record Lists (h after : Hub) : Type 0 where
  pub within :
      (d : Uuid) (j : ClientId)
      → member j (clients_of after d) ≡ true
      → member j (clients_of h d) ≡ true
  pub remains :
      (d : Uuid) (j : ClientId)
      → member j (clients_of h d) ≡ true
      → (after.clients j).is_closed ≡ false
      → member j (clients_of after d) ≡ true
  pub closed : (j : ClientId) → (h.clients j).is_closed ≡ true → (after.clients j).is_closed ≡ true

pub record Delivered (event : Event) (k : ClientId) (h after : Hub) : Type 0 where
  pub sound : IsSound after
  pub states :
      (j : ClientId)
      → after.clients j ≡ (if j == k then settled event (h.clients j) else h.clients j)
  pub members :
      (d : Uuid) (j : ClientId) → j ≢ k → member j (clients_of after d) ≡ member j (clients_of h d)
  pub lists : Lists h after

enqueued-Delivered :
    (event : Event) (k : ClientId) (h : Hub)
    → IsSound h
    → ltb (length (h.clients k).queue) send_buffer_size ≡ true
    → Delivered event k h (record h { clients = put h.clients k (enqueue event (h.clients k)) })
enqueued-Delivered event k h s fits = record {
  sound = record {
    listening = λ d j m. ground (arith, s.listening d j);
    apart = s.apart;
    distinct = s.distinct;
    occupied = s.occupied;
    matched = s.matched;
    counted = s.counted;
  };
  states = λ j. ground arith;
  members = λ d j other. refl;
  lists = record {
    within = λ d j m. m;
    remains = λ d j m open_after. m;
    closed = λ j was. ground arith;
  };
}

dropped-Delivered :
    (c : Uuid) (event : Event) (k : ClientId) (h : Hub)
    → IsSound h
    → member k (clients_of h c) ≡ true
    → ltb (length (h.clients k).queue) send_buffer_size ≡ false
    → Delivered event k h (unsubscribe c k h)
dropped-Delivered c event k h s there full =
    let left = unsubscribe-HasLeft c k h s in
    record {
      sound = HasLeft-IsSound c k h (unsubscribe c k h) s left;
      states = λ j. ground (arith, left.states j);
      members = λ d j other. ground (arith, member_after c k h (unsubscribe c k h) s left d j);
      lists = record {
        within = λ d j m. ground (arith, member_after c k h (unsubscribe c k h) s left d j);
        remains = λ d j m open_after.
            ground (arith, member_after c k h (unsubscribe c k h) s left d j, left.states j);
        closed = λ j was. ground (arith, left.states j);
      };
    }

deliver-Delivered :
    (c : Uuid) (event : Event) (k : ClientId) (h : Hub)
    → IsSound h
    → member k (clients_of h c) ≡ true
    → (after : Hub) × (deliver c event k h ≡ some after) × Delivered event k h after
unfolding deliver
deliver-Delivered c event k h s there =
    elim (Bool-cases (ltb (length (h.clients k).queue) send_buffer_size)) [
      | inl fits ↦ (_, rw (s.listening c k there, fits), enqueued-Delivered event k h s fits)
      | inr full ↦ (_, rw (s.listening c k there, full), dropped-Delivered c event k h s there full)
    ]

pub deliver_all-some :
    (c : Uuid) (event : Event) (k : ClientId) (ks : List ClientId) (h mid : Hub)
    → deliver c event k h ≡ some mid
    → deliver_all c event (k ∷ ks) h ≡ deliver_all c event ks mid
unfolding deliver_all
deliver_all-some c event k ks h mid e = rw (e, deliver_all)

pub deliver_all-none :
    (c : Uuid) (event : Event) (k : ClientId) (ks : List ClientId) (h : Hub)
    → deliver c event k h ≡ none
    → deliver_all c event (k ∷ ks) h ≡ none
unfolding deliver_all
deliver_all-none c event k ks h e = rw (e, deliver_all)

-- What the loop over the copied targets does.
pub record Settled (event : Event) (ks : List ClientId) (h after : Hub) : Type 0 where
  pub sound : IsSound after
  pub states :
      (j : ClientId)
      → after.clients j ≡ (if member j ks then settled event (h.clients j) else h.clients j)
  pub lists : Lists h after

Lists-trans : (h mid after : Hub) → Lists h mid → Lists mid after → Lists h after
Lists-trans h mid after one rest = record {
  within = λ d j m. one.within d j (rest.within d j m);
  remains = λ d j m open_after.
      rest.remains d j (one.remains d j m (ground (arith, rest.closed j))) open_after;
  closed = λ j was. rest.closed j (one.closed j was);
}

Settled-more :
    (event : Event) (k : ClientId) (ks : List ClientId) (h mid after : Hub)
    → member k ks ≡ false
    → Delivered event k h mid
    → Settled event ks mid after
    → Settled event (k ∷ ks) h after
unfolding member
Settled-more event k ks h mid after once one rest = record {
  sound = rest.sound;
  states = λ j. ground (arith, rest.states j, one.states j);
  lists = Lists-trans h mid after one.lists rest.lists;
}

deliver_all-Settled :
    (c : Uuid) (event : Event) (ks : List ClientId) (h : Hub)
    → IsSound h
    → Distinct ks
    → ((j : ClientId) → member j ks ≡ true → member j (clients_of h c) ≡ true)
    → (after : Hub) × (deliver_all c event ks h ≡ some after) × Settled event ks h after
unfolding deliver_all member
deliver_all-Settled c event [] h s d listed = (
  h,
  refl,
  record {
    sound = s;
    states = λ j. refl;
    lists = record { within = λ d j m. m; remains = λ d j m o. m; closed = λ j was. was };
  },
)
deliver_all-Settled c event (k ∷ ks) h s (once, d) listed =
    let (mid, out, one) = deliver-Delivered c event k h s (listed k (ground arith)) in
    let (after, out', rest) =
      deliver_all-Settled c event ks mid one.sound d
        (λ j m. ground (arith, one.members c j, listed j)) in
    (
      after,
      deliver_all-some c event k ks h mid out ∙ out',
      Settled-more event k ks h mid after once one rest,
    )

-- In a hub that keeps the invariant a broadcast does not panic and keeps the invariant; it appends the
-- event to the queue of every client of the conversation with room in its buffer, closes the clients
-- of the conversation without, and leaves every other client alone; the clients that it lists were
-- listed, and a client that was listed and is not closed stays so.
pub broadcast-Settled :
    (c : Uuid) (event : Event) (h : Hub)
    → IsSound h
    → (after : Hub) × (broadcast c event h ≡ some after) × Settled event (clients_of h c) h after
unfolding broadcast
broadcast-Settled c event h s =
    deliver_all-Settled c event (clients_of h c) h s (s.distinct c) (λ j m. m)
