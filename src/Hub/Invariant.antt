-- ===== src/Hub/Invariant.antt =====
-- The invariant of the hub of backend/internal/realtime/hub.go, and `Subscribe`.
use real_time_chat_app.Base.{
  ℕ, ◌≡◌, ◌≢◌, refl, inl, inr, true, false, not, ◌&&◌, ◌||◌, some, List, [], ◌∷◌, ◌++◌, ◌==◌,
  if◌then◌else◌, arith, Bool-cases, is_some,
}
use real_time_chat_app.Models.{Uuid}
use real_time_chat_app.Hub.{ClientId, Hub, member, without, clients_of, add_client, subscribe}

abbrev pub Distinct : List ClientId → Type 0
Distinct [] = Unit {0}
Distinct (k ∷ ks) = (member k ks ≡ false) × Distinct ks

pub record IsSound (h : Hub) : Type 0 where
  -- The channel of a client that is listed is open.
  pub listening : (c k : ℕ) → member k (clients_of h c) ≡ true → (h.clients k).is_closed ≡ false
  -- A client is listed once, and in one conversation.
  pub apart :
      (c d k : ℕ) → member k (clients_of h c) ≡ true → member k (clients_of h d) ≡ true → c ≡ d
  pub distinct : (c : ℕ) → Distinct (clients_of h c)
  -- No empty set of clients is kept.
  pub occupied : (c : ℕ) → h.conversations c ≢ some []
  -- There is one open Redis subscription for a conversation with clients, and none for another.
  pub matched : (c : ℕ) → h.subscribed c ≡ is_some (h.conversations c)
  pub counted : (c : ℕ) → h.redis_open c ≡ (if h.subscribed c then 1 else 0)

member-append_one :
    (j k : ClientId) (ks : List ClientId) → member j (ks ++ k ∷ []) ≡ (member j ks || (k == j))
unfolding member
member-append_one j k [] = ground arith
member-append_one j k (x ∷ xs) = ground (arith, member-append_one j k xs)

pub member-without :
    (j k : ClientId) (ks : List ClientId) → member j (without k ks) ≡ (member j ks && not (j == k))
unfolding member without
member-without j k [] = ground arith
member-without j k (x ∷ xs) = ground (arith, member-without j k xs)

member-add_client :
    (j k : ClientId) (ks : List ClientId) → member j (add_client k ks) ≡ (member j ks || (k == j))
unfolding add_client
member-add_client j k ks = elim (Bool-cases (member k ks)) [
  | inl there ↦ rw there (ground arith)
  | inr absent ↦ rw absent (member-append_one j k ks)
]

Distinct-append_one :
    (k : ClientId) (ks : List ClientId)
    → member k ks ≡ false
    → Distinct ks
    → Distinct (ks ++ k ∷ [])
unfolding member
Distinct-append_one k [] absent d = (refl, tt)
Distinct-append_one k (x ∷ xs) absent d =
    (ground (arith, member-append_one x k xs), Distinct-append_one k xs (ground arith) d.1)

Distinct-add_client : (k : ClientId) (ks : List ClientId) → Distinct ks → Distinct (add_client k ks)
unfolding add_client
Distinct-add_client k ks d = elim (Bool-cases (member k ks)) [
  | inl there ↦ rw there d
  | inr absent ↦ rw absent (Distinct-append_one k ks absent d)
]

pub Distinct-without : (k : ClientId) (ks : List ClientId) → Distinct ks → Distinct (without k ks)
unfolding without
Distinct-without k [] d = tt
Distinct-without k (x ∷ xs) d = ground (arith, member-without x k xs, Distinct-without k xs d.1)

-- A client that no conversation lists and whose channel is open.
abbrev pub IsNew : Hub → ClientId → Type 0
IsNew h k = ((h.clients k).is_closed ≡ false) × ((c : Uuid) → member k (clients_of h c) ≡ false)

add_client-ne-nil : (k : ClientId) (ks : List ClientId) → add_client k ks ≢ []
unfolding add_client member
add_client-ne-nil k [] e = ground arith
add_client-ne-nil k (x ∷ xs) e = ground arith

-- `Subscribe` of a client that no conversation lists and whose channel is open keeps the invariant.
pub subscribe-IsSound :
    (c : Uuid) (k : ClientId) (h : Hub) → IsNew h k → IsSound h → IsSound (subscribe c k h)
unfolding subscribe
subscribe-IsSound c k h (is_open, unlisted) s = record {
  listening = λ d j m.
      ground (arith, member-add_client j k (clients_of h c), s.listening d j, s.listening c j);
  apart = λ d e j m n. ground (
    arith,
    member-add_client j k (clients_of h c),
    s.apart d e j,
    s.apart c e j,
    s.apart d c j,
    unlisted d,
    unlisted e,
  );
  distinct =
      λ d. ground (arith, Distinct-add_client k (clients_of h c) (s.distinct c), s.distinct d);
  occupied = λ d e. ground (arith, s.occupied d, add_client-ne-nil k (clients_of h c));
  matched = λ d. ground (arith, s.matched d);
  counted = λ d. ground (arith, s.counted d, s.counted c);
}

-- Who is listed after `Subscribe`.
pub subscribe-members :
    (c : Uuid) (k : ClientId) (h : Hub) (d : Uuid) (j : ClientId)
    → member j (clients_of (subscribe c k h) d)
      ≡ (if d == c then member j (clients_of h c) || (k == j) else member j (clients_of h d))
unfolding subscribe
subscribe-members c k h d j = ground (arith, member-add_client j k (clients_of h c))

pub subscribe-clients :
    (c : Uuid) (k : ClientId) (h : Hub) (j : ClientId) → (subscribe c k h).clients j ≡ h.clients j
unfolding subscribe
subscribe-clients c k h j = refl
