-- ===== src/Handlers/Sockets/Distinct.antt =====
-- Lists of connections in which each client has one: backend/internal/handlers/websocket.go.
use real_time_chat_app.Base.{
  ◌+◌, ◌-◌, ◌<◌, ◌≡◌, refl, subst, inl, inr, true, false, not, ◌&&◌, none, some, List, [], ◌∷◌,
  ◌==◌, if◌then◌else◌, arith, Bool-cases, ==_iff, find, filter,
}
use real_time_chat_app.Models.{Uuid}
use real_time_chat_app.Presence.Sessions.{open_for}
use real_time_chat_app.Hub.{ClientId}
use real_time_chat_app.Handlers.Sockets.Sessions.{
  Session, has_client, users_of, holds, AllOlder, AllApart,
}

pub holds-older :
    (next : ClientId) (c : Uuid) (k : ClientId) (sessions : List Session)
    → AllOlder next sessions
    → holds c k sessions ≡ true
    → k < next
holds-older next c k [] older h = cc
holds-older next c k (s ∷ sessions) (first, older) h =
    ground (arith, holds-older next c k sessions older)

pub AllOlder-suc :
    (next : ClientId) (sessions : List Session)
    → AllOlder next sessions
    → AllOlder (next + 1) sessions
AllOlder-suc next [] older = tt
AllOlder-suc next (s ∷ sessions) (first, older) = (omega arith, AllOlder-suc next sessions older)

pub find-older :
    (next : ClientId) (sessions : List Session)
    → AllOlder next sessions
    → find (has_client next) sessions ≡ none
unfolding find
find-older next [] older = refl
find-older next (s ∷ sessions) (first, older) = ground (arith, find-older next sessions older)

pub holds-filter :
    (c : Uuid) (k j : ClientId) (sessions : List Session)
    → holds c k (filter (λ x. not (has_client j x)) sessions) ≡ (holds c k sessions && not (k == j))
unfolding filter
holds-filter c k j [] = refl
holds-filter c k j (s ∷ sessions) = ground (arith, holds-filter c k j sessions)

pub AllOlder-filter :
    (next j : ClientId) (sessions : List Session)
    → AllOlder next sessions
    → AllOlder next (filter (λ x. not (has_client j x)) sessions)
unfolding filter
AllOlder-filter next j [] older = tt
AllOlder-filter next j (s ∷ sessions) (first, older) = elim (Bool-cases (s.client == j)) [
  | inl there ↦ rw there (AllOlder-filter next j sessions older)
  | inr other ↦ rw other (first, AllOlder-filter next j sessions older)
]

find-filter-none :
    (k j : ClientId) (sessions : List Session)
    → find (has_client k) sessions ≡ none
    → find (has_client k) (filter (λ x. not (has_client j x)) sessions) ≡ none
unfolding find filter
find-filter-none k j [] h = refl
find-filter-none k j (s ∷ sessions) h = ground (arith, find-filter-none k j sessions)

pub AllApart-filter :
    (j : ClientId) (sessions : List Session)
    → AllApart sessions
    → AllApart (filter (λ x. not (has_client j x)) sessions)
unfolding filter
AllApart-filter j [] apart = tt
AllApart-filter j (s ∷ sessions) (first, apart) = elim (Bool-cases (s.client == j)) [
  | inl there ↦ rw there (AllApart-filter j sessions apart)
  | inr other ↦
      rw other (find-filter-none s.client j sessions first, AllApart-filter j sessions apart)
]

filter-absent :
    (x : Uuid) (j : ClientId) (sessions : List Session)
    → find (has_client j) sessions ≡ none
    → open_for x (users_of (filter (λ y. not (has_client j y)) sessions))
      ≡ open_for x (users_of sessions)
unfolding find filter
filter-absent x j [] h = refl
filter-absent x j (s ∷ sessions) h = ground (arith, filter-absent x j sessions)

open_for-found :
    (j : ClientId) (s : Session) (sessions : List Session)
    → find (has_client j) sessions ≡ some s
    → 0 < open_for s.user (users_of sessions)
unfolding find
open_for-found j s [] h = cc
open_for-found j s (y ∷ sessions) h = ground (arith, open_for-found j s sessions)

-- Taking out the one connection of a client.
pub filter-users :
    (x : Uuid) (j : ClientId) (s : Session) (sessions : List Session)
    → AllApart sessions
    → find (has_client j) sessions ≡ some s
    → open_for x (users_of (filter (λ y. not (has_client j y)) sessions))
      ≡ (if x == s.user then open_for x (users_of sessions) - 1 else open_for x (users_of sessions))
unfolding find filter
filter-users x j s [] apart h = cc
filter-users x j s (y ∷ sessions) (first, apart) h = elim (Bool-cases (y.client == j)) [
  | inl there ↦
      let same : y.client ≡ j = ground arith in
      rw there (
        ground (
          arith,
          filter-absent x j sessions (subst (λ i. find (has_client i) sessions ≡ none) same first),
        ))
  | inr other ↦
      rw other (ground (arith, filter-users x j s sessions apart, open_for-found j s sessions))
]

holds-absent :
    (c : Uuid) (k : ClientId) (sessions : List Session)
    → find (has_client k) sessions ≡ none
    → holds c k sessions ≡ false
unfolding find
holds-absent c k [] h = refl
holds-absent c k (s ∷ sessions) h = ground (arith, holds-absent c k sessions)

-- A client has one connection.
pub holds_unique :
    (c : Uuid) (k : ClientId) (s : Session) (sessions : List Session)
    → AllApart sessions
    → find (has_client k) sessions ≡ some s
    → holds c k sessions ≡ true
    → c ≡ s.conversation
unfolding find
holds_unique c k s [] apart found h = cc
holds_unique c k s (y ∷ sessions) (first, apart) found h = elim (Bool-cases (y.client == k)) [
  | inl there ↦
      let none_later =
        holds-absent c k sessions
          (subst (λ i. find (has_client i) sessions ≡ none) ((==_iff y.client k).0 there) first) in
      ground arith
  | inr other ↦ holds_unique c k s sessions apart (ground arith) (ground arith)
]
