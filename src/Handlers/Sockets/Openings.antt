-- ===== src/Handlers/Sockets/Openings.antt =====
-- What an opening does to the connections of backend/internal/handlers/websocket.go.
use real_time_chat_app.Base.{
  ◌≡◌, refl, ap, inl, inr, Bool, true, false, ◌&&◌, Option, none, some, List, [], arith, Bool-cases,
  Text,
}
use real_time_chat_app.Models.{Uuid}
use real_time_chat_app.Store.{World, Result, ok, err}
use real_time_chat_app.Repository.Participants.{is_participant}
use real_time_chat_app.Presence.{Presence, connect}
use real_time_chat_app.Presence.Sessions.{connect-Tracks}
use real_time_chat_app.Hub.{ClientId, Hub, member, clients_of, subscribe}
use real_time_chat_app.Hub.Invariant.{
  IsSound, subscribe-IsSound, subscribe-members, subscribe-clients,
}
use real_time_chat_app.Handlers.{Status, bad_request, unauthorized}
use real_time_chat_app.Handlers.Sockets.{
  Site, SocketRequest, Opening, refused, hung_up, opened, with_client, connected, admitted,
  check_origin, or_refused, open_conversation,
}
use real_time_chat_app.Handlers.Sockets.Sessions.{Live, after_opening, users_of, AllOlder, IsLive}
use real_time_chat_app.Handlers.Sockets.Distinct.{holds-older, AllOlder-suc, find-older}

pub connect-online : (u : Uuid) (p : Presence) → p.outages ≡ [] → (connect u p).0 ≡ true
unfolding connect
connect-online u p up = ground arith

-- What an opening makes of presence and hub.
abbrev pub OpenedAs : ClientId → Site → Opening × Site → Type 0
OpenedAs k before (opened c u, s) =
    (s.presence ≡ (connect u before.presence).1)
    × (s.hub ≡ subscribe c k (with_client k before.hub))
OpenedAs k before (refused status, s) = (s.presence ≡ before.presence) × (s.hub ≡ before.hub)
OpenedAs k before (hung_up, s) = (s.presence ≡ before.presence) × (s.hub ≡ before.hub)

connected-OpenedAs :
    (c u : Uuid) (k : ClientId) (out : Bool × Presence) (before s : Site)
    → out.0 ≡ true
    → out.1 ≡ (connect u before.presence).1
    → s.hub ≡ before.hub
    → OpenedAs k before (connected c u k out s)
unfolding connected
connected-OpenedAs c u k (true, p) before s success e same =
    (e, ap (λ (h : Hub). subscribe c k (with_client k h)) same)
connected-OpenedAs c u k (false, p) before s success e same = cc

module _ (allowed_origins : List Text) (request : SocketRequest) (k : ClientId) (site : Site)
    (up : site.presence.outages ≡ []) where
  admitted-OpenedAs :
      (c u : Uuid) (answer : Result Bool × World)
      → OpenedAs k site (admitted allowed_origins request c u k answer site)
  unfolding admitted
  admitted-OpenedAs c u (err e, w) = (refl, refl)
  admitted-OpenedAs c u (ok false, w) = (refl, refl)
  admitted-OpenedAs c u (ok true, w) =
      elim (Bool-cases (check_origin allowed_origins request.origin && request.upgradable)) [
        | inl upgraded ↦ rw upgraded (
            connected-OpenedAs c u k (connect u site.presence) site (record site { world = w })
              (connect-online u site.presence up) refl refl)
        | inr not_upgraded ↦ rw not_upgraded (refl, refl)
      ]

  or_refused-OpenedAs :
      {A : Type 0} (o : Option A) (status : Status) (next : A → Site → Opening × Site)
      → ((a : A) → OpenedAs k site (next a site))
      → OpenedAs k site (or_refused o status next site)
  or_refused-OpenedAs none status next h = (refl, refl)
  or_refused-OpenedAs (some a) status next h = h a

  pub open_conversation-OpenedAs :
      (parse : Text → Option Uuid) (parse_token : Text → Option Text)
      → OpenedAs k site (open_conversation parse parse_token allowed_origins request k site)
  unfolding open_conversation
  open_conversation-OpenedAs parse parse_token =
      or_refused-OpenedAs (parse request.conversation_id) bad_request _ λ c.
        or_refused-OpenedAs (parse_token request.token) unauthorized _ λ claim.
          or_refused-OpenedAs (parse claim) unauthorized _
            λ u. admitted-OpenedAs c u (is_participant c u site.world)

pub same-IsLive :
    (l : Live) (s : Site) (next : ClientId)
    → s.presence ≡ l.site.presence
    → s.hub ≡ l.site.hub
    → AllOlder next l.sessions
    → IsLive l
    → IsLive (record l { site = s; next_client = next })
same-IsLive l s next p h older live = record {
  sound = rw h live.sound;
  tracked = rw p live.tracked;
  owned = rw h live.owned;
  served = rw h live.served;
  older = older;
  apart = live.apart;
}

-- The new client is in no conversation and its channel is open.
with_client-IsSound :
    (k : ClientId) (l : Live) → k ≡ l.next_client → IsLive l → IsSound (with_client k l.site.hub)
with_client-IsSound k l e live = record {
  listening = λ c j m. ground (arith, live.sound.listening c j);
  apart = live.sound.apart;
  distinct = live.sound.distinct;
  occupied = live.sound.occupied;
  matched = live.sound.matched;
  counted = live.sound.counted;
}

unlisted : (l : Live) (c : Uuid) → IsLive l → member l.next_client (clients_of l.site.hub c) ≡ false
unlisted l c live = elim (Bool-cases (member l.next_client (clients_of l.site.hub c))) [
  | inl there ↦ absurd (
      omega (
        arith,
        holds-older l.next_client c l.next_client l.sessions live.older
            (live.owned c l.next_client there),
      ))
  | inr absent ↦ absent
]

pub opened-IsLive :
    (l : Live) (c u : Uuid) (s : Site)
    → s.presence ≡ (connect u l.site.presence).1
    → s.hub ≡ subscribe c l.next_client (with_client l.next_client l.site.hub)
    → IsLive l
    → IsLive (after_opening l.next_client l.sessions (opened c u, s))
opened-IsLive l c u s p h live =
    let k = l.next_client in
    let before = with_client k l.site.hub in
    record {
      sound = rw h (
          subscribe-IsSound c k before (ground arith, (λ d. unlisted l d live))
            (with_client-IsSound k l refl live));
      tracked = rw p (connect-Tracks u l.site.presence (users_of l.sessions) live.tracked);
      owned = λ d j m. ground (
        arith,
        subscribe-members c k before d j,
        ap (λ (after : Hub). member j (clients_of after d)) h,
        live.owned d j,
        live.owned c j,
      );
      served = λ d j m open_now. ground (
        arith,
        subscribe-members c k before d j,
        subscribe-clients c k before j,
        ap (λ (after : Hub). member j (clients_of after d)) h,
        ap (λ (after : Hub). (after.clients j).is_closed) h,
        live.served d j,
        holds-older k d j l.sessions live.older,
      );
      older = (omega arith, AllOlder-suc k l.sessions live.older);
      apart = (find-older k l.sessions live.older, live.apart);
    }
