-- ===== src/Handlers/Sockets/Histories.antt =====
-- What holds of the connections of backend/internal/handlers/websocket.go through every history.
use real_time_chat_app.Base.{
  ℕ, ◌+◌, ◌≡◌, refl, ap, subst, sym, ◌∙◌, Option, none, some, List, [], ◌∷◌, ltb, arith, codes,
  ==_iff, find, find-true, Text,
}
use real_time_chat_app.Models.{Uuid}
use real_time_chat_app.Presence.{Presence, disconnect}
use real_time_chat_app.Presence.Sessions.{
  Tracks, open_for, close_one, disconnect-Tracks, open_for-close_one,
}
use real_time_chat_app.Hub.{ClientId, Event, Hub, member, clients_of, unsubscribe, broadcast}
use real_time_chat_app.Hub.Leaving.{unsubscribe-HasLeft, HasLeft-IsSound, member_after}
use real_time_chat_app.Hub.Broadcast.{broadcast-Settled}
use real_time_chat_app.Handlers.Sockets.{
  Site, Opening, refused, hung_up, opened, publish, close_conversation, handle_incoming_event,
  publish_typing_stopped,
}
use real_time_chat_app.Handlers.Sockets.Sessions.{
  Session, Live, Move, opens, says, ends, arrives, takes, taken, has_client, after_opening, said,
  ended, arrived, step, run, users_of, IsLive,
}
use real_time_chat_app.Handlers.Sockets.Distinct.{
  AllOlder-suc, holds-filter, AllOlder-filter, AllApart-filter, filter-users, holds_unique,
}
use real_time_chat_app.Handlers.Sockets.Openings.{
  OpenedAs, open_conversation-OpenedAs, same-IsLive, opened-IsLive,
}

publish-same :
    (c : Uuid) (event : Event) (site : Site)
    → site.presence.outages ≡ []
    → ((publish c event site).presence ≡ site.presence) × ((publish c event site).hub ≡ site.hub)
unfolding publish
publish-same c event site up = (ground arith, ground arith)

module _ (encode : Uuid → Uuid → Text) where
  incoming-same :
      (c u : Uuid) (event : Event) (site : Site)
      → site.presence.outages ≡ []
      → ((handle_incoming_event encode c u event site).presence ≡ site.presence)
        × ((handle_incoming_event encode c u event site).hub ≡ site.hub)
  unfolding handle_incoming_event
  incoming-same c u event site up =
      let told = publish-same c (record { type = event.type; payload = encode c u }) site up in
      (ground arith, ground arith)

  said-IsLive :
      (event : Event) (o : Option Session) (l : Live) → IsLive l → IsLive (said encode event o l)
  said-IsLive event none l live = live
  said-IsLive event (some s) l live =
      let same = incoming-same s.conversation s.user event l.site live.tracked.reliable in
      same-IsLive l _ l.next_client same.0 same.1 live.older live

  closed-same :
      (c u : Uuid) (k : ClientId) (site : Site)
      → site.presence.outages ≡ []
      → ((close_conversation encode c u k site).presence ≡ (disconnect u site.presence).1)
        × ((close_conversation encode c u k site).hub ≡ unsubscribe c k site.hub)
  unfolding close_conversation publish_typing_stopped
  closed-same c u k site up =
      let told =
        publish-same c (record { type = codes "typing.stopped"; payload = encode c u }) site up in
      (ap (λ (p : Presence). (disconnect u p).1) told.0, ap (λ (h : Hub). unsubscribe c k h) told.1)

  Tracks-of_same :
      (p : Presence) (before after : List Uuid)
      → ((x : Uuid) → open_for x after ≡ open_for x before)
      → Tracks p before
      → Tracks p after
  Tracks-of_same p before after same t = record {
    counted = λ x. t.counted x ∙ sym (same x);
    shown = λ x. t.shown x ∙ ap (λ (n : ℕ). ltb 0 n) (sym (same x));
    reliable = t.reliable;
  }

  ended-IsLive :
      (k : ClientId) (o : Option Session) (l : Live)
      → find (has_client k) l.sessions ≡ o
      → IsLive l
      → IsLive (ended encode o l)
  ended-IsLive k none l found live = live
  ended-IsLive k (some s) l found live =
      let c = s.conversation in
      let u = s.user in
      let h = l.site.hub in
      let is_k : s.client ≡ k =
        (==_iff s.client k).0 (find-true (has_client k) l.sessions s found) in
      let same = closed-same c u s.client l.site live.tracked.reliable in
      let left = unsubscribe-HasLeft c s.client h live.sound in
      let after = unsubscribe c s.client h in
      let found' : find (has_client s.client) l.sessions ≡ some s =
        subst (λ i. find (has_client i) l.sessions ≡ some s) (sym is_k) found in
      record {
        sound = rw same.1 (HasLeft-IsSound c s.client h after live.sound left);
        tracked = rw same.0 (
            Tracks-of_same (disconnect u l.site.presence).1 (close_one u (users_of l.sessions)) _
              (λ x.
                filter-users x s.client s l.sessions live.apart found'
                ∙ sym (open_for-close_one u x (users_of l.sessions)))
              (disconnect-Tracks u l.site.presence (users_of l.sessions) live.tracked));
        owned = λ d j m. ground (
          arith,
          holds-filter d j s.client l.sessions,
          member_after c s.client h after live.sound left d j,
          ap (λ (hub : Hub). member j (clients_of hub d)) same.1,
          live.owned d j,
          holds_unique d s.client s l.sessions live.apart found',
        );
        served = λ d j m open_now. ground (
          arith,
          holds-filter d j s.client l.sessions,
          member_after c s.client h after live.sound left d j,
          left.states j,
          ap (λ (hub : Hub). member j (clients_of hub d)) same.1,
          ap (λ (hub : Hub). (hub.clients j).is_closed) same.1,
          live.served d j,
        );
        older = AllOlder-filter l.next_client s.client l.sessions live.older;
        apart = AllApart-filter s.client l.sessions live.apart;
      }

-- A broadcast in a live system.
arrived-IsLive :
    (c : Uuid) (event : Event) (l : Live)
    → IsLive l
    → (after : Live) × (arrived (broadcast c event l.site.hub) l ≡ some after) × IsLive after
arrived-IsLive c event l live =
    let (h, out, done) = broadcast-Settled c event l.site.hub live.sound in
    (
      record l { site = record l.site { hub = h } },
      rw out refl,
      record {
        sound = done.sound;
        tracked = live.tracked;
        owned = λ d j m. live.owned d j (done.lists.within d j m);
        served = λ d j m open_now.
            ground (arith, done.lists.closed j, done.lists.remains d j, live.served d j);
        older = live.older;
        apart = live.apart;
      },
    )

-- Taking an event changes the queue of one client only.
taken-IsLive :
    (k : ClientId) (l : Live)
    → IsLive l
    → IsLive (record l { site = record l.site { hub = taken k l.site.hub } })
taken-IsLive k l live =
    let same : (j : ClientId)
        → ((taken k l.site.hub).clients j).is_closed ≡ (l.site.hub.clients j).is_closed =
      λ j. ground arith in
    record {
      sound = record {
        listening = λ c j m. same j ∙ live.sound.listening c j m;
        apart = live.sound.apart;
        distinct = live.sound.distinct;
        occupied = live.sound.occupied;
        matched = live.sound.matched;
        counted = live.sound.counted;
      };
      tracked = live.tracked;
      owned = live.owned;
      served = λ c j held open_now. live.served c j held (sym (same j) ∙ open_now);
      older = live.older;
      apart = live.apart;
    }

module _ (parse : Text → Option Uuid) (parse_token : Text → Option Text)
    (allowed_origins : List Text) (encode : Uuid → Uuid → Text) where
  after_opening-IsLive :
      (l : Live) (out : Opening × Site)
      → OpenedAs l.next_client l.site out
      → IsLive l
      → IsLive (after_opening l.next_client l.sessions out)
  after_opening-IsLive l (refused status, s) same live =
      same-IsLive l s (l.next_client + 1) same.0 same.1
        (AllOlder-suc l.next_client l.sessions live.older) live
  after_opening-IsLive l (hung_up, s) same live =
      same-IsLive l s (l.next_client + 1) same.0 same.1
        (AllOlder-suc l.next_client l.sessions live.older) live
  after_opening-IsLive l (opened c u, s) same live = opened-IsLive l c u s same.0 same.1 live

  step-IsLive :
      (move : Move) (l : Live)
      → IsLive l
      → (after : Live) × (step parse parse_token allowed_origins encode move l ≡ some after)
        × IsLive after
  unfolding step
  step-IsLive (opens request) l live = (
    _,
    refl,
    after_opening-IsLive l _
        (open_conversation-OpenedAs allowed_origins request l.next_client l.site
          live.tracked.reliable parse parse_token)
        live,
  )
  step-IsLive (says k event) l live =
      (_, refl, said-IsLive encode event (find (has_client k) l.sessions) l live)
  step-IsLive (ends k) l live =
      (_, refl, ended-IsLive encode k (find (has_client k) l.sessions) l refl live)
  step-IsLive (arrives c event) l live = arrived-IsLive c event l live
  step-IsLive (takes k) l live = (_, refl, taken-IsLive k l live)

  -- While Redis answers, from a state with the facts named here, through every history of connections
  -- that are opened, send events, have events taken by their `WritePump` and end, and of broadcasts that
  -- nothing interrupts, no send panics; the hub keeps its invariant, presence counts the open connections
  -- and shows exactly the users who have one, only the clients of open connections are listed in their
  -- conversations, and each of them is, unless it was dropped.
  pub run-IsLive :
      (moves : List Move) (l : Live)
      → IsLive l
      → (after : Live) × (run parse parse_token allowed_origins encode moves l ≡ some after)
        × IsLive after
  unfolding run
  run-IsLive [] l live = (l, refl, live)
  run-IsLive (move ∷ moves) l live =
      let (mid, out, live') = step-IsLive move l live in
      let (after, out', live'') = run-IsLive moves mid live' in (after, rw (out, run) out', live'')
