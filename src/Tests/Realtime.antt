-- ===== src/Tests/Realtime.antt =====
-- The theorems on presence, rate limits and the hub at concrete states.
use real_time_chat_app.Base.{
  ◌==◌, ◌≡◌, refl, true, false, some, none, List, [], ◌∷◌, arith, codes, if◌then◌else◌,
}
use real_time_chat_app.Presence.{Presence, connect, statuses}
use real_time_chat_app.Presence.Sessions.{Move, opens, closes, Tracks, run, statuses-run}
use real_time_chat_app.Presence.Leak.{connect_outage_hides}
use real_time_chat_app.RateLimit.{Redis, allow_key, verdict}
use real_time_chat_app.RateLimit.Windows.{
  hits, expected, allowed_in, window_allows, expire_outage_blocks,
}
use real_time_chat_app.Hub.{
  Event, Hub, new_client, clients_of, member, subscribe, unsubscribe, broadcast, deliver_all,
}
use real_time_chat_app.Hub.Invariant.{IsSound, subscribe-IsSound}
use real_time_chat_app.Hub.Leaving.{unsubscribe-IsSound}
use real_time_chat_app.Hub.Broadcast.{Settled, broadcast-Settled}
use real_time_chat_app.Hub.Race.{broadcast_race}

abbrev nobody_online : Presence
nobody_online = record { counts = λ u. 0; online = λ u. false; outages = [] }

nobody_online-Tracks : Tracks nobody_online []
nobody_online-Tracks = record { counted = λ u. refl; shown = λ u. refl; reliable = refl }

-- Two tabs of user 1, one of which is closed, and a tab of user 2 that is closed.
abbrev moves : List Move
moves = opens 1 ∷ opens 2 ∷ opens 1 ∷ closes 2 ∷ closes 1 ∷ []

statuses-run_example :
    (statuses (1 ∷ 2 ∷ []) (run moves nobody_online)).0 ≡ some ((1, true) ∷ (2, false) ∷ [])
statuses-run_example = statuses-run (1 ∷ 2 ∷ []) moves nobody_online [] nobody_online-Tracks

abbrev down_once : Presence
down_once = record { counts = λ u. 0; online = λ u. false; outages = true ∷ [] }

connect_outage_hides_example :
    ((connect 1 down_once).0 ≡ false)
    × ((run (opens 1 ∷ opens 1 ∷ []) (connect 1 down_once).1).online 1 ≡ false)
connect_outage_hides_example =
    connect_outage_hides 1 down_once [] [] (opens 1 ∷ opens 1 ∷ []) refl refl refl refl tt

abbrev fresh_redis : Redis
fresh_redis = record { counters = λ k. none; outages = [] }

window_allows_example :
    (hits (codes "login") 2 60 (100 ∷ 101 ∷ 102 ∷ []) fresh_redis
      ≡ some (verdict 1 2 60) ∷ expected 1 2 160 (101 ∷ 102 ∷ []))
    × (allowed_in (hits (codes "login") 2 60 (100 ∷ 101 ∷ 102 ∷ []) fresh_redis) ≡ 2)
window_allows_example =
    window_allows (codes "login") 2 60 100 (101 ∷ 102 ∷ []) fresh_redis refl refl
      (omega arith, (omega arith, tt))

abbrev flaky_redis : Redis
flaky_redis = record { counters = λ k. none; outages = false ∷ true ∷ [] }

expire_outage_blocks_example :
    ((allow_key (codes "login") 100 2 60 flaky_redis).0 ≡ none)
    × (hits (codes "login") 2 60 (500 ∷ 900 ∷ []) (allow_key (codes "login") 100 2 60 flaky_redis).1
        ≡ some (verdict 2 2 60) ∷ some (verdict 3 2 60) ∷ [])
expire_outage_blocks_example =
    expire_outage_blocks (codes "login") 2 60 100 (500 ∷ 900 ∷ []) flaky_redis refl refl

abbrev empty_hub : Hub
empty_hub = record {
  conversations = λ c. none;
  subscribed = λ c. false;
  redis_open = λ c. 0;
  clients = λ k. new_client;
}

empty_hub-IsSound : IsSound empty_hub
unfolding member
empty_hub-IsSound = record {
  listening = λ c k m. refl;
  apart = λ c d k m n. ground arith;
  distinct = λ c. tt;
  occupied = λ c e. cc;
  matched = λ c. refl;
  counted = λ c. refl;
}

subscribe-IsSound_example : IsSound (subscribe 10 1 empty_hub)
unfolding member
subscribe-IsSound_example = subscribe-IsSound 10 1 empty_hub (refl, (λ c. refl)) empty_hub-IsSound

-- The hub with client 1 in conversation 10.
abbrev one_client : Hub
one_client = record {
  conversations = λ c. if c == 10 then some (1 ∷ []) else none;
  subscribed = λ c. c == 10;
  redis_open = λ c. if c == 10 then 1 else 0;
  clients = λ k. new_client;
}

one_client-IsSound : IsSound one_client
unfolding member
one_client-IsSound = record {
  listening = λ c k m. refl;
  apart = λ c d k m n. ground arith;
  distinct = λ c. ground arith;
  occupied = λ c e. ground arith;
  matched = λ c. ground arith;
  counted = λ c. refl;
}

unsubscribe-IsSound_example : IsSound (unsubscribe 10 1 one_client)
unsubscribe-IsSound_example = unsubscribe-IsSound 10 1 one_client one_client-IsSound

abbrev greeting : Event
greeting = record { type = codes "message.created"; payload = codes "{}" }

broadcast-Settled_example :
    (after : Hub) × (broadcast 10 greeting one_client ≡ some after)
    × Settled greeting (clients_of one_client 10) one_client after
broadcast-Settled_example = broadcast-Settled 10 greeting one_client one_client-IsSound

broadcast_race_example :
    deliver_all 10 greeting (clients_of one_client 10) (unsubscribe 10 1 one_client) ≡ none
unfolding member
broadcast_race_example = broadcast_race 10 greeting 1 one_client one_client-IsSound refl
