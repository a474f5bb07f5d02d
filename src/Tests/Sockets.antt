-- ===== src/Tests/Sockets.antt =====
-- The theorems on connections at concrete states.
use real_time_chat_app.Handlers.Sockets.Entry.{Entry}
use real_time_chat_app.Base.{
  inl, inr, ◌≡◌, refl, arith, true, false, Option, none, some, List, [], ◌∷◌, ◌++◌, Text, codes,
  text_eq, find,
}
use real_time_chat_app.Models.{Uuid}
use real_time_chat_app.Store.Tables.{find_row}
use real_time_chat_app.Presence.{connect, write_online}
use real_time_chat_app.Store.{query, statement}
use real_time_chat_app.Repository.Participants.{is_participant}
use real_time_chat_app.Strings.{contains}
use real_time_chat_app.Hub.{Event, Hub, member, new_client}
use real_time_chat_app.Hub.Pumps.{
  Connection, Happening, sends, closes, wakes, ticks, happen_all, read_pump,
}
use real_time_chat_app.Hub.Pumps.Order.{Written, sent, happen_all-Written}
use real_time_chat_app.Hub.Pumps.Ending.{Finished, happen_all-Finished}
use real_time_chat_app.Handlers.Sockets.{
  Site, SocketRequest, opened, check_origin, open_conversation, handle_incoming_event,
  event_typing_started,
}
use real_time_chat_app.Handlers.Sockets.Sessions.{
  Live, Move, opens, says, ends, arrives, takes, IsLive, run,
}
use real_time_chat_app.Handlers.Sockets.Histories.{run-IsLive}
use real_time_chat_app.Handlers.Sockets.Admission.{MayEnter, open_conversation-MayEnter}
use real_time_chat_app.Handlers.Sockets.Typing.{Typed, read_pump-Typed}
use real_time_chat_app.Tests.{in_team}

abbrev event : Text → Event
event type = record { type = type; payload = [] }

abbrev written_before : Connection
written_before = record {
  client = record { queue = event (codes "a") ∷ []; is_closed = false };
  written = [];
  is_stopped = false;
}

-- The second write fails.
abbrev happenings : List Happening
happenings = sends (event (codes "b")) ∷ ticks true ∷ wakes true ∷ wakes false ∷ closes ∷ []

waiting-Written : Written (event (codes "a") ∷ []) written_before
waiting-Written = record { rest = event (codes "a") ∷ []; splits = refl; waits = λ running. refl }

happen_all-Written_example :
    Written
      ((event (codes "a") ∷ []) ++ sent false happenings)
      (happen_all happenings written_before)
happen_all-Written_example =
    happen_all-Written happenings (event (codes "a") ∷ []) written_before waiting-Written

abbrev closed_before : Connection
closed_before = record written_before {
  client = record { queue = event (codes "a") ∷ event (codes "b") ∷ []; is_closed = true };
}

happen_all-Finished_example :
    Finished closed_before.client.queue closed_before.written
      (happen_all (wakes true ∷ ticks true ∷ wakes true ∷ wakes true ∷ []) closed_before)
happen_all-Finished_example =
    happen_all-Finished (wakes true ∷ ticks true ∷ wakes true ∷ wakes true ∷ []) closed_before refl
      refl (refl, (refl, (refl, (refl, tt)))) (omega arith)

abbrev no_clients : Hub
no_clients = record {
  conversations = λ c. none;
  subscribed = λ c. false;
  redis_open = λ c. 0;
  clients = λ k. new_client;
}

abbrev site : Site
site = record {
  world = in_team;
  presence = record { counts = λ u. 0; online = λ u. false; outages = [] };
  hub = no_clients;
  published = [];
}

abbrev nobody_connected : Live
nobody_connected = record { site = site; sessions = []; next_client = 0 }

nobody_connected-IsLive : IsLive nobody_connected
unfolding member
nobody_connected-IsLive = record {
  sound = record {
    listening = λ c k m. refl;
    apart = λ c d k m n. ground arith;
    distinct = λ c. tt;
    occupied = λ c e. cc;
    matched = λ c. refl;
    counted = λ c. refl;
  };
  tracked = record { counted = λ u. refl; shown = λ u. refl; reliable = refl };
  owned = λ c k m. cc;
  served = λ c k m open_now. cc;
  older = tt;
  apart = tt;
}

-- A one-byte text for an identifier; a token is the text of its user.
abbrev parse_byte : Text → Option Uuid
parse_byte [] = none
parse_byte (c ∷ s) = some c

abbrev own_claim : Text → Option Text
own_claim token = some token

abbrev encoded : Uuid → Uuid → Text
encoded c u = c ∷ u ∷ []

abbrev local_origins : List Text
local_origins = codes "http://a" ∷ []

-- Users 1 and 2 take part in conversation 10, user 3 does not.
abbrev by_user : Uuid → SocketRequest
by_user u = record {
  conversation_id = 10 ∷ [];
  token = u ∷ [];
  origin = codes "http://a";
  upgradable = true;
}

abbrev visits : List Move
visits =
    opens (by_user 1)
    ∷ opens (by_user 2)
    ∷ opens (by_user 3)
    ∷ says 0 (event event_typing_started)
    ∷ arrives 10 (event event_typing_started)
    ∷ takes 1
    ∷ ends 0
    ∷ []

run-IsLive_example :
    (after : Live) × (run parse_byte own_claim local_origins encoded visits nobody_connected
      ≡ some after)
    × IsLive after
run-IsLive_example =
    run-IsLive parse_byte own_claim local_origins encoded visits nobody_connected
      nobody_connected-IsLive

ann_may : MayEnter parse_byte own_claim local_origins (by_user 1) site.world.db 10 1
unfolding find_row find check_origin contains text_eq
ann_may = record {
  names = refl;
  claim = 1 ∷ [];
  signed = refl;
  claims = refl;
  takes_part = refl;
  origin_allowed = inr (inl refl);
  upgraded = refl;
}

ann_opens :
    (open_conversation parse_byte own_claim local_origins (by_user 1) 0 site).0 ≡ opened 10 1
unfolding open_conversation is_participant query statement find_row find check_origin contains
    text_eq connect write_online
ann_opens = refl

open_conversation-MayEnter_example :
    MayEnter parse_byte own_claim local_origins (by_user 1) site.world.db 10 1
open_conversation-MayEnter_example =
    open_conversation-MayEnter parse_byte own_claim local_origins (by_user 1) 0 site 10 1 ann_opens

read_pump-Typed_example : Typed encoded 10 1 site (
    read_pump
      (λ s. some (event s))
      (handle_incoming_event encoded 10 1)
      (event_typing_started ∷ codes "message.created" ∷ [])
      site)
read_pump-Typed_example =
    read_pump-Typed encoded 10 1 (λ s. some (event s))
      (event_typing_started ∷ codes "message.created" ∷ []) site
