-- ===== src/Tests.antt =====
-- Sample states, and the theorems at concrete inputs.
mod Membership
mod Realtime
mod Handlers
mod Services
mod Startup
mod Accounts
mod Sockets
mod Router
use real_time_chat_app.Base.{Text, codes, none, some, List, [], ◌∷◌}
use real_time_chat_app.Models.{
  Uuid, Time, User, Conversation, room, ParticipantRole, owner, admin, member, Message,
}
use real_time_chat_app.Store.{World, ParticipantRow}
use real_time_chat_app.Service.Calls.{
  Call, create_room, add_room_participant, update_participant_role, create_direct,
}

abbrev person : Uuid → Text → User
person u name = record {
  id = u;
  username = name;
  email = name;
  password_hash = [];
  created_at = 0;
  updated_at = 0;
}

-- Three users and no conversations; the calls meet no outage.
abbrev start : World
start = record {
  db = record {
    users = person 1 (codes "ann") ∷ person 2 (codes "bob") ∷ person 3 (codes "eve") ∷ [];
    conversations = [];
    participants = [];
    messages = [];
    now = 0;
  };
  outages = [];
}

-- Room 10 with owner 1, admin 2 and member 3, and a direct conversation 11 of 1 and 2.
abbrev history : List (Time × Uuid × Call)
history =
    (5, 1, create_room 10 (codes " team "))
    ∷ (6, 1, add_room_participant 10 2)
    ∷ (7, 1, add_room_participant 10 3)
    ∷ (8, 1, update_participant_role 10 2 admin)
    ∷ (9, 2, create_direct 11 1)
    ∷ []

abbrev team : Conversation
team = record {
  id = 10;
  type = room;
  name = some (codes "team");
  created_by = some 1;
  created_at = 5;
  updated_at = 5;
}

abbrev part : Uuid → ParticipantRole → ParticipantRow
part u role = record {
  conversation_id = 10;
  user_id = u;
  role = role;
  joined_at = 5;
  last_read_at = none;
}

-- Room 10 with owner 1 and admin 2; user 3 takes no part.
abbrev in_team : World
in_team = record start {
  db = record start.db {
    conversations = team ∷ [];
    participants = part 1 owner ∷ part 2 admin ∷ [];
  };
}

-- A message of user 1 in the room.
abbrev hello : Message
hello = record {
  id = 20;
  conversation_id = 10;
  sender_id = some 1;
  content = codes "hello";
  created_at = 6;
  updated_at = 6;
}

abbrev with_hello : World
with_hello = record in_team { db = record in_team.db { messages = hello ∷ [] } }

abbrev later_hello : World
later_hello = record with_hello { db = record with_hello.db { now = 9 } }
