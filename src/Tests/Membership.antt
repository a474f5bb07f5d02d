-- ===== src/Tests/Membership.antt =====
-- The theorems on conversations at the sample states.
use real_time_chat_app.Base.{◌≡◌, ◌⊎◌, refl, none, some, arith, find, codes, [], ◌∷◌}
use real_time_chat_app.Models.{owner, Uuid, Conversation, direct, member}
use real_time_chat_app.Store.{
  World, ParticipantRow, ok, guard, pure, ◌>>=◌, attempt, query, statement, transaction, round_trip,
  or_fail,
}
use real_time_chat_app.Store.Tables.{
  find_conversation, find_row, find_message, find_user, insert_conversation, insert_participant,
}
use real_time_chat_app.Service.Calls.{
  perform, run, delete_message, create_room, remove_participant, delete_room, add_room_participant,
}
use real_time_chat_app.Membership.{view, Step}
use real_time_chat_app.Membership.Invariant.{IsConsistent}
use real_time_chat_app.Membership.Reachable.{perform-Step, run-IsConsistent}
use real_time_chat_app.Membership.Powers.{
  owner_is_safe, member_changes_no_other, outsider_cannot_enter,
}
use real_time_chat_app.Authorship.Authors.{message_is_safe}
use real_time_chat_app.Service.Rooms
use real_time_chat_app.Service.Rooms.Reuse.{create_direct-reused}
use real_time_chat_app.Repository.Conversations
use real_time_chat_app.Tests.{hello, with_hello, start, history, in_team}

start-IsConsistent : IsConsistent (view start.db)
unfolding find_conversation find_row find
start-IsConsistent = record {
  rooted = λ c u absent. refl;
  rooms = λ c e. ground arith;
  directs = λ c e. ground arith;
  unique = λ c d a b e. ground arith;
}

pub in_team-IsConsistent : IsConsistent (view in_team.db)
unfolding find_conversation find_row find
in_team-IsConsistent = record {
  rooted = λ c u absent. ground arith;
  rooms = λ c e. (1, (ground arith, (λ u owns. ground arith)));
  directs = λ c e. ground arith;
  unique = λ c d a b e. ground arith;
}

perform-Step_example :
    Step 1 (view start.db) (view (perform 1 (create_room 10 (codes "team")) start).db)
perform-Step_example = perform-Step 1 (create_room 10 (codes "team")) start

run-IsConsistent_example : IsConsistent (view (run history start).db)
run-IsConsistent_example = run-IsConsistent history start start-IsConsistent

owner_is_safe_example :
    (view (perform 2 (remove_participant 10 1) in_team).db).role_of 10 1 ≡ some owner
unfolding find_row find
owner_is_safe_example =
    owner_is_safe 2 (remove_participant 10 1) in_team 10 1 in_team-IsConsistent (λ e. ground arith)
      refl

member_changes_no_other_example :
    let after = perform 3 (delete_room 10) in_team in
    ((view after.db).type_of 10 ≡ (view in_team.db).type_of 10)
    × ((view after.db).role_of 10 2 ≡ (view in_team.db).role_of 10 2)
unfolding find_conversation find_row find
member_changes_no_other_example =
    member_changes_no_other 3 (delete_room 10) in_team 10 2 (λ e. ground arith) (λ e. ground arith)
      (λ e. ground arith) (λ e. ground arith)

outsider_cannot_enter_example :
    (view (perform 3 (add_room_participant 10 3) in_team).db).role_of 10 3 ≡ none
unfolding find_conversation find_row find
outsider_cannot_enter_example =
    outsider_cannot_enter 3 (add_room_participant 10 3) in_team 10 (λ e. ground arith) refl

message_is_safe_example :
    let after = perform 2 (delete_message 10 20) with_hello in
    (find_message 20 after.db ≡ some hello)
    ⊎ (((view with_hello.db).role_of 10 2 ≡ some owner) × ((view after.db).type_of 10 ≡ none))
unfolding find_message find
message_is_safe_example = message_is_safe 2 (delete_message 10 20) with_hello 20 hello refl refl

abbrev pair : Conversation
pair = record {
  id = 11;
  type = direct;
  name = none;
  created_by = some 1;
  created_at = 0;
  updated_at = 0;
}

abbrev in_pair : Uuid → ParticipantRow
in_pair u = record {
  conversation_id = 11;
  user_id = u;
  role = member;
  joined_at = 0;
  last_read_at = none;
}

abbrev with_pair : World
with_pair = record start {
  db = record start.db { conversations = pair ∷ []; participants = in_pair 1 ∷ in_pair 2 ∷ [] };
}

pair_made : Rooms.create_direct 11 1 2 start ≡ (ok pair, with_pair)
unfolding Rooms.create_direct Rooms.reuse_or_create guard pure ◌>>=◌ attempt query statement find
    transaction round_trip Conversations.find_direct_between_users Conversations.create_direct
    insert_conversation find_conversation find_user Conversations.insert_pair insert_participant
    find_row or_fail
pair_made = refl

create_direct-reused_example :
    (Rooms.create_direct 12 1 2 with_pair ≡ (ok pair, with_pair))
    × (Rooms.create_direct 12 2 1 with_pair ≡ (ok pair, with_pair))
create_direct-reused_example = create_direct-reused 11 12 1 2 pair start with_pair pair_made refl
