-- ===== src/Tests/Handlers.antt =====
-- The theorems on requests at the sample states.
use real_time_chat_app.Base.{Option, some, none, [], ◌∷◌, Text}
use real_time_chat_app.Models.{Uuid}
use real_time_chat_app.Membership.{view}
use real_time_chat_app.Membership.Invariant.{IsConsistent}
use real_time_chat_app.Handlers.{Request}
use real_time_chat_app.Handlers.Replies.{Answers}
use real_time_chat_app.Service.Calls.{Call}
use real_time_chat_app.Handlers.Requests.{
  asked, remove_participant, delete_room, serve, serve_all, serve-Answers, serve_all-IsConsistent,
}
use real_time_chat_app.Tests.{in_team}
use real_time_chat_app.Tests.Membership.{in_team-IsConsistent}

-- An identifier is written with one byte here.
abbrev parse_byte : Text → Option Uuid
parse_byte (a ∷ []) = some a
parse_byte _ = none

-- User 2 asks to remove user 1 from room 10.
abbrev removal : Request
removal = record {
  user_id = some (2 ∷ []);
  conversation_id = 10 ∷ [];
  participant_id = 1 ∷ [];
  message_id = [];
  body = none;
  search = [];
  limit = [];
  before = [];
  ids = [];
}

serve-Answers_example :
    Answers
      (some 2)
      (some (Call.remove_participant 10 1))
      in_team
      (serve parse_byte 12 remove_participant removal in_team)
unfolding asked
serve-Answers_example = serve-Answers parse_byte 12 removal in_team remove_participant

serve_all-IsConsistent_example : IsConsistent (
    view
      (serve_all parse_byte
        ((20, 12, remove_participant, removal) ∷ (21, 13, delete_room, removal) ∷ [])
        in_team).db)
serve_all-IsConsistent_example =
    serve_all-IsConsistent parse_byte
      ((20, 12, remove_participant, removal) ∷ (21, 13, delete_room, removal) ∷ []) in_team
      in_team-IsConsistent
