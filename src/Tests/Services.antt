-- ===== src/Tests/Services.antt =====
-- The theorems on accounts and messages at the sample states.
use mathlib.Core.List.{Mem, mem-cons_self}
use real_time_chat_app.Base.{
  arith, ℕ, ◌≡◌, refl, Option, none, some, List, [], ◌∷◌, ◌++◌, Text, codes, text_eq, find,
}
use real_time_chat_app.Models.{User, Message, ConversationListItem, ConversationParticipant, admin}
use real_time_chat_app.Store.{World, ok, attempt, ◌>>=◌, statement, pure}
use real_time_chat_app.Service.Users.{register, register_hashed, registered, login}
use real_time_chat_app.Repository.Users.{create, insert_user}
use real_time_chat_app.Store.Tables.{find_user, find_row}
use real_time_chat_app.TrimSpace.{trim_space, trim_left, trim_reversed}
use real_time_chat_app.Service.Users.Login.{register-login}
use real_time_chat_app.Service.Users.Unique.{AreUnique, register-AreUnique}
use real_time_chat_app.Service.Calls.{discard}
use real_time_chat_app.Repository.Pages.{reverse_messages}
use real_time_chat_app.Repository.Reverse.{reverse_messages-reverse}
use real_time_chat_app.Service.Messages.{list_for_conversation}
use real_time_chat_app.Service.Messages.History.{IsPage, list_for_conversation-IsPage}
use real_time_chat_app.Service.Rooms.{mark_read, list_for_user}
use real_time_chat_app.Service.Rooms.Reading.{OnlyOwn, mark_read-list_for_user}
use real_time_chat_app.Tests.{start, with_hello, later_hello, team, part}

abbrev same_text : Text → Text
same_text s = s

abbrev plain_hash : Text → Option Text
plain_hash s = some s

abbrev token_of : User → Option Text
token_of user = some user.username

abbrev dan : User
dan = record {
  id = 4;
  username = codes "dan";
  email = codes "d@x";
  password_hash = codes "secret";
  created_at = 0;
  updated_at = 0;
}

abbrev with_dan : World
with_dan = record start { db = record start.db { users = start.db.users ++ dan ∷ [] } }

dan_registers :
    register same_text plain_hash 4 (codes "dan") (codes "d@x ") (codes "secret") start
    ≡ (ok dan, with_dan)
unfolding register register_hashed registered attempt ◌>>=◌ create statement insert_user find
    find_user trim_space trim_left trim_reversed text_eq pure
dan_registers = refl

register-login_example :
    (login same_text text_eq token_of (codes " d@x") (codes "secret") with_dan).0
    ≡ ok (record { user = dan; token = codes "dan" })
unfolding text_eq trim_space trim_left trim_reversed
register-login_example =
    register-login same_text plain_hash text_eq token_of 4 (codes "dan") (codes "d@x ")
      (codes " d@x") (codes "secret") (codes "secret") (codes "dan") dan start with_dan refl refl
      refl refl refl dan_registers

reverse_messages-reverse_example : reverse_messages {A = ℕ} (1 ∷ 2 ∷ 3 ∷ []) ≡ 3 ∷ 2 ∷ 1 ∷ []
reverse_messages-reverse_example = reverse_messages-reverse {A = ℕ} (1 ∷ 2 ∷ 3 ∷ [])

list_for_conversation-IsPage_example :
    (page : List Message) × (list_for_conversation 10 1 none 0 with_hello ≡ (ok page, with_hello))
    × IsPage 10 none 50 with_hello.db page
unfolding find_row find
list_for_conversation-IsPage_example = list_for_conversation-IsPage 10 1 none 0 with_hello refl refl

mark_read-list_for_user_example :
    (participant : ConversationParticipant) × (after : World) × (items : List ConversationListItem)
    × (mark_read 10 2 later_hello ≡ (ok participant, after))
    × (list_for_user 2 after ≡ (ok items, after))
    × Mem (record { conversation = team; unread_count = 0 }) items
    × OnlyOwn 2 after.db items
unfolding find_row find
mark_read-list_for_user_example =
    mark_read-list_for_user 2 team (part 2 admin) later_hello refl mem-cons_self refl
      (omega arith, tt)

start-AreUnique : AreUnique start.db
unfolding find text_eq
start-AreUnique = ((refl, (refl, (refl, tt))), (refl, (refl, (refl, tt))))

register-AreUnique_example :
    AreUnique
      (discard
        (register same_text plain_hash 4 (codes "ann") (codes "d@x") (codes "secret") start)).db
register-AreUnique_example =
    register-AreUnique same_text plain_hash 4 (codes "ann") (codes "d@x") (codes "secret") start
      start-AreUnique
