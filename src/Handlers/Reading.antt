-- ===== src/Handlers/Reading.antt =====
-- backend/internal/httpserver/router.go: the routes that read from the database for the user of the
-- token, behind one function. `parse_time` is `time.Parse`, `ilike` and `collate` are PostgreSQL's.
use real_time_chat_app.Base.{
  ℕ, if◌then◌else◌, [], ◌≡◌, refl, ◌∙◌, Bool, Option, Text, by_test, text_eq,
}
use real_time_chat_app.TrimSpace.{trim_space}
use real_time_chat_app.Models.{Uuid, Time}
use real_time_chat_app.Store.{World, Db, Error, Result, ok, err, Store, query, ◌>>=◌, guard}
use real_time_chat_app.Store.Keeps.{Keeps, Keeps-query, Keeps-guard, Keeps-bind}
use real_time_chat_app.Repository.Listing
use real_time_chat_app.Repository.Participants
use real_time_chat_app.Repository.Pages
use real_time_chat_app.Repository.Users as UserRepository
use real_time_chat_app.Service.Rooms
use real_time_chat_app.Service.Members
use real_time_chat_app.Service.Messages as MessageService
use real_time_chat_app.Service.Users as UserService
use real_time_chat_app.Handlers.{Status, Request, rendered, respond, silent}
use real_time_chat_app.Handlers.Replies.{Answer, answered}
use real_time_chat_app.Handlers.Accounts
use real_time_chat_app.Handlers.Accounts.Names.{require-db}
use real_time_chat_app.Handlers.Conversations
use real_time_chat_app.Handlers.Messages

pub data Reading : Type 0 where
  me search list_conversations list_participants list_messages : Reading

-- What the reading of texts and their order depend on.
pub record Libraries : Type 0 where
  pub parse : Text → Option Uuid
  pub parse_time : Text → Option Time
  pub ilike : Text → Text → Bool
  pub collate : Text → Text → Bool

unfoldable pub serve_reading : Libraries → Reading → Request → World → Answer × World
serve_reading libs me q w = answered (Accounts.me libs.parse q w)
serve_reading libs search q w = answered (Accounts.search libs.ilike libs.collate q w)
serve_reading libs list_conversations q w = answered (Conversations.list libs.parse libs.ilike q w)
serve_reading libs list_participants q w = answered (Conversations.list_participants libs.parse q w)
serve_reading libs list_messages q w = answered (Messages.list libs.parse libs.parse_time q w)

abbrev database : Db → Db
database db = db

-- A list that only participants may see.
guarded-Keeps :
    {A : Type 0} (q : Db → Result Bool) (e : Error) (rest : Store A)
    → Keeps database rest
    → Keeps database (query q >>= λ b. guard b e >>= λ _. rest)
guarded-Keeps q e rest h =
    Keeps-bind database _ _ (Keeps-query database q)
      λ b. Keeps-bind database _ _ (Keeps-guard database b e) λ _. h

list_participants-Keeps : (c u : Uuid) → Keeps database (Members.list_participants c u)
unfolding Members.list_participants Participants.is_participant Participants.list_participants
list_participants-Keeps c u = guarded-Keeps _ _ _ (Keeps-query database _)

list_for_conversation-Keeps :
    (c u : Uuid) (before : Option Time) (limit : ℕ)
    → Keeps database (MessageService.list_for_conversation c u before limit)
unfolding MessageService.list_for_conversation MessageService.ensure_participant
    Participants.is_participant Pages.list_for_conversation
list_for_conversation-Keeps c u before limit =
    Keeps-bind database _ _
      (Keeps-bind database _ _ (Keeps-query database _) λ b. Keeps-guard database b _)
      λ _. Keeps-query database _

search_for_user-Keeps :
    (ilike : Text → Text → Bool) (u : Uuid) (text : Text)
    → Keeps database (Rooms.search_for_user ilike u text)
unfolding Rooms.search_for_user Listing.list_for_user Listing.search_rooms_for_user
search_for_user-Keeps ilike u text =
    by_test
      (λ b. Keeps database (
        if b
        then Listing.list_for_user u
        else Listing.search_rooms_for_user ilike u (trim_space text)))
      (text_eq (trim_space text) []) (λ all. Keeps-query database _)
      (λ some_of. Keeps-query database _)

find_by_id-Keeps : (u : Uuid) → Keeps database (UserService.find_by_id u)
unfolding UserService.find_by_id UserRepository.find_by_id
find_by_id-Keeps u = Keeps-query database _

search-Keeps :
    (ilike collate : Text → Text → Bool) (given : Text) (limit : ℕ)
    → Keeps database (UserService.search ilike collate given limit)
unfolding UserService.search UserRepository.search
search-Keeps ilike collate given limit =
    Keeps-bind database _ _ (Keeps-guard database _ _) λ _. Keeps-query database _

module _ {A : Type 0} (status : Status) (failure : Error → Status) where
  respond-db : (r : Result A × World) → (respond status failure silent r).1.db ≡ r.1.db
  unfolding respond
  respond-db (ok a, w) = refl
  respond-db (err e, w) = refl

rendered-db :
    {A B : Type 0} (response : A → B) (r : Result A × World) → (rendered response r).1.db ≡ r.1.db
rendered-db response (ok a, w) = refl
rendered-db response (err e, w) = refl

-- The routes that only read leave the tables as they are.
pub serve_reading-db :
    (libs : Libraries) (reading : Reading) (q : Request) (w : World)
    → (serve_reading libs reading q w).1.db ≡ w.db
unfolding serve_reading Accounts.me Accounts.search Conversations.list
    Conversations.list_participants Messages.list
serve_reading-db libs me q w =
    require-db _ _ _ w λ u. respond-db _ _ _ ∙ (rendered-db _ _ ∙ (find_by_id-Keeps u).at w)
serve_reading-db libs search q w = require-db _ _ _ w λ limit.
    respond-db _ _ _
    ∙ (rendered-db _ _ ∙ (search-Keeps libs.ilike libs.collate q.search limit).at w)
serve_reading-db libs list_conversations q w =
    require-db _ _ _ w
      λ u. respond-db _ _ _ ∙ (rendered-db _ _ ∙ (search_for_user-Keeps libs.ilike u q.search).at w)
serve_reading-db libs list_participants q w = require-db _ _ _ w λ u.
    require-db _ _ _ w
      λ c. respond-db _ _ _ ∙ (rendered-db _ _ ∙ (list_participants-Keeps c u).at w)
serve_reading-db libs list_messages q w = require-db _ _ _ w λ u. require-db _ _ _ w λ c.
    require-db _ _ _ w λ limit. require-db _ _ _ w λ before.
      respond-db _ _ _ ∙ (rendered-db _ _ ∙ (list_for_conversation-Keeps c u before limit).at w)
