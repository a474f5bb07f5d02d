-- ===== src/Store.antt =====
-- The database behind pgx, with the tables of backend/migrations, and the actions of the
-- repositories and services on it. A statement runs whole or fails and changes nothing; the
-- schedule of outages says which statements meet a broken connection.
pub mod Effect
pub mod Tables
pub mod Online
pub mod Keeps
use real_time_chat_app.Base.{ℕ, Bool, true, false, Option, none, some, List, [], ◌∷◌, if◌then◌else◌}
use real_time_chat_app.Models.{
  Uuid, Time, User, Conversation, ParticipantRole, Message, ConversationParticipant,
}

-- A row of `conversation_participants`.
pub record ParticipantRow : Type 0 where
  pub conversation_id : Uuid
  pub user_id : Uuid
  pub role : ParticipantRole
  pub joined_at : Time
  pub last_read_at : Option Time

-- `now` is the time of the transaction, `NOW()`.
pub record Db : Type 0 where
  pub users : List User
  pub conversations : List Conversation
  pub participants : List ParticipantRow
  pub messages : List Message
  pub now : Time

pub record World : Type 0 where
  pub db : Db
  pub outages : List Bool

-- The errors of pgx, `pgx.ErrNoRows` and the constraint violations, and those of the services.
pub data Error : Type 0 where
  no_rows unique_violation foreign_key_violation check_violation unavailable : Error
  invalid_room_name invalid_direct_conversation conversation_management_denied : Error
  invalid_participant invalid_participant_role : Error
  conversation_access_denied invalid_message_content message_content_too_long : Error
  message_ownership_denied : Error
  invalid_credentials invalid_user_search_query email_already_registered : Error
  password_hashing token_signing : Error

pub data Result {ℓ} (A : Type ℓ) : Type ℓ where
  ok : A → Result A
  err : Error → Result A

abbrev pub Store : Type 0 → Type 0
Store A = World → Result A × World

module _ {A : Type 0} where
  unfoldable pub pure : A → Store A
  pure a w = (ok a, w)

  unfoldable pub fail : Error → Store A
  fail e w = (err e, w)

  unfoldable pub or_fail : Option A → Error → Result A
  or_fail none e = err e
  or_fail (some a) e = ok a

  -- A statement that got through.
  pub commit_to : World → Result (A × Db) → Result A × World
  commit_to w (ok (a, db)) = (ok a, record w { db = db })
  commit_to w (err e) = (err e, w)

  -- One statement: the next entry of the schedule says whether the connection is down.
  pub run_statement : (Db → Result (A × Db)) → Db → List Bool → Result A × World
  run_statement q db [] = commit_to (record { db = db; outages = [] }) (q db)
  run_statement q db (true ∷ later) = (err unavailable, record { db = db; outages = later })
  run_statement q db (false ∷ later) = commit_to (record { db = db; outages = later }) (q db)

  unfoldable pub statement : (Db → Result (A × Db)) → Store A
  unfolding run_statement commit_to
  statement q w = run_statement q w.db w.outages

  pub unchanged : Db → Result A → Result (A × Db)
  unchanged db (ok a) = ok (a, db)
  unchanged db (err e) = err e

  -- A query reads only.
  unfoldable pub query : (Db → Result A) → Store A
  unfolding statement unchanged
  query q = statement λ db. unchanged db (q db)

module _ {A B : Type 0} where
  abbrev pub continue : Result A → (A → Store B) → Store B
  continue (ok a) f w = f a w
  continue (err e) f w = (err e, w)

  infixl 10 ◌>>=◌ ◌>>◌
  unfoldable pub ◌>>=◌ : Store A → (A → Store B) → Store B
  unfolding pure fail
  ◌>>=◌ m f w = let (r, w') = m w in continue r f w'

  abbrev pub ◌>>◌ : Store A → Store B → Store B
  m >> n = m >>= λ _. n

module _ {A : Type 0} where
  -- The result of a call whose error the caller looks at.
  unfoldable pub attempt : Store A → Store (Result A)
  attempt m w = let (r, w') = m w in (ok r, w')

  -- The deferred `tx.Rollback`, which does nothing after a commit.
  pub roll_back : Db → Result A × World → Result A × World
  roll_back saved (ok a, w) = (ok a, w)
  roll_back saved (err e, w) = (err e, record w { db = saved })

-- `Begin` and `Commit`: a round trip that may meet an outage.
unfoldable pub round_trip : Store (Unit {0})
unfolding query
round_trip = query λ _. ok tt

module _ {A : Type 0} where
  -- `Begin`, the body, `Commit`.
  unfoldable pub transaction : Store A → Store A
  unfolding roll_back ◌>>=◌ round_trip
  transaction body w = roll_back w.db ((do round_trip; a ← body; round_trip; pure a) w)

unfoldable pub guard : Bool → Error → Store (Unit {0})
unfolding pure fail
guard true e = pure tt
guard false e = fail e
