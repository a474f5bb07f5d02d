-- ===== src/Models.antt =====
-- backend/internal/models: the rows and values that the layers exchange. An identifier is a number,
-- the nil UUID is 0. A time is a number of ticks.
pub mod Responses
use real_time_chat_app.Base.{ℕ, Bool, true, false, Option, Text, codes, text_eq, if◌then◌else◌}

abbrev pub Uuid : Type 0
Uuid = ℕ

-- `uuid.Nil`
abbrev pub nil_id : Uuid
nil_id = 0

abbrev pub Time : Type 0
Time = ℕ

pub data ConversationType : Type 0 where
  room direct : ConversationType

-- A `ParticipantRole` is a string: a request may carry any other one.
pub data ParticipantRole : Type 0 where
  owner admin member : ParticipantRole
  other : Text → ParticipantRole

-- The conversion `models.ParticipantRole(s)`.
unfoldable pub to_role : Text → ParticipantRole
unfolding text_eq
to_role s =
    if text_eq s (codes "owner")
    then owner
    else if text_eq s (codes "admin")
    then admin
    else if text_eq s (codes "member")
    then member
    else other s

abbrev pub is_owner : ParticipantRole → Bool
is_owner owner = true
is_owner _ = false

abbrev pub is_admin : ParticipantRole → Bool
is_admin admin = true
is_admin _ = false

abbrev pub is_member : ParticipantRole → Bool
is_member member = true
is_member _ = false

abbrev pub is_room : ConversationType → Bool
is_room room = true
is_room direct = false

pub record User : Type 0 where
  pub id : Uuid
  pub username : Text
  pub email : Text
  pub password_hash : Text
  pub created_at : Time
  pub updated_at : Time

pub record Conversation : Type 0 where
  pub id : Uuid
  pub type : ConversationType
  pub name : Option Text
  pub created_by : Option Uuid
  pub created_at : Time
  pub updated_at : Time

pub record ConversationParticipant : Type 0 where
  pub conversation_id : Uuid
  pub user_id : Uuid
  pub username : Text
  pub email : Text
  pub role : ParticipantRole
  pub joined_at : Time
  pub last_read_at : Option Time

pub record Message : Type 0 where
  pub id : Uuid
  pub conversation_id : Uuid
  pub sender_id : Option Uuid
  pub content : Text
  pub created_at : Time
  pub updated_at : Time

pub record ConversationListItem : Type 0 where
  pub conversation : Conversation
  pub open conversation use *
  pub unread_count : ℕ
