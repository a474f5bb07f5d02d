-- ===== src/Membership.antt =====
-- The abstract state behind backend/internal/services/conversation_service.go: which conversations
-- there are, of which type, and who takes part in them in which role. `Step` is the policy: what
-- one call by `actor` may do to that state.
pub mod Writes
pub mod Invariant
pub mod Powers
pub mod Reachable
pub mod MessageServices
pub mod Preserved
pub mod RoomServices
pub mod Services
pub mod Reads
pub mod Transactions
use real_time_chat_app.Base.{
  ℕ, Bool, true, false, not, ◌&&◌, ◌||◌, ◌≡◌, ◌≢◌, ◌⊎◌, Option, none, some, ◌==◌, if◌then◌else◌,
}
use real_time_chat_app.Models.{
  Uuid, ConversationType, room, direct, ParticipantRole, owner, admin, member, Conversation,
}
use real_time_chat_app.Store.{ParticipantRow, Db}
use real_time_chat_app.Store.Tables.{find_conversation, find_row}

pub record View : Type 0 where
  pub type_of : Uuid → Option ConversationType
  pub role_of : Uuid → Uuid → Option ParticipantRole

abbrev pub type_in : Option Conversation → Option ConversationType
type_in none = none
type_in (some c) = some c.type

abbrev pub role_in : Option ParticipantRow → Option ParticipantRole
role_in none = none
role_in (some row) = some row.role

abbrev pub view : Db → View
view db = record {
  type_of = λ c. type_in (find_conversation c db);
  role_of = λ c u. role_in (find_row c u db.participants);
}

abbrev pub SameTypes : View → View → Type 0
SameTypes v w = (x : Uuid) → w.type_of x ≡ v.type_of x

-- The role at one place is now `r`, and everything else stays.
abbrev pub RoleSet : View → View → Uuid → Uuid → Option ParticipantRole → Type 0
RoleSet v w c u r = (x y : Uuid) → w.role_of x y ≡ (if x == c && y == u then r else v.role_of x y)

abbrev pub TypeSet : View → View → Uuid → Option ConversationType → Type 0
TypeSet v w c t = (x : Uuid) → w.type_of x ≡ (if x == c then t else v.type_of x)

abbrev pub Manages : View → Uuid → Uuid → Type 0
Manages v c u = (v.role_of c u ≡ some owner) ⊎ (v.role_of c u ≡ some admin)

-- A participant who is not the owner.
abbrev pub IsGuest : View → Uuid → Uuid → Type 0
IsGuest v c u = (v.role_of c u ≢ none) × (v.role_of c u ≢ some owner)

-- The owner may remove every guest, an admin plain members only.
abbrev pub MayRemove : View → Uuid → Uuid → Uuid → Type 0
MayRemove v c actor u =
    ((v.role_of c actor ≡ some owner) × IsGuest v c u)
    ⊎ ((v.role_of c actor ≡ some admin) × (v.role_of c u ≡ some member))

abbrev pub NoDirect : View → Uuid → Uuid → Type 0
NoDirect v a b =
    (c : Uuid) → v.type_of c ≡ some direct → (v.role_of c a ≡ none) ⊎ (v.role_of c b ≡ none)

pub data Step (actor : Uuid) (v w : View) : Type 0 where
  stay : SameTypes v w → ((x y : Uuid) → w.role_of x y ≡ v.role_of x y) → Step actor v w
  open_room :
      (c : Uuid)
      → v.type_of c ≡ none
      → TypeSet v w c (some room)
      → RoleSet v w c actor (some owner)
      → Step actor v w
  open_direct :
      (c u : Uuid)
      → actor ≢ u
      → v.type_of c ≡ none
      → NoDirect v actor u
      → TypeSet v w c (some direct)
      → ((x y : Uuid)
          → w.role_of x y
            ≡ (if x == c && (y == actor || y == u) then some member else v.role_of x y))
      → Step actor v w
  close_room :
      (c : Uuid)
      → v.type_of c ≡ some room
      → v.role_of c actor ≡ some owner
      → TypeSet v w c none
      → ((x y : Uuid) → w.role_of x y ≡ (if x == c then none else v.role_of x y))
      → Step actor v w
  join :
      (c u : Uuid)
      → actor ≢ u
      → v.type_of c ≡ some room
      → Manages v c actor
      → v.role_of c u ≡ none
      → SameTypes v w
      → RoleSet v w c u (some member)
      → Step actor v w
  appoint :
      (c u : Uuid) (r : ParticipantRole)
      → actor ≢ u
      → (r ≡ admin) ⊎ (r ≡ member)
      → v.role_of c actor ≡ some owner
      → IsGuest v c u
      → SameTypes v w
      → RoleSet v w c u (some r)
      → Step actor v w
  remove :
      (c u : Uuid)
      → actor ≢ u
      → v.type_of c ≡ some room
      → MayRemove v c actor u
      → SameTypes v w
      → RoleSet v w c u none
      → Step actor v w
  leave :
      (c : Uuid)
      → v.type_of c ≡ some room
      → IsGuest v c actor
      → SameTypes v w
      → RoleSet v w c actor none
      → Step actor v w
  transfer :
      (c u : Uuid)
      → actor ≢ u
      → v.type_of c ≡ some room
      → v.role_of c actor ≡ some owner
      → IsGuest v c u
      → SameTypes v w
      → ((x y : Uuid)
          → w.role_of x y ≡ (
              if x == c && y == u
              then some owner
              else if x == c && y == actor
              then some admin
              else v.role_of x y))
      → Step actor v w
