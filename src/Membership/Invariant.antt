-- ===== src/Membership/Invariant.antt =====
-- What the states of the conversations are to satisfy, and what a step does to one conversation.
use real_time_chat_app.Base.{
  ◌≡◌, ◌≢◌, sym, ◌∙◌, ◌⊎◌, inl, inr, Option, none, some, ◌==◌, if◌then◌else◌, arith, Bool-cases,
  Option-cases,
}
use real_time_chat_app.Models.{Uuid, room, direct, ParticipantRole, owner, member}
use real_time_chat_app.Membership.{
  View, SameTypes, RoleSet, Step, stay, open_room, open_direct, close_room, join, appoint, remove,
  leave, transfer,
}

-- Nobody takes part in a conversation that is not there.
abbrev pub IsRooted : View → Type 0
IsRooted v = (c u : Uuid) → v.type_of c ≡ none → v.role_of c u ≡ none

-- `o` owns the room, and nobody else does.
abbrev pub OwnedBy : View → Uuid → Uuid → Type 0
OwnedBy v c o = (v.role_of c o ≡ some owner) × ((u : Uuid) → v.role_of c u ≡ some owner → u ≡ o)

abbrev pub RoomsOwned : View → Type 0
RoomsOwned v = (c : Uuid) → v.type_of c ≡ some room → (o : Uuid) × OwnedBy v c o

-- A direct conversation joins two different users, both plain members, and nobody else.
abbrev pub Joins : View → Uuid → Uuid → Uuid → Type 0
Joins v c a b =
    (a ≢ b)
    × (v.role_of c a ≡ some member)
    × (v.role_of c b ≡ some member)
    × ((u : Uuid) → v.role_of c u ≢ none → (u ≡ a) ⊎ (u ≡ b))

abbrev pub DirectsJoin : View → Type 0
DirectsJoin v = (c : Uuid) → v.type_of c ≡ some direct → (a : Uuid) × (b : Uuid) × Joins v c a b

-- No two direct conversations join the same users.
abbrev pub DirectsUnique : View → Type 0
DirectsUnique v =
    (c d a b : Uuid)
    → v.type_of c ≡ some direct
    → v.type_of d ≡ some direct
    → a ≢ b
    → v.role_of c a ≢ none
    → v.role_of c b ≢ none
    → v.role_of d a ≢ none
    → v.role_of d b ≢ none
    → c ≡ d

pub record IsConsistent (v : View) : Type 0 where
  pub rooted : IsRooted v
  pub rooms : RoomsOwned v
  pub directs : DirectsJoin v
  pub unique : DirectsUnique v

-- What a step does to one conversation.
pub data Local (actor : Uuid) (v w : View) (c : Uuid) : Type 0 where
  same :
      w.type_of c ≡ v.type_of c → ((u : Uuid) → w.role_of c u ≡ v.role_of c u) → Local actor v w c
  opened_room :
      w.type_of c ≡ some room
      → w.role_of c actor ≡ some owner
      → ((u : Uuid) → w.role_of c u ≢ none → u ≡ actor)
      → Local actor v w c
  opened_direct : (b : Uuid) → w.type_of c ≡ some direct → Joins w c actor b → Local actor v w c
  closed : w.type_of c ≡ none → ((u : Uuid) → w.role_of c u ≡ none) → Local actor v w c
  -- A guest comes, goes or changes rank.
  changed :
      (b : Uuid) (r : Option ParticipantRole)
      → v.type_of c ≡ some room
      → w.type_of c ≡ some room
      → v.role_of c b ≢ some owner
      → r ≢ some owner
      → ((u : Uuid) → w.role_of c u ≡ (if u == b then r else v.role_of c u))
      → Local actor v w c
  transferred :
      (b : Uuid)
      → w.type_of c ≡ some room
      → v.role_of c actor ≡ some owner
      → w.role_of c b ≡ some owner
      → ((u : Uuid)
          → w.role_of c u ≡ some owner
          → (u ≡ b) ⊎ ((u ≢ actor) × (v.role_of c u ≡ some owner)))
      → Local actor v w c

-- The owner of anything is the owner of a room: a direct conversation has plain members only.
pub owner_in_room :
    (v : View)
    → IsConsistent v
    → (c u : Uuid) → v.role_of c u ≡ some owner
    → v.type_of c ≡ some room
owner_in_room v ok c u owns = elim (Option-cases (v.type_of c)) [
  | inl absent ↦ ground (arith, ok.rooted c u absent)
  | inr (room, e) ↦ e
  | inr (direct, e) ↦
      let (a, b, (apart, first, second, only)) = ok.directs c e in ground (arith, only u)
]

module _ (actor : Uuid) (v w : View) (ok : IsConsistent v) where
  guest_change :
      (n b : Uuid) (r : Option ParticipantRole)
      → v.type_of n ≡ some room
      → v.role_of n b ≢ some owner
      → r ≢ some owner
      → SameTypes v w
      → RoleSet v w n b r
      → (c : Uuid) → Local actor v w c
  guest_change n b r is_room before after types roles c = elim (Bool-cases (c == n)) [
    | inl here ↦
        changed b r (ground arith) (ground (arith, types c)) (λ e. before (ground arith)) after
          (λ u. ground (arith, roles c u))
    | inr away ↦ same (types c) (λ u. ground (arith, roles c u))
  ]

  pub Step-Local : Step actor v w → (c : Uuid) → Local actor v w c
  Step-Local (stay types roles) c = same (types c) (roles c)
  Step-Local (open_room n fresh types roles) c = elim (Bool-cases (c == n)) [
    | inl here ↦
        opened_room (ground (arith, types c)) (ground (arith, roles c actor))
          (λ u there. ground (arith, roles c u, ok.rooted n u fresh))
    | inr away ↦ same (ground (arith, types c)) (λ u. ground (arith, roles c u))
  ]
  Step-Local (open_direct n b apart fresh none_yet types roles) c = elim (Bool-cases (c == n)) [
    | inl here ↦ opened_direct b (ground (arith, types c)) (
      apart,
      ground (arith, roles c actor),
      ground (arith, roles c b),
      (λ u there. ground (arith, roles c u, ok.rooted n u fresh)),
    )
    | inr away ↦ same (ground (arith, types c)) (λ u. ground (arith, roles c u))
  ]
  Step-Local (close_room n is_room owns types roles) c = elim (Bool-cases (c == n)) [
    | inl here ↦ closed (ground (arith, types c)) (λ u. ground (arith, roles c u))
    | inr away ↦ same (ground (arith, types c)) (λ u. ground (arith, roles c u))
  ]
  Step-Local (join n b apart is_room manages absent types roles) c =
      guest_change n b (some member) is_room (λ e. cc) (λ e. cc) types roles c
  Step-Local (appoint n b r apart known owns guest types roles) c =
      guest_change n b (some r) (owner_in_room v ok n actor owns) guest.1 (λ e. ground arith) types
        roles c
  Step-Local (remove n b apart is_room may types roles) c =
      guest_change n b none is_room (λ e. ground arith) (λ e. cc) types roles c
  Step-Local (leave n is_room guest types roles) c =
      guest_change n actor none is_room guest.1 (λ e. cc) types roles c
  Step-Local (transfer n b apart is_room owns guest types roles) c = elim (Bool-cases (c == n)) [
    | inl here ↦
        transferred b (ground (arith, types c)) (ground arith) (ground (arith, roles c b))
          (λ u e. ground (arith, roles c u))
    | inr away ↦ same (ground (arith, types c)) (λ u. ground (arith, roles c u))
  ]

  pub IsRooted-Local : (c u : Uuid) → Local actor v w c → w.type_of c ≡ none → w.role_of c u ≡ none
  IsRooted-Local c u (same types roles) h = ground (arith, roles u, ok.rooted c u)
  IsRooted-Local c u (opened_room is_room owns only) h = cc
  IsRooted-Local c u (opened_direct b is_direct joins) h = cc
  IsRooted-Local c u (closed gone left) h = left u
  IsRooted-Local c u (changed b r was is_room before after roles) h = cc
  IsRooted-Local c u (transferred b is_room owned owns only) h = cc

  pub sole_owner : (c u a : Uuid) → v.role_of c u ≡ some owner → v.role_of c a ≡ some owner → u ≡ a
  sole_owner c u a e e' =
      let (o, (owns, only)) = ok.rooms c (owner_in_room v ok c u e) in only u e ∙ sym (only a e')

  OwnedBy-change :
      (c o b : Uuid) (r : Option ParticipantRole)
      → OwnedBy v c o
      → v.role_of c b ≢ some owner
      → r ≢ some owner
      → ((u : Uuid) → w.role_of c u ≡ (if u == b then r else v.role_of c u))
      → OwnedBy w c o
  OwnedBy-change c o b r (owns, only) before after roles =
      (ground (arith, roles o), (λ u e. ground (arith, roles u, only u)))

  pub RoomsOwned-Local :
      (c : Uuid) → Local actor v w c → w.type_of c ≡ some room → (o : Uuid) × OwnedBy w c o
  RoomsOwned-Local c (same types roles) h =
      let (o, (owns, only)) = ok.rooms c (sym types ∙ h) in
      (o, (roles o ∙ owns, (λ u e. only u (sym (roles u) ∙ e))))
  RoomsOwned-Local c (opened_room is_room owns only) h =
      (actor, (owns, (λ u e. only u (λ none_there. cc))))
  RoomsOwned-Local c (opened_direct b is_direct joins) h = cc
  RoomsOwned-Local c (closed gone left) h = cc
  RoomsOwned-Local c (changed b r was is_room before after roles) h =
      let (o, owned) = ok.rooms c was in (o, OwnedBy-change c o b r owned before after roles)
  RoomsOwned-Local c (transferred b is_room owned owns only) h =
      (b, (owns, (λ u e. ground (arith, only u e, sole_owner c u actor))))

  pub DirectsJoin-Local :
      (c : Uuid)
      → Local actor v w c
      → w.type_of c ≡ some direct
      → (a : Uuid) × (b : Uuid) × Joins w c a b
  DirectsJoin-Local c (same types roles) h =
      let (a, b, (apart, first, second, only)) = ok.directs c (sym types ∙ h) in
      (
        a,
        b,
        (apart, roles a ∙ first, roles b ∙ second, (λ u there. only u (λ e. there (roles u ∙ e)))),
      )
  DirectsJoin-Local c (opened_room is_room owns only) h = cc
  DirectsJoin-Local c (opened_direct b is_direct joins) h = (actor, b, joins)
  DirectsJoin-Local c (closed gone left) h = cc
  DirectsJoin-Local c (changed b r was is_room before after roles) h = cc
  DirectsJoin-Local c (transferred b is_room owned owns only) h = cc
