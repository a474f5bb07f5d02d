-- ===== src/Membership/Preserved.antt =====
-- The steps of Membership.antt and the invariant of Membership/Invariant.antt.
use real_time_chat_app.Base.{
  ◌≡◌, ◌≢◌, sym, ◌∙◌, ◌⊎◌, inl, inr, Option, none, some, ◌==◌, arith, Bool-cases,
}
use real_time_chat_app.Models.{Uuid, room, direct, ParticipantRole, member}
use real_time_chat_app.Membership.{
  View, SameTypes, RoleSet, NoDirect, Step, stay, open_room, open_direct, close_room, join, appoint,
  remove, leave, transfer,
}
use real_time_chat_app.Membership.Invariant.{
  IsConsistent, DirectsUnique, owner_in_room, Step-Local, IsRooted-Local, RoomsOwned-Local,
  DirectsJoin-Local,
}

-- The direct conversation that a step makes.
abbrev made_direct : {actor : Uuid} {v w : View} → Step actor v w → Option Uuid
made_direct (open_direct n b apart fresh none_yet types roles) = some n
made_direct _ = none

-- A direct conversation that was there before, with the same participants.
abbrev IsOld : View → View → Uuid → Type 0
IsOld v w c = (v.type_of c ≡ some direct) × ((u : Uuid) → w.role_of c u ≡ v.role_of c u)

module _ (actor : Uuid) (v w : View) (ok : IsConsistent v) where
  untouched :
      (n b : Uuid) (r : Option ParticipantRole)
      → v.type_of n ≡ some room
      → SameTypes v w
      → RoleSet v w n b r
      → (c : Uuid) → w.type_of c ≡ some direct
      → IsOld v w c
  untouched n b r is_room types roles c h =
      (ground (arith, types c), (λ u. ground (arith, types c, roles c u)))

  IsOld-or_made :
      (s : Step actor v w) (c : Uuid)
      → w.type_of c ≡ some direct
      → IsOld v w c ⊎ (made_direct s ≡ some c)
  IsOld-or_made (stay types roles) c h = inl (sym (types c) ∙ h, roles c)
  IsOld-or_made (open_room n fresh types roles) c h =
      inl (ground (arith, types c), (λ u. ground (arith, types c, roles c u)))
  IsOld-or_made (open_direct n b apart fresh none_yet types roles) c h =
      elim (Bool-cases (c == n)) [
        | inl here ↦ inr (ground arith)
        | inr away ↦ inl (ground (arith, types c), (λ u. ground (arith, roles c u)))
      ]
  IsOld-or_made (close_room n is_room owns types roles) c h =
      inl (ground (arith, types c), (λ u. ground (arith, types c, roles c u)))
  IsOld-or_made (join n b apart is_room manages absent types roles) c h =
      inl (untouched n b (some member) is_room types roles c h)
  IsOld-or_made (appoint n b r apart known owns guest types roles) c h =
      inl (untouched n b (some r) (owner_in_room v ok n actor owns) types roles c h)
  IsOld-or_made (remove n b apart is_room may types roles) c h =
      inl (untouched n b none is_room types roles c h)
  IsOld-or_made (leave n is_room guest types roles) c h =
      inl (untouched n actor none is_room types roles c h)
  IsOld-or_made (transfer n b apart is_room owns guest types roles) c h =
      inl (ground (arith, types c), (λ u. ground (arith, types c, roles c u)))

  -- Nobody else has a direct conversation with the partner yet.
  made_for :
      (s : Step actor v w) (c : Uuid)
      → made_direct s ≡ some c
      → (b : Uuid) × NoDirect v actor b
        × ((u : Uuid) → w.role_of c u ≢ none → (u ≡ actor) ⊎ (u ≡ b))
  made_for (open_direct n b apart fresh none_yet types roles) c e =
      (b, none_yet, (λ u there. ground (arith, roles c u, ok.rooted n u fresh)))
  made_for (stay types roles) c e = cc
  made_for _ c e = cc

  old_made_apart :
      (s : Step actor v w) (c d a b : Uuid)
      → IsOld v w c
      → made_direct s ≡ some d
      → a ≢ b
      → w.role_of c a ≢ none
      → w.role_of c b ≢ none
      → w.role_of d a ≢ none
      → w.role_of d b ≢ none
      → ⊥
  old_made_apart s c d a b (is_direct, roles) made apart ca cb da db =
      let (partner, none_yet, only) = made_for s d made in
      ground (arith, none_yet c is_direct, only a da, only b db, roles a, roles b)

  one_made :
      (s : Step actor v w) (c d a b : Uuid)
      → IsOld v w c ⊎ (made_direct s ≡ some c)
      → IsOld v w d ⊎ (made_direct s ≡ some d)
      → a ≢ b
      → w.role_of c a ≢ none
      → w.role_of c b ≢ none
      → w.role_of d a ≢ none
      → w.role_of d b ≢ none
      → c ≡ d
  one_made s c d a b (inl (hc, old)) (inl (hd, old')) apart ca cb da db =
      ok.unique c d a b hc hd apart (λ e. ca (old a ∙ e)) (λ e. cb (old b ∙ e))
        (λ e. da (old' a ∙ e)) (λ e. db (old' b ∙ e))
  one_made s c d a b (inl old) (inr made) apart ca cb da db =
      absurd (old_made_apart s c d a b old made apart ca cb da db)
  one_made s c d a b (inr made) (inl old) apart ca cb da db =
      absurd (old_made_apart s d c a b old made apart da db ca cb)
  one_made s c d a b (inr made) (inr made') apart ca cb da db = ground arith

  DirectsUnique-Step : Step actor v w → DirectsUnique w
  DirectsUnique-Step s c d a b hc hd apart ca cb da db =
      one_made s c d a b (IsOld-or_made s c hc) (IsOld-or_made s d hd) apart ca cb da db

-- Every step keeps the invariant.
pub Step-IsConsistent :
    (actor : Uuid) (v w : View) → IsConsistent v → Step actor v w → IsConsistent w
Step-IsConsistent actor v w ok s = record {
  rooted = λ c u. IsRooted-Local actor v w ok c u (Step-Local actor v w ok s c);
  rooms = λ c. RoomsOwned-Local actor v w ok c (Step-Local actor v w ok s c);
  directs = λ c. DirectsJoin-Local actor v w ok c (Step-Local actor v w ok s c);
  unique = DirectsUnique-Step actor v w ok s;
}
