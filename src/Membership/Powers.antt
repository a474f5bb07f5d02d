-- ===== src/Membership/Powers.antt =====
-- What the callers of each rank can bring about by a call.
use real_time_chat_app.Base.{◌≡◌, ◌≢◌, ◌∙◌, none, some, arith}
use real_time_chat_app.Models.{Uuid, owner, admin}
use real_time_chat_app.Store.{World}
use real_time_chat_app.Service.Calls.{Call, perform}
use real_time_chat_app.Membership.{
  View, view, Step, stay, open_room, open_direct, close_room, join, appoint, remove, leave,
  transfer,
}
use real_time_chat_app.Membership.Invariant.{IsConsistent, sole_owner}
use real_time_chat_app.Membership.Reachable.{perform-Step}

module _ (actor : Uuid) (v w : View) where
  owner_stays :
      (c o : Uuid)
      → IsConsistent v
      → actor ≢ o
      → v.role_of c o ≡ some owner
      → Step actor v w
      → w.role_of c o ≡ some owner
  owner_stays c o valid apart owns (stay types roles) = roles c o ∙ owns
  owner_stays c o valid apart owns (open_room n fresh types roles) =
      ground (arith, roles c o, valid.rooted n o fresh)
  owner_stays c o valid apart owns (open_direct n b other fresh none_yet types roles) =
      ground (arith, roles c o, valid.rooted n o fresh)
  owner_stays c o valid apart owns (close_room n is_room mine types roles) =
      ground (arith, roles c o, sole_owner actor v w valid n o actor)
  owner_stays c o valid apart owns (join n b other is_room manages absent types roles) =
      ground (arith, roles c o)
  owner_stays c o valid apart owns (appoint n b r other known mine guest types roles) =
      ground (arith, roles c o)
  owner_stays c o valid apart owns (remove n b other is_room may types roles) =
      ground (arith, roles c o)
  owner_stays c o valid apart owns (leave n is_room guest types roles) = ground (arith, roles c o)
  owner_stays c o valid apart owns (transfer n b other is_room mine guest types roles) =
      ground (arith, roles c o, sole_owner actor v w valid n o actor)

  -- What stays the same for everybody but the caller, unless the caller manages the conversation.
  others_stay :
      (c u : Uuid)
      → v.type_of c ≢ none
      → v.role_of c actor ≢ some owner
      → v.role_of c actor ≢ some admin
      → u ≢ actor
      → Step actor v w
      → (w.type_of c ≡ v.type_of c) × (w.role_of c u ≡ v.role_of c u)
  others_stay c u there no_owner no_admin apart (stay types roles) = (types c, roles c u)
  others_stay c u there no_owner no_admin apart (open_room n fresh types roles) =
      ground (arith, types c, roles c u)
  others_stay c u there no_owner no_admin apart (open_direct n b other fresh none_yet types roles) =
      ground (arith, types c, roles c u)
  others_stay c u there no_owner no_admin apart (close_room n is_room mine types roles) =
      ground (arith, types c, roles c u)
  others_stay c u there no_owner no_admin apart
        (join n b other is_room manages absent types roles) =
      ground (arith, types c, roles c u)
  others_stay c u there no_owner no_admin apart (appoint n b r other known mine guest types roles) =
      ground (arith, types c, roles c u)
  others_stay c u there no_owner no_admin apart (remove n b other is_room may types roles) =
      ground (arith, types c, roles c u)
  others_stay c u there no_owner no_admin apart (leave n is_room guest types roles) =
      ground (arith, types c, roles c u)
  others_stay c u there no_owner no_admin apart
        (transfer n b other is_room mine guest types roles) =
      ground (arith, types c, roles c u)

  outsider_stays_out :
      (c : Uuid)
      → v.type_of c ≢ none
      → v.role_of c actor ≡ none
      → Step actor v w
      → w.role_of c actor ≡ none
  outsider_stays_out c there out (stay types roles) = roles c actor ∙ out
  outsider_stays_out c there out (open_room n fresh types roles) = ground (arith, roles c actor)
  outsider_stays_out c there out (open_direct n b other fresh none_yet types roles) =
      ground (arith, roles c actor)
  outsider_stays_out c there out (close_room n is_room mine types roles) =
      ground (arith, roles c actor)
  outsider_stays_out c there out (join n b other is_room manages absent types roles) =
      ground (arith, roles c actor)
  outsider_stays_out c there out (appoint n b r other known mine guest types roles) =
      ground (arith, roles c actor)
  outsider_stays_out c there out (remove n b other is_room may types roles) =
      ground (arith, roles c actor)
  outsider_stays_out c there out (leave n is_room guest types roles) = ground (arith, roles c actor)
  outsider_stays_out c there out (transfer n b other is_room mine guest types roles) =
      ground (arith, roles c actor)

-- In a consistent state, who owns a conversation still owns it after any call by somebody else.
pub owner_is_safe :
    (actor : Uuid) (call : Call) (w : World) (c o : Uuid)
    → IsConsistent (view w.db)
    → actor ≢ o
    → (view w.db).role_of c o ≡ some owner
    → (view (perform actor call w).db).role_of c o ≡ some owner
owner_is_safe actor call w c o valid apart owns =
    owner_stays actor _ _ c o valid apart owns (perform-Step actor call w)

-- A call by a user who is neither owner nor admin of an existing conversation leaves it there, with
-- its type, and leaves everybody else's role in it alone.
pub member_changes_no_other :
    (actor : Uuid) (call : Call) (w : World) (c u : Uuid)
    → (view w.db).type_of c ≢ none
    → (view w.db).role_of c actor ≢ some owner
    → (view w.db).role_of c actor ≢ some admin
    → u ≢ actor
    → let after = perform actor call w in
      ((view after.db).type_of c ≡ (view w.db).type_of c)
      × ((view after.db).role_of c u ≡ (view w.db).role_of c u)
member_changes_no_other actor call w c u there no_owner no_admin apart =
    others_stay actor _ _ c u there no_owner no_admin apart (perform-Step actor call w)

-- A user who takes no part in an existing conversation takes none after any call of their own.
pub outsider_cannot_enter :
    (actor : Uuid) (call : Call) (w : World) (c : Uuid)
    → (view w.db).type_of c ≢ none
    → (view w.db).role_of c actor ≡ none
    → (view (perform actor call w).db).role_of c actor ≡ none
outsider_cannot_enter actor call w c there out =
    outsider_stays_out actor _ _ c there out (perform-Step actor call w)
