-- ===== src/Membership/Reads.antt =====
-- What the reads of the conversation repository have found when they succeed.
use real_time_chat_app.Base.{
  ◌≡◌, ◌≢◌, not, ◌&&◌, refl, ◌⊎◌, Bool, true, Option, none, some, find, arith,
}
use real_time_chat_app.Models.{
  Uuid, Conversation, ConversationParticipant, room, owner, is_room, is_owner, is_admin, is_member,
}
use real_time_chat_app.Store.{
  ParticipantRow, Db, Result, ok, err, Error, no_rows, unavailable, or_fail, attempt, Store, guard,
  ◌>>=◌, ◌>>◌,
}
use real_time_chat_app.Store.Effect.{
  Effect, Reads, Effect-bind, Reads-guard, Effect-weaken, Reads-query, Reads-attempt-query,
}
use real_time_chat_app.Store.Tables.{and_then-ok, find_conversation, find_row}
use real_time_chat_app.Repository.Conversations.{find_by_id, find_direct_between_users, joins}
use real_time_chat_app.Repository.Participants.{find_participant}
use real_time_chat_app.Service.Rooms.{may_manage}
use real_time_chat_app.Service.Members.{bad_pair}
use real_time_chat_app.Membership.{view, Manages, IsGuest, MayRemove}

or_fail-ok : {A : Type 0} (o : Option A) (e : Error) (a : A) → or_fail o e ≡ ok a → o ≡ some a
unfolding or_fail
or_fail-ok none e a h = cc
or_fail-ok (some x) e a h = ground arith

no_row :
    {A : Type 0} (o : Option A) (r : Result A)
    → (r ≡ or_fail o no_rows) ⊎ (r ≡ err unavailable)
    → r ≡ err no_rows
    → o ≡ none
unfolding or_fail
no_row none r h missing = refl
no_row (some x) r h missing = ground arith

-- The row that a participant was scanned from.
abbrev pub FoundRow : Db → Uuid → Uuid → ConversationParticipant → Type 0
FoundRow db c u p =
    (row : ParticipantRow) × (find_row c u db.participants ≡ some row) × (row.role ≡ p.role)

module _ (db : Db) where
  pub Reads-find_by_id :
      (c : Uuid)
      → Reads db (find_by_id c) (λ conversation. find_conversation c db ≡ some conversation)
  unfolding find_by_id
  Reads-find_by_id c =
      Effect-weaken db _ (λ a after h. (h.0, or_fail-ok (find_conversation c db) no_rows a h.1))
        (Reads-query db (λ d. or_fail (find_conversation c d) no_rows))

  pub Reads-find_participant : (c u : Uuid) → Reads db (find_participant c u) (FoundRow db c u)
  unfolding find_participant
  Reads-find_participant c u =
      Effect-weaken db _
        (λ a after h.
          let (row, found, scanned) =
            and_then-ok (or_fail (find_row c u db.participants) no_rows) _ a h.1 in
          (h.0, (row, or_fail-ok _ no_rows row found, ground arith)))
        (Reads-query db _)

  -- `ErrNoRows` from the look-up of a direct conversation: no conversation joins the two.
  pub Reads-find_direct :
      (u v : Uuid)
      → Reads db
          (attempt (find_direct_between_users u v))
          (λ r. r ≡ err no_rows → find (joins db.participants u v) db.conversations ≡ none)
  unfolding find_direct_between_users
  Reads-find_direct u v =
      Effect-weaken db _ (λ r after h. (h.0, λ missing. no_row _ r h.1 missing))
        (Reads-attempt-query db _)

-- The facts that the guards of a service leave.
module _ (db : Db) where
  pub room_of :
      (c : Uuid) (conversation : Conversation)
      → find_conversation c db ≡ some conversation
      → is_room conversation.type ≡ true
      → (view db).type_of c ≡ some room
  room_of c conversation found test = ground arith

  pub Manages-of :
      (c u : Uuid) (p : ConversationParticipant)
      → FoundRow db c u p
      → may_manage p.role ≡ true
      → Manages (view db) c u
  Manages-of c u p (row, found, same) test = ground arith

  pub owner_of :
      (c u : Uuid) (p : ConversationParticipant)
      → FoundRow db c u p
      → is_owner p.role ≡ true
      → (view db).role_of c u ≡ some owner
  owner_of c u p (row, found, same) test = ground arith

  pub IsGuest-of :
      (c u : Uuid) (p : ConversationParticipant)
      → FoundRow db c u p
      → not (is_owner p.role) ≡ true
      → IsGuest (view db) c u
  IsGuest-of c u p (row, found, same) test = ((λ h. ground arith), (λ h. ground arith))

  pub MayRemove-of :
      (c actor u : Uuid) (p q : ConversationParticipant)
      → FoundRow db c actor p
      → may_manage p.role ≡ true
      → FoundRow db c u q
      → not (is_owner q.role) ≡ true
      → not (is_admin p.role && not (is_member q.role)) ≡ true
      → MayRemove (view db) c actor u
  MayRemove-of c actor u p q (row, found, same) manages (row', found', same') guest rank =
      ground arith

pub apart_of : (u actor : Uuid) → not (bad_pair u actor) ≡ true → actor ≢ u
apart_of u actor test same = ground arith

-- A service's look at the conversation, and at a participant.
module _ {B : Type 0} {Q : B → Db → Type 0} (db : Db) (c : Uuid) where
  pub Effect-in_room :
      (e : Error) (n : Store B)
      → ((view db).type_of c ≡ some room → Effect db n Q)
      → Effect db (find_by_id c >>= λ conversation. guard (is_room conversation.type) e >> n) Q
  Effect-in_room e n h = Effect-bind db _ _ (Reads-find_by_id db c) λ conversation found.
      Effect-bind db _ _ (Reads-guard db _ e) λ _ test. h (room_of db c conversation found test)

  pub Effect-checked :
      (u : Uuid) (test : ConversationParticipant → Bool) (e : Error)
      (n : ConversationParticipant → Store B)
      → ((p : ConversationParticipant) → FoundRow db c u p → test p ≡ true → Effect db (n p) Q)
      → Effect db (find_participant c u >>= λ p. guard (test p) e >> n p) Q
  Effect-checked u test e n h =
      Effect-bind db _ _ (Reads-find_participant db c u)
        λ p found. Effect-bind db _ _ (Reads-guard db (test p) e) λ _ passed. h p found passed
