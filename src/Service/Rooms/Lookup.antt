-- ===== src/Service/Rooms/Lookup.antt =====
-- The look-up of a direct conversation in backend/internal/repositories/conversation_repository.go,
-- before and after the rows of a new one.
use real_time_chat_app.Base.{
  ◌≡◌, refl, ap, ◌∙◌, subst, Bool, true, false, ◌&&◌, ◌||◌, some, none, List, [], ◌∷◌, ◌++◌, ◌==◌,
  arith, find, find-append_one, is_some,
}
use real_time_chat_app.Models.{Uuid, direct, member, Conversation}
use real_time_chat_app.Store.{ParticipantRow, Db, ok}
use real_time_chat_app.Store.Tables.{
  find_row, at_key, find_conversation, has_id, insert_conversation, insert_participant, and_then-ok,
}
use real_time_chat_app.Repository.Conversations.{joins, insert_pair}

-- What the look-up of a direct conversation of two users finds.
abbrev pub Finds : Db → Uuid → Uuid → Conversation → Type 0
Finds db u v conversation = find (joins db.participants u v) db.conversations ≡ some conversation

find-agree :
    (p q r : Conversation → Bool) (xs : List Conversation)
    → find r xs ≡ none
    → ((x : Conversation) → r x ≡ false → p x ≡ q x)
    → find p xs ≡ find q xs
unfolding find
find-agree p q r [] absent same = refl
find-agree p q r (x ∷ xs) absent same = ground (arith, same x, find-agree p q r xs)

find-ext :
    (p q : Conversation → Bool) (xs : List Conversation)
    → ((x : Conversation) → p x ≡ q x)
    → find p xs ≡ find q xs
unfolding find
find-ext p q [] same = refl
find-ext p q (x ∷ xs) same = ground (arith, same x, find-ext p q xs same)

pub Finds-swapped : (db : Db) (u v : Uuid) (c : Conversation) → Finds db u v c → Finds db v u c
Finds-swapped db u v c found =
    find-ext (joins db.participants v u) (joins db.participants u v) db.conversations
      (λ x. ground arith)
    ∙ found

pub record IsInserted (db mid : Db) (n : Uuid) (made : Conversation) : Type 0 where
  fresh : find_conversation n db ≡ none
  list : mid.conversations ≡ db.conversations ++ made ∷ []
  rows : mid.participants ≡ db.participants
  id : made.id ≡ n
  type : made.type ≡ direct

pub insert_conversation-IsInserted :
    (db mid : Db) (n u : Uuid) (made : Conversation)
    → insert_conversation n direct none u db ≡ ok (made, mid)
    → IsInserted db mid n made
unfolding insert_conversation
insert_conversation-IsInserted db mid n u made e = record {
  fresh = ground arith;
  list = ground arith;
  rows = ground arith;
  id = ground arith;
  type = ground arith;
}

record IsEnrolled (mid after : Db) (c u : Uuid) : Type 0 where
  list : after.conversations ≡ mid.conversations
  row : ParticipantRow
  key : at_key c u row ≡ true
  rows : after.participants ≡ mid.participants ++ row ∷ []

insert_participant-IsEnrolled :
    (mid after : Db) (c u : Uuid) (row : ParticipantRow)
    → insert_participant c u member mid ≡ ok (row, after)
    → IsEnrolled mid after c u
unfolding insert_participant
insert_participant-IsEnrolled mid after c u row e = record {
  list = ground arith;
  row = row;
  key = ground arith;
  rows = ground arith;
}

-- Who takes part after one more row.
is_some-append :
    (rows : List ParticipantRow) (row : ParticipantRow) (c u x y : Uuid)
    → at_key c u row ≡ true
    → is_some (find_row x y (rows ++ row ∷ []))
      ≡ (is_some (find_row x y rows) || (x == c && y == u))
unfolding find_row
is_some-append rows row c u x y key = ground (arith, find-append_one (at_key x y) rows row)

module _ (db mid second after : Db) (n u v : Uuid) (made : Conversation)
    (new : IsInserted db mid n made) (first : IsEnrolled mid second n u)
    (next : IsEnrolled second after n v) where
  takes_part :
      (x y : Uuid)
      → is_some (find_row x y after.participants)
        ≡ (is_some (find_row x y db.participants) || (x == n && y == u) || (x == n && y == v))
  takes_part x y = ground (
    arith,
    ap (λ (rows : List ParticipantRow). is_some (find_row x y rows)) next.rows,
    ap (λ (rows : List ParticipantRow). is_some (find_row x y (rows ++ next.row ∷ []))) first.rows,
    ap (λ (rows : List ParticipantRow). is_some (find_row x y rows)) first.rows,
    ap (λ (rows : List ParticipantRow). is_some (find_row x y rows)) new.rows,
    is_some-append second.participants next.row n v x y next.key,
    is_some-append mid.participants first.row n u x y first.key,
  )

  conversations_after : after.conversations ≡ db.conversations ++ made ∷ []
  conversations_after = next.list ∙ first.list ∙ new.list

  enrolled-Finds : find (joins db.participants u v) db.conversations ≡ none → Finds after u v made
  unfolding find_conversation
  enrolled-Finds missing =
      let old : find (joins after.participants u v) db.conversations ≡ none =
        find-agree (joins after.participants u v) (joins db.participants u v) (has_id n)
          db.conversations new.fresh
          (λ x away. ground (arith, takes_part x.id u, takes_part x.id v))
        ∙ missing in
      let joined : joins after.participants u v made ≡ true =
        ground (arith, takes_part made.id u, takes_part made.id v, new.id, new.type) in
      ap (λ (cs : List Conversation). find (joins after.participants u v) cs) conversations_after
      ∙ find-append_one (joins after.participants u v) db.conversations made
      ∙ rw (old, joined) refl

pub insert_pair-Finds :
    (db mid after : Db) (n u v : Uuid) (made : Conversation) (row : ParticipantRow)
    → find (joins db.participants u v) db.conversations ≡ none
    → IsInserted db mid n made
    → insert_pair made.id u v mid ≡ ok (row, after)
    → Finds after u v made
unfolding insert_pair
insert_pair-Finds db mid after n u v made row missing new e =
    let ((r, second), one, two) = and_then-ok (insert_participant made.id u member mid) _ _ e in
    enrolled-Finds db mid second after n u v made new
      (subst (λ c. IsEnrolled mid second c u) new.id
        (insert_participant-IsEnrolled mid second made.id u r one))
      (subst (λ c. IsEnrolled second after c v) new.id
        (insert_participant-IsEnrolled second after made.id v row two))
      missing
