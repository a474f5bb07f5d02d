-- ===== src/Service/Rooms/Reading.antt =====
-- `MarkRead` of backend/internal/services/conversation_service.go, and the unread counts of the lists.
use mathlib.Core.Logic.Or
use mathlib.Core.Bool.{Bool-set}
use mathlib.Core.List.{
  Mem, Mem-prop, mem-cast, mem-cons_self, mem-cons_of_mem, eq-or-mem_of_mem-cons, not-mem-nil,
}
use mathlib.Core.List.Perm
use real_time_chat_app.Base.Sorting.{sort-Perm}
use real_time_chat_app.Base.{
  Bool, Option, none, is_some, sym, sort, filter_map, ℕ, ◌≤◌, ◌≡◌, refl, ap, ◌∙◌, true, some, List,
  [], ◌∷◌, arith, find-true, find-update, filter, update,
}
use real_time_chat_app.Models.{
  Uuid, Time, Conversation, ConversationListItem, ConversationParticipant, Message,
}
use real_time_chat_app.Store.{ParticipantRow, World, Db, ok, or_fail, guard, pure}
use real_time_chat_app.Store.Online.{query_yields, statement_yields, then_ok}
use real_time_chat_app.Store.Tables.{find_row, at_key}
use real_time_chat_app.Repository.Conversations.{scan_participant}
use real_time_chat_app.Repository.Participants
use real_time_chat_app.Repository.Participants.{set_read, read_at}
use real_time_chat_app.Repository.Listing.{unread, list_item, updated_after}
use real_time_chat_app.Repository.Listing
use real_time_chat_app.Service.Rooms.{mark_read, list_for_user}

-- No message of the table is from the future.
abbrev pub AllBy : Time → List Message → Type 0
AllBy now [] = Unit {0}
AllBy now (m ∷ ms) = (m.created_at ≤ now) × AllBy now ms

unread-none :
    (c u : Uuid) (now : Time) (messages : List Message)
    → AllBy now messages
    → unread c u (some now) messages ≡ 0
unfolding unread filter
unread-none c u now [] past = refl
unread-none c u now (m ∷ ms) (first, past) = ground (arith, unread-none c u now ms past)

module _ (c u : Uuid) (row : ParticipantRow) (db : Db) where
  abbrev read_rows : List ParticipantRow
  read_rows = update (at_key c u) (read_at db.now) db.participants

  find_row-read_rows :
      find_row c u db.participants ≡ some row → find_row c u read_rows ≡ some (read_at db.now row)
  unfolding find_row
  find_row-read_rows found = ground (
    arith,
    find-true (at_key c u) db.participants row,
    find-update (at_key c u) (at_key c u) (read_at db.now) db.participants (λ x. refl),
  )

  set_read-ok :
      find_row c u db.participants ≡ some row
      → set_read c u db
        ≡ ok (scan_participant (read_at db.now row), record db { participants = read_rows })
  unfolding set_read or_fail
  set_read-ok found = rw found refl

list_item-some :
    (u : Uuid) (conversation : Conversation) (row : ParticipantRow) (db : Db) (n : ℕ)
    → find_row conversation.id u db.participants ≡ some row
    → unread conversation.id u row.last_read_at db.messages ≡ n
    → list_item u db conversation ≡ some (record { conversation = conversation; unread_count = n })
list_item-some u conversation row db n found count = ground (arith, found, count)

module _ {A B : Type 0} (f : A → Option B) where
  abbrev put_some : Option B → List B → List B
  put_some o rest = elim o [ none ↦ rest | some y ↦ y ∷ rest ]

  put_some-Mem : (o : Option B) (y : B) (rest : List B) → o ≡ some y → Mem y (put_some o rest)
  put_some-Mem none y rest e = cc
  put_some-Mem (some x) y rest e =
      mem-cast {a = y} {b = x} (let same : y ≡ x = cc in same) mem-cons_self

  put_some-keeps : (o : Option B) (y : B) (rest : List B) → Mem y rest → Mem y (put_some o rest)
  put_some-keeps none y rest m = m
  put_some-keeps (some x) y rest m = mem-cons_of_mem x m

  filter_map-Mem : (x : A) (y : B) (xs : List A) → f x ≡ some y → Mem x xs → Mem y (filter_map f xs)
  unfolding filter_map
  filter_map-Mem x y [] e m = absurd (not-mem-nil m)
  filter_map-Mem x y (a ∷ xs) e m =
      Or.elim Mem-prop (eq-or-mem_of_mem-cons m)
        (λ same. put_some-Mem (f a) y (filter_map f xs) (ap f (sym same) ∙ e))
        (λ later. put_some-keeps (f a) y (filter_map f xs) (filter_map-Mem x y xs e later))

  -- A test that every result passes holds of what is listed.
  module _ (p : B → Bool) (h : (x : A) (y : B) → f x ≡ some y → p y ≡ true) where
    put_some-holds :
        (a : A) (o : Option B) (y : B) (rest : List B)
        → f a ≡ o
        → (Mem y rest → p y ≡ true)
        → Mem y (put_some o rest)
        → p y ≡ true
    put_some-holds a none y rest e later m = later m
    put_some-holds a (some x) y rest e later m =
        Or.elim (Bool-set (p y) true) (eq-or-mem_of_mem-cons m) (λ same. ap p same ∙ h a x e) later

    filter_map-holds : (y : B) (xs : List A) → Mem y (filter_map f xs) → p y ≡ true
    unfolding filter_map
    filter_map-holds y [] m = absurd (not-mem-nil m)
    filter_map-holds y (a ∷ xs) m =
        put_some-holds a (f a) y (filter_map f xs) refl (filter_map-holds y xs) m

-- Whether the user takes part in the conversation of an item.
abbrev pub is_own : Uuid → Db → ConversationListItem → Bool
is_own u db item = is_some (find_row item.conversation.id u db.participants)

list_item-own :
    (u : Uuid) (db : Db) (conversation : Conversation) (item : ConversationListItem)
    → list_item u db conversation ≡ some item
    → is_own u db item ≡ true
list_item-own u db conversation item e = ground arith

pub record OnlyOwn (u : Uuid) (db : Db) (items : List ConversationListItem) : Type 0 where
  pub own : (item : ConversationListItem) → Mem item items → is_own u db item ≡ true

-- The list shows the conversations of the user, and those only.
record Shows (u : Uuid) (db : Db) (items : List ConversationListItem) : Type 0 where
  shown :
      (conversation : Conversation) (item : ConversationListItem)
      → Mem conversation db.conversations
      → list_item u db conversation ≡ some item
      → Mem item items
  only : OnlyOwn u db items

sorted-Shows :
    (u : Uuid) (db : Db)
    → Shows u db (sort updated_after (filter_map (list_item u db) db.conversations))
sorted-Shows u db =
    let same = sort-Perm updated_after (filter_map (list_item u db) db.conversations) in
    record {
      shown = λ conversation item there e.
          (Perm.mem_iff same).1
            (filter_map-Mem (list_item u db) conversation item db.conversations e there);
      only = record {
        own = λ item m.
            filter_map-holds (list_item u db) (is_own u db) (list_item-own u db) item
              db.conversations ((Perm.mem_iff same).0 m);
      };
    }

list_for_user-Shows :
    (u : Uuid) (w : World)
    → w.outages ≡ []
    → (items : List ConversationListItem) × (list_for_user u w ≡ (ok items, w)) × Shows u w.db items
unfolding list_for_user Listing.list_for_user
list_for_user-Shows u w up = (_, query_yields _ _ w up refl, sorted-Shows u w.db)

-- While the database answers, a participant who marks a conversation of the table as read succeeds, and
-- asking for their list then succeeds: it shows the conversation with no unread messages, if no message
-- is from the future, and only conversations in which they take part.
pub mark_read-list_for_user :
    (u : Uuid) (conversation : Conversation) (row : ParticipantRow) (w : World)
    → w.outages ≡ []
    → Mem conversation w.db.conversations
    → find_row conversation.id u w.db.participants ≡ some row
    → AllBy w.db.now w.db.messages
    → (participant : ConversationParticipant) × (after : World) × (items : List
        ConversationListItem)
      × (mark_read conversation.id u w ≡ (ok participant, after))
      × (list_for_user u after ≡ (ok items, after))
      × Mem (record { conversation = conversation; unread_count = 0 }) items
      × OnlyOwn u after.db items
unfolding mark_read Participants.is_participant Participants.mark_read guard pure
mark_read-list_for_user u conversation row w up there found past =
    let c = conversation.id in
    let after : World = record {
      db = record w.db { participants = read_rows c u row w.db };
      outages = [];
    } in
    let (items, listed, shows) = list_for_user-Shows u after refl in
    (
      _,
      after,
      items,
      then_ok _ _ true w w (query_yields _ true w up (ap ok (rw found refl)))
          ∙ then_ok _ _ tt w w refl
          ∙ statement_yields _ _ _ w up (set_read-ok c u row w.db found),
      listed,
      shows.shown conversation _ there (
          list_item-some u conversation (read_at w.db.now row) after.db 0
            (find_row-read_rows c u row w.db found) (unread-none c u w.db.now w.db.messages past)),
      shows.only,
    )
