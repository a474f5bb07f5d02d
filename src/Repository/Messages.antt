-- ===== src/Repository/Messages.antt =====
-- backend/internal/repositories/message_repository.go: the statements behind `Create` and
-- `ListForConversation`, and the pieces of `reverseMessages`.
use real_time_chat_app.Base.{
  ℕ, zero, suc, Bool, true, not, ◌&&◌, Option, none, some, List, [], ◌∷◌, ◌++◌, ◌==◌, ltb, leb,
  if◌then◌else◌, filter, update, is_some, sort, take,
}
use real_time_chat_app.Models.{Uuid, Time, Conversation, Message}
use real_time_chat_app.Store.{
  Db, Store, Result, ok, err, unique_violation, foreign_key_violation, pure, statement, transaction,
  ◌>>=◌, ◌>>◌,
}
use real_time_chat_app.Store.Tables.{has_id, find_conversation, find_message, find_user}

-- `repositories.DefaultMessageLimit`
abbrev pub default_message_limit : ℕ
default_message_limit = 50

abbrev pub sender_exists : Option Uuid → Db → Bool
sender_exists none db = true
sender_exists (some u) db = is_some (find_user u db)

unfoldable pub insert_message : Message → Db → Result (Message × Db)
unfolding find_message find_conversation find_user
insert_message message db =
    if is_some (find_message message.id db)
    then err unique_violation
    else if not (is_some (find_conversation message.conversation_id db))
    then err foreign_key_violation
    else if not (sender_exists message.sender_id db)
    then err foreign_key_violation
    else ok (row, record db { messages = db.messages ++ row ∷ [] })
  where
    row : Message
    row = record message { created_at = db.now; updated_at = db.now }

abbrev pub touched_at : Time → Conversation → Conversation
touched_at t c = record c { updated_at = t }

unfoldable pub touch_conversation : Uuid → Time → Db → Result (Unit {0} × Db)
touch_conversation c t db =
    ok (tt, record db { conversations = update (has_id c) (touched_at t) db.conversations })

unfoldable pub create : Message → Store Message
create message = transaction do
  created ← statement (insert_message message)
  statement (touch_conversation created.conversation_id created.created_at)
  pure created

abbrev pub is_before : Option Time → Time → Bool
is_before none t = true
is_before (some before) t = ltb t before

abbrev pub in_page : Uuid → Option Time → Message → Bool
in_page c before m = m.conversation_id == c && is_before before m.created_at

-- `ORDER BY created_at DESC`
abbrev pub newer_first : Message → Message → Bool
newer_first a b = leb b.created_at a.created_at

unfoldable pub select_page : Uuid → Option Time → ℕ → Db → List Message
select_page c before limit db =
    take limit (sort newer_first (filter (in_page c before) db.messages))

-- `messages[i]`, which is always within bounds here; otherwise the given value.
unfoldable pub get_or {ℓ} : {A : Type ℓ} → List A → ℕ → A → A
get_or [] i d = d
get_or (x ∷ xs) zero d = x
get_or (x ∷ xs) (suc i) d = get_or xs i d

unfoldable pub set {ℓ} : {A : Type ℓ} → List A → ℕ → A → List A
set [] i v = []
set (x ∷ xs) zero v = v ∷ xs
set (x ∷ xs) (suc i) v = x ∷ set xs i v

-- `messages[left], messages[right] = messages[right], messages[left]`
unfoldable pub swap {ℓ} : {A : Type ℓ} → List A → ℕ → ℕ → List A
swap [] left right = []
swap (x ∷ xs) left right =
    set (set (x ∷ xs) left (get_or (x ∷ xs) right x)) right (get_or (x ∷ xs) left x)
