-- ===== src/Repository/Pages.antt =====
-- backend/internal/repositories/message_repository.go: `reverseMessages`, its loop on fuel, and the
-- methods that read and change messages. `right` starts at -1 on no messages, here at 0: the loop
-- ends at once either way.
use real_time_chat_app.Base.{
  ℕ, zero, suc, ◌+◌, ◌-◌, not, Option, List, ◌==◌, ltb, if◌then◌else◌, Text, filter, update, length,
}
use real_time_chat_app.Models.{Uuid, Time, Message}
use real_time_chat_app.Store.{Db, Store, Result, ok, no_rows, or_fail, statement, query}
use real_time_chat_app.Store.Tables.{and_then, is_message, find_message}
use real_time_chat_app.Repository.Messages.{default_message_limit, select_page, swap}

unfoldable pub reverse_loop {ℓ} : {A : Type ℓ} → ℕ → List A → ℕ → ℕ → List A
reverse_loop zero xs left right = xs
reverse_loop (suc fuel) xs left right =
    let rest = reverse_loop fuel (swap xs left right) (left + 1) (right - 1) in
    if ltb left right then rest else xs

unfoldable pub reverse_messages {ℓ} : {A : Type ℓ} → List A → List A
unfolding reverse_loop
reverse_messages messages = reverse_loop (length messages) messages 0 (length messages - 1)

-- The repository's own default; the service never passes 0.
abbrev pub page_limit : ℕ → ℕ
page_limit limit = if limit == 0 then default_message_limit else limit

unfoldable pub list_for_conversation : Uuid → Option Time → ℕ → Store (List Message)
list_for_conversation c before limit =
    query λ db. ok (reverse_messages (select_page c before (page_limit limit) db))

unfoldable pub find_by_id : Uuid → Store Message
find_by_id m = query λ db. or_fail (find_message m db) no_rows

abbrev pub edited : Text → Time → Message → Message
edited content now m = record m { content = content; updated_at = now }

unfoldable pub set_content : Uuid → Text → Db → Result (Message × Db)
set_content m content db = and_then (or_fail (find_message m db) no_rows) λ row. ok (
  edited content db.now row,
  record db { messages = update (is_message m) (edited content db.now) db.messages },
)

unfoldable pub update_content : Uuid → Text → Store Message
update_content m content = statement (set_content m content)

unfoldable pub without_message : Uuid → Db → Db
without_message m db = record db { messages = filter (λ row. not (is_message m row)) db.messages }

unfoldable pub delete : Uuid → Store (Unit {0})
delete m = statement λ db. ok (tt, without_message m db)
