-- ===== src/Membership/MessageServices.antt =====
-- The calls of backend/internal/services/message_service.go beside the conversations and roles.
use real_time_chat_app.Base.{◌≡◌, refl, ◌∙◌, arith, Text, find-update, Bool, true, is_some}
use real_time_chat_app.Models.{Uuid, Time, Message}
use real_time_chat_app.Store.{Db, Result, ok}
use real_time_chat_app.Store.Effect.{
  Effect, Reads, Effect-weaken, Effect-bind, Reads-guard, Reads-query, Effect-statement,
  Effect-transaction, Reaches-bind, Reaches-statement, Reaches-pure,
}
use real_time_chat_app.Store.Tables.{has_id, find_conversation, find_row}
use real_time_chat_app.Repository.Participants
use real_time_chat_app.Repository.Messages.{insert_message, touch_conversation, touched_at}
use real_time_chat_app.Repository.Messages as MessageTable
use real_time_chat_app.Repository.Pages
use real_time_chat_app.Repository.Pages.{set_content, without_message}
use real_time_chat_app.Service.Messages.{ensure_participant, create, update, delete}
use real_time_chat_app.Membership.{View, view, stay}
use real_time_chat_app.Membership.Writes.{Same}
use real_time_chat_app.Membership.Services.{Acts}

module _ (db after : Db) where
  insert_message-Same :
      (message made : Message)
      → insert_message message db ≡ ok (made, after)
      → Same (view db) (view after)
  unfolding insert_message find_conversation
  insert_message-Same message made e = ((λ x. ground arith), (λ x y. ground arith))

  touch_conversation-Same :
      (c : Uuid) (t : Time) (done : Unit {0})
      → touch_conversation c t db ≡ ok (done, after)
      → Same (view db) (view after)
  unfolding touch_conversation find_conversation
  touch_conversation-Same c t done e = (
    (λ x.
        ground
          (arith, find-update (has_id x) (has_id c) (touched_at t) db.conversations (λ row. refl))),
    (λ x y. ground arith),
  )

  set_content-Same :
      (m : Uuid) (content : Text) (row : Message)
      → set_content m content db ≡ ok (row, after)
      → Same (view db) (view after)
  unfolding set_content find_conversation
  set_content-Same m content row e = ((λ x. ground arith), (λ x y. ground arith))

  without_message-Same :
      (m : Uuid) (done : Unit {0})
      → ◌≡◌ {A = Result (Unit {0} × Db)} (ok (tt, without_message m db)) (ok (done, after))
      → Same (view db) (view after)
  unfolding without_message find_conversation
  without_message-Same m done e = ((λ x. ground arith), (λ x y. ground arith))

Same-trans : {u v w : View} → Same u v → Same v w → Same u w
Same-trans (types, roles) (types', roles') =
    ((λ x. types' x ∙ types x), (λ x y. roles' x y ∙ roles x y))

-- What `ensureParticipant` has found.
abbrev pub TakesPart : Db → Uuid → Uuid → Type 0
TakesPart db c u = is_some (find_row c u db.participants) ≡ true

takes_part :
    (db : Db) (c u : Uuid) (there : Bool)
    → ok (is_some (find_row c u db.participants)) ≡ ok there
    → there ≡ true
    → TakesPart db c u
takes_part db c u there e t = ground arith

module _ (db : Db) where
  pub Reads-ensure_participant :
      (c u : Uuid) → Reads db (ensure_participant c u) (λ _. TakesPart db c u)
  unfolding ensure_participant Participants.is_participant
  Reads-ensure_participant c u = Effect-bind db _ _ (Reads-query db _) λ there found.
      Effect-weaken db _ (λ _ after h. (h.0, takes_part db c u there found h.1))
        (Reads-guard db there _)

  insert_new-Same :
      (message : Message)
      → Effect db (MessageTable.create message) (λ _ after. Same (view db) (view after))
  unfolding MessageTable.create
  insert_new-Same message = Effect-transaction db _ (
      Reaches-bind db _ _
        (Reaches-statement (λ _ mid. Same (view db) (view mid)) db _
          (λ made mid. insert_message-Same db mid message made))
        λ made mid first.
          Reaches-bind mid _ _
            (Reaches-statement (λ _ after. Same (view db) (view after)) mid _
              (λ done after e. Same-trans first (touch_conversation-Same mid after _ _ done e)))
            λ done after same. Reaches-pure _ after made same)

  pub create-Acts :
      (new_id c actor : Uuid) (content : Text) → Acts actor db (create new_id c actor content)
  unfolding create
  create-Acts new_id c actor content = Effect-bind db _ _ (Reads-ensure_participant c actor) λ _ _.
      Effect-bind db _ _ (Reads-guard db _ _) λ _ _.
        Effect-bind db _ _ (Reads-guard db _ _)
          λ _ _. Effect-weaken db _ (λ _ after same. stay same.0 same.1) (insert_new-Same _)

  pub update-Acts : (c m actor : Uuid) (content : Text) → Acts actor db (update c m actor content)
  unfolding update Pages.find_by_id Pages.update_content
  update-Acts c m actor content = Effect-bind db _ _ (Reads-ensure_participant c actor) λ _ _.
      Effect-bind db _ _ (Reads-query db _) λ _ _. Effect-bind db _ _ (Reads-guard db _ _) λ _ _.
        Effect-bind db _ _ (Reads-guard db _ _) λ _ _.
          Effect-bind db _ _ (Reads-guard db _ _) λ _ _.
            Effect-bind db _ _ (Reads-guard db _ _) λ _ _. Effect-statement db _ λ row after e.
              let (types, roles) = set_content-Same db after m _ row e in stay types roles

  pub delete-Acts : (c m actor : Uuid) → Acts actor db (delete c m actor)
  unfolding delete Pages.find_by_id Pages.delete
  delete-Acts c m actor = Effect-bind db _ _ (Reads-ensure_participant c actor) λ _ _.
      Effect-bind db _ _ (Reads-query db _) λ _ _. Effect-bind db _ _ (Reads-guard db _ _) λ _ _.
        Effect-bind db _ _ (Reads-guard db _ _) λ _ _. Effect-statement db _ λ done after e.
          let (types, roles) = without_message-Same db after m done e in stay types roles
