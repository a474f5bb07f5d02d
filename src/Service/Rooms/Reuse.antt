-- ===== src/Service/Rooms/Reuse.antt =====
-- `CreateDirect` of backend/internal/services/conversation_service.go, called again for the same users.
use real_time_chat_app.Base.{
  ◌≡◌, refl, ◌∙◌, subst, ◌⊎◌, true, not, ◌||◌, Option, some, none, [], ◌==◌, arith, find,
}
use real_time_chat_app.Models.{Uuid, nil_id, Conversation}
use real_time_chat_app.Store.{World, Db, Result, ok, err, no_rows, unavailable, or_fail, pure}
use real_time_chat_app.Store.Effect.{
  Post, Effect, Effect-weaken, Effect-bind, Effect-pure, Effect-fail, Effect-transaction,
  Reads-guard, Reads-attempt-query, Reaches-bind, Reaches-statement, Reaches-pure,
}
use real_time_chat_app.Store.Online.{query_yields, then_ok, attempt_ok, guard_passes}
use real_time_chat_app.Repository.Conversations
use real_time_chat_app.Repository.Conversations.{joins, insert_pair}
use real_time_chat_app.Service.Rooms.{create_direct, reuse_or_create}
use real_time_chat_app.Service.Rooms.Lookup.{
  Finds, Finds-swapped, IsInserted, insert_conversation-IsInserted, insert_pair-Finds,
}

module _ (db : Db) where
  create_new-Finds :
      (conversation : Conversation) (u v : Uuid)
      → find (joins db.participants u v) db.conversations ≡ none
      → Effect db
          (Conversations.create_direct conversation u v)
          (λ made after. Finds after u v made)
  unfolding Conversations.create_direct
  create_new-Finds conversation u v missing = Effect-transaction db _ (
      Reaches-bind db _ _
        (Reaches-statement (λ made mid. IsInserted db mid conversation.id made) db _
          (λ made mid e. insert_conversation-IsInserted db mid conversation.id u made e))
        λ made mid new.
          Reaches-bind mid _ _
            (Reaches-statement (λ _ after. Finds after u v made) mid _
              (λ row after e.
                insert_pair-Finds db mid after conversation.id u v made row missing new e))
            λ row after finds. Reaches-pure _ after made finds)

  -- The look-up's outcome, which the service's result agrees with.
  Looked : Uuid → Uuid → Result Conversation → Type 0
  Looked u v r =
      (r ≡ or_fail (find (joins db.participants u v) db.conversations) no_rows)
      ⊎ (r ≡ err unavailable)

  looked_ok :
      (o : Option Conversation) (existing : Conversation)
      → (ok existing ≡ or_fail o no_rows) ⊎ (ok existing ≡ err unavailable)
      → o ≡ some existing
  unfolding or_fail
  looked_ok none existing h = ground arith
  looked_ok (some x) existing h = ground arith

  looked_none :
      (o : Option Conversation)
      → ◌⊎◌
          (◌≡◌ {A = Result Conversation} (err no_rows) (or_fail o no_rows))
          (◌≡◌ {A = Result Conversation} (err no_rows) (err unavailable))
      → o ≡ none
  unfolding or_fail
  looked_none none h = refl
  looked_none (some x) h = ground arith

  reuse_or_create-Finds :
      (n u v : Uuid) (r : Result Conversation)
      → Looked u v r
      → Effect db (reuse_or_create n u v r) (λ made after. Finds after u v made)
  unfolding reuse_or_create Looked
  reuse_or_create-Finds n u v (ok existing) h = Effect-pure db existing (looked_ok _ existing h)
  reuse_or_create-Finds n u v (err no_rows) h = create_new-Finds _ u v (looked_none _ h)
  reuse_or_create-Finds n u v (err e) h = Effect-fail db e

  -- Two different users that are not nil.
  abbrev AreTwo : Uuid → Uuid → Type 0
  AreTwo u v = not (u == nil_id || v == nil_id || u == v) ≡ true

  create_direct-Finds :
      (n u v : Uuid)
      → Effect db (create_direct n u v) (λ made after. AreTwo u v × Finds after u v made)
  unfolding create_direct Conversations.find_direct_between_users Looked
  create_direct-Finds n u v = Effect-bind db _ _ (Reads-guard db _ _) λ _ two.
      Effect-weaken db _ (λ made after finds. (two, finds))
        (Effect-bind db _ _ (Reads-attempt-query db _)
          λ r looked. reuse_or_create-Finds n u v r looked)

create_direct-found :
    (n u v : Uuid) (conversation : Conversation) (w : World)
    → w.outages ≡ []
    → not (u == nil_id || v == nil_id || u == v) ≡ true
    → Finds w.db u v conversation
    → create_direct n u v w ≡ (ok conversation, w)
unfolding create_direct Conversations.find_direct_between_users reuse_or_create pure or_fail
create_direct-found n u v conversation w up two finds =
    then_ok _ _ tt w w (guard_passes _ _ w two)
    ∙ then_ok _ _ (ok conversation) w w
        (attempt_ok _ conversation w w (query_yields _ conversation w up (rw finds refl)))

-- After a direct conversation was created or found, each of the two users who asks for one with the
-- other gets that same conversation, and nothing changes, while the database answers.
pub create_direct-reused :
    (n m u v : Uuid) (conversation : Conversation) (w after : World)
    → create_direct n u v w ≡ (ok conversation, after)
    → after.outages ≡ []
    → (create_direct m u v after ≡ (ok conversation, after))
      × (create_direct m v u after ≡ (ok conversation, after))
create_direct-reused n m u v conversation w after made up =
    let (two, finds) =
      subst (Post w.db (λ c db. AreTwo w.db u v × Finds db u v c)) made
        ((create_direct-Finds w.db n u v).at w refl) in
    (
      create_direct-found m u v conversation after up two finds,
      create_direct-found m v u conversation after up (ground arith)
          (Finds-swapped after.db u v conversation finds),
    )
