-- ===== src/Service/Users/Unique.antt =====
-- Names and addresses of accounts under `Register` of backend/internal/services/user_service.go.
use real_time_chat_app.Base.{
  ◌≡◌, refl, Bool, Option, some, none, List, [], ◌∷◌, ◌++◌, Text, text_eq, find, find-append_one,
  arith,
}
use real_time_chat_app.Models.{Uuid, User}
use real_time_chat_app.Store.{
  World, Db, Result, ok, err, unique_violation, pure, fail, attempt, ◌>>=◌,
}
use real_time_chat_app.Store.Effect.{Post, Effect-statement}
use real_time_chat_app.Repository.Users.{insert_user, create}
use real_time_chat_app.Service.Calls.{discard}
use real_time_chat_app.Service.Users.{account, registered, register_hashed, register}

abbrev pub bears : (User → Text) → Text → User → Bool
bears key value row = text_eq (key row) value

-- No two of the users have the same value of the key.
abbrev pub AllDiffer : (User → Text) → List User → Type 0
AllDiffer key [] = Unit {0}
AllDiffer key (x ∷ xs) = (find (bears key (key x)) xs ≡ none) × AllDiffer key xs

text_eq_comm : (s t : Text) → text_eq s t ≡ text_eq t s
unfolding text_eq
text_eq_comm [] [] = refl
text_eq_comm [] (b ∷ t) = refl
text_eq_comm (a ∷ s) [] = refl
text_eq_comm (a ∷ s) (b ∷ t) = ground (arith, text_eq_comm s t)

AllDiffer-append_one :
    (key : User → Text) (xs : List User) (y : User)
    → find (bears key (key y)) xs ≡ none
    → AllDiffer key xs
    → AllDiffer key (xs ++ y ∷ [])
unfolding find
AllDiffer-append_one key [] y absent d = (refl, tt)
AllDiffer-append_one key (x ∷ xs) y absent (first, d) = (
  ground (arith, find-append_one (bears key (key x)) xs y, text_eq_comm (key x) (key y)),
  AllDiffer-append_one key xs y (ground arith) d,
)

abbrev pub name_of : User → Text
name_of user = user.username

abbrev pub email_of : User → Text
email_of user = user.email

abbrev pub AreUnique : Db → Type 0
AreUnique db = AllDiffer name_of db.users × AllDiffer email_of db.users

pub insert_user-AreUnique :
    (given row : User) (db after : Db)
    → AreUnique db
    → insert_user given db ≡ ok (row, after)
    → AreUnique after
unfolding insert_user
insert_user-AreUnique given row db after (names, emails) e =
    let users : after.users ≡ db.users ++ row ∷ [] = ground arith in
    rw users (
      AllDiffer-append_one name_of db.users row (ground arith) names,
      AllDiffer-append_one email_of db.users row (ground arith) emails,
    )

registered-world : (r : Result User) (w : World) → discard (registered r w) ≡ w
unfolding registered pure fail
registered-world (ok user) w = refl
registered-world (err unique_violation) w = refl
registered-world (err e) w = refl

module _ (P : Db → Type 0) where
  kept_by_post :
      (db : Db) (r : Result User × World) → P db → Post db (λ _ after. P after) r → P (discard r).db
  kept_by_post db (ok user, w) holds post = post
  kept_by_post db (err e, w) holds same = rw same holds

  register_hashed-keeps :
      (to_lower : Text → Text) (new_id : Uuid) (username email : Text) (hashed : Option Text)
      (w : World)
      → P w.db
      → ((hash : Text) (row : User) (after : Db)
          → insert_user (account to_lower new_id username email hash) w.db ≡ ok (row, after)
          → P after)
      → P (discard (register_hashed to_lower new_id username email hashed w)).db
  unfolding register_hashed attempt ◌>>=◌ fail create
  register_hashed-keeps to_lower new_id username email none w holds adds = holds
  register_hashed-keeps to_lower new_id username email (some hash) w holds adds =
      let given = account to_lower new_id username email hash in
      let kept = (Effect-statement w.db (insert_user given) (adds hash)).at w refl in
      rw (registered-world (create given w).0 (create given w).1)
        (kept_by_post w.db (create given w) holds kept)

  -- A property of the database that adding the account keeps is kept by registering it.
  pub register-keeps :
      (to_lower : Text → Text) (hash : Text → Option Text) (new_id : Uuid)
      (username email password : Text) (w : World)
      → P w.db
      → ((hashed : Text) (row : User) (after : Db)
          → insert_user (account to_lower new_id username email hashed) w.db ≡ ok (row, after)
          → P after)
      → P (discard (register to_lower hash new_id username email password w)).db
  unfolding register
  register-keeps to_lower hash new_id username email password w holds adds =
      register_hashed-keeps to_lower new_id username email (hash password) w holds adds

-- Whatever is registered, whatever fails on the way: if no two accounts have the same name and no two
-- the same address, that is still so after `Register`.
pub register-AreUnique :
    (to_lower : Text → Text) (hash : Text → Option Text) (new_id : Uuid)
    (username email password : Text) (w : World)
    → AreUnique w.db
    → AreUnique (discard (register to_lower hash new_id username email password w)).db
register-AreUnique to_lower hash new_id username email password w unique =
    register-keeps AreUnique to_lower hash new_id username email password w unique
      λ hashed row after e.
        insert_user-AreUnique (account to_lower new_id username email hashed) row w.db after unique
          e
