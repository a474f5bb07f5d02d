-- ===== src/Repository/Users.antt =====
-- backend/internal/repositories/user_repository.go. `ilike` is PostgreSQL's operator `ILIKE`;
-- `collate` is the order of texts that `ORDER BY username` uses.
use real_time_chat_app.Base.{
  ℕ, Bool, ◌||◌, List, [], ◌∷◌, ◌++◌, if◌then◌else◌, Text, codes, text_eq, find, filter, is_some,
  sort, take,
}
use real_time_chat_app.Models.{Uuid, User}
use real_time_chat_app.Store.{
  Db, Store, Result, ok, err, no_rows, unique_violation, or_fail, statement, query,
}
use real_time_chat_app.Store.Tables.{find_user}

abbrev pub has_email : Text → User → Bool
has_email email row = text_eq row.email email

abbrev pub has_username : Text → User → Bool
has_username username row = text_eq row.username username

unfoldable pub insert_user : User → Db → Result (User × Db)
unfolding find_user
insert_user user db =
    if is_some (find_user user.id db)
    then err unique_violation
    else if is_some (find (has_username user.username) db.users)
    then err unique_violation
    else if is_some (find (has_email user.email) db.users)
    then err unique_violation
    else ok (row, record db { users = db.users ++ row ∷ [] })
  where
    row : User
    row = record user { created_at = db.now; updated_at = db.now }

unfoldable pub create : User → Store User
create user = statement (insert_user user)

unfoldable pub find_by_id : Uuid → Store User
find_by_id u = query λ db. or_fail (find_user u db) no_rows

unfoldable pub find_by_email : Text → Store User
find_by_email email = query λ db. or_fail (find (has_email email) db.users) no_rows

abbrev pub is_hit : (Text → Text → Bool) → Text → User → Bool
is_hit ilike pattern row = ilike row.username pattern || ilike row.email pattern

abbrev pub by_username : (Text → Text → Bool) → User → User → Bool
by_username collate a b = collate a.username b.username

unfoldable pub search : (Text → Text → Bool) → (Text → Text → Bool) → Text → ℕ → Store (List User)
search ilike collate text limit = query λ db. ok (
    take limit (
      sort (by_username collate)
        (filter (is_hit ilike (codes "%" ++ (text ++ codes "%"))) db.users)))
