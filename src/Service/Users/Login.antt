-- ===== src/Service/Users/Login.antt =====
-- Registering and then logging in, in backend/internal/services/user_service.go.
use real_time_chat_app.Base.{
  ◌≡◌, refl, sym, ◌∙◌, Bool, true, Option, some, [], Text, text_eq, text_eq_iff, find,
  find-append_one, arith,
}
use real_time_chat_app.Models.{Uuid, User}
use real_time_chat_app.Store.{
  World, Db, Result, ok, err, unique_violation, pure, fail, or_fail, guard, ◌>>=◌, attempt,
}
use real_time_chat_app.Store.Online.{statement_ok, query_yields}
use real_time_chat_app.Repository.Users.{has_email, insert_user, create, find_by_email}
use real_time_chat_app.Service.Users.{
  account, normalize_email, registered, register_hashed, register, login, login_found, signed,
}

text_eq_refl : (s : Text) → text_eq s s ≡ true
text_eq_refl s = (text_eq_iff s s).1 refl

-- A row just inserted is what a search for its address finds.
record IsAdded (given user : User) (db : Db) : Type 0 where
  found : find (has_email given.email) db.users ≡ some user
  hashed : user.password_hash ≡ given.password_hash

insert_user-IsAdded :
    (given user : User) (db after : Db)
    → insert_user given db ≡ ok (user, after)
    → IsAdded given user after
unfolding insert_user
insert_user-IsAdded given user db after made = record {
  found =
      ground
        (arith, text_eq_refl given.email, find-append_one (has_email given.email) db.users user);
  hashed = ground arith;
}

create-IsAdded :
    (given user : User) (w after : World)
    → w.outages ≡ []
    → create given w ≡ (ok user, after)
    → IsAdded given user after.db × (after.outages ≡ [])
unfolding create
create-IsAdded given user w after up made =
    let (out, left) = statement_ok (insert_user given) user w after up made in
    (insert_user-IsAdded given user w.db after.db out, left)

registered_ok :
    (r : Result User) (user : User) (w after : World)
    → ◌≡◌ {A = Result User × World} (registered r w) (ok user, after)
    → ◌≡◌ {A = Result User × World} (r, w) (ok user, after)
unfolding registered pure fail
registered_ok (ok u) user w after e = e
registered_ok (err unique_violation) user w after e = cc
registered_ok (err x) user w after e = cc

find_by_email-found :
    (email : Text) (user : User) (w : World)
    → w.outages ≡ []
    → find (has_email email) w.db.users ≡ some user
    → find_by_email email w ≡ (ok user, w)
unfolding find_by_email or_fail
find_by_email-found email user w up found = query_yields _ user w up (rw found refl)

login_found_ok :
    (check : Text → Text → Bool) (sign : User → Option Text) (password token : Text) (user : User)
    (w : World)
    → check password user.password_hash ≡ true
    → sign user ≡ some token
    → (login_found check sign password (ok user) w).0 ≡ ok (record { user = user; token = token })
unfolding login_found guard signed pure ◌>>=◌
login_found_ok check sign password token user w right sign_eq = rw (right, sign_eq) refl

-- Who has registered can log in with the same password and any spelling of the address with the same
-- normal form, and gets the account just made and its token, while the database answers, bcrypt
-- accepts the hash that it made of the password, and the token can be signed.
pub register-login :
    (to_lower : Text → Text) (hash : Text → Option Text) (check : Text → Text → Bool)
    (sign : User → Option Text) (new_id : Uuid) (username email typed password hashed token : Text)
    (user : User) (w after : World)
    → hash password ≡ some hashed
    → check password hashed ≡ true
    → sign user ≡ some token
    → normalize_email to_lower typed ≡ normalize_email to_lower email
    → w.outages ≡ []
    → register to_lower hash new_id username email password w ≡ (ok user, after)
    → (login to_lower check sign typed password after).0
      ≡ ok (record { user = user; token = token })
unfolding register register_hashed login attempt ◌>>=◌
register-login to_lower hash check sign new_id username email typed password hashed token user w
      after hash_eq check_eq sign_eq same up made =
    let given = account to_lower new_id username email hashed in
    let (added, up') =
      create-IsAdded given user w after up
        (registered_ok _ user _ after (sym (rw hash_eq refl) ∙ made)) in
    let found =
      find_by_email-found (normalize_email to_lower typed) user after up' (rw same added.found) in
    rw found
      (login_found_ok check sign password token user after (rw added.hashed check_eq) sign_eq)
