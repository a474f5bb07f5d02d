-- ===== src/Store/Online.antt =====
-- Actions while the database answers: with no outage in the schedule a statement runs.
use real_time_chat_app.Base.{◌≡◌, refl, sym, ◌∙◌, Bool, true, [], arith}
use real_time_chat_app.Store.{
  Db, Error, Result, Store, World, attempt, commit_to, err, guard, ok, pure, query, run_statement,
  statement, unchanged, ◌>>=◌,
}

module _ {A : Type 0} where
  statement-up :
      (q : Db → Result (A × Db)) (w : World)
      → w.outages ≡ []
      → ◌≡◌ {A = Result A × World}
          (statement q w)
          (commit_to (record { db = w.db; outages = [] }) (q w.db))
  unfolding statement run_statement
  statement-up q w up = rw up refl

  commit_to_ok :
      (r : Result (A × Db)) (a : A) (w after : World)
      → ◌≡◌ {A = Result A × World} (commit_to w r) (ok a, after)
      → (◌≡◌ {A = Result (A × Db)} r (ok (a, after.db))) × (after.outages ≡ w.outages)
  unfolding commit_to
  commit_to_ok (ok (b, db)) a w after e = (ground arith, ground arith)
  commit_to_ok (err x) a w after e = ground arith

  -- A statement that succeeded gave its result.
  pub statement_ok :
      (q : Db → Result (A × Db)) (a : A) (w after : World)
      → w.outages ≡ []
      → ◌≡◌ {A = Result A × World} (statement q w) (ok a, after)
      → (◌≡◌ {A = Result (A × Db)} (q w.db) (ok (a, after.db))) × (after.outages ≡ [])
  statement_ok q a w after up e =
      commit_to_ok (q w.db) a (record { db = w.db; outages = [] }) after
        (sym (statement-up q w up) ∙ e)

  pub statement_yields :
      (q : Db → Result (A × Db)) (a : A) (db : Db) (w : World)
      → w.outages ≡ []
      → ◌≡◌ {A = Result (A × Db)} (q w.db) (ok (a, db))
      → ◌≡◌ {A = Result A × World} (statement q w) (ok a, record { db = db; outages = [] })
  unfolding commit_to
  statement_yields q a db w up e = statement-up q w up ∙ rw e refl

  pub query_yields :
      (q : Db → Result A) (a : A) (w : World)
      → w.outages ≡ []
      → q w.db ≡ ok a
      → ◌≡◌ {A = Result A × World} (query q w) (ok a, w)
  unfolding query unchanged
  query_yields q a w up e =
      statement_yields (λ db. unchanged db (q db)) a w.db w up (rw e refl) ∙ rw up refl

  pub query_fails :
      (q : Db → Result A) (x : Error) (w : World)
      → w.outages ≡ []
      → q w.db ≡ err x
      → ◌≡◌ {A = Result A × World} (query q w) (err x, w)
  unfolding query unchanged commit_to
  query_fails q x w up e = statement-up (λ db. unchanged db (q db)) w up ∙ rw e rw up refl

module _ {A B : Type 0} where
  -- What follows an action that gave `a`.
  pub then_ok :
      (m : Store A) (f : A → Store B) (a : A) (w after : World)
      → ◌≡◌ {A = Result A × World} (m w) (ok a, after)
      → ◌≡◌ {A = Result B × World} ((m >>= f) w) (f a after)
  unfolding ◌>>=◌
  then_ok m f a w after e = rw e refl

  pub then_err :
      (m : Store A) (f : A → Store B) (x : Error) (w after : World)
      → ◌≡◌ {A = Result A × World} (m w) (err x, after)
      → ◌≡◌ {A = Result B × World} ((m >>= f) w) (err x, after)
  unfolding ◌>>=◌
  then_err m f x w after e = rw e refl

module _ {A : Type 0} where
  pub attempt_ok :
      (m : Store A) (a : A) (w after : World)
      → ◌≡◌ {A = Result A × World} (m w) (ok a, after)
      → ◌≡◌ {A = Result (Result A) × World} (attempt m w) (ok (ok a), after)
  unfolding attempt
  attempt_ok m a w after e = rw e refl

pub guard_passes :
    (b : Bool) (e : Error) (w : World)
    → b ≡ true
    → ◌≡◌ {A = Result (Unit {0}) × World} (guard b e w) (ok tt, w)
unfolding guard pure
guard_passes b e w passes = rw passes refl
