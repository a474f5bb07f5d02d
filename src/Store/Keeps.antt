-- ===== src/Store/Keeps.antt =====
-- What no run of an action changes, whether it succeeds or fails: one rule for each way to build it.
use real_time_chat_app.Base.{◌≡◌, refl, ◌∙◌, Bool, true, false, List, [], ◌∷◌, arith}
use real_time_chat_app.Store.{
  World, Db, Error, Result, ok, err, attempt, Store, pure, fail, statement, commit_to,
  run_statement, unchanged, continue, roll_back, query, ◌>>=◌, ◌>>◌, round_trip, transaction, guard,
}

pub record Keeps {X A : Type 0} (f : Db → X) (m : Store A) : Type 0 where
  pub at : (w : World) → f (m w).1.db ≡ f w.db

module _ {X A : Type 0} (f : Db → X) where
  pub Keeps-pure : (a : A) → Keeps f (pure a)
  unfolding pure
  Keeps-pure a = record { at = λ w. refl }

  commit_to_keeps :
      (r : Result (A × Db)) (w : World)
      → ((a : A) (after : Db) → ◌≡◌ {A = Result (A × Db)} r (ok (a, after)) → f after ≡ f w.db)
      → f (commit_to w r).1.db ≡ f w.db
  unfolding commit_to
  commit_to_keeps (ok (a, db)) w h = h a db refl
  commit_to_keeps (err e) w h = refl

  run_statement_keeps :
      (q : Db → Result (A × Db)) (db : Db) (outages : List Bool)
      → ((a : A) (after : Db) → ◌≡◌ {A = Result (A × Db)} (q db) (ok (a, after)) → f after ≡ f db)
      → f (run_statement q db outages).1.db ≡ f db
  unfolding run_statement
  run_statement_keeps q db [] h = commit_to_keeps (q db) (record { db = db; outages = [] }) h
  run_statement_keeps q db (true ∷ later) h = refl
  run_statement_keeps q db (false ∷ later) h =
      commit_to_keeps (q db) (record { db = db; outages = later }) h

  pub Keeps-statement :
      (q : Db → Result (A × Db))
      → ((db : Db) (a : A) (after : Db)
          → ◌≡◌ {A = Result (A × Db)} (q db) (ok (a, after))
          → f after ≡ f db)
      → Keeps f (statement q)
  unfolding statement
  Keeps-statement q h = record { at = λ w. run_statement_keeps q w.db w.outages (h w.db) }

  unchanged_keeps :
      (r : Result A) (db : Db) (a : A) (after : Db)
      → ◌≡◌ {A = Result (A × Db)} (unchanged db r) (ok (a, after))
      → f after ≡ f db
  unfolding unchanged
  unchanged_keeps (ok x) db a after e = ground arith
  unchanged_keeps (err x) db a after e = cc

  pub Keeps-query : (q : Db → Result A) → Keeps f (query q)
  unfolding query
  Keeps-query q =
      Keeps-statement (λ db. unchanged db (q db))
        (λ db a after e. unchanged_keeps (q db) db a after e)

  pub Keeps-attempt : (m : Store A) → Keeps f m → Keeps f (attempt m)
  unfolding attempt
  Keeps-attempt m h = record { at = λ w. h.at w }

module _ {X A : Type 0} (f : Db → X) where
  pub Keeps-fail : (e : Error) → Keeps f (fail {A = A} e)
  unfolding fail
  Keeps-fail e = record { at = λ w. refl }

module _ {X : Type 0} (f : Db → X) where
  pub Keeps-guard : (b : Bool) (e : Error) → Keeps f (guard b e)
  unfolding guard
  Keeps-guard true e = Keeps-pure f tt
  Keeps-guard false e = Keeps-fail f e

  Keeps-round_trip : Keeps f round_trip
  unfolding round_trip
  Keeps-round_trip = Keeps-query f (λ _. ok tt)

module _ {X A B : Type 0} (f : Db → X) where
  continue-Keeps :
      (r : Result A) (k : A → Store B) (w : World)
      → ((a : A) → Keeps f (k a))
      → f (continue r k w).1.db ≡ f w.db
  continue-Keeps (ok a) k w h = (h a).at w
  continue-Keeps (err e) k w h = refl

  pub Keeps-bind :
      (m : Store A) (k : A → Store B) → Keeps f m → ((a : A) → Keeps f (k a)) → Keeps f (m >>= k)
  unfolding ◌>>=◌
  Keeps-bind m k hm hk = record {
    at = λ w. let (r, w') = m w in continue-Keeps r k w' hk ∙ hm.at w;
  }

module _ {X A : Type 0} (f : Db → X) where
  roll_back_keeps :
      (db : Db) (r : Result A × World) → f r.1.db ≡ f db → f (roll_back db r).1.db ≡ f db
  unfolding roll_back
  roll_back_keeps db (ok a, w) h = h
  roll_back_keeps db (err e, w) h = refl

  pub Keeps-transaction : (body : Store A) → Keeps f body → Keeps f (transaction body)
  unfolding transaction
  Keeps-transaction body h =
      let inner : Keeps f (do round_trip; a ← body; round_trip; pure a) =
        Keeps-bind f round_trip _ (Keeps-round_trip f) λ _.
          Keeps-bind f body _ h
            λ a. Keeps-bind f round_trip _ (Keeps-round_trip f) λ _. Keeps-pure f a in
      record { at = λ w. roll_back_keeps w.db _ (inner.at w) }
