-- ===== src/Store/Effect.antt =====
-- What an action does to the database, whatever the outages: one rule for each way to build it.
use real_time_chat_app.Base.{
  ◌≡◌, refl, sym, ap, ◌∙◌, subst, ◌⊎◌, inl, inr, Bool, true, false, List, [], ◌∷◌, arith,
}
use real_time_chat_app.Store.{
  World, Db, Error, unavailable, Result, ok, err, attempt, Store, pure, fail, statement, commit_to,
  run_statement, unchanged, continue, roll_back, query, ◌>>=◌, ◌>>◌, round_trip, transaction, guard,
}

module _ {A : Type 0} where
  -- A failure leaves the database as it was, a success satisfies `Q`.
  abbrev pub Post : Db → (A → Db → Type 0) → Result A × World → Type 0
  Post db Q (ok a, w) = Q a w.db
  Post db Q (err e, w) = w.db ≡ db

  abbrev OkPost : (A → Db → Type 0) → Result A × World → Type 0
  OkPost Q (ok a, w) = Q a w.db
  OkPost Q (err e, w) = Unit

  pub record Effect (db : Db) (m : Store A) (Q : A → Db → Type 0) : Type 0 where
    pub at : (w : World) → w.db ≡ db → Post db Q (m w)

  -- Inside a transaction a failure may come after a write.
  pub record Reaches (db : Db) (m : Store A) (Q : A → Db → Type 0) : Type 0 where
    pub at : (w : World) → w.db ≡ db → OkPost Q (m w)

module _ {A : Type 0} {Q : A → Db → Type 0} (db : Db) where
  pub Effect-pure : (a : A) → Q a db → Effect db (pure a) Q
  unfolding pure
  Effect-pure a q = record { at = λ w e. subst (Q a) (sym e) q }

  pub Effect-fail : (e : Error) → Effect db (fail e) Q
  unfolding fail
  Effect-fail e = record { at = λ w h. h }

  commit_to-Post :
      (q : Result (A × Db)) (w : World)
      → w.db ≡ db
      → ((a : A) (db' : Db) → q ≡ ok (a, db') → Q a db')
      → Post db Q (commit_to w q)
  unfolding commit_to
  commit_to-Post (ok (a, db')) w e h = h a db' refl
  commit_to-Post (err x) w e h = e

  run_statement-Post :
      (q : Db → Result (A × Db)) (before : Db) (outages : List Bool)
      → before ≡ db
      → ((a : A) (db' : Db) → q db ≡ ok (a, db') → Q a db')
      → Post db Q (run_statement q before outages)
  unfolding run_statement
  run_statement-Post q before [] e h = commit_to-Post (q before) _ e (rw e h)
  run_statement-Post q before (true ∷ later) e h = e
  run_statement-Post q before (false ∷ later) e h = commit_to-Post (q before) _ e (rw e h)

  pub Effect-statement :
      (q : Db → Result (A × Db))
      → ((a : A) (db' : Db) → q db ≡ ok (a, db') → Q a db')
      → Effect db (statement q) Q
  unfolding statement
  Effect-statement q h = record { at = λ w e. run_statement-Post q w.db w.outages e h }

module _ {A : Type 0} {Q R : A → Db → Type 0} (db : Db) where
  weaken-Post :
      (r : Result A × World)
      → ((a : A) (after : Db) → Q a after → R a after)
      → Post db Q r
      → Post db R r
  weaken-Post (ok a, w) h p = h a w.db p
  weaken-Post (err e, w) h p = p

  pub Effect-weaken :
      (m : Store A) → ((a : A) (after : Db) → Q a after → R a after) → Effect db m Q → Effect db m R
  Effect-weaken m h k = record { at = λ w e. weaken-Post (m w) h (k.at w e) }

unchanged-ok :
    {A : Type 0} (before : Db) (r : Result A) (a : A) (after : Db)
    → unchanged before r ≡ ok (a, after)
    → (after ≡ before) × (r ≡ ok a)
unfolding unchanged
unchanged-ok before (ok x) a after e = ground arith
unchanged-ok before (err x) a after e = cc

-- An action that reads, and on success has found `R`.
abbrev pub Reads : {A : Type 0} → Db → Store A → (A → Type 0) → Type 0
Reads db m R = Effect db m (λ a after. (after ≡ db) × R a)

module _ (db : Db) where
  pub Reads-query : {A : Type 0} (q : Db → Result A) → Reads db (query q) (λ a. q db ≡ ok a)
  unfolding query
  Reads-query q =
      Effect-statement db (λ before. unchanged before (q before))
        (λ a after. unchanged-ok db (q db) a after)

  pub Reads-guard : (b : Bool) (e : Error) → Reads db (guard b e) (λ _. b ≡ true)
  unfolding guard
  Reads-guard true e = Effect-pure db tt (refl, refl)
  Reads-guard false e = Effect-fail db e

  module _ {A B : Type 0} {R : A → Type 0} {Q : B → Db → Type 0} where
    continue-Post :
        (f : A → Store B) (r : Result A) (w : World)
        → Post db (λ a after. (after ≡ db) × R a) (r, w)
        → ((a : A) → R a → Effect db (f a) Q)
        → Post db Q (continue r f w)
    continue-Post f (ok a) w p h = (h a p.1).at w p.0
    continue-Post f (err e) w p h = p

    pub Effect-bind :
        (m : Store A) (f : A → Store B)
        → Reads db m R
        → ((a : A) → R a → Effect db (f a) Q)
        → Effect db (m >>= f) Q
    unfolding ◌>>=◌
    Effect-bind m f hm hf = record {
      at = λ w e. let (r, w') = m w in continue-Post f r w' (hm.at w e) hf;
    }

module _ {A B : Type 0} {R : A → Db → Type 0} {Q : B → Db → Type 0} where
  continue-OkPost :
      (f : A → Store B) (r : Result A) (w : World)
      → OkPost R (r, w)
      → ((a : A) (mid : Db) → R a mid → Reaches mid (f a) Q)
      → OkPost Q (continue r f w)
  continue-OkPost f (ok a) w p h = (h a w.db p).at w refl
  continue-OkPost f (err e) w p h = tt

  pub Reaches-bind :
      (db : Db) (m : Store A) (f : A → Store B)
      → Reaches db m R
      → ((a : A) (mid : Db) → R a mid → Reaches mid (f a) Q)
      → Reaches db (m >>= f) Q
  unfolding ◌>>=◌
  Reaches-bind db m f hm hf = record {
    at = λ w e. let (r, w') = m w in continue-OkPost f r w' (hm.at w e) hf;
  }

module _ {A : Type 0} (Q : A → Db → Type 0) (db : Db) where
  Post-OkPost : (r : Result A × World) → Post db Q r → OkPost Q r
  Post-OkPost (ok a, w) h = h
  Post-OkPost (err e, w) h = tt

  pub Reaches-of_Effect : (m : Store A) → Effect db m Q → Reaches db m Q
  Reaches-of_Effect m h = record { at = λ w e. Post-OkPost (m w) (h.at w e) }

  roll_back-Post : (r : Result A × World) → OkPost Q r → Post db Q (roll_back db r)
  unfolding roll_back
  roll_back-Post (ok a, w) h = h
  roll_back-Post (err e, w) h = refl

Reaches-round_trip : (db : Db) → Reaches db round_trip (λ _ after. (after ≡ db) × Unit {0})
unfolding round_trip
Reaches-round_trip db =
    Reaches-of_Effect _ db round_trip
      (Effect-weaken db round_trip (λ a after h. (h.0, tt)) (Reads-query db (λ _. ok tt)))

module _ {A : Type 0} {Q : A → Db → Type 0} where
  committed :
      (db : Db) (body : Store A)
      → Reaches db body Q
      → Reaches db (do round_trip; a ← body; round_trip; pure a) Q
  committed db body h = Reaches-bind db round_trip _ (Reaches-round_trip db) λ _ mid same.
      Reaches-bind mid body _ (subst (λ d. Reaches d body Q) (sym same.0) h) λ a late q.
        Reaches-bind late round_trip _ (Reaches-round_trip late) λ _ last still.
          Reaches-of_Effect Q last (pure a) (Effect-pure last a (subst (Q a) (sym still.0) q))

  -- A failed transaction has no effect, wherever it failed.
  pub Effect-transaction :
      (db : Db) (body : Store A) → Reaches db body Q → Effect db (transaction body) Q
  unfolding transaction
  Effect-transaction db body h = record {
    at = λ w e.
        subst (λ d. Post db Q (roll_back d ((do round_trip; a ← body; round_trip; pure a) w)))
          (sym e) (roll_back-Post Q db _ ((committed db body h).at w e));
  }

module _ {A : Type 0} (Q : A → Db → Type 0) (db : Db) where
  pub Reaches-statement :
      (q : Db → Result (A × Db))
      → ((a : A) (after : Db) → q db ≡ ok (a, after) → Q a after)
      → Reaches db (statement q) Q
  Reaches-statement q h = Reaches-of_Effect Q db (statement q) (Effect-statement db q h)

  pub Reaches-pure : (a : A) → Q a db → Reaches db (pure a) Q
  Reaches-pure a q = Reaches-of_Effect Q db (pure a) (Effect-pure db a q)

module _ {A : Type 0} (db : Db) where
  got_through :
      (before : Db) (r : Result A) (later : List Bool)
      → let (r', w) = commit_to (record { db = before; outages = later }) (unchanged before r) in
        (w.db ≡ before) × (r' ≡ r)
  unfolding unchanged commit_to
  got_through before (ok a) later = (refl, refl)
  got_through before (err x) later = (refl, refl)

  query-outcome :
      (q : Db → Result A) (before : Db) (outages : List Bool)
      → before ≡ db
      → let (r, w) = run_statement (λ d. unchanged d (q d)) before outages in
        (w.db ≡ db) × ((r ≡ q db) ⊎ (r ≡ err unavailable))
  unfolding run_statement
  query-outcome q before [] e =
      let (same, out) = got_through before (q before) [] in (same ∙ e, inl (out ∙ ap q e))
  query-outcome q before (true ∷ later) e = (e, inr refl)
  query-outcome q before (false ∷ later) e =
      let (same, out) = got_through before (q before) later in (same ∙ e, inl (out ∙ ap q e))

  pub Reads-attempt-query :
      (q : Db → Result A) → Reads db (attempt (query q)) (λ r. (r ≡ q db) ⊎ (r ≡ err unavailable))
  unfolding attempt query
  Reads-attempt-query q = record { at = λ w e. query-outcome q w.db w.outages e }
