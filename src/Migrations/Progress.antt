-- ===== src/Migrations/Progress.antt =====
-- Progress over the scripts of backend/internal/migrations/runner.go of which some are recorded.
use real_time_chat_app.Base.{
  true, Option, List, [], ◌∷◌, ◌++◌, Text, ◌≡◌, refl, arith, sym, ◌∙◌, ap, text_eq_iff,
}
use real_time_chat_app.Strings.{contains}
use real_time_chat_app.Migrations.{Outcome, done, failed, Server}
use real_time_chat_app.Migrations.Paths.{Directory, base}
use real_time_chat_app.Migrations.Replay.{View, view, migrate_one, replay, progress}
use real_time_chat_app.Migrations.Runs.{Stopped}

contains-append :
    (n m : Text) (names : List Text) → contains n names ≡ true → contains n (names ++ m ∷ []) ≡ true
unfolding contains
contains-append n m [] h = cc
contains-append n m (x ∷ names) h = ground (arith, contains-append n m names)

contains-append_self : (n : Text) (names : List Text) → contains n (names ++ n ∷ []) ≡ true
unfolding contains
contains-append_self n [] = rw ((text_eq_iff n n).1 refl) refl
contains-append_self n (x ∷ names) = ground (arith, contains-append_self n names)

abbrev pub AllSeen : List Text → List Text → Type 0
AllSeen [] names = Unit
AllSeen (file ∷ files) names = (contains (base file) names ≡ true) × AllSeen files names

module _ {Schema : Type 0} (exec : Text → Schema → Option Schema) (d : Directory) where
  migrate_one-keeps :
      (n file : Text) (v v' : View Schema)
      → migrate_one exec d file v ≡ done v'
      → contains n v.1 ≡ true
      → contains n v'.1 ≡ true
  unfolding migrate_one
  migrate_one-keeps n file v v' e h = ground (arith, contains-append n (base file) v.1)

  migrate_one-records :
      (file : Text) (v v' : View Schema)
      → migrate_one exec d file v ≡ done v'
      → contains (base file) v'.1 ≡ true
  unfolding migrate_one
  migrate_one-records file v v' e = ground (arith, contains-append_self (base file) v.1)

  migrate_one-seen :
      (file : Text) (v : View Schema)
      → contains (base file) v.1 ≡ true
      → migrate_one exec d file v ≡ done v
  unfolding migrate_one
  migrate_one-seen file v h = rw h refl

  first_of :
      (files : List Text) (v' : View Schema) (o : Outcome (View Schema))
      → ◌≡◌ {A = Outcome (View Schema)}
          (elim o [ failed e ↦ failed e | done mid ↦ replay exec d files mid ])
          (done v')
      → (mid : View Schema) × (o ≡ done mid) × (replay exec d files mid ≡ done v')
  first_of files v' (done mid) e = (mid, refl, e)
  first_of files v' (failed x) e = cc

  replay_first :
      (file : Text) (files : List Text) (v v' : View Schema)
      → replay exec d (file ∷ files) v ≡ done v'
      → (mid : View Schema) × (migrate_one exec d file v ≡ done mid)
        × (replay exec d files mid ≡ done v')
  unfolding replay
  replay_first file files v v' e = first_of files v' (migrate_one exec d file v) e

  replay-keeps :
      (n : Text) (files : List Text) (v v' : View Schema)
      → replay exec d files v ≡ done v'
      → contains n v.1 ≡ true
      → contains n v'.1 ≡ true
  replay-keeps n [] v v' e h = unfold replay in ground arith
  replay-keeps n (file ∷ files) v v' e h =
      let (mid, one, rest) = replay_first file files v v' e in
      replay-keeps n files mid v' rest (migrate_one-keeps n file v mid one h)

  pub replay-AllSeen :
      (files : List Text) (v v' : View Schema)
      → replay exec d files v ≡ done v'
      → AllSeen files v'.1
  replay-AllSeen [] v v' e = tt
  replay-AllSeen (file ∷ files) v v' e =
      let (mid, one, rest) = replay_first file files v v' e in
      (
        replay-keeps (base file) files mid v' rest (migrate_one-records file v mid one),
        replay-AllSeen files mid v' rest,
      )

  progress-append :
      (files rest : List Text) (v v' : View Schema)
      → replay exec d files v ≡ done v'
      → progress exec d (files ++ rest) v ≡ progress exec d rest v'
  unfolding progress
  progress-append [] rest v v' e = ap (progress exec d rest) (unfold replay in ground arith)
  progress-append (file ∷ files) rest v v' e =
      let (mid, one, more) = replay_first file files v v' e in
      rw (one, progress) (progress-append files rest mid v' more)

  pub progress-seen :
      (files rest : List Text) (v : View Schema)
      → AllSeen files v.1
      → progress exec d (files ++ rest) v ≡ progress exec d rest v
  unfolding progress
  progress-seen [] rest v h = refl
  progress-seen (file ∷ files) rest v (seen, h) =
      rw (migrate_one-seen file v seen, progress) (progress-seen files rest v h)

  -- What was done before an interruption makes no difference to the progress of a later run.
  pub progress-Stopped :
      (files : List Text) (v : View Schema) (r : Outcome (Unit {0}) × Server Schema)
      → Stopped exec d files v r
      → progress exec d files (view r.1.tables) ≡ progress exec d files v
  progress-Stopped files v r h =
      let reached = view r.1.tables in
      rw h.splits (
        progress-seen h.finished h.left reached (replay-AllSeen h.finished v reached h.replayed)
        ∙ sym (progress-append h.finished h.left v reached h.replayed))
