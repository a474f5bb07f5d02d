-- ===== src/Presence/Sessions.antt =====
-- Presence against the connections that are open.
use real_time_chat_app.Base.{
  ℕ, suc, ◌-◌, ◌<◌, ◌≡◌, ap, refl, Bool, some, List, [], ◌∷◌, map, ◌==◌, ltb, if◌then◌else◌, arith,
}
use mathlib.Core.Path.{fun_ext}
use real_time_chat_app.Models.{Uuid}
use real_time_chat_app.Presence.{Presence, connect, disconnect, statuses}

-- The users of the open connections, one entry for each connection.
abbrev pub open_for : Uuid → List Uuid → ℕ
open_for u [] = 0
open_for u (x ∷ xs) = if x == u then suc (open_for u xs) else open_for u xs

abbrev pub close_one : Uuid → List Uuid → List Uuid
close_one u [] = []
close_one u (x ∷ xs) = if x == u then xs else x ∷ close_one u xs

pub data Move : Type 0 where
  opens closes : Uuid → Move

-- A connection is closed only if it is open.
abbrev pub IsHistory : List Uuid → List Move → Type 0
IsHistory sessions [] = Unit {0}
IsHistory sessions (opens u ∷ moves) = IsHistory (u ∷ sessions) moves
IsHistory sessions (closes u ∷ moves) =
    (0 < open_for u sessions) × IsHistory (close_one u sessions) moves

abbrev pub sessions_after : List Uuid → List Move → List Uuid
sessions_after sessions [] = sessions
sessions_after sessions (opens u ∷ moves) = sessions_after (u ∷ sessions) moves
sessions_after sessions (closes u ∷ moves) = sessions_after (close_one u sessions) moves

unfoldable pub run : List Move → Presence → Presence
run [] s = s
run (opens u ∷ moves) s = run moves (connect u s).1
run (closes u ∷ moves) s = run moves (disconnect u s).1

-- The service knows the open connections, and Redis the users who have one.
pub record Tracks (s : Presence) (sessions : List Uuid) : Type 0 where
  pub counted : (u : Uuid) → s.counts u ≡ open_for u sessions
  pub shown : (u : Uuid) → s.online u ≡ ltb 0 (open_for u sessions)
  pub reliable : s.outages ≡ []

pub open_for-close_one :
    (u x : Uuid) (sessions : List Uuid)
    → open_for x (close_one u sessions)
      ≡ (if x == u then open_for x sessions - 1 else open_for x sessions)
open_for-close_one u x [] = ground arith
open_for-close_one u x (y ∷ ys) =
    ground (arith, open_for-close_one u x ys, open_for-close_one u u ys)

pub connect-Tracks :
    (u : Uuid) (s : Presence) (sessions : List Uuid)
    → Tracks s sessions
    → Tracks (connect u s).1 (u ∷ sessions)
unfolding connect
connect-Tracks u s sessions t = record {
  counted = λ x. ground (arith, t.counted x, t.counted u, t.reliable);
  shown = λ x. ground (arith, t.counted x, t.counted u, t.shown x, t.shown u, t.reliable);
  reliable = ground (arith, t.reliable);
}

pub disconnect-Tracks :
    (u : Uuid) (s : Presence) (sessions : List Uuid)
    → Tracks s sessions
    → Tracks (disconnect u s).1 (close_one u sessions)
unfolding disconnect
disconnect-Tracks u s sessions t = record {
  counted =
      λ x. ground (arith, t.counted x, t.counted u, t.reliable, open_for-close_one u x sessions);
  shown = λ x. ground (
    arith,
    t.counted x,
    t.counted u,
    t.shown x,
    t.shown u,
    t.reliable,
    open_for-close_one u x sessions,
  );
  reliable = ground (arith, t.reliable);
}

run-Tracks :
    (moves : List Move) (s : Presence) (sessions : List Uuid)
    → Tracks s sessions
    → Tracks (run moves s) (sessions_after sessions moves)
unfolding run
run-Tracks [] s sessions t = t
run-Tracks (opens u ∷ moves) s sessions t =
    run-Tracks moves (connect u s).1 (u ∷ sessions) (connect-Tracks u s sessions t)
run-Tracks (closes u ∷ moves) s sessions t =
    run-Tracks moves (disconnect u s).1 (close_one u sessions) (disconnect-Tracks u s sessions t)

abbrev pub report : List Uuid → List Uuid → List (Uuid × Bool)
report us sessions = map (λ u. (u, ltb 0 (open_for u sessions))) us

statuses-report :
    (us : List Uuid) (s : Presence) (sessions : List Uuid)
    → Tracks s sessions
    → (statuses us s).0 ≡ some (report us sessions)
unfolding statuses
statuses-report [] s sessions t = refl
statuses-report (u ∷ us) s sessions t = rw (t.reliable) (
    ap (λ (f : Uuid → Uuid × Bool). some (map f (u ∷ us)))
      (fun_ext (λ x. ap (λ (b : Bool). (x, b)) (t.shown x))))

-- While Redis answers, after any connections and disconnections `Statuses` reports exactly the users
-- with an open connection as online.
pub statuses-run :
    (us : List Uuid) (moves : List Move) (s : Presence) (sessions : List Uuid)
    → Tracks s sessions
    → (statuses us (run moves s)).0 ≡ some (report us (sessions_after sessions moves))
statuses-run us moves s sessions t =
    statuses-report us (run moves s) (sessions_after sessions moves) (run-Tracks moves s sessions t)
