-- ===== src/Presence/Leak.antt =====
-- What a failed `SAdd` leaves behind in backend/internal/presence/service.go: a connection that is
-- counted and that backend/internal/handlers/websocket.go does not disconnect.
use real_time_chat_app.Base.{suc, ◌<◌, ◌≡◌, Bool, true, false, List, [], ◌∷◌, arith}
use real_time_chat_app.Models.{Uuid}
use real_time_chat_app.Presence.{Presence, connect, disconnect}
use real_time_chat_app.Presence.Sessions.{
  Move, opens, closes, IsHistory, open_for, close_one, open_for-close_one, run,
}

-- One connection too many is counted, and Redis does not know the user.
record IsLeaked (u : Uuid) (s : Presence) (sessions : List Uuid) : Type 0 where
  counted : s.counts u ≡ suc (open_for u sessions)
  hidden : s.online u ≡ false

connect-IsLeaked :
    (u x : Uuid) (s : Presence) (sessions : List Uuid)
    → IsLeaked u s sessions
    → IsLeaked u (connect x s).1 (x ∷ sessions)
unfolding connect
connect-IsLeaked u x s sessions h = ground arith

disconnect-IsLeaked :
    (u x : Uuid) (s : Presence) (sessions : List Uuid)
    → 0 < open_for x sessions
    → IsLeaked u s sessions
    → IsLeaked u (disconnect x s).1 (close_one x sessions)
unfolding disconnect
disconnect-IsLeaked u x s sessions was_open h = ground (arith, open_for-close_one x u sessions)

run-hidden :
    (u : Uuid) (moves : List Move) (s : Presence) (sessions : List Uuid)
    → IsHistory sessions moves
    → IsLeaked u s sessions
    → (run moves s).online u ≡ false
unfolding run
run-hidden u [] s sessions history h = h.hidden
run-hidden u (opens x ∷ moves) s sessions history h =
    run-hidden u moves (connect x s).1 (x ∷ sessions) history (connect-IsLeaked u x s sessions h)
run-hidden u (closes x ∷ moves) s sessions (was_open, history) h =
    run-hidden u moves (disconnect x s).1 (close_one x sessions) history
      (disconnect-IsLeaked u x s sessions was_open h)

-- If the first connection of a user meets a Redis outage, then `Connect` fails, and the user is never
-- shown as online again, whatever connections are opened and closed later, with or without outages.
pub connect_outage_hides :
    (u : Uuid) (s : Presence) (sessions : List Uuid) (later : List Bool) (moves : List Move)
    → s.counts u ≡ 0
    → s.online u ≡ false
    → s.outages ≡ true ∷ later
    → open_for u sessions ≡ 0
    → IsHistory sessions moves
    → ((connect u s).0 ≡ false) × ((run moves (connect u s).1).online u ≡ false)
unfolding connect
connect_outage_hides u s sessions later moves none_counted hidden down none_open history = (
  ground arith,
  run-hidden u moves (connect u s).1 sessions history
      (record { counted = ground arith; hidden = ground arith }),
)
