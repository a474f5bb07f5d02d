-- ===== src/Hub/Pumps/Ending.antt =====
-- `WritePump` of backend/internal/realtime/client.go after the client is closed.
use mathlib.Core.List.{append_assoc, append-nil}
use real_time_chat_app.Base.{
  ℕ, suc, ◌<◌, ◌≡◌, refl, subst, sym, ◌∙◌, ap, Bool, true, false, List, [], ◌∷◌, ◌++◌, length,
  arith,
}
use real_time_chat_app.Hub.{Event}
use real_time_chat_app.Hub.Pumps.{
  Frame, json, close_message, ping, Connection, Happening, sends, closes, wakes, ticks, happen,
  happen_all,
}
use real_time_chat_app.Hub.Pumps.Order.{events_of, events_of-append}

-- Every write that is tried succeeds.
abbrev pub AllSucceed : List Happening → Type 0
AllSucceed [] = Unit {0}
AllSucceed (sends event ∷ hs) = AllSucceed hs
AllSucceed (closes ∷ hs) = AllSucceed hs
AllSucceed (wakes success ∷ hs) = (success ≡ true) × AllSucceed hs
AllSucceed (ticks success ∷ hs) = (success ≡ true) × AllSucceed hs

-- How often `WritePump` looks at its channel.
abbrev pub wakes_in : List Happening → ℕ
wakes_in [] = 0
wakes_in (sends event ∷ hs) = wakes_in hs
wakes_in (closes ∷ hs) = wakes_in hs
wakes_in (wakes success ∷ hs) = suc (wakes_in hs)
wakes_in (ticks success ∷ hs) = wakes_in hs

-- `WritePump` has returned: it has written all that waited, and the close message last.
pub record Finished (queue : List Event) (written : List Frame) (after : Connection) : Type 0 where
  pub stopped : after.is_stopped ≡ true
  pub delivered : events_of after.written ≡ events_of written ++ queue
  pub frames : List Frame
  pub ends : after.written ≡ frames ++ close_message ∷ []

abbrev closed_connection : List Event → List Frame → Bool → Connection
closed_connection queue written stopped = record {
  client = record { queue = queue; is_closed = true };
  written = written;
  is_stopped = stopped;
}

stopped-stays :
    (hs : List Happening) (written : List Frame)
    → happen_all hs (closed_connection [] written true) ≡ closed_connection [] written true
unfolding happen_all happen
stopped-stays [] written = refl
stopped-stays (sends event ∷ hs) written = stopped-stays hs written
stopped-stays (closes ∷ hs) written = stopped-stays hs written
stopped-stays (wakes success ∷ hs) written = stopped-stays hs written
stopped-stays (ticks success ∷ hs) written = stopped-stays hs written

closed-Finished :
    (hs : List Happening) (queue : List Event) (written : List Frame)
    → AllSucceed hs
    → length queue < wakes_in hs
    → Finished queue written (happen_all hs (closed_connection queue written false))
unfolding happen_all happen
closed-Finished [] queue written all enough = absurd (omega arith)
closed-Finished (sends event ∷ hs) queue written all enough =
    closed-Finished hs queue written all enough
closed-Finished (closes ∷ hs) queue written all enough = closed-Finished hs queue written all enough
closed-Finished (wakes false ∷ hs) queue written (success, all) enough = cc
closed-Finished (wakes true ∷ hs) [] written (success, all) enough =
    subst (Finished [] written) (sym (stopped-stays hs (written ++ close_message ∷ []))) (record {
      stopped = refl;
      delivered = events_of-append written (close_message ∷ []);
      frames = written;
      ends = refl;
    })
closed-Finished (wakes true ∷ hs) (event ∷ queue) written (success, all) enough =
    let later = closed-Finished hs queue (written ++ json event ∷ []) all (omega arith) in
    record {
      stopped = later.stopped;
      delivered =
          later.delivered
          ∙ (ap (λ (l : List Event). l ++ queue) (events_of-append written (json event ∷ []))
              ∙ append_assoc (events_of written) (event ∷ []) queue);
      frames = later.frames;
      ends = later.ends;
    }
closed-Finished (ticks false ∷ hs) queue written (success, all) enough = cc
closed-Finished (ticks true ∷ hs) queue written (success, all) enough =
    let later = closed-Finished hs queue (written ++ ping ∷ []) all enough in
    record {
      stopped = later.stopped;
      delivered =
          later.delivered
          ∙ ap (λ (l : List Event). l ++ queue)
              (events_of-append written (ping ∷ []) ∙ append-nil (events_of written));
      frames = later.frames;
      ends = later.ends;
    }

-- After the client is closed `WritePump` returns, if its writes succeed and it looks at the channel
-- more often than there are events that wait, whatever it hears from the ticker in between: by then it
-- has written those events, in order, and the close message last.
pub happen_all-Finished :
    (hs : List Happening) (x : Connection)
    → x.client.is_closed ≡ true
    → x.is_stopped ≡ false
    → AllSucceed hs
    → length x.client.queue < wakes_in hs
    → Finished x.client.queue x.written (happen_all hs x)
happen_all-Finished hs x closed running all enough =
    subst (λ (y : Connection). Finished x.client.queue x.written (happen_all hs y))
      (λ i. record {
        client = record { queue = x.client.queue; is_closed = sym closed i };
        written = x.written;
        is_stopped = sym running i;
      })
      (closed-Finished hs x.client.queue x.written all enough)
