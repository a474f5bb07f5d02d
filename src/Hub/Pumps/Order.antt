-- ===== src/Hub/Pumps/Order.antt =====
-- In which order `WritePump` of backend/internal/realtime/client.go writes, and that it ends.
use mathlib.Core.List.{append_assoc, append-nil}
use real_time_chat_app.Base.{
  ◌≡◌, refl, by_test, subst, sym, ◌∙◌, ap, Bool, true, false, List, [], ◌∷◌, ◌++◌, if◌then◌else◌,
  arith, Bool-cases, inl, inr,
}
use real_time_chat_app.Hub.{Event, enqueue}
use real_time_chat_app.Hub.Pumps.{
  Frame, json, close_message, ping, Connection, Happening, sends, closes, wakes, ticks, write,
  receive, wake, tick, happen, happen_all,
}

-- The events among the frames.
abbrev pub events_of : List Frame → List Event
events_of [] = []
events_of (json event ∷ frames) = event ∷ events_of frames
events_of (close_message ∷ frames) = events_of frames
events_of (ping ∷ frames) = events_of frames

-- What one happening sends, to a client that is closed or not, and whether the client is closed
-- afterwards.
abbrev pub sent_now : Bool → Happening → List Event
sent_now closed (sends event) = if closed then [] else event ∷ []
sent_now closed _ = []

abbrev pub closed_after : Bool → Happening → Bool
closed_after closed closes = true
closed_after closed _ = closed

-- The events that are sent before the client is closed.
abbrev pub sent : Bool → List Happening → List Event
sent closed [] = []
sent closed (h ∷ hs) = sent_now closed h ++ sent (closed_after closed h) hs

pub events_of-append : (xs ys : List Frame) → events_of (xs ++ ys) ≡ events_of xs ++ events_of ys
events_of-append [] ys = refl
events_of-append (json event ∷ xs) ys = ap (λ (l : List Event). event ∷ l) (events_of-append xs ys)
events_of-append (close_message ∷ xs) ys = events_of-append xs ys
events_of-append (ping ∷ xs) ys = events_of-append xs ys

-- `total` starts with the events that were written; while `WritePump` runs, the others wait.
pub record Written (total : List Event) (x : Connection) : Type 0 where
  pub rest : List Event
  pub splits : events_of x.written ++ rest ≡ total
  pub waits : x.is_stopped ≡ false → rest ≡ x.client.queue

receive-Written :
    (total : List Event) (success : Bool) (queue : List Event) (x : Connection)
    → x.client.queue ≡ queue
    → events_of x.written ++ queue ≡ total
    → Written total (receive success queue x)
unfolding receive
receive-Written total true (event ∷ queue) x e splits = record {
  rest = queue;
  splits = ground (
    arith,
    events_of-append x.written (json event ∷ []),
    append_assoc (events_of x.written) (event ∷ []) queue,
  );
  waits = λ running. refl;
}
receive-Written total false (event ∷ queue) x e splits = record {
  rest = event ∷ queue;
  splits = splits;
  waits = λ running. cc;
}
receive-Written total true [] x e splits = elim (Bool-cases x.client.is_closed) [
  | inl closed ↦ rw closed (record {
    rest = [];
    splits =
        ground (
          arith,
          events_of-append x.written (close_message ∷ []),
          append-nil (events_of x.written),
        );
    waits = λ running. cc;
  })
  | inr open_still ↦ rw open_still (record { rest = []; splits = splits; waits = λ running. sym e })
]
receive-Written total false [] x e splits = elim (Bool-cases x.client.is_closed) [
  | inl closed ↦ rw closed (record { rest = []; splits = splits; waits = λ running. cc })
  | inr open_still ↦ rw open_still (record { rest = []; splits = splits; waits = λ running. sym e })
]

wake-Written :
    (total : List Event) (success : Bool) (x : Connection)
    → Written total x
    → Written total (wake success x)
unfolding wake
wake-Written total success x w =
    by_test (λ b. Written total (if b then x else receive success x.client.queue x)) x.is_stopped
      (λ stopped. w)
      (λ running.
        receive-Written total success x.client.queue x refl
          (ap (λ (l : List Event). events_of x.written ++ l) (sym (w.waits running)) ∙ w.splits))

tick-Written :
    (total : List Event) (success : Bool) (x : Connection)
    → Written total x
    → Written total (tick success x)
unfolding tick
tick-Written total success x w =
    by_test (λ b. Written total (if b then x else write ping success x)) x.is_stopped (λ stopped. w)
      (λ running. pinged success)
  where
    pinged : (b : Bool) → Written total (write ping b x)
    pinged true = record {
      rest = w.rest;
      splits = rw (events_of-append x.written (ping ∷ []), append-nil) w.splits;
      waits = w.waits;
    }
    pinged false = record { rest = w.rest; splits = w.splits; waits = λ running. cc }

sends-Written :
    (total : List Event) (event : Event) (x : Connection)
    → Written total x
    → Written (total ++ (if x.client.is_closed then [] else event ∷ [])) (happen (sends event) x)
unfolding happen
sends-Written total event x w =
    by_test
      (λ b.
        Written (total ++ (if b then [] else event ∷ []))
          (if b then x else record x { client = enqueue event x.client }))
      x.client.is_closed (λ closed. subst (λ l. Written l x) (sym (append-nil total)) w)
      (λ open_still. record {
        rest = w.rest ++ event ∷ [];
        splits =
            sym (append_assoc (events_of x.written) w.rest (event ∷ []))
            ∙ ap (λ (l : List Event). l ++ event ∷ []) w.splits;
        waits = λ running. ap (λ (l : List Event). l ++ event ∷ []) (w.waits running);
      })

receive-closed :
    (success : Bool) (queue : List Event) (x : Connection)
    → (receive success queue x).client.is_closed ≡ x.client.is_closed
unfolding receive
receive-closed true (event ∷ queue) x = refl
receive-closed false (event ∷ queue) x = refl
receive-closed true [] x = ground arith
receive-closed false [] x = ground arith

happen-closed :
    (h : Happening) (x : Connection)
    → (happen h x).client.is_closed ≡ closed_after x.client.is_closed h
unfolding happen wake tick
happen-closed (sends event) x = ground arith
happen-closed closes x = refl
happen-closed (wakes success) x = ground (arith, receive-closed success x.client.queue x)
happen-closed (ticks true) x = ground arith
happen-closed (ticks false) x = ground arith

happen-Written :
    (h : Happening) (total : List Event) (x : Connection)
    → Written total x
    → Written (total ++ sent_now x.client.is_closed h) (happen h x)
happen-Written (sends event) total x w = sends-Written total event x w
happen-Written closes total x w =
    subst (λ l. Written l (happen closes x)) (sym (append-nil total))
      (unfold happen in record { rest = w.rest; splits = w.splits; waits = w.waits })
happen-Written (wakes success) total x w =
    subst (λ l. Written l (happen (wakes success) x)) (sym (append-nil total))
      (unfold happen in wake-Written total success x w)
happen-Written (ticks success) total x w =
    subst (λ l. Written l (happen (ticks success) x)) (sym (append-nil total))
      (unfold happen in tick-Written total success x w)

-- Whatever is sent, written and fails in whatever order: the events that were written are, in order,
-- the first of those that waited or were sent before the client was closed.
pub happen_all-Written :
    (hs : List Happening) (total : List Event) (x : Connection)
    → Written total x
    → Written (total ++ sent x.client.is_closed hs) (happen_all hs x)
unfolding happen_all
happen_all-Written [] total x w = subst (λ l. Written l x) (sym (append-nil total)) w
happen_all-Written (h ∷ hs) total x w =
    let now = sent_now x.client.is_closed h in
    subst (λ l. Written l (happen_all hs (happen h x)))
      (append_assoc total now (sent (happen h x).client.is_closed hs)
        ∙ ap (λ (b : Bool). total ++ (now ++ sent b hs)) (happen-closed h x))
      (happen_all-Written hs (total ++ now) (happen h x) (happen-Written h total x w))
