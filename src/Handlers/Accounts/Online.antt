-- ===== src/Handlers/Accounts/Online.antt =====
-- The handler `Presence` of backend/internal/handlers/auth.go against the connections that are open.
use mathlib.Core.List.{append_assoc, append-nil}
use real_time_chat_app.Base.{
  Bool, false, Option, none, some, List, [], ◌∷◌, ◌++◌, map, Text, text_eq, ◌≡◌, refl, sym, ◌∙◌,
  arith, ap, ltb,
}
use mathlib.Core.Path.{ap₂}
use real_time_chat_app.Models.{Uuid}
use real_time_chat_app.Strings.{split, join, has_byte}
use real_time_chat_app.Strings.Split.{AllLack, split-join}
use real_time_chat_app.TrimSpace.{trim_space, trim_left, trim_reversed}
use real_time_chat_app.Presence.{Presence, statuses, put}
use real_time_chat_app.Presence.Sessions.{Move, Tracks, run, open_for, sessions_after, statuses-run}
use real_time_chat_app.Handlers.{success}
use real_time_chat_app.Handlers.Accounts.{
  PresenceResponse, parse_ids, as_map, presence_responses, presence_reply, presence,
}

-- A text that `uuid.Parse` reads as `u`, with no comma and no space at the ends.
pub record IsWritten (parse : Text → Option Uuid) (u : Uuid) (text : Text) : Type 0 where
  pub read : parse text ≡ some u
  pub full : text_eq text [] ≡ false
  pub trimmed : trim_space text ≡ text
  pub lacks_comma : has_byte b',' text ≡ false

abbrev pub AllWritten : (Text → Option Uuid) → (Uuid → Text) → List Uuid → Type 0
AllWritten parse written [] = Unit {0}
AllWritten parse written (u ∷ us) = IsWritten parse u (written u) × AllWritten parse written us

module _ (f : Uuid → Bool) where
  as_map-kept :
      (us : List Uuid) (m : Uuid → Bool) (u : Uuid)
      → m u ≡ f u
      → as_map m (map (λ x. (x, f x)) us) u ≡ f u
  unfolding as_map
  as_map-kept [] m u e = e
  as_map-kept (x ∷ us) m u e = as_map-kept us (put m x (f x)) u (ground arith)

  presence_responses-as_map :
      (us : List Uuid) (m : Uuid → Bool)
      → presence_responses us (as_map m (map (λ x. (x, f x)) us)) ≡ presence_responses us f
  unfolding presence_responses as_map
  presence_responses-as_map [] m = refl
  presence_responses-as_map (u ∷ us) m =
      ap₂ (λ (b : Bool) (rest : List PresenceResponse). record { user_id = u; online = b } ∷ rest)
        (as_map-kept us (put m u (f u)) u (ground arith))
        (presence_responses-as_map us (put m u (f u)))

  answered_reply :
      (us : List Uuid) (outcome : Option (List (Uuid × Bool)) × Presence)
      → outcome.0 ≡ some (map (λ x. (x, f x)) us)
      → (presence_reply us outcome).0
        ≡ record { status = success; body = some (presence_responses us f); notices = [] }
  unfolding as_map presence_responses
  answered_reply us (none, s) e = cc
  answered_reply us (some found, s) e =
      let same : found ≡ map (λ x. (x, f x)) us = ground arith in
      ap
        (λ (responses : List PresenceResponse). record {
          status = success;
          body = some responses;
          notices = [];
        })
        (rw same (presence_responses-as_map us (λ u. false)))

module _ (parse : Text → Option Uuid) (written : Uuid → Text) where
  parse_ids-cons :
      (id : Text) (ids : List Text) (read : List Uuid) (u : Uuid)
      → text_eq (trim_space id) [] ≡ false
      → parse (trim_space id) ≡ some u
      → parse_ids parse (id ∷ ids) read ≡ parse_ids parse ids (read ++ u ∷ [])
  unfolding parse_ids
  parse_ids-cons id ids read u full found = ground arith

  parse_ids-written :
      (us read : List Uuid)
      → AllWritten parse written us
      → parse_ids parse (map written us) read ≡ some (read ++ us)
  parse_ids-written [] read all =
      unfold parse_ids in ap (λ (l : List Uuid). some l) (sym (append-nil read))
  parse_ids-written (u ∷ us) read (w, all) =
      parse_ids-cons (written u) (map written us) read u (rw w.trimmed w.full) (rw w.trimmed w.read)
      ∙ (parse_ids-written us (read ++ u ∷ []) all
          ∙ ap (λ (l : List Uuid). some l) (append_assoc read (u ∷ []) us))

  AllLack-written : (us : List Uuid) → AllWritten parse written us → AllLack b',' (map written us)
  AllLack-written [] all = tt
  AllLack-written (u ∷ us) (w, all) = (w.lacks_comma, AllLack-written us all)

  parse_ids-join :
      (us : List Uuid)
      → AllWritten parse written us
      → parse_ids parse (split b',' (join (b',' ∷ []) (map written us))) [] ≡ some us
  unfolding parse_ids trim_space trim_left trim_reversed text_eq split join
  parse_ids-join [] all = refl
  parse_ids-join (u ∷ us) all =
      ap (λ (parts : List Text). parse_ids parse parts [])
        (split-join b',' (map written (u ∷ us)) (λ e. cc) (AllLack-written (u ∷ us) all))
      ∙ parse_ids-written (u ∷ us) [] all

  -- While Redis answers, after any connections and disconnections, a request for the presence of
  -- users, each written as `uuid.Parse` reads it and joined with commas, is answered with success and
  -- one entry for each of them, in order, online exactly if the user has an open connection.
  pub presence-run :
      (us : List Uuid) (moves : List Move) (s : Presence) (sessions : List Uuid)
      → AllWritten parse written us
      → Tracks s sessions
      → (presence parse (join (b',' ∷ []) (map written us)) (run moves s)).0 ≡ record {
        status = success;
        body = some (
            map
              (λ u. record {
                user_id = u;
                online = ltb 0 (open_for u (sessions_after sessions moves));
              })
              us);
        notices = [];
      }
  unfolding presence presence_responses
  presence-run us moves s sessions all t = rw (parse_ids-join us all) (
      answered_reply (λ u. ltb 0 (open_for u (sessions_after sessions moves))) us
        (statuses us (run moves s)) (statuses-run us moves s sessions t))
