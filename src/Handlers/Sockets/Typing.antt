-- ===== src/Handlers/Sockets/Typing.antt =====
-- What the messages of a client come to: `ReadPump` of backend/internal/realtime/client.go with the
-- handler of backend/internal/handlers/websocket.go.
use mathlib.Core.List.{append_assoc, append-nil}
use real_time_chat_app.Base.{
  ◌≡◌, refl, sym, ◌∙◌, ap, inl, inr, ◌⊎◌, Bool, true, false, Option, none, some, List, [], ◌∷◌,
  ◌++◌, if◌then◌else◌, Text, text_eq, text_eq_iff, length, ltb, by_test,
}
use real_time_chat_app.Models.{Uuid}
use real_time_chat_app.Hub.{Event}
use real_time_chat_app.Hub.Pumps.{read_limit, read_pump, handle_decoded}
use real_time_chat_app.Handlers.Sockets.{
  Site, publish, event_typing_started, event_typing_stopped, handle_incoming_event,
}

module _ (encode : Uuid → Uuid → Text) (c u : Uuid) where
  -- A typing event in the conversation that names the user.
  pub record IsTyping (entry : Uuid × Event) : Type 0 where
    pub conversation : entry.0 ≡ c
    pub type : (entry.1.type ≡ event_typing_started) ⊎ (entry.1.type ≡ event_typing_stopped)
    pub payload : entry.1.payload ≡ encode c u

  abbrev pub AllTyping : List (Uuid × Event) → Type 0
  AllTyping [] = Unit {0}
  AllTyping (entry ∷ entries) = IsTyping entry × AllTyping entries

  -- Typing events were published, and nothing was done to the database and the hub.
  pub record Typed (before after : Site) : Type 0 where
    pub entries : List (Uuid × Event)
    pub published : after.published ≡ before.published ++ entries
    pub typing : AllTyping entries
    pub world : after.world ≡ before.world
    pub hub : after.hub ≡ before.hub

  nothing-Typed : (site : Site) → Typed site site
  nothing-Typed site = record {
    entries = [];
    published = sym (append-nil site.published);
    typing = tt;
    world = refl;
    hub = refl;
  }

  AllTyping-append :
      (xs ys : List (Uuid × Event)) → AllTyping xs → AllTyping ys → AllTyping (xs ++ ys)
  AllTyping-append [] ys a b = b
  AllTyping-append (x ∷ xs) ys (first, a) b = (first, AllTyping-append xs ys a b)

  Typed-trans : (s t v : Site) → Typed s t → Typed t v → Typed s v
  Typed-trans s t v a b = record {
    entries = a.entries ++ b.entries;
    published =
        b.published
        ∙ (ap (λ (l : List (Uuid × Event)). l ++ b.entries) a.published
            ∙ append_assoc s.published a.entries b.entries);
    typing = AllTyping-append a.entries b.entries a.typing b.typing;
    world = b.world ∙ a.world;
    hub = b.hub ∙ a.hub;
  }

  publish-Typed :
      (event : Event) (site : Site) → IsTyping (c, event) → Typed site (publish c event site)
  unfolding publish
  publish-Typed event site typed = at site.presence.outages
    where
      at :
          (outages : List Bool)
          → Typed site (elim outages [
            | [] ↦ record site { published = site.published ++ (c, event) ∷ [] }
            | down ∷ later ↦
                if down
                then record site { presence = record site.presence { outages = later } }
                else record site {
                  presence = record site.presence { outages = later };
                  published = site.published ++ (c, event) ∷ [];
                }
          ])
      at [] = record {
        entries = (c, event) ∷ [];
        published = refl;
        typing = (typed, tt);
        world = refl;
        hub = refl;
      }
      at (true ∷ later) = record {
        entries = [];
        published = sym (append-nil site.published);
        typing = tt;
        world = refl;
        hub = refl;
      }
      at (false ∷ later) = record {
        entries = (c, event) ∷ [];
        published = refl;
        typing = (typed, tt);
        world = refl;
        hub = refl;
      }

  incoming-Typed :
      (event : Event) (site : Site) → Typed site (handle_incoming_event encode c u event site)
  unfolding handle_incoming_event
  incoming-Typed event site =
      by_test
        (λ b. Typed site (
          if b
          then publish c told site
          else if text_eq event.type event_typing_stopped
          then publish c told site
          else site))
        (text_eq event.type event_typing_started)
        (λ started. publish-Typed told site (record {
          conversation = refl;
          type = inl ((text_eq_iff event.type event_typing_started).0 started);
          payload = refl;
        }))
        (λ other.
          by_test (λ b. Typed site (if b then publish c told site else site))
            (text_eq event.type event_typing_stopped)
            (λ stopped. publish-Typed told site (record {
              conversation = refl;
              type = inr ((text_eq_iff event.type event_typing_stopped).0 stopped);
              payload = refl;
            }))
            (λ neither. nothing-Typed site))
    where
      told : Event
      told = record { type = event.type; payload = encode c u }

  decoded-Typed :
      (decode : Text → Option Event) (o : Option Event) (site : Site)
      → Typed site (handle_decoded decode (handle_incoming_event encode c u) o site)
  decoded-Typed decode none site = nothing-Typed site
  decoded-Typed decode (some event) site = incoming-Typed event site

  -- Whatever messages a client sends, and whatever outages there are, the handler publishes nothing but
  -- typing events in the conversation of the connection that name its user, and touches neither the
  -- database nor the hub.
  pub read_pump-Typed :
      (decode : Text → Option Event) (payloads : List Text) (site : Site)
      → Typed site (read_pump decode (handle_incoming_event encode c u) payloads site)
  unfolding read_pump
  read_pump-Typed decode [] site = nothing-Typed site
  read_pump-Typed decode (payload ∷ payloads) site =
      let handled =
        handle_decoded decode (handle_incoming_event encode c u) (decode payload) site in
      by_test
        (λ b. Typed site (elim b [
          | true ↦ site
          | false ↦ read_pump decode (handle_incoming_event encode c u) payloads handled
        ]))
        (ltb read_limit (length payload)) (λ too_long. nothing-Typed site)
        (λ fits.
          Typed-trans site handled _ (decoded-Typed decode (decode payload) site)
            (read_pump-Typed decode payloads handled))
