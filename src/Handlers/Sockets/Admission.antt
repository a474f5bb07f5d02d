-- ===== src/Handlers/Sockets/Admission.antt =====
-- Whom the handler of backend/internal/handlers/websocket.go lets into a conversation.
use real_time_chat_app.Strings.{contains}
use real_time_chat_app.Base.{
  ◌↔◌, ◌⊎◌, ◌∷◌, text_eq, text_eq_iff, by_test, if◌then◌else◌, ◌≡◌, refl, subst, ◌∙◌, ap, inl, inr,
  Bool, true, false, ◌&&◌, Option, none, some, List, [], Text, arith, Bool-cases, is_some,
}
use real_time_chat_app.Models.{Uuid}
use real_time_chat_app.Store.{World, Db, Result, ok, err, query}
use real_time_chat_app.Store.Effect.{Post, Reads-query}
use real_time_chat_app.Store.Online.{query_yields}
use real_time_chat_app.Store.Tables.{find_row}
use real_time_chat_app.Repository.Participants.{is_participant}
use real_time_chat_app.Presence.{Presence, connect}
use real_time_chat_app.Hub.{ClientId}
use real_time_chat_app.Handlers.{Status, bad_request, unauthorized}
use real_time_chat_app.Handlers.Sockets.{
  Site, SocketRequest, Opening, hung_up, opened, connected, admitted, check_origin, or_refused,
  open_conversation,
}
use real_time_chat_app.Handlers.Sockets.Openings.{connect-online}

abbrev pub Listed : Text → List Text → Type 0
Listed origin [] = ⊥
Listed origin (o ∷ os) = (o ≡ origin) ⊎ Listed origin os

-- No browser names an origin, or it is one of those that are allowed.
abbrev pub OriginAllowed : List Text → Text → Type 0
OriginAllowed allowed_origins origin = (origin ≡ []) ⊎ Listed origin allowed_origins

contains_iff :
    (origin : Text) (origins : List Text) → (contains origin origins ≡ true) ↔ Listed origin origins
unfolding contains
contains_iff origin [] = ((λ h. cc), (λ h. absurd h))
contains_iff origin (o ∷ os) =
    let (equal, same) = text_eq_iff o origin in
    let (there, listed) = contains_iff origin os in
    by_test
      (λ b. ((if b then true else contains origin os) ≡ true) ↔ ((o ≡ origin) ⊎ Listed origin os))
      (text_eq o origin) (λ first. ((λ h. inl (equal first)), (λ h. refl)))
      (λ other.
        ((λ h. inr (there h)), (λ h. elim h [ inl e ↦ (let t = same e in cc) | inr l ↦ listed l ])))

check_origin_iff :
    (allowed_origins : List Text) (origin : Text)
    → (check_origin allowed_origins origin ≡ true) ↔ OriginAllowed allowed_origins origin
unfolding check_origin
check_origin_iff allowed_origins origin =
    let (equal, same) = text_eq_iff origin [] in
    let (there, listed) = contains_iff origin allowed_origins in
    by_test
      (λ b.
        ((if b then true else contains origin allowed_origins) ≡ true)
        ↔ OriginAllowed allowed_origins origin)
      (text_eq origin []) (λ none_given. ((λ h. inl (equal none_given)), (λ h. refl)))
      (λ given.
        ((λ h. inr (there h)), (λ h. elim h [ inl e ↦ (let t = same e in cc) | inr l ↦ listed l ])))

-- The request has a valid token of `u`, who takes part in `c`, and comes from an origin that is
-- allowed.
pub record MayEnter (parse : Text → Option Uuid) (parse_token : Text → Option Text)
    (allowed_origins : List Text) (request : SocketRequest) (db : Db) (c u : Uuid) : Type 0 where
  pub names : parse request.conversation_id ≡ some c
  pub claim : Text
  pub signed : parse_token request.token ≡ some claim
  pub claims : parse claim ≡ some u
  pub takes_part : is_some (find_row c u db.participants) ≡ true
  pub origin_allowed : OriginAllowed allowed_origins request.origin
  pub upgraded : request.upgradable ≡ true

connected-names :
    (c u d v : Uuid) (k : ClientId) (out : Bool × Presence) (site : Site)
    → (connected c u k out site).0 ≡ opened d v
    → (c ≡ d) × (u ≡ v)
unfolding connected
connected-names c u d v k (true, p) site e = (ground arith, ground arith)
connected-names c u d v k (false, p) site e = cc

answered :
    {A : Type 0} (db : Db) (expected : Result A) (a : A) (r : Result A × World)
    → Post db (λ b after. (after ≡ db) × (expected ≡ ok b)) r
    → r.0 ≡ ok a
    → expected ≡ ok a
answered db expected a (ok b, w) post e = post.1 ∙ e
answered db expected a (err x, w) post e = cc

is_participant-true :
    (c u : Uuid) (w : World)
    → (is_participant c u w).0 ≡ ok true
    → is_some (find_row c u w.db.participants) ≡ true
unfolding is_participant
is_participant-true c u w e =
    let q = λ (db : Db). let r : Result Bool = ok (is_some (find_row c u db.participants)) in r in
    let found = answered w.db (q w.db) true (query q w) ((Reads-query w.db q).at w refl) e in
    ground arith

module _ (allowed_origins : List Text) (request : SocketRequest) (k : ClientId) (site : Site) where
  admitted-opened :
      (c u d v : Uuid) (answer : Result Bool × World)
      → (admitted allowed_origins request c u k answer site).0 ≡ opened d v
      → (c ≡ d)
        × (u ≡ v)
        × (answer.0 ≡ ok true)
        × (check_origin allowed_origins request.origin ≡ true)
        × (request.upgradable ≡ true)
  unfolding admitted
  admitted-opened c u d v (err x, w) e = cc
  admitted-opened c u d v (ok false, w) e = cc
  admitted-opened c u d v (ok true, w) e =
      elim (Bool-cases (check_origin allowed_origins request.origin && request.upgradable)) [
        | inl upgraded ↦
            let (same_c, same_u) =
              connected-names c u d v k (connect u site.presence) (record site { world = w })
                (rw upgraded at e) in
            (same_c, same_u, refl, ground arith, ground arith)
        | inr not_upgraded ↦
            let refused_here : ◌≡◌ {A = Opening} hung_up (opened d v) = rw not_upgraded at e in cc
      ]

  or_refused-opened :
      {A : Type 0} (o : Option A) (status : Status) (next : A → Site → Opening × Site) (d v : Uuid)
      → (or_refused o status next site).0 ≡ opened d v
      → (a : A) × (o ≡ some a) × ((next a site).0 ≡ opened d v)
  or_refused-opened none status next d v e = cc
  or_refused-opened (some a) status next d v e = (a, refl, e)

module _ (parse : Text → Option Uuid) (parse_token : Text → Option Text)
    (allowed_origins : List Text) (request : SocketRequest) (k : ClientId) (site : Site)
    (c u : Uuid) where
  -- A connection is opened only for the user of a valid token who takes part in the conversation at
  -- that time, by a request from an origin that is allowed, whatever outages there are.
  pub open_conversation-MayEnter :
      (open_conversation parse parse_token allowed_origins request k site).0 ≡ opened c u
      → MayEnter parse parse_token allowed_origins request site.world.db c u
  unfolding open_conversation
  open_conversation-MayEnter e =
      let (c', names, e₁) =
        or_refused-opened allowed_origins request k site (parse request.conversation_id) bad_request
          _ c u e in
      let (claim, signed, e₂) =
        or_refused-opened allowed_origins request k site (parse_token request.token) unauthorized _
          c u e₁ in
      let (u', claims, e₃) =
        or_refused-opened allowed_origins request k site (parse claim) unauthorized _ c u e₂ in
      let (same_c, same_u, found, origin, upgraded) =
        admitted-opened allowed_origins request k site c' u' c u (is_participant c' u' site.world)
          e₃ in
      record {
        names = names ∙ ap (λ (x : Uuid). some x) same_c;
        claim = claim;
        signed = signed;
        claims = claims ∙ ap (λ (x : Uuid). some x) same_u;
        takes_part =
            subst (λ (y : Uuid). is_some (find_row c y site.world.db.participants) ≡ true) same_u
              (subst (λ (x : Uuid). is_some (find_row x u' site.world.db.participants) ≡ true)
                same_c (is_participant-true c' u' site.world found));
        origin_allowed = (check_origin_iff allowed_origins request.origin).0 origin;
        upgraded = upgraded;
      }

  connected-success :
      (out : Bool × Presence) (s : Site) → out.0 ≡ true → (connected c u k out s).0 ≡ opened c u
  unfolding connected
  connected-success (true, p) s e = refl
  connected-success (false, p) s e = cc

  -- While the database and Redis answer, who may enter is let in.
  pub open_conversation-opened :
      MayEnter parse parse_token allowed_origins request site.world.db c u
      → site.world.outages ≡ []
      → site.presence.outages ≡ []
      → (open_conversation parse parse_token allowed_origins request k site).0 ≡ opened c u
  unfolding open_conversation admitted is_participant
  open_conversation-opened m database redis =
      rw (m.names, m.signed, m.claims)
        (rw
          (query_yields (λ db. ok (is_some (find_row c u db.participants))) true site.world database
            (ap (λ (b : Bool). ok b) m.takes_part))
          (rw ((check_origin_iff allowed_origins request.origin).1 m.origin_allowed, m.upgraded)
            (connected-success (connect u site.presence) site
              (connect-online u site.presence redis))))
