-- ===== src/Router/Guarded.antt =====
-- What the middleware of backend/internal/httpserver/router.go lets through to the handlers.
use real_time_chat_app.Base.{
  ap, ◌∙◌, Bool, List, ◌∷◌, arith, subst, ◌≡◌, ◌≢◌, if◌then◌else◌, text_eq, text_eq_iff, by_test,
  [], refl, Option, none, some, Text,
}
use real_time_chat_app.Models.{Uuid}
use real_time_chat_app.RateLimit.{Redis, Outcome, unauthorized, internal_error, too_many, passed}
use real_time_chat_app.Strings.{split}
use real_time_chat_app.Presence.{Presence, statuses}
use real_time_chat_app.Handlers.Accounts.{
  as_map, presence_responses, parse_ids, presence_reply, presence_of, presence,
}
use real_time_chat_app.Handlers.Replies.{Answer, Answers}
use real_time_chat_app.Handlers.{Request}
use real_time_chat_app.Handlers.Reading.{Libraries, serve_reading, serve_reading-db}
use real_time_chat_app.Handlers.Requests.{serve, asked, serve-Answers}
use real_time_chat_app.Auth.{Claims}
use real_time_chat_app.Router.{
  Target, changes, reads, shows_presence, serve_target, bearer_token, authorize, Backend, Response,
  stopped, served, Visit, after_limit, after_auth, serve_route,
}

-- The header has a bearer token, and it is valid, with these claims.
abbrev pub Authorized : (Text → Option Claims) → Text → Claims → Type 0
Authorized parse_token header claims =
    (bearer_token header ≢ []) × (parse_token (bearer_token header) ≡ some claims)

authorize-Authorized :
    (parse_token : Text → Option Claims) (header : Text) (claims : Claims)
    → authorize parse_token header ≡ some claims
    → Authorized parse_token header claims
unfolding authorize
authorize-Authorized parse_token header claims e =
    by_test
      (λ b.
        (if b then none else parse_token (bearer_token header)) ≡ some claims
        → Authorized parse_token header claims)
      (text_eq (bearer_token header) []) (λ empty e. cc)
      (λ full e.
        let (_, equal) = text_eq_iff (bearer_token header) [] in
        (λ empty. let same = equal empty in cc, e))
      e

-- A change is answered as a request of the user whom the claims name; what reads is answered by its
-- handler and leaves the database alone, and so does the route of presence, which keeps who is online.
abbrev pub ServedAs :
    Libraries → Claims → Uuid → Target → Request → Backend → Answer × Backend → Type 0
ServedAs libs claims n (changes route) q b r =
    Answers (libs.parse claims.user_id) (asked libs.parse n route q) b.world (r.0, r.1.world)
ServedAs libs claims n (reads reading) q b r =
    (r.0 ≡ (serve_reading libs reading q b.world).0) × (r.1.world.db ≡ b.world.db)
ServedAs libs claims n shows_presence q b r =
    (r.1.world ≡ b.world)
    × (r.1.presence.counts ≡ b.presence.counts)
    × (r.1.presence.online ≡ b.presence.online)

-- A request that a middleware stops leaves the database alone. Another has the claims of a valid
-- token, and is served with the user of these claims.
abbrev pub Guarded :
    Libraries → (Text → Option Claims) → Visit → Backend → Response × Backend → Type 0
Guarded libs parse_token v before (stopped why, after) = after.world ≡ before.world
Guarded libs parse_token v before (served answer, after) =
    (claims : Claims) × Authorized parse_token v.header claims
    × ServedAs libs claims v.new_id v.route (record v.request { user_id = some claims.user_id })
        before (answer, after)

statuses-same :
    (us : List Uuid) (p : Presence)
    → ((statuses us p).1.counts ≡ p.counts) × ((statuses us p).1.online ≡ p.online)
unfolding statuses
statuses-same [] p = (refl, refl)
statuses-same (u ∷ us) p = (ground arith, ground arith)

presence_reply-same :
    (us : List Uuid) (found : Option (List (Uuid × Bool)) × Presence)
    → (presence_reply us found).1 ≡ found.1
unfolding as_map presence_responses
presence_reply-same us (none, p) = refl
presence_reply-same us (some found, p) = refl

presence_of-same :
    (us : Option (List Uuid)) (p : Presence)
    → ((presence_of us p).1.counts ≡ p.counts) × ((presence_of us p).1.online ≡ p.online)
presence_of-same none p = (refl, refl)
presence_of-same (some us) p =
    let same = statuses-same us p in
    let kept = presence_reply-same us (statuses us p) in
    (ap (λ (x : Presence). x.counts) kept ∙ same.0, ap (λ (x : Presence). x.online) kept ∙ same.1)

module _ (libs : Libraries) (parse_token : Text → Option Claims) (v : Visit) where
  serve_target-ServedAs :
      (claims : Claims) (n : Uuid) (target : Target) (q : Request) (b : Backend) (r : Redis)
      → q.user_id ≡ some claims.user_id
      → ServedAs libs claims n target q b (serve_target libs n target q (record b { redis = r }))
  unfolding serve_target presence
  serve_target-ServedAs claims n (changes route) q b r given =
      subst
        (λ (o : Option Text).
          Answers (elim o [ none ↦ none | some claim ↦ libs.parse claim ])
            (asked libs.parse n route q) b.world (serve libs.parse n route q b.world))
        given (serve-Answers libs.parse n q b.world route)
  serve_target-ServedAs claims n (reads reading) q b r given =
      (refl, serve_reading-db libs reading q b.world)
  serve_target-ServedAs claims n shows_presence q b r given =
      let same = presence_of-same (parse_ids libs.parse (split b',' q.ids) []) b.presence in
      (refl, same.0, same.1)

  after_limit-Guarded :
      (claims : Claims) (b : Backend) (limited : Outcome × Redis)
      → authorize parse_token v.header ≡ some claims
      → Guarded libs parse_token v b (after_limit libs claims.user_id v b limited)
  unfolding after_limit
  after_limit-Guarded claims b (passed limit remaining, r) e = (
    claims,
    authorize-Authorized parse_token v.header claims e,
    serve_target-ServedAs claims v.new_id v.route
        (record v.request { user_id = some claims.user_id }) b r refl,
  )
  after_limit-Guarded claims b (unauthorized, r) e = refl
  after_limit-Guarded claims b (internal_error, r) e = refl
  after_limit-Guarded claims b (too_many limit remaining retry_after, r) e = refl

  after_auth-Guarded :
      (b : Backend) (o : Option Claims)
      → authorize parse_token v.header ≡ o
      → Guarded libs parse_token v b (after_auth libs v b o)
  unfolding after_auth
  after_auth-Guarded b none e = refl
  after_auth-Guarded b (some claims) e = after_limit-Guarded claims b _ e

  -- On every route behind `Auth`: a request that the middleware stops leaves the database alone; one
  -- that is served had a valid bearer token. A change is answered as a request of the user whom its
  -- claims name; a route that reads is answered by its handler for that user, and the database stays as
  -- it is; the route of presence leaves the database and who is online alone.
  pub serve_route-Guarded :
      (b : Backend) → Guarded libs parse_token v b (serve_route libs parse_token v b)
  unfolding serve_route
  serve_route-Guarded b = after_auth-Guarded b (authorize parse_token v.header) refl
