-- ===== src/Router/Budgets.antt =====
-- What the routes of backend/internal/httpserver/router.go promise of their rate limits, and one visit
-- against it.
use mathlib.Core.Path.{ap₂}
use real_time_chat_app.Base.{
  ℕ, ◌≡◌, refl, ◌∙◌, ap, Bool, true, false, ◌&&◌, Option, none, some, [], ◌++◌, if◌then◌else◌, Text,
  codes, text_eq, ltb, by_test,
}
use real_time_chat_app.RateLimit.{
  Redis, Verdict, Outcome, unauthorized, internal_error, too_many, passed, rate_limit, allow_key,
  rate_key, answer,
}
use real_time_chat_app.Handlers.Requests.{
  mark_read, create_room, create_direct, update_room_name, delete_room, add_participant,
  update_participant_role, remove_participant, leave_room, transfer_ownership, create_message,
  update_message, delete_message,
}
use real_time_chat_app.Handlers.Reading.{Libraries}
use real_time_chat_app.Auth.{Claims}
use real_time_chat_app.Router.{
  Target, changes, reads, shows_presence, authorize, group_of, group_name, group_limit, minute,
  Backend, Response, stopped, served, Visit, serve_target, after_limit, after_auth, serve_route,
}

-- Visits count towards reading, towards changing conversations, or towards changing messages.
pub data Budget : Type 0 where
  reading changing messaging : Budget

abbrev pub budget_of : Target → Budget
budget_of (changes mark_read) = reading
budget_of (changes create_message) = messaging
budget_of (changes update_message) = messaging
budget_of (changes delete_message) = messaging
budget_of (changes _) = changing
budget_of _ = reading

abbrev pub per_minute : Budget → ℕ
per_minute reading = 3000
per_minute changing = 600
per_minute messaging = 240

-- The counter of a budget of a user.
abbrev pub counter_of : Budget → Text → Text
counter_of reading user_id = codes "rate_limit:read_api:" ++ user_id
counter_of changing user_id = codes "rate_limit:write_api:" ++ user_id
counter_of messaging user_id = codes "rate_limit:messages:" ++ user_id

abbrev pub same_budget : Budget → Budget → Bool
same_budget reading reading = true
same_budget changing changing = true
same_budget messaging messaging = true
same_budget _ _ = false

-- Counters of different users or different budgets are different.
pub counter_of-apart :
    (g h : Budget) (u v : Text)
    → text_eq (counter_of g u) (counter_of h v) ≡ (same_budget h g && text_eq u v)
unfolding text_eq
counter_of-apart reading reading u v = refl
counter_of-apart reading changing u v = refl
counter_of-apart reading messaging u v = refl
counter_of-apart changing reading u v = refl
counter_of-apart changing changing u v = refl
counter_of-apart changing messaging u v = refl
counter_of-apart messaging reading u v = refl
counter_of-apart messaging changing u v = refl
counter_of-apart messaging messaging u v = refl

-- What the router sets for a target is what is promised.
record Keeps (target : Target) : Type 0 where
  limit : group_limit (group_of target) ≡ per_minute (budget_of target)
  key : (u : Text) → rate_key (group_name (group_of target)) u ≡ counter_of (budget_of target) u

group_of-Keeps : (target : Target) → Keeps target
unfolding group_of rate_key
group_of-Keeps shows_presence = record { limit = refl; key = λ u. refl }
group_of-Keeps (reads what) = record { limit = refl; key = λ u. refl }
group_of-Keeps (changes create_room) = record { limit = refl; key = λ u. refl }
group_of-Keeps (changes create_direct) = record { limit = refl; key = λ u. refl }
group_of-Keeps (changes mark_read) = record { limit = refl; key = λ u. refl }
group_of-Keeps (changes update_room_name) = record { limit = refl; key = λ u. refl }
group_of-Keeps (changes delete_room) = record { limit = refl; key = λ u. refl }
group_of-Keeps (changes add_participant) = record { limit = refl; key = λ u. refl }
group_of-Keeps (changes update_participant_role) = record { limit = refl; key = λ u. refl }
group_of-Keeps (changes remove_participant) = record { limit = refl; key = λ u. refl }
group_of-Keeps (changes leave_room) = record { limit = refl; key = λ u. refl }
group_of-Keeps (changes transfer_ownership) = record { limit = refl; key = λ u. refl }
group_of-Keeps (changes create_message) = record { limit = refl; key = λ u. refl }
group_of-Keeps (changes update_message) = record { limit = refl; key = λ u. refl }
group_of-Keeps (changes delete_message) = record { limit = refl; key = λ u. refl }

abbrev pub is_served : Response → Bool
is_served (stopped why) = false
is_served (served answer) = true

abbrev pub is_allowed : Option Verdict → Bool
is_allowed none = false
is_allowed (some v) = v.allowed

-- The hit that a visit of a user makes.
abbrev pub hit_of : Visit → Text → Redis → Option Verdict × Redis
hit_of v user_id r =
    allow_key (counter_of (budget_of v.route) user_id) v.now (per_minute (budget_of v.route)) 60 r

module _ (libs : Libraries) (parse_token : Text → Option Claims) where
  serve_target-redis :
      (v : Visit) (user_id : Text) (b : Backend)
      → (serve_target libs v.new_id v.route (record v.request { user_id = some user_id }) b).1.redis
        ≡ b.redis
  unfolding serve_target
  serve_target-redis v user_id b = by_target v.route
    where
      by_target :
          (target : Target)
          → (serve_target libs v.new_id target
              (record v.request { user_id = some user_id })
              b).1.redis
            ≡ b.redis
      by_target (changes route) = refl
      by_target (reads what) = refl
      by_target shows_presence = refl

  after_limit-redis :
      (user_id : Text) (v : Visit) (b : Backend) (limited : Outcome × Redis)
      → (after_limit libs user_id v b limited).1.redis ≡ limited.1
  unfolding after_limit
  after_limit-redis user_id v b (passed limit remaining, r) =
      serve_target-redis v user_id (record b { redis = r })
  after_limit-redis user_id v b (unauthorized, r) = refl
  after_limit-redis user_id v b (internal_error, r) = refl
  after_limit-redis user_id v b (too_many limit remaining retry_after, r) = refl

  after_limit-served :
      (user_id : Text) (v : Visit) (b : Backend) (verdict : Option Verdict) (r : Redis)
      → is_served (after_limit libs user_id v b (answer verdict, r)).0 ≡ is_allowed verdict
  unfolding after_limit
  after_limit-served user_id v b none r = refl
  after_limit-served user_id v b (some verdict) r =
      by_test
        (λ t.
          is_served
            (after_limit libs user_id v b (
              if t
                  then passed verdict.limit verdict.remaining
                  else too_many verdict.limit verdict.remaining
                      (if ltb verdict.retry_after 1 then 1 else verdict.retry_after),
              r,
            )).0
          ≡ t)
        verdict.allowed (λ allowed. refl) (λ refused. refl)

  limited :
      (v : Visit) (user_id : Text) (r : Redis)
      → text_eq user_id [] ≡ false
      → rate_limit
          (group_name (group_of v.route))
          user_id
          v.now
          (group_limit (group_of v.route))
          minute
          r
        ≡ (answer (hit_of v user_id r).0, (hit_of v user_id r).1)
  unfolding rate_limit
  limited v user_id r given =
      let kept = group_of-Keeps v.route in
      rw given (
        ap₂ (λ (k : Text) (n : ℕ). let (o, s) = allow_key k v.now n 60 r in (answer o, s))
          (kept.key user_id) kept.limit)

  pub visit_hits :
      (v : Visit) (b : Backend) (claims : Claims)
      → authorize parse_token v.header ≡ some claims
      → text_eq claims.user_id [] ≡ false
      → (is_served (serve_route libs parse_token v b).0
          ≡ is_allowed (hit_of v claims.user_id b.redis).0)
        × ((serve_route libs parse_token v b).1.redis ≡ (hit_of v claims.user_id b.redis).1)
  unfolding serve_route after_auth
  visit_hits v b claims e given =
      let h = hit_of v claims.user_id b.redis in
      let chain : serve_route libs parse_token v b
          ≡ after_limit libs claims.user_id v b (answer h.0, h.1) =
        ap (after_auth libs v b) e
        ∙ ap (after_limit libs claims.user_id v b) (limited v claims.user_id b.redis given) in
      (
        ap (λ (r : Response × Backend). is_served r.0) chain
            ∙ after_limit-served claims.user_id v b h.0 h.1,
        ap (λ (r : Response × Backend). r.1.redis) chain
            ∙ after_limit-redis claims.user_id v b (answer h.0, h.1),
      )

  -- A visit without a user makes no hit.
  pub visit_idle :
      (v : Visit) (b : Backend) (claims : Claims)
      → authorize parse_token v.header ≡ some claims
      → text_eq claims.user_id [] ≡ true
      → (serve_route libs parse_token v b).1.redis ≡ b.redis
  unfolding serve_route after_auth rate_limit after_limit
  visit_idle v b claims e empty =
      ap (λ (o : Option Claims). (after_auth libs v b o).1.redis) e ∙ rw empty refl

  pub visit_refused :
      (v : Visit) (b : Backend)
      → authorize parse_token v.header ≡ none
      → (serve_route libs parse_token v b).1.redis ≡ b.redis
  unfolding serve_route after_auth
  visit_refused v b e = ap (λ (o : Option Claims). (after_auth libs v b o).1.redis) e
