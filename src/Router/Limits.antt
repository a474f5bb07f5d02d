-- ===== src/Router/Limits.antt =====
-- The rate limits of backend/internal/httpserver/router.go over windows of a minute.
use Prim.Native.Nat.{min}
use real_time_chat_app.Base.{
  subst, inl, inr, Bool-cases, ℕ, suc, ◌+◌, ◌-◌, ◌<◌, ◌≤◌, ◌≡◌, refl, sym, ◌∙◌, ap, true, false,
  ◌&&◌, Option, none, List, [], ◌∷◌, ◌++◌, map, if◌then◌else◌, Text, text_eq, arith, leb,
}
use real_time_chat_app.Models.{Time}
use real_time_chat_app.RateLimit.{alive}
use real_time_chat_app.RateLimit.Windows.{Stands, AllBefore, allow_key-starts}
use real_time_chat_app.Handlers.Reading.{Libraries}
use real_time_chat_app.Auth.{Claims}
use real_time_chat_app.Router.{authorize, Backend, Visit, serve_route}
use real_time_chat_app.Router.Budgets.{Budget, per_minute, counter_of, is_served, is_allowed}
use real_time_chat_app.Router.Hits.{is_for, other_Stands, own_hit, own_Stands, hit}

abbrev pub times_of : List Visit → List Time
times_of visits = map (λ v. v.now) visits

unfoldable pub visits_for : (Text → Option Claims) → Text → Budget → List Visit → ℕ
visits_for parse_token user_id g [] = 0
visits_for parse_token user_id g (v ∷ visits) =
    let rest = visits_for parse_token user_id g visits in
    if is_for parse_token user_id g v then suc rest else rest

module _ (libs : Libraries) (parse_token : Text → Option Claims) where
  unfoldable pub after_visits : List Visit → Backend → Backend
  after_visits [] b = b
  after_visits (v ∷ visits) b = after_visits visits (serve_route libs parse_token v b).1

  -- How many visits of the user on the budget are served.
  unfoldable pub served_for : Text → Budget → List Visit → Backend → ℕ
  served_for user_id g [] b = 0
  served_for user_id g (v ∷ visits) b =
      let (response, b') = serve_route libs parse_token v b in
      let rest = served_for user_id g visits b' in
      if is_for parse_token user_id g v && is_served response then suc rest else rest

  module _ (user_id : Text) (g : Budget) where
    abbrev key : Text
    key = counter_of g user_id

    served_for-append :
        (visits more : List Visit) (b : Backend)
        → served_for user_id g (visits ++ more) b
          ≡ served_for user_id g visits b + served_for user_id g more (after_visits visits b)
    unfolding served_for after_visits
    served_for-append [] more b = omega arith
    served_for-append (v ∷ visits) more b =
        ground (arith, served_for-append visits more (serve_route libs parse_token v b).1)

    module _ (given : text_eq user_id [] ≡ false) where
      -- A window from a counter that stands.
      record Window (n : ℕ) (end : Time) (visits : List Visit) (b : Backend) : Type 0 where
        amount :
            served_for user_id g visits b
            ≡ min (per_minute g - n) (visits_for parse_token user_id g visits)
        last : ℕ
        stands : Stands key last end (after_visits visits b).redis

      cons-Window :
          (v : Visit) (visits : List Visit) (b : Backend) (n : ℕ) (end : Time)
          → is_for parse_token user_id g v ≡ true
          → is_served (serve_route libs parse_token v b).0 ≡ leb (n + 1) (per_minute g)
          → Window (n + 1) end visits (serve_route libs parse_token v b).1
          → Window n end (v ∷ visits) b
      unfolding served_for visits_for after_visits
      cons-Window v visits b n end own out rest = record {
        amount = rw (own, out) (ground (arith, rest.amount));
        last = rest.last;
        stands = rest.stands;
      }

      skip-Window :
          (v : Visit) (visits : List Visit) (b : Backend) (n : ℕ) (end : Time)
          → is_for parse_token user_id g v ≡ false
          → Window n end visits (serve_route libs parse_token v b).1
          → Window n end (v ∷ visits) b
      unfolding served_for visits_for after_visits
      skip-Window v visits b n end other rest = record {
        amount = rw other rest.amount;
        last = rest.last;
        stands = rest.stands;
      }

      window :
          (visits : List Visit) (b : Backend) (n : ℕ) (end : Time)
          → 0 < n
          → AllBefore end (times_of visits)
          → Stands key n end b.redis
          → Window n end visits b
      window [] b n end pos early stands = record {
        amount = unfold served_for in unfold visits_for in omega arith;
        last = n;
        stands = unfold after_visits in stands;
      }
      window (v ∷ visits) b n end pos (now, early) stands =
          elim (Bool-cases (is_for parse_token user_id g v)) [
            | inl own ↦
                let (out, after) =
                  own_Stands libs parse_token user_id g given v b n end own pos now stands in
                cons-Window v visits b n end own out (
                  window visits (serve_route libs parse_token v b).1 (n + 1) end (omega arith) early
                    after)
            | inr other ↦ skip-Window v visits b n end other (
                window visits (serve_route libs parse_token v b).1 n end pos early (
                  other_Stands libs parse_token user_id g v b n end (authorize parse_token v.header)
                    refl other stands))
          ]

      -- A window from its first hit.
      opening :
          (v : Visit) (visits : List Visit) (b : Backend)
          → is_for parse_token user_id g v ≡ true
          → alive v.now (b.redis.counters key) ≡ none
          → b.redis.outages ≡ []
          → AllBefore (v.now + 60) (times_of visits)
          → Window 0 (v.now + 60) (v ∷ visits) b
      unfolding hit
      opening v visits b own gone up early =
          let (served_eq, redis_eq) =
            own_hit libs parse_token user_id g given v b (authorize parse_token v.header) refl
              own in
          let (out, stands) = allow_key-starts key (per_minute g) 60 v.now b.redis gone up in
          cons-Window v visits b 0 (v.now + 60) own (served_eq ∙ ap is_allowed out) (
            window visits (serve_route libs parse_token v b).1 1 (v.now + 60) (omega arith) early
              (subst (Stands key 1 (v.now + 60)) (sym redis_eq) stands))

      count_first :
          (v : Visit) (visits : List Visit)
          → is_for parse_token user_id g v ≡ true
          → visits_for parse_token user_id g (v ∷ visits)
            ≡ visits_for parse_token user_id g visits + 1
      unfolding visits_for
      count_first v visits own = rw own (omega arith)

      -- While Redis answers: if the identifier of a user is not empty and no counter of theirs on a budget
      -- is alive at their first visit on it, then of the visits of the user on the budget before a minute has passed, as many are served as
      -- the smaller of the budget and their number, and the same again from a second visit that comes a
      -- minute after the first or later; visits of others and on other budgets, in any number before the
      -- minutes have passed, make no difference. The budgets are 3000 for what reads and for marking as
      -- read, 600 for what else changes conversations, and 240 for what changes messages.
      pub served_in_windows :
          (first : Visit) (visits : List Visit) (second : Visit) (more : List Visit) (b : Backend)
          → is_for parse_token user_id g first ≡ true
          → is_for parse_token user_id g second ≡ true
          → alive first.now (b.redis.counters (counter_of g user_id)) ≡ none
          → b.redis.outages ≡ []
          → AllBefore (first.now + 60) (times_of visits)
          → first.now + 60 ≤ second.now
          → AllBefore (second.now + 60) (times_of more)
          → served_for user_id g ((first ∷ visits) ++ (second ∷ more)) b
            ≡ min (per_minute g) (visits_for parse_token user_id g visits + 1)
              + min (per_minute g) (visits_for parse_token user_id g more + 1)
      served_in_windows first visits second more b own own' gone up early late early' =
          let one = opening first visits b own gone up early in
          let (entry, up') = one.stands in
          let two =
            opening second more (after_visits (first ∷ visits) b) own' (ground arith) up' early' in
          served_for-append (first ∷ visits) (second ∷ more) b
          ∙ omega (
            arith,
            one.amount,
            two.amount,
            count_first first visits own,
            count_first second more own',
          )
