-- ===== src/Router/Hits.antt =====
-- One visit to the routes of backend/internal/httpserver/router.go, of a user or of somebody else, on the
-- counter of the user.
use mathlib.Core.Path.{ap₂}
use real_time_chat_app.Base.{
  subst, inl, inr, Bool-cases, ℕ, ◌+◌, ◌<◌, ◌≡◌, refl, sym, ◌∙◌, ap, Bool, true, false, ◌&&◌,
  Option, none, some, [], Text, text_eq, text_eq_iff, arith, leb,
}
use real_time_chat_app.Models.{Time}
use real_time_chat_app.RateLimit.{Redis, Verdict, allow_key}
use real_time_chat_app.RateLimit.Windows.{Stands, allow_key-Stands}
use real_time_chat_app.Handlers.Reading.{Libraries}
use real_time_chat_app.Auth.{Claims}
use real_time_chat_app.Router.{authorize, Backend, Visit, serve_route}
use real_time_chat_app.Router.Budgets.{
  Budget, reading, changing, messaging, budget_of, per_minute, counter_of, same_budget,
  counter_of-apart, is_served, is_allowed, hit_of, visit_hits, visit_idle, visit_refused,
}

-- Whether a visit has a valid token of the user and counts towards the budget.
abbrev pub claims_are : Text → Bool → Option Claims → Bool
claims_are user_id same none = false
claims_are user_id same (some claims) = same && text_eq user_id claims.user_id

abbrev pub is_for : (Text → Option Claims) → Text → Budget → Visit → Bool
is_for parse_token user_id g v =
    claims_are user_id (same_budget (budget_of v.route) g) (authorize parse_token v.header)

module _ (libs : Libraries) (parse_token : Text → Option Claims) where
  module _ (user_id : Text) (g : Budget) where
    abbrev pub key_of : Text
    key_of = counter_of g user_id

    -- A hit on another counter.
    hit_elsewhere :
        (k : Text) (n limit : ℕ) (now end : Time) (r : Redis)
        → text_eq key_of k ≡ false
        → Stands key_of n end r
        → Stands key_of n end (allow_key k now limit 60 r).1
    unfolding allow_key
    hit_elsewhere k n limit now end r other (entry, up) = (ground arith, ground arith)

    pub other_Stands :
        (v : Visit) (b : Backend) (n : ℕ) (end : Time) (o : Option Claims)
        → authorize parse_token v.header ≡ o
        → claims_are user_id (same_budget (budget_of v.route) g) o ≡ false
        → Stands key_of n end b.redis
        → Stands key_of n end (serve_route libs parse_token v b).1.redis
    other_Stands v b n end none e other stands =
        subst (Stands key_of n end) (sym (visit_refused libs parse_token v b e)) stands
    other_Stands v b n end (some claims) e other stands =
        elim (Bool-cases (text_eq claims.user_id [])) [
          | inl empty ↦
              subst (Stands key_of n end) (sym (visit_idle libs parse_token v b claims e empty))
                stands
          | inr given ↦
              subst (Stands key_of n end) (sym (visit_hits libs parse_token v b claims e given).1) (
                hit_elsewhere (counter_of (budget_of v.route) claims.user_id) n _ v.now end b.redis
                  (counter_of-apart g (budget_of v.route) user_id claims.user_id ∙ other) stands)
        ]

    same_budget-eq : (h : Budget) → same_budget h g ≡ true → h ≡ g
    same_budget-eq h e = by_budgets h g e
      where
        by_budgets : (a b : Budget) → same_budget a b ≡ true → a ≡ b
        by_budgets reading reading e = refl
        by_budgets changing changing e = refl
        by_budgets messaging messaging e = refl
        by_budgets reading changing e = cc
        by_budgets reading messaging e = cc
        by_budgets changing reading e = cc
        by_budgets changing messaging e = cc
        by_budgets messaging reading e = cc
        by_budgets messaging changing e = cc

    module _ (given : text_eq user_id [] ≡ false) where
      unfoldable pub hit : Time → Redis → Option Verdict × Redis
      hit now r = allow_key key_of now (per_minute g) 60 r

      pub own_hit :
          (v : Visit) (b : Backend) (o : Option Claims)
          → authorize parse_token v.header ≡ o
          → claims_are user_id (same_budget (budget_of v.route) g) o ≡ true
          → (is_served (serve_route libs parse_token v b).0 ≡ is_allowed (hit v.now b.redis).0)
            × ((serve_route libs parse_token v b).1.redis ≡ (hit v.now b.redis).1)
      unfolding hit
      own_hit v b none e own = cc
      own_hit v b (some claims) e own =
          let budget : budget_of v.route ≡ g = same_budget-eq (budget_of v.route) (ground arith) in
          let (equal, _) = text_eq_iff user_id claims.user_id in
          let id : user_id ≡ claims.user_id = equal (ground arith) in
          let (served_eq, redis_eq) =
            visit_hits libs parse_token v b claims e
              (subst (λ (t : Text). text_eq t [] ≡ false) id given) in
          let same : hit_of v claims.user_id b.redis ≡ hit v.now b.redis =
            ap₂
              (λ (t : Budget) (u : Text).
                allow_key (counter_of t u) v.now (per_minute t) 60 b.redis)
              budget (sym id) in
          (
            served_eq ∙ ap (λ (h : Option Verdict × Redis). is_allowed h.0) same,
            redis_eq ∙ ap (λ (h : Option Verdict × Redis). h.1) same,
          )

      pub own_Stands :
          (v : Visit) (b : Backend) (n : ℕ) (end : Time)
          → is_for parse_token user_id g v ≡ true
          → 0 < n
          → v.now < end
          → Stands key_of n end b.redis
          → (is_served (serve_route libs parse_token v b).0 ≡ leb (n + 1) (per_minute g))
            × Stands key_of (n + 1) end (serve_route libs parse_token v b).1.redis
      unfolding hit
      own_Stands v b n end own pos early stands =
          let (served_eq, redis_eq) = own_hit v b (authorize parse_token v.header) refl own in
          let (out, after) =
            allow_key-Stands key_of n (per_minute g) 60 v.now end b.redis pos early stands in
          (served_eq ∙ ap is_allowed out, subst (Stands key_of (n + 1) end) (sym redis_eq) after)
