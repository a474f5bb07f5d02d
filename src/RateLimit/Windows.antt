-- ===== src/RateLimit/Windows.antt =====
-- Hits on one key of backend/internal/ratelimit/limiter.go, within a window and after an outage.
use real_time_chat_app.Base.{
  ℕ, suc, ◌+◌, ◌-◌, ◌<◌, ◌≡◌, refl, true, false, Option, none, some, List, [], ◌∷◌, if◌then◌else◌,
  arith, Text, text_eq, text_eq_iff, ap, length,
}
use Prim.Native.Nat.{min}
use real_time_chat_app.Models.{Time}
use real_time_chat_app.RateLimit.{Redis, Verdict, verdict, alive, allow_key}

text_eq_refl : (s : Text) → text_eq s s ≡ true
text_eq_refl s = (text_eq_iff s s).1 refl

-- The counter at `key` stands at `n` and lasts until `end`.
abbrev pub Stands : Text → ℕ → Time → Redis → Type 0
Stands key n end s =
    (s.counters key ≡ some (record { count = n; expires = some end })) × (s.outages ≡ [])

-- Hits within the window, at the given times.
unfoldable pub hits : Text → ℕ → ℕ → List Time → Redis → List (Option Verdict)
hits key limit window [] s = []
hits key limit window (now ∷ times) s =
    let (r, s') = allow_key key now limit window s in r ∷ hits key limit window times s'

-- The verdicts that a count gives: the hit number `n + 1` is allowed if it is within the limit.
abbrev pub expected : ℕ → ℕ → Time → List Time → List (Option Verdict)
expected n limit end [] = []
expected n limit end (now ∷ times) =
    some (verdict (n + 1) limit (end - now)) ∷ expected (n + 1) limit end times

abbrev pub AllBefore : Time → List Time → Type 0
AllBefore end [] = Unit {0}
AllBefore end (t ∷ times) = (t < end) × AllBefore end times

pub allow_key-Stands :
    (key : Text) (n limit window : ℕ) (now end : Time) (s : Redis)
    → 0 < n
    → now < end
    → Stands key n end s
    → ((allow_key key now limit window s).0 ≡ some (verdict (n + 1) limit (end - now)))
      × Stands key (n + 1) end (allow_key key now limit window s).1
unfolding allow_key
allow_key-Stands key n limit window now end s pos early (entry, up) = (
  ground (arith, text_eq_refl key),
  (ground (arith, text_eq_refl key), ground (arith, text_eq_refl key)),
)

pub allow_key-starts :
    (key : Text) (limit window : ℕ) (now : Time) (s : Redis)
    → alive now (s.counters key) ≡ none
    → s.outages ≡ []
    → ((allow_key key now limit window s).0 ≡ some (verdict 1 limit (now + window - now)))
      × Stands key 1 (now + window) (allow_key key now limit window s).1
unfolding allow_key
allow_key-starts key limit window now s gone up = (
  ground (arith, text_eq_refl key),
  (ground (arith, text_eq_refl key), ground (arith, text_eq_refl key)),
)

hits-expected :
    (key : Text) (n limit window : ℕ) (end : Time) (times : List Time) (s : Redis)
    → 0 < n
    → AllBefore end times
    → Stands key n end s
    → hits key limit window times s ≡ expected n limit end times
unfolding hits
hits-expected key n limit window end [] s pos early stands = refl
hits-expected key n limit window end (now ∷ times) s pos (first, early) stands =
    let (out, stands') = allow_key-Stands key n limit window now end s pos first stands in
    rw out (
      ap (λ (rs : List (Option Verdict)). some (verdict (n + 1) limit (end - now)) ∷ rs)
        (hits-expected key (n + 1) limit window end times _ (omega arith) early stands'))

abbrev pub allowed_in : List (Option Verdict) → ℕ
allowed_in [] = 0
allowed_in (none ∷ rs) = allowed_in rs
allowed_in (some v ∷ rs) = if v.allowed then suc (allowed_in rs) else allowed_in rs

allowed_in-expected :
    (n limit : ℕ) (end : Time) (times : List Time)
    → allowed_in (expected n limit end times) ≡ min (limit - n) (length times)
allowed_in-expected n limit end [] = omega arith
allowed_in-expected n limit end (now ∷ times) =
    ground (arith, allowed_in-expected (n + 1) limit end times)

-- While Redis answers, of the hits on a key within one window exactly the first `limit` are allowed:
-- with the hit that opens the window, as many as the smaller of the limit and the number of hits.
pub window_allows :
    (key : Text) (limit window : ℕ) (start : Time) (times : List Time) (s : Redis)
    → alive start (s.counters key) ≡ none
    → s.outages ≡ []
    → AllBefore (start + window) times
    → (hits key limit window (start ∷ times) s
        ≡ some (verdict 1 limit window) ∷ expected 1 limit (start + window) times)
      × (allowed_in (hits key limit window (start ∷ times) s) ≡ min limit (length times + 1))
unfolding hits
window_allows key limit window start times s gone up early =
    let (out, stands) = allow_key-starts key limit window start s gone up in
    let rest =
      hits-expected key 1 limit window (start + window) times (allow_key key start limit window s).1
        (omega arith) early stands in
    (
      ground (arith, out, rest),
      ground (arith, out, rest, allowed_in-expected 1 limit (start + window) times),
    )

-- The verdicts of a counter without an expiry do not depend on the times.
abbrev pub expected_forever : ℕ → ℕ → ℕ → List Time → List (Option Verdict)
expected_forever n limit window [] = []
expected_forever n limit window (now ∷ times) =
    some (verdict (n + 1) limit window) ∷ expected_forever (n + 1) limit window times

abbrev Sticks : Text → ℕ → Redis → Type 0
Sticks key n s = (s.counters key ≡ some (record { count = n; expires = none })) × (s.outages ≡ [])

allow_key-Sticks :
    (key : Text) (n limit window : ℕ) (now : Time) (s : Redis)
    → 0 < n
    → Sticks key n s
    → ((allow_key key now limit window s).0 ≡ some (verdict (n + 1) limit window))
      × Sticks key (n + 1) (allow_key key now limit window s).1
unfolding allow_key
allow_key-Sticks key n limit window now s pos (entry, up) = (
  ground (arith, text_eq_refl key),
  (ground (arith, text_eq_refl key), ground (arith, text_eq_refl key)),
)

hits-forever :
    (key : Text) (n limit window : ℕ) (times : List Time) (s : Redis)
    → 0 < n
    → Sticks key n s
    → hits key limit window times s ≡ expected_forever n limit window times
unfolding hits
hits-forever key n limit window [] s pos sticks = refl
hits-forever key n limit window (now ∷ times) s pos sticks =
    let (out, sticks') = allow_key-Sticks key n limit window now s pos sticks in
    rw out (
      ap (λ (rs : List (Option Verdict)). some (verdict (n + 1) limit window) ∷ rs)
        (hits-forever key (n + 1) limit window times _ (omega arith) sticks'))

-- If the hit that opens a window meets an outage at `EXPIRE` alone, it is an error, and the counter
-- never starts over: the later hits count on from 1 whatever the times between them, so from the hit
-- number `limit` on all are refused for good.
pub expire_outage_blocks :
    (key : Text) (limit window : ℕ) (start : Time) (times : List Time) (s : Redis)
    → alive start (s.counters key) ≡ none
    → s.outages ≡ false ∷ true ∷ []
    → ((allow_key key start limit window s).0 ≡ none)
      × (hits key limit window times (allow_key key start limit window s).1
          ≡ expected_forever 1 limit window times)
unfolding allow_key
expire_outage_blocks key limit window start times s gone down = (
  ground (arith, text_eq_refl key),
  hits-forever key 1 limit window times _ (omega arith)
      (ground (arith, text_eq_refl key), ground (arith, text_eq_refl key)),
)
