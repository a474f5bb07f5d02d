-- ===== src/RateLimit.antt =====
-- backend/internal/ratelimit/limiter.go and backend/internal/middleware/rate_limit.go: a counter per
-- key in Redis, whose expiry starts the next window. Times and durations are whole seconds, as `TTL`
-- reports them; a count does not reach the end of `int64`. The outages say which Redis commands
-- fail.
pub mod Windows
use real_time_chat_app.Base.{
  ℕ, suc, ◌+◌, ◌-◌, Bool, true, false, Option, none, some, List, [], ◌∷◌, ◌++◌, ◌==◌, ltb, leb,
  if◌then◌else◌, Text, codes, text_eq,
}
use real_time_chat_app.Models.{Time}

-- A counter, with the time at which it expires.
pub record Counter : Type 0 where
  pub count : ℕ
  pub expires : Option Time

pub record Redis : Type 0 where
  pub counters : Text → Option Counter
  pub outages : List Bool

-- `Result`: `retry_after` in seconds.
pub record Verdict : Type 0 where
  pub allowed : Bool
  pub limit : ℕ
  pub remaining : ℕ
  pub retry_after : ℕ

abbrev pub is_down : List Bool → Bool
is_down [] = false
is_down (down ∷ later) = down

abbrev pub later_of : List Bool → List Bool
later_of [] = []
later_of (down ∷ later) = later

abbrev pub next : Redis → Redis
next s = record s { outages = later_of s.outages }

abbrev pub store : Text → Option Counter → Redis → Redis
store key entry s = record s { counters = λ k. if text_eq k key then entry else s.counters k }

-- An entry past its time is gone.
abbrev pub alive : Time → Option Counter → Option Counter
alive now none = none
alive now (some entry) = elim entry.expires [
  | none ↦ some entry
  | some t ↦ if leb t now then none else some entry
]

-- `INCR` starts at 1 without an expiry, and keeps the expiry of an entry that is there.
abbrev pub incremented : Option Counter → Counter
incremented none = record { count = 1; expires = none }
incremented (some entry) = record entry { count = entry.count + 1 }

-- `EXPIRE` on the counter just written.
abbrev pub with_expiry : Time → ℕ → Counter → Counter
with_expiry now window entry = record entry { expires = some (now + window) }

-- `TTL`, and the window where Redis answers with a negative number.
abbrev pub ttl_or_window : Time → ℕ → Counter → ℕ
ttl_or_window now window entry = elim entry.expires [ none ↦ window | some t ↦ t - now ]

abbrev pub verdict : ℕ → ℕ → ℕ → Verdict
verdict count limit ttl = record {
  allowed = leb count limit;
  limit = limit;
  remaining = if ltb limit count then 0 else limit - count;
  retry_after = ttl;
}

-- The `TTL` command, and the result.
unfoldable pub read_ttl : Time → ℕ → ℕ → Counter → Redis → Option Verdict × Redis
read_ttl now limit window entry s =
    if is_down s.outages
    then (none, next s)
    else (some (verdict entry.count limit (ttl_or_window now window entry)), next s)

-- The first hit of a window sets its end.
unfoldable pub set_window : Text → Time → ℕ → ℕ → Counter → Redis → Option Verdict × Redis
unfolding read_ttl
set_window key now limit window entry s =
    if entry.count == 1
    then (if is_down s.outages
        then (none, next s)
        else read_ttl now limit window (with_expiry now window entry)
            (store key (some (with_expiry now window entry)) (next s)))
    else read_ttl now limit window entry s

-- `Allow` at the key, `none` being an error.
unfoldable pub allow_key : Text → Time → ℕ → ℕ → Redis → Option Verdict × Redis
unfolding set_window
allow_key key now limit window s =
    if is_down s.outages
    then (none, next s)
    else set_window key now limit window (incremented (alive now (s.counters key)))
        (store key (some (incremented (alive now (s.counters key)))) (next s))

-- `fmt.Sprintf("rate_limit:%s:%s", name, identifier)`
unfoldable pub rate_key : Text → Text → Text
rate_key name identifier = codes "rate_limit:" ++ (name ++ (codes ":" ++ identifier))

unfoldable pub allow : Text → Text → Time → ℕ → ℕ → Redis → Option Verdict × Redis
unfolding allow_key rate_key
allow name identifier now limit window s = allow_key (rate_key name identifier) now limit window s

-- What the middleware does with a request.
pub data Outcome : Type 0 where
  unauthorized internal_error : Outcome
  too_many : (limit remaining retry_after : ℕ) → Outcome
  passed : (limit remaining : ℕ) → Outcome

abbrev pub answer : Option Verdict → Outcome
answer none = internal_error
answer (some v) =
    if v.allowed
    then passed v.limit v.remaining
    else too_many v.limit v.remaining (if ltb v.retry_after 1 then 1 else v.retry_after)

-- `RateLimit`: the key is the client's address or the authenticated user, and may be empty.
unfoldable pub rate_limit : Text → Text → Time → ℕ → ℕ → Redis → Outcome × Redis
unfolding allow
rate_limit name key now limit window s =
    if text_eq key []
    then (unauthorized, s)
    else let (r, s') = allow name key now limit window s in (answer r, s')
