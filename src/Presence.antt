-- ===== src/Presence.antt =====
-- backend/internal/presence/service.go: the connections counted per user, and the Redis set
-- `presence:online_users`. A missing key of the Go map counts 0, so deleting a key sets it to 0. The
-- outages say which Redis commands fail; the mutex makes each method one step.
pub mod Sessions
pub mod Leak
use real_time_chat_app.Base.{
  ℕ, ◌+◌, ◌-◌, Bool, true, false, Option, none, some, List, [], ◌∷◌, map, ◌==◌, ltb, leb,
  if◌then◌else◌,
}
use real_time_chat_app.Models.{Uuid}

pub record Presence : Type 0 where
  pub counts : Uuid → ℕ
  pub online : Uuid → Bool
  pub outages : List Bool

-- `m[u] = a`
abbrev pub put {ℓ} : {A : Type ℓ} → (Uuid → A) → Uuid → A → Uuid → A
put m u a x = if x == u then a else m x

-- A write to the set: `true` comes back if the command got through.
unfoldable pub write_online : Uuid → Bool → Presence → Bool × Presence
write_online u value s = elim s.outages [
  | [] ↦ (true, record s { online = put s.online u value })
  | down ∷ later ↦
      if down
      then (false, record s { outages = later })
      else (true, record s { online = put s.online u value; outages = later })
]

unfoldable pub connect : Uuid → Presence → Bool × Presence
unfolding write_online
connect u s =
    let counted = record s { counts = put s.counts u (s.counts u + 1) } in
    if ltb 1 (s.counts u + 1) then (true, counted) else write_online u true counted

unfoldable pub disconnect : Uuid → Presence → Bool × Presence
unfolding write_online
disconnect u s =
    if leb (s.counts u) 1
    then write_online u false (record s { counts = put s.counts u 0 })
    else (true, record s { counts = put s.counts u (s.counts u - 1) })

-- `SMIsMember`, which is not sent for no users; `none` is an error.
unfoldable pub statuses : List Uuid → Presence → Option (List (Uuid × Bool)) × Presence
statuses [] s = (some [], s)
statuses (u ∷ us) s = elim s.outages [
  | [] ↦ (some (map (λ x. (x, s.online x)) (u ∷ us)), s)
  | down ∷ later ↦
      if down
      then (none, record s { outages = later })
      else (some (map (λ x. (x, s.online x)) (u ∷ us)), record s { outages = later })
]
