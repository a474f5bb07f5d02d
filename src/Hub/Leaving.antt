-- ===== src/Hub/Leaving.antt =====
-- `Unsubscribe` of backend/internal/realtime/hub.go: what it leaves in the maps.
use real_time_chat_app.Base.{
  ◌≡◌, ◌≢◌, refl, inl, inr, true, false, not, ◌&&◌, Option, none, some, List, [], ◌∷◌, ◌==◌,
  if◌then◌else◌, arith, Bool-cases, Option-cases, is_some,
}
use real_time_chat_app.Models.{Uuid}
use real_time_chat_app.Hub.{
  ClientId, Hub, member, without, clients_in, clients_of, close_client, drop_client, release_empty,
  unsubscribe_from, unsubscribe,
}
use real_time_chat_app.Hub.Invariant.{Distinct, IsSound, member-without, Distinct-without}

-- An empty set is not kept.
abbrev pub kept : List ClientId → Option (List ClientId)
kept [] = none
kept (k ∷ ks) = some (k ∷ ks)

without-absent : (k : ClientId) (ks : List ClientId) → member k ks ≡ false → without k ks ≡ ks
unfolding member without
without-absent k [] h = refl
without-absent k (x ∷ xs) h = ground (arith, without-absent k xs)

-- The hub in the terms that the invariant speaks of.
pub record HasLeft (c : Uuid) (k : ClientId) (h after : Hub) : Type 0 where
  pub lists :
      (d : Uuid)
      → after.conversations d
        ≡ (if d == c then kept (without k (clients_of h c)) else h.conversations d)
  pub states :
      (j : ClientId)
      → after.clients j
        ≡ (if member k (clients_of h c) && j == k then close_client (h.clients j) else h.clients j)
  pub marks :
      (d : Uuid)
      → after.subscribed d
        ≡ (if d == c then is_some (kept (without k (clients_of h c))) else h.subscribed d)
  pub opens :
      (d : Uuid)
      → after.redis_open d ≡ (
          if d == c
          then (if is_some (kept (without k (clients_of h c))) then 1 else 0)
          else h.redis_open d)

release_empty-HasLeft :
    (c : Uuid) (k : ClientId) (ks rest : List ClientId) (h : Hub)
    → IsSound h
    → h.conversations c ≡ some ks
    → member k ks ≡ true
    → without k ks ≡ rest
    → HasLeft c k h (release_empty c rest (drop_client c k ks h))
unfolding release_empty drop_client
release_empty-HasLeft c k ks [] h s e there left = record {
  lists = λ d. ground arith;
  states = λ j. ground arith;
  marks = λ d. ground arith;
  opens = λ d. ground (arith, s.counted c, s.matched c);
}
release_empty-HasLeft c k ks (x ∷ xs) h s e there left = record {
  lists = λ d. ground arith;
  states = λ j. ground arith;
  marks = λ d. ground (arith, s.matched c);
  opens = λ d. ground (arith, s.counted c, s.matched c);
}

absent-HasLeft :
    (c : Uuid) (k x : ClientId) (xs : List ClientId) (h : Hub)
    → IsSound h
    → h.conversations c ≡ some (x ∷ xs)
    → member k (x ∷ xs) ≡ false
    → HasLeft c k h h
absent-HasLeft c k x xs h s e absent =
    let same = without-absent k (x ∷ xs) absent in
    record {
      lists = λ d. ground (arith, same);
      states = λ j. ground (arith, same);
      marks = λ d. ground (arith, same, s.matched c);
      opens = λ d. ground (arith, same, s.counted c, s.matched c);
    }

unsubscribe_some-HasLeft :
    (c : Uuid) (k : ClientId) (ks : List ClientId) (h : Hub)
    → IsSound h
    → h.conversations c ≡ some ks
    → HasLeft c k h (unsubscribe_from c k (some ks) h)
unfolding unsubscribe_from
unsubscribe_some-HasLeft c k [] h s e = absurd (s.occupied c e)
unsubscribe_some-HasLeft c k (x ∷ xs) h s e = elim (Bool-cases (member k (x ∷ xs))) [
  | inl there ↦
      let lists : clients_of (drop_client c k (x ∷ xs) h) c ≡ without k (x ∷ xs) =
        unfold drop_client in ground arith in
      rw lists (release_empty-HasLeft c k (x ∷ xs) (without k (x ∷ xs)) h s e there refl)
  | inr absent ↦
      let same : release_empty c (clients_of (drop_client c k (x ∷ xs) h) c)
            (drop_client c k (x ∷ xs) h)
          ≡ h =
        unfold drop_client release_empty in ground arith in
      rw same (absent-HasLeft c k x xs h s e absent)
]

pub unsubscribe-HasLeft :
    (c : Uuid) (k : ClientId) (h : Hub) → IsSound h → HasLeft c k h (unsubscribe c k h)
unfolding unsubscribe
unsubscribe-HasLeft c k h s = elim (Option-cases (h.conversations c)) [
  | inl nobody ↦ rw nobody (
      unfold without in
      record {
        lists = λ d. ground arith;
        states = λ j. ground (arith, nobody);
        marks = λ d. ground (arith, s.matched d);
        opens = λ d. ground (arith, s.matched d, s.counted d);
      })
  | inr (ks, e) ↦ rw e (unsubscribe_some-HasLeft c k ks h s e)
]

member-kept : (j : ClientId) (ks : List ClientId) → member j (clients_in (kept ks)) ≡ member j ks
unfolding member
member-kept j [] = refl
member-kept j (x ∷ xs) = refl

Distinct-kept : (ks : List ClientId) → Distinct ks → Distinct (clients_in (kept ks))
Distinct-kept [] d = tt
Distinct-kept (x ∷ xs) d = d

kept-ne-nil : (ks : List ClientId) → kept ks ≢ some []
kept-ne-nil [] e = cc
kept-ne-nil (x ∷ xs) e = cc

module _ (c : Uuid) (k : ClientId) (h after : Hub) (s : IsSound h)
    (left : HasLeft c k h after) where
  pub member_after :
      (d : Uuid) (j : ClientId)
      → member j (clients_of after d)
        ≡ (if d == c then member j (clients_of h c) && not (j == k) else member j (clients_of h d))
  member_after d j = ground (
    arith,
    left.lists d,
    member-kept j (without k (clients_of h c)),
    member-without j k (clients_of h c),
  )

  Distinct-after : (d : Uuid) → Distinct (clients_of after d)
  Distinct-after d = elim (Bool-cases (d == c)) [
    | inl here ↦ rw (left.lists d, here) (Distinct-kept _ (Distinct-without k _ (s.distinct c)))
    | inr away ↦ rw (left.lists d, away) (s.distinct d)
  ]

  pub HasLeft-IsSound : IsSound after
  HasLeft-IsSound = record {
    listening = λ d j m.
        ground
          (arith, member_after d j, left.states j, s.listening d j, s.listening c j, s.apart d c j);
    apart = λ d e j m n.
        ground
          (arith, member_after d j, member_after e j, s.apart d e j, s.apart c e j, s.apart d c j);
    distinct = Distinct-after;
    occupied =
        λ d e. ground (arith, left.lists d, s.occupied d, kept-ne-nil (without k (clients_of h c)));
    matched = λ d. ground (arith, left.marks d, left.lists d, s.matched d);
    counted = λ d. ground (arith, left.marks d, left.opens d, s.counted d);
  }

-- `Unsubscribe` keeps the invariant, for a client that is there and for one that is not.
pub unsubscribe-IsSound :
    (c : Uuid) (k : ClientId) (h : Hub) → IsSound h → IsSound (unsubscribe c k h)
unsubscribe-IsSound c k h s =
    HasLeft-IsSound c k h (unsubscribe c k h) s (unsubscribe-HasLeft c k h s)
