-- ===== src/Service/Messages/History.antt =====
-- What a page of messages is: `ListForConversation` of the service, over that of the repository.
use mathlib.Core.List.{perm_middle}
use real_time_chat_app.Base.{
  not, ◌<◌, ◌==◌, ◌↔◌, Bool, none, some, ◌∷◌, if◌then◌else◌, by_test, ℕ, ◌≡◌, refl, sym, ap, subst,
  ◌∙◌, true, Option, List, [], ◌++◌, leb, arith, filter, length, take, sort, is_some,
}
use real_time_chat_app.Base.Sorting.{
  take-rest, length-take, sort-Perm, sort-Pairwise, length-sort, length-reverse, Comes,
}
use Prim.Native.Nat.{min}
use mathlib.Core.Bool.{Bool-set}
use mathlib.Core.List.{
  reverse, Perm, Pairwise, Pairwise-append, Pairwise-reverse, Mem, mem-reverse, reverse_perm,
}
use mathlib.Core.List.Perm
use real_time_chat_app.Models.{Uuid, Time, Message}
use real_time_chat_app.Store.{World, Db, ok, guard, pure}
use real_time_chat_app.Store.Online.{query_yields, then_ok}
use real_time_chat_app.Store.Tables.{find_row}
use real_time_chat_app.Repository.Participants.{is_participant}
use real_time_chat_app.Repository.Messages.{in_page, newer_first, select_page}
use real_time_chat_app.Repository.Pages
use real_time_chat_app.Repository.Pages.{page_limit, reverse_messages}
use real_time_chat_app.Repository.Reverse.{reverse_messages-reverse}
use real_time_chat_app.Service.Messages.{clamp_limit, ensure_participant, list_for_conversation}

-- Messages of the conversation, from before the time if one is given.
abbrev pub IsFrom : Uuid → Option Time → Message → Type 0
IsFrom c none m = m.conversation_id ≡ c
IsFrom c (some end) m = (m.conversation_id ≡ c) × (m.created_at < end)

abbrev pub Every : (Message → Type 0) → List Message → Type 0
Every P [] = Unit {0}
Every P (m ∷ ms) = P m × Every P ms

abbrev pub NoNewer : Message → Message → Type 0
NoNewer a b = leb a.created_at b.created_at ≡ true

-- The table is the messages that are meant and the others; the page is the newest of those that are
-- meant, as many as fit, the oldest first.
pub record IsPage (c : Uuid) (before : Option Time) (limit : ℕ) (db : Db) (page : List Message)
    : Type 0 where
  pub meant : List Message
  pub others : List Message
  pub table : Perm (meant ++ others) db.messages
  pub wanted : Every (IsFrom c before) meant
  pub unwanted : Every (λ m. ¬ IsFrom c before m) others
  pub rest : List Message
  pub all : Perm (page ++ rest) meant
  pub ordered : Pairwise NoNewer page
  pub newest : (a : Message) → Mem a rest → (b : Message) → Mem b page → NoNewer a b
  pub fits : length page ≡ min limit (length meant)

in_page_iff :
    (c : Uuid) (before : Option Time) (m : Message)
    → (in_page c before m ≡ true) ↔ IsFrom c before m
in_page_iff c none m = ((λ h. ground arith), (λ h. ground arith))
in_page_iff c (some end) m = ((λ h. (ground arith, ground arith)), (λ h. ground arith))

out_of_page :
    (c : Uuid) (before : Option Time) (m : Message)
    → not (in_page c before m) ≡ true
    → ¬ IsFrom c before m
out_of_page c before m out h =
    let inside : in_page c before m ≡ true = (in_page_iff c before m).1 h in ground arith

-- The two parts of a table that a test makes.
module _ (p : Message → Bool) where
  filter-Perm : (ms : List Message) → Perm (filter p ms ++ filter (λ m. not (p m)) ms) ms
  unfolding filter
  filter-Perm [] = Perm.refl []
  filter-Perm (m ∷ ms) =
      let rest = filter-Perm ms in
      by_test
        (λ b.
          Perm
            ((if b then m ∷ filter p ms else filter p ms)
              ++ (if not b then m ∷ filter (λ x. not (p x)) ms else filter (λ x. not (p x)) ms))
            (m ∷ ms))
        (p m) (λ kept. Perm.cons m rest)
        (λ dropped.
          Perm.trans (perm_middle (filter p ms) (filter (λ x. not (p x)) ms)) (Perm.cons m rest))

  filter-Every :
      (P : Message → Type 0)
      → ((m : Message) → p m ≡ true → P m)
      → (ms : List Message) → Every P (filter p ms)
  unfolding filter
  filter-Every P h [] = tt
  filter-Every P h (m ∷ ms) =
      let rest = filter-Every P h ms in
      by_test (λ b. Every P (if b then m ∷ filter p ms else filter p ms)) (p m)
        (λ kept. (h m kept, rest)) (λ dropped. rest)

module _ (c : Uuid) (before : Option Time) (limit : ℕ) (db : Db) where
  abbrev candidates : List Message
  candidates = filter (in_page c before) db.messages

  abbrev sorted : List Message
  sorted = sort newer_first candidates

  sorted-Pairwise : Pairwise (Comes newer_first) sorted
  sorted-Pairwise =
      sort-Pairwise newer_first (λ a b h. ground arith) (λ a b d h k. ground arith) candidates

  reversed-IsPage : IsPage c before limit db (reverse (take limit sorted))
  reversed-IsPage =
      let (rest, split) = take-rest limit sorted in
      let (newer, older, apart) =
        (Pairwise-append (λ a b. Bool-set (newer_first a b) true)).0
          (subst (Pairwise (Comes newer_first)) (sym split) sorted-Pairwise) in
      record {
        meant = candidates;
        others = filter (λ m. not (in_page c before m)) db.messages;
        table = filter-Perm (in_page c before) db.messages;
        wanted = filter-Every (in_page c before) _ (λ m. (in_page_iff c before m).0) db.messages;
        unwanted =
            filter-Every (λ m. not (in_page c before m)) _ (out_of_page c before) db.messages;
        rest = rest;
        all = Perm.trans (Perm.append_right rest (reverse_perm (take limit sorted))) (
            subst (λ (ms : List Message). Perm ms candidates) (sym split)
              (sort-Perm newer_first candidates));
        ordered = (Pairwise-reverse (λ a b. Bool-set (leb a.created_at b.created_at) true)).1 newer;
        newest = λ a out b shown. apart b (mem-reverse.0 shown) a out;
        fits =
            length-reverse (take limit sorted)
            ∙ length-take limit sorted
            ∙ ap (λ (n : ℕ). min limit n) (length-sort newer_first candidates);
      }

  select_page-IsPage : IsPage c before limit db (reverse_messages (select_page c before limit db))
  unfolding select_page
  select_page-IsPage = rw (reverse_messages-reverse (take limit sorted)) reversed-IsPage

clamp_limit-page_limit : (limit : ℕ) → page_limit (clamp_limit limit) ≡ clamp_limit limit
unfolding clamp_limit
clamp_limit-page_limit limit = ground arith

module _ (c u : Uuid) (before : Option Time) (limit : ℕ) (w : World) where
  ensure_participant-ok :
      w.outages ≡ []
      → is_some (find_row c u w.db.participants) ≡ true
      → ensure_participant c u w ≡ (ok tt, w)
  unfolding ensure_participant is_participant guard pure
  ensure_participant-ok up there =
      then_ok _ _ true w w (query_yields _ true w up (ap ok there)) ∙ refl

  repository_page :
      w.outages ≡ []
      → Pages.list_for_conversation c before (clamp_limit limit) w
        ≡ (ok (reverse_messages (select_page c before (clamp_limit limit) w.db)), w)
  unfolding Pages.list_for_conversation
  repository_page up = query_yields _ _ w up (
      ap (λ (n : ℕ). ok (reverse_messages (select_page c before n w.db)))
        (clamp_limit-page_limit limit))

-- The number of messages that a request with a limit stands for.
abbrev pub effective_limit : ℕ → ℕ
effective_limit limit = if limit == 0 then 50 else min limit 100

clamp_limit-effective_limit : (limit : ℕ) → clamp_limit limit ≡ effective_limit limit
unfolding clamp_limit
clamp_limit-effective_limit limit = ground arith

-- While the database answers, a participant who asks for the messages of a conversation gets the newest
-- ones before the given time, the oldest of them first: as many as the limit, which is 50 if it is
-- given as 0 and at most 100, or all there are; whatever is left out is no newer than anything in the
-- page. The database stays as it is.
pub list_for_conversation-IsPage :
    (c u : Uuid) (before : Option Time) (limit : ℕ) (w : World)
    → w.outages ≡ []
    → is_some (find_row c u w.db.participants) ≡ true
    → (page : List Message) × (list_for_conversation c u before limit w ≡ (ok page, w))
      × IsPage c before (effective_limit limit) w.db page
unfolding list_for_conversation
list_for_conversation-IsPage c u before limit w up there = (
  _,
  then_ok (ensure_participant c u) _ tt w w (ensure_participant-ok c u before limit w up there)
      ∙ repository_page c u before limit w up,
  subst
      (λ (n : ℕ).
        IsPage c before n w.db (reverse_messages (select_page c before (clamp_limit limit) w.db)))
      (clamp_limit-effective_limit limit) (select_page-IsPage c before (clamp_limit limit) w.db),
)
