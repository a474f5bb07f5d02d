-- ===== src/Tests/Router.antt =====
-- The theorems on the middleware of the routes at concrete requests.
use Prim.Native.Nat.{min}
use real_time_chat_app.Base.{
  ◌+◌, ◌≡◌, subst, ltb, refl, arith, false, true, Option, none, some, [], ◌∷◌, if◌then◌else◌, Text,
  codes, text_eq,
}
use real_time_chat_app.Models.{Uuid}
use real_time_chat_app.Strings.{fields, equal_fold}
use real_time_chat_app.Handlers.{Request}
use real_time_chat_app.Handlers.Reading.{Libraries}
use real_time_chat_app.Handlers.Requests.{create_message}
use real_time_chat_app.Auth.{Claims, SigningMethod, hs256, Jwt, claims_of, generate_token}
use real_time_chat_app.Router.{shows_presence, changes, authorize, Backend, Visit, serve_route}
use real_time_chat_app.Auth
use real_time_chat_app.Router.Guarded.{Guarded, serve_route-Guarded}
use real_time_chat_app.Router.Budgets.{messaging}
use real_time_chat_app.Router.Hits.{is_for}
use real_time_chat_app.Router.Limits.{visits_for, served_for, served_in_windows}
use real_time_chat_app.Router.Tokens.{generate_token-authorize, IsSigned}
use real_time_chat_app.Tests.{in_team, person}

-- An identifier is one byte, and a token is the identifier of its user.
abbrev parse_byte : Text → Option Uuid
parse_byte (c ∷ []) = some c
parse_byte _ = none

abbrev libs : Libraries
libs = record {
  parse = parse_byte;
  parse_time = λ given. none;
  ilike = text_eq;
  collate = λ a b. true;
}

abbrev claims_for : Text → Claims
claims_for token = record {
  user_id = token;
  email = [];
  subject = token;
  issued_at = none;
  expires_at = none;
}

abbrev parse_token : Text → Option Claims
parse_token token = some (claims_for token)

abbrev request : Request
request = record {
  user_id = none;
  conversation_id = 10 ∷ [];
  participant_id = [];
  message_id = [];
  body = some (codes "hello");
  search = [];
  limit = [];
  before = [];
  ids = [];
}

-- User 0x31, who takes no part in the room, sends a message.
abbrev visit : Visit
visit = record {
  route = changes create_message;
  header = codes "bearer 1";
  now = 100;
  new_id = 20;
  request = request;
}

abbrev later_visit : Visit
later_visit = record visit { now = 130 }

abbrev other_visit : Visit
other_visit = record visit { header = codes "bearer 2"; now = 120 }

-- Who is online.
abbrev look : Visit
look = record visit { route = shows_presence; now = 150 }

abbrev next_visit : Visit
next_visit = record visit { now = 160 }

abbrev backend : Backend
backend = record {
  redis = record { counters = λ k. none; outages = [] };
  world = in_team;
  presence = record { counts = λ u. 0; online = λ u. false; outages = [] };
}

serve_route-Guarded_example :
    Guarded libs parse_token visit backend (serve_route libs parse_token visit backend)
serve_route-Guarded_example = serve_route-Guarded libs parse_token visit backend

token_one : authorize parse_token (codes "bearer 1") ≡ some (claims_for (codes "1"))
unfolding authorize fields equal_fold text_eq
token_one = refl

is_own : is_for parse_token (codes "1") messaging visit ≡ true
unfolding authorize fields equal_fold text_eq
is_own = refl

is_own_later : is_for parse_token (codes "1") messaging next_visit ≡ true
unfolding authorize fields equal_fold text_eq
is_own_later = refl

one_given : text_eq (codes "1") [] ≡ false
unfolding text_eq
one_given = refl

-- Somebody else and another route come in between.
served_in_windows_example :
    served_for libs parse_token
      (codes "1")
      messaging
      (visit ∷ other_visit ∷ later_visit ∷ look ∷ next_visit ∷ look ∷ [])
      backend
    ≡ min 240
        (visits_for parse_token (codes "1") messaging (other_visit ∷ later_visit ∷ look ∷ []) + 1)
      + min 240 (visits_for parse_token (codes "1") messaging (look ∷ []) + 1)
served_in_windows_example =
    served_in_windows libs parse_token (codes "1") messaging one_given visit
      (other_visit ∷ later_visit ∷ look ∷ []) next_visit (look ∷ []) backend is_own is_own_later
      refl refl (omega arith, (omega arith, (omega arith, tt))) (omega arith) (omega arith, tt)

bearer_folds : equal_fold (codes "BeareR") (codes "Bearer") ≡ true
unfolding equal_fold
bearer_folds = refl

abbrev ann_claims : Claims
ann_claims = claims_of (λ u. u ∷ []) 100 (person 1 (codes "ann"))

-- A library that has signed one text.
abbrev jwt : Jwt
jwt = record {
  sign = λ method claims secret. some (codes "ab");
  parse = λ key now value.
      if ltb now 28900 then some (record { claims = ann_claims; valid = true }) else none;
}

jwt-IsSigned :
    (value : Text)
    → jwt.sign hs256 ann_claims (codes "key") ≡ some value
    → IsSigned jwt hs256 ann_claims (codes "key") value
jwt-IsSigned value made =
    let same : codes "ab" ≡ value = cc in
    subst (IsSigned jwt hs256 ann_claims (codes "key")) same record {
      visible = ground arith;
      full = λ e. cc;
      reads = λ key now end known ends early. ground arith;
      expires = λ key now end ends late. ground arith;
    }

made_ab :
    generate_token jwt (λ u. u ∷ []) (codes "key") 100 (person 1 (codes "ann")) ≡ some (codes "ab")
unfolding generate_token
made_ab = refl

generate_token-authorize_example :
    authorize (Auth.parse_token jwt (codes "key") 500) (codes "BeareR ab") ≡ some ann_claims
generate_token-authorize_example =
    generate_token-authorize jwt (λ u. u ∷ []) (codes "key") 100 (person 1 (codes "ann"))
      (codes "BeareR") (codes "ab") 500 (ground arith) bearer_folds made_ab jwt-IsSigned
