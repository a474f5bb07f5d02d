-- ===== src/Config/Origins.antt =====
-- `CORSAllowedOrigins` of backend/internal/config/config.go, on a list that was joined with commas.
use mathlib.Core.List.{append_assoc, append-nil}
use real_time_chat_app.Base.{
  false, List, [], ◌∷◌, ◌++◌, Text, text_eq, ◌≡◌, ◌≢◌, refl, sym, ◌∙◌, ap,
}
use real_time_chat_app.Strings.{join}
use real_time_chat_app.Strings.Split.{AllLack, split-join}
use real_time_chat_app.TrimSpace.{trim_space}
use real_time_chat_app.Config.{Config, trimmed_parts, cors_allowed_origins}

-- Texts that are not empty and have no white space at the ends.
abbrev pub AllTrimmed : List Text → Type 0
AllTrimmed [] = Unit {0}
AllTrimmed (origin ∷ origins) = (origin ≢ []) × (trim_space origin ≡ origin) × AllTrimmed origins

text_eq-nil : (s : Text) → s ≢ [] → text_eq s [] ≡ false
unfolding text_eq
text_eq-nil [] h = absurd (h refl)
text_eq-nil (c ∷ s) h = refl

trimmed_parts-trimmed :
    (origins done : List Text) → AllTrimmed origins → trimmed_parts origins done ≡ done ++ origins
unfolding trimmed_parts
trimmed_parts-trimmed [] done all = sym (append-nil done)
trimmed_parts-trimmed (origin ∷ origins) done (full, same, all) =
    rw (same, text_eq-nil origin full)
      (trimmed_parts-trimmed origins (done ++ origin ∷ []) all
        ∙ append_assoc done (origin ∷ []) origins)

-- Where the setting is a list of origins joined with commas, not empty and each of them not empty,
-- without a comma and without white space at the ends, those are the origins that are allowed.
pub cors_allowed_origins-join :
    (c : Config) (origins : List Text)
    → origins ≢ []
    → AllLack b',' origins
    → AllTrimmed origins
    → cors_allowed_origins (record c { cors_allowed_origin = join (b',' ∷ []) origins }) ≡ origins
unfolding cors_allowed_origins
cors_allowed_origins-join c origins some_origin lack all =
    ap (λ (parts : List Text). trimmed_parts parts []) (split-join b',' origins some_origin lack)
    ∙ trimmed_parts-trimmed origins [] all
