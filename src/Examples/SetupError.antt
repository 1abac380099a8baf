-- ===== src/Examples/SetupError.antt =====
-- Metrics of setup failures: src/setup_error.rs.
use yj_sandbox.Base.{true, false, ◌≡◌, refl, [], ◌∷◌, Option, none, some, any, All, if◌then◌else◌}
use yj_sandbox.Base.Text.{
  Text, codes, text_eq, eq_ignore_ascii_case, to_ascii_lowercase, is_ascii_alphanumeric, trim,
  trim_matches,
}
use yj_sandbox.SetupError.{
  helper_log_failed, SetupFailure, sanitize_metric_tag_value, split_segments, join_segments,
  matches_name, redact_segment, redact_username_segments, home_usernames, redact_home_paths,
  sanitize_setup_metric_tag_value, metric_message,
}
use yj_sandbox.SetupError.Segments.{segments_of}
use yj_sandbox.SetupError.Redact.{redact-clean}

measuring : Unit {0}
unfolding text_eq eq_ignore_ascii_case to_ascii_lowercase is_ascii_alphanumeric trim trim_matches
    sanitize_metric_tag_value split_segments join_segments matches_name redact_segment
    redact_username_segments home_usernames redact_home_paths sanitize_setup_metric_tag_value
    metric_message
measuring = tt

unfoldable variables : Text → Option Text
unfolding text_eq
variables name = if text_eq name (codes "USER") then some (codes "alice") else none

abbrev failure : SetupFailure
failure = record { code = helper_log_failed; message = codes "open /home/alice/x: denied" }

metric_message_test : metric_message false variables failure ≡ codes "open_/home/_user_/x__denied"
unfolding measuring variables
metric_message_test = refl

user_is_no_name : any (matches_name true (codes "<user>")) (codes "Alice" ∷ []) ≡ false
unfolding measuring
user_is_no_name = refl

redact-clean_example :
    All
      (λ s. any (matches_name true s) (codes "Alice" ∷ []) ≡ false)
      (segments_of (redact_username_segments true (codes "/home/alice/x") (codes "Alice" ∷ [])))
redact-clean_example =
    redact-clean true (codes "Alice" ∷ []) (codes "/home/alice/x") user_is_no_name
