-- ===== src/SetupError.antt =====
-- Failures of the elevated setup and their text in metrics: src/setup_error.rs.
pub mod Metric
pub mod Segments
pub mod Redact
use yj_sandbox.Base.{
  ℕ, Bool, true, false, ◌&&◌, ◌||◌, not, List, [], ◌∷◌, ◌++◌, Option, none, some, any, all,
  is_empty, map, take, ◌==◌, if◌then◌else◌,
}
use yj_sandbox.Base.Text.{
  Text, codes, text_eq, eq_ignore_ascii_case, is_ascii_alphanumeric, trim, trim_matches,
}
use yj_sandbox.Paths.{or_else}

pub data SetupErrorCode : Type 0 where
  orchestrator_sandbox_dir_create_failed orchestrator_elevation_check_failed : SetupErrorCode
  orchestrator_elevation_required orchestrator_payload_serialize_failed : SetupErrorCode
  orchestrator_helper_launch_failed orchestrator_helper_launch_canceled : SetupErrorCode
  orchestrator_helper_exit_nonzero orchestrator_helper_report_read_failed : SetupErrorCode
  orchestrator_helper_incomplete helper_request_args_failed : SetupErrorCode
  helper_sandbox_dir_create_failed helper_log_failed : SetupErrorCode
  helper_user_provision_failed helper_users_group_create_failed : SetupErrorCode
  helper_user_create_or_update_failed helper_dpapi_protect_failed : SetupErrorCode
  helper_users_file_write_failed helper_setup_marker_write_failed : SetupErrorCode
  helper_sid_resolve_failed helper_capability_sid_failed : SetupErrorCode
  helper_firewall_com_init_failed helper_firewall_policy_access_failed : SetupErrorCode
  helper_firewall_policy_ineffective helper_firewall_rule_create_or_add_failed : SetupErrorCode
  helper_firewall_rule_verify_failed helper_read_acl_helper_spawn_failed : SetupErrorCode
  helper_sandbox_lock_failed helper_unknown_error : SetupErrorCode

-- The text of each code in metrics.
abbrev pub as_str : SetupErrorCode → Text
as_str orchestrator_sandbox_dir_create_failed = codes "orchestrator_sandbox_dir_create_failed"
as_str orchestrator_elevation_check_failed = codes "orchestrator_elevation_check_failed"
as_str orchestrator_elevation_required = codes "orchestrator_elevation_required"
as_str orchestrator_payload_serialize_failed = codes "orchestrator_payload_serialize_failed"
as_str orchestrator_helper_launch_failed = codes "orchestrator_helper_launch_failed"
as_str orchestrator_helper_launch_canceled = codes "orchestrator_helper_launch_canceled"
as_str orchestrator_helper_exit_nonzero = codes "orchestrator_helper_exit_nonzero"
as_str orchestrator_helper_report_read_failed = codes "orchestrator_helper_report_read_failed"
as_str orchestrator_helper_incomplete = codes "orchestrator_helper_incomplete"
as_str helper_request_args_failed = codes "helper_request_args_failed"
as_str helper_sandbox_dir_create_failed = codes "helper_sandbox_dir_create_failed"
as_str helper_log_failed = codes "helper_log_failed"
as_str helper_user_provision_failed = codes "helper_user_provision_failed"
as_str helper_users_group_create_failed = codes "helper_users_group_create_failed"
as_str helper_user_create_or_update_failed = codes "helper_user_create_or_update_failed"
as_str helper_dpapi_protect_failed = codes "helper_dpapi_protect_failed"
as_str helper_users_file_write_failed = codes "helper_users_file_write_failed"
as_str helper_setup_marker_write_failed = codes "helper_setup_marker_write_failed"
as_str helper_sid_resolve_failed = codes "helper_sid_resolve_failed"
as_str helper_capability_sid_failed = codes "helper_capability_sid_failed"
as_str helper_firewall_com_init_failed = codes "helper_firewall_com_init_failed"
as_str helper_firewall_policy_access_failed = codes "helper_firewall_policy_access_failed"
as_str helper_firewall_policy_ineffective = codes "helper_firewall_policy_ineffective"
as_str helper_firewall_rule_create_or_add_failed = codes "helper_firewall_rule_create_or_add_failed"
as_str helper_firewall_rule_verify_failed = codes "helper_firewall_rule_verify_failed"
as_str helper_read_acl_helper_spawn_failed = codes "helper_read_acl_helper_spawn_failed"
as_str helper_sandbox_lock_failed = codes "helper_sandbox_lock_failed"
as_str helper_unknown_error = codes "helper_unknown_error"

pub record SetupFailure : Type 0 where
  pub code : SetupErrorCode
  pub message : Text

-- `Display`
abbrev pub display : SetupFailure → Text
display f = as_str f.code ++ codes ": " ++ f.message

abbrev pub max_len : ℕ
max_len = 256

abbrev pub sanitize_char : ℕ → ℕ
sanitize_char c =
    if is_ascii_alphanumeric c || c == b'.' || c == b'_' || c == b'-' || c == b'/' then c else b'_'

unfoldable pub sanitize_metric_tag_value : Text → Text
unfolding is_ascii_alphanumeric trim_matches
sanitize_metric_tag_value value =
    let trimmed = trim_matches (λ c. c == b'_') (map sanitize_char value) in
    if is_empty trimmed || all (λ c. not (is_ascii_alphanumeric c)) trimmed
    then codes "unspecified"
    else take max_len trimmed

-- The segments between the separators `\` and `/`, and those separators.
abbrev pub is_separator : ℕ → Bool
is_separator c = c == 92 || c == b'/'

unfoldable pub split_segments : Text → List Text → List ℕ → Text → List Text × List ℕ
split_segments current segments separators [] = (segments ++ current ∷ [], separators)
split_segments current segments separators (c ∷ value) = elim (is_separator c) [
  | true ↦ split_segments [] (segments ++ current ∷ []) (separators ++ c ∷ []) value
  | false ↦ split_segments (current ++ c ∷ []) segments separators value
]

-- the last loop: each segment with the separator of its index, if there is one
unfoldable pub join_segments : List Text → List ℕ → Text
join_segments [] separators = []
join_segments (s ∷ segments) [] = s ++ join_segments segments []
join_segments (s ∷ segments) (c ∷ separators) = s ++ c ∷ join_segments segments separators

module _ (windows : Bool) where
  -- the comparison that `cfg!(windows)` selects
  unfoldable pub matches_name : Text → Text → Bool
  unfolding text_eq
  matches_name segment name =
      if windows then eq_ignore_ascii_case segment name else text_eq segment name

  unfoldable pub redact_segment : List Text → Text → Text
  redact_segment usernames segment =
      if any (matches_name segment) usernames then codes "<user>" else segment

  unfoldable pub redact_username_segments : Text → List Text → Text
  unfolding split_segments join_segments
  redact_username_segments value usernames =
      if is_empty usernames
      then value
      else (let (segments, separators) = split_segments [] [] [] value in
          join_segments (map (redact_segment usernames) segments) separators)

  -- The names that the variables `USERNAME` and `USER` give.
  unfoldable pub home_usernames : Option Text → Option Text → List Text
  home_usernames username user =
      let of_username : List Text = elim username [
        | none ↦ []
        | some u ↦ if is_empty (trim u) then [] else u ∷ []
      ] in
      elim user [
        | none ↦ of_username
        | some u ↦
            if not (is_empty (trim u)) && not (any (λ v. eq_ignore_ascii_case v u) of_username)
            then of_username ++ u ∷ []
            else of_username
      ]

  unfoldable pub redact_home_paths : (Text → Option Text) → Text → Text
  redact_home_paths var value =
      redact_username_segments value (home_usernames (var (codes "USERNAME")) (var (codes "USER")))

  unfoldable pub sanitize_setup_metric_tag_value : (Text → Option Text) → Text → Text
  sanitize_setup_metric_tag_value var value =
      sanitize_metric_tag_value (redact_home_paths var value)

  unfoldable pub metric_message : (Text → Option Text) → SetupFailure → Text
  metric_message var f = sanitize_setup_metric_tag_value var f.message
