-- ===== src/SetupError/Metric.antt =====
-- What a failure's code and message become in metrics: src/setup_error.rs.
use yj_sandbox.Base.{
  ℕ, suc, ◌≤◌, Bool, false, ◌||◌, not, ◌≡◌, refl, List, [], ◌∷◌, Option, none, some, all, All,
  is_empty, map, take, length, All-reverse, All-take, length-take, ◌==◌, if◌then◌else◌, arith,
  Bool-cases, inl, inr,
}
use mathlib.Core.List.{reverse}
use yj_sandbox.Base.Text.{
  Text, codes, text_eq, is_ascii_alphanumeric, trim_matches, trim_start_while, trim_end_while,
}
use yj_sandbox.SetupError.{
  SetupErrorCode, orchestrator_sandbox_dir_create_failed, orchestrator_elevation_check_failed,
  orchestrator_elevation_required, orchestrator_payload_serialize_failed,
  orchestrator_helper_launch_failed, orchestrator_helper_launch_canceled,
  orchestrator_helper_exit_nonzero, orchestrator_helper_report_read_failed,
  orchestrator_helper_incomplete, helper_request_args_failed, helper_sandbox_dir_create_failed,
  helper_log_failed, helper_user_provision_failed, helper_users_group_create_failed,
  helper_user_create_or_update_failed, helper_dpapi_protect_failed, helper_users_file_write_failed,
  helper_setup_marker_write_failed, helper_sid_resolve_failed, helper_capability_sid_failed,
  helper_firewall_com_init_failed, helper_firewall_policy_access_failed,
  helper_firewall_policy_ineffective, helper_firewall_rule_create_or_add_failed,
  helper_firewall_rule_verify_failed, helper_read_acl_helper_spawn_failed,
  helper_sandbox_lock_failed, helper_unknown_error, as_str, SetupFailure, sanitize_char,
  sanitize_metric_tag_value, redact_home_paths, sanitize_setup_metric_tag_value, metric_message,
}

abbrev pub all_codes : List SetupErrorCode
all_codes =
    orchestrator_sandbox_dir_create_failed ∷ orchestrator_elevation_check_failed
    ∷ orchestrator_elevation_required ∷ orchestrator_payload_serialize_failed
    ∷ orchestrator_helper_launch_failed ∷ orchestrator_helper_launch_canceled
    ∷ orchestrator_helper_exit_nonzero ∷ orchestrator_helper_report_read_failed
    ∷ orchestrator_helper_incomplete ∷ helper_request_args_failed ∷ helper_sandbox_dir_create_failed
    ∷ helper_log_failed ∷ helper_user_provision_failed ∷ helper_users_group_create_failed
    ∷ helper_user_create_or_update_failed ∷ helper_dpapi_protect_failed
    ∷ helper_users_file_write_failed ∷ helper_setup_marker_write_failed ∷ helper_sid_resolve_failed
    ∷ helper_capability_sid_failed ∷ helper_firewall_com_init_failed
    ∷ helper_firewall_policy_access_failed ∷ helper_firewall_policy_ineffective
    ∷ helper_firewall_rule_create_or_add_failed ∷ helper_firewall_rule_verify_failed
    ∷ helper_read_acl_helper_spawn_failed ∷ helper_sandbox_lock_failed ∷ helper_unknown_error ∷ []

abbrev pub find_code : List SetupErrorCode → Text → Option SetupErrorCode
find_code [] t = none
find_code (c ∷ cs) t = if text_eq (as_str c) t then some c else find_code cs t

-- The first code whose text is the one given, which is how the variants' serialised names are read.
unfoldable pub code_of : Text → Option SetupErrorCode
unfolding text_eq
code_of t = find_code all_codes t

-- The text of a code identifies it: no two codes have the same.
as_str-round_trip : (c : SetupErrorCode) → code_of (as_str c) ≡ some c
unfolding code_of
as_str-round_trip orchestrator_sandbox_dir_create_failed = refl
as_str-round_trip orchestrator_elevation_check_failed = refl
as_str-round_trip orchestrator_elevation_required = refl
as_str-round_trip orchestrator_payload_serialize_failed = refl
as_str-round_trip orchestrator_helper_launch_failed = refl
as_str-round_trip orchestrator_helper_launch_canceled = refl
as_str-round_trip orchestrator_helper_exit_nonzero = refl
as_str-round_trip orchestrator_helper_report_read_failed = refl
as_str-round_trip orchestrator_helper_incomplete = refl
as_str-round_trip helper_request_args_failed = refl
as_str-round_trip helper_sandbox_dir_create_failed = refl
as_str-round_trip helper_log_failed = refl
as_str-round_trip helper_user_provision_failed = refl
as_str-round_trip helper_users_group_create_failed = refl
as_str-round_trip helper_user_create_or_update_failed = refl
as_str-round_trip helper_dpapi_protect_failed = refl
as_str-round_trip helper_users_file_write_failed = refl
as_str-round_trip helper_setup_marker_write_failed = refl
as_str-round_trip helper_sid_resolve_failed = refl
as_str-round_trip helper_capability_sid_failed = refl
as_str-round_trip helper_firewall_com_init_failed = refl
as_str-round_trip helper_firewall_policy_access_failed = refl
as_str-round_trip helper_firewall_policy_ineffective = refl
as_str-round_trip helper_firewall_rule_create_or_add_failed = refl
as_str-round_trip helper_firewall_rule_verify_failed = refl
as_str-round_trip helper_read_acl_helper_spawn_failed = refl
as_str-round_trip helper_sandbox_lock_failed = refl
as_str-round_trip helper_unknown_error = refl

-- A character that a tag may have.
abbrev pub IsTagChar : ℕ → Type 0
IsTagChar c = sanitize_char c ≡ c

sanitize_char-IsTagChar : (c : ℕ) → IsTagChar (sanitize_char c)
unfolding is_ascii_alphanumeric
sanitize_char-IsTagChar c = ground arith

map-IsTagChar : (t : Text) → All IsTagChar (map sanitize_char t)
map-IsTagChar [] = tt
map-IsTagChar (c ∷ t) = (sanitize_char-IsTagChar c, map-IsTagChar t)

module _ (P : ℕ → Type 0) (test : ℕ → Bool) where
  All-trim_start_while : (s : Text) → All P s → All P (trim_start_while test s)
  unfolding trim_start_while
  All-trim_start_while [] h = tt
  All-trim_start_while (c ∷ s) h = elim (Bool-cases (test c)) [
    | inl off ↦ rw off (All-trim_start_while s h.1)
    | inr on ↦ rw on h
  ]

  All-trim_matches : (s : Text) → All P s → All P (trim_matches test s)
  unfolding trim_matches trim_end_while
  All-trim_matches s h =
      let start = trim_start_while test s in
      All-reverse P (trim_start_while test (reverse start))
        (All-trim_start_while (reverse start) (All-reverse P start (All-trim_start_while s h)))

-- A value for a metric's tag.
pub record IsTag (t : Text) : Type 0 where
  pub is_short : length t ≤ 256
  pub is_filled : is_empty t ≡ false
  pub has_tag_chars : All IsTagChar t

unspecified-IsTag : IsTag (codes "unspecified")
unfolding is_ascii_alphanumeric
unspecified-IsTag = record {
  is_short = omega arith;
  is_filled = refl;
  has_tag_chars =
      (refl, (refl, (refl, (refl, (refl, (refl, (refl, (refl, (refl, (refl, (refl, tt)))))))))));
}

take-filled : (n : ℕ) (t : Text) → is_empty t ≡ false → is_empty (take (suc n) t) ≡ false
take-filled n [] e = e
take-filled n (c ∷ t) e = refl

pub sanitize_metric_tag_value-IsTag : (value : Text) → IsTag (sanitize_metric_tag_value value)
unfolding sanitize_metric_tag_value
sanitize_metric_tag_value-IsTag value =
    let trimmed = trim_matches (λ c. c == b'_') (map sanitize_char value) in
    elim (Bool-cases (is_empty trimmed || all (λ c. not (is_ascii_alphanumeric c)) trimmed)) [
      | inl poor ↦ rw poor unspecified-IsTag
      | inr rich ↦ rw rich (record {
        is_short = length-take 256 trimmed;
        is_filled = take-filled 255 trimmed (ground arith);
        has_tag_chars = All-take IsTagChar 256 trimmed (
            All-trim_matches IsTagChar (λ c. c == b'_') (map sanitize_char value)
              (map-IsTagChar value));
      })
    ]

-- Whatever the message, and whatever the names of the user, a failure's message becomes a tag: one
-- to 256 characters, each an ASCII letter or digit or one of `.`, `_`, `-` and `/`.
metric_message-IsTag :
    (windows : Bool) (var : Text → Option Text) (f : SetupFailure)
    → IsTag (metric_message windows var f)
unfolding metric_message sanitize_setup_metric_tag_value
metric_message-IsTag windows var f =
    sanitize_metric_tag_value-IsTag (redact_home_paths windows var f.message)
