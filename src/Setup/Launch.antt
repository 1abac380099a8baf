-- ===== src/Setup/Launch.antt =====
-- How the setup runs its helper and what it makes of the helper's exit: `run_elevated_setup`,
-- `run_setup_refresh` and what they call in src/setup.rs, and the files that they leave, src/identity.rs.
-- One caller is looked at (Setup/Flights has several); what the code calls is the record `Launcher`.
pub mod Argument
pub mod Outcomes
use yj_sandbox.Base.{
  ℕ, ◌+◌, ◌*◌, Bool, true, false, ◌&&◌, ◌||◌, not, List, [], ◌∷◌, ◌++◌, Option, none, some, any,
  is_empty, replicate, ltb, ◌==◌, if◌then◌else◌,
}
use yj_sandbox.Base.Outcome.{Result, ok, err}
use yj_sandbox.Base.Text.{Text}
use yj_sandbox.Base.Host.{Host, FilePath}
use yj_sandbox.SetupError.{
  SetupErrorCode, SetupFailure, orchestrator_sandbox_dir_create_failed,
  orchestrator_elevation_check_failed, orchestrator_payload_serialize_failed,
  orchestrator_helper_launch_failed, orchestrator_helper_launch_canceled,
  orchestrator_helper_exit_nonzero, orchestrator_helper_report_read_failed,
  orchestrator_helper_incomplete,
}
use yj_sandbox.SshConfig.{Files}
use yj_sandbox.Setup.{
  setup_version, sandbox_dir, setup_marker_path, sandbox_users_path, SandboxSetupRequest,
  SetupRootOverrides,
}
use yj_sandbox.Setup.Roots.{Directories}
use yj_sandbox.Setup.Ports.{OfflineProxySettings}
use yj_sandbox.Setup.Payload.{ElevationPayload, refresh_payload, elevated_provisioning_payload}

pub record SetupMarker : Type 0 where
  pub version : ℕ
  pub offline_username : Text
  pub online_username : Text
  pub created_at : Option Text
  pub proxy_ports : List ℕ
  pub allow_local_binding : Bool

pub record SandboxUserRecord : Type 0 where
  pub username : Text
  pub password : Text

pub record SandboxUsersFile : Type 0 where
  pub version : ℕ
  pub offline : SandboxUserRecord
  pub online : SandboxUserRecord

-- `version_matches`
abbrev pub marker_matches : SetupMarker → Bool
marker_matches marker = marker.version == setup_version

abbrev pub users_match : SandboxUsersFile → Bool
users_match users = users.version == setup_version

-- How a run of the helper ends: with an exit code, if the system has one for it.
pub data HelperRun : Type 0 where
  not_launched canceled : HelperRun
  exited : Option ℕ → HelperRun

pub record Launcher : Type 1 where
  pub World : Type 0
  -- `none` for a file that cannot be read
  pub read_to_string : World → FilePath → Option Text
  -- serde_json, with `none` for an error
  pub marker_from_str : Text → Option SetupMarker
  pub users_from_str : Text → Option SandboxUsersFile
  -- serde_json and base64
  pub encode : ElevationPayload → Option Text
  -- whether it succeeded
  pub create_dir_all : FilePath → World → Bool × World
  pub is_elevated : World → Option Bool
  -- the three operations on the helper's report, src/setup_error.rs
  pub clear_report : FilePath → World → Bool × World
  pub read_report : World → FilePath → Result (Unit {0}) (Option SetupFailure)
  -- the helper with one argument, and with a command line after its name and elevated
  pub run_helper : Text → World → HelperRun × World
  pub run_elevated : Text → World → HelperRun × World

-- What the code returns: a code of its own, or the failure that the helper has reported.
pub data LaunchError : Type 0 where
  failed : SetupErrorCode → LaunchError
  reported : SetupFailure → LaunchError
  not_serialized : LaunchError

-- The variables `out` and `bs` of the loop in `quote_arg`.
pub record Quoted : Type 0 where
  pub out : Text
  pub bs : ℕ

abbrev pub quote_char : Quoted → ℕ → Quoted
quote_char q ch =
    if ch == 92
    then record q { bs = q.bs + 1 }
    else if ch == 34
    then record { out = (q.out ++ replicate (q.bs * 2 + 1) 92) ++ 34 ∷ []; bs = 0 }
    else if ltb 0 q.bs
    then record { out = (q.out ++ replicate q.bs 92) ++ ch ∷ []; bs = 0 }
    else record { out = q.out ++ ch ∷ []; bs = q.bs }

unfoldable pub quote_chars : Quoted → Text → Quoted
quote_chars q [] = q
quote_chars q (ch ∷ chars) = quote_chars (quote_char q ch) chars

abbrev pub close_quote : Quoted → Text
close_quote q = (if ltb 0 q.bs then q.out ++ replicate (q.bs * 2) 92 else q.out) ++ 34 ∷ []

unfoldable pub quote_arg : Text → Text
unfolding quote_chars
quote_arg arg =
    if not (is_empty arg || any (λ c. c == 32 || c == 9 || c == 10 || c == 13 || c == 34) arg)
    then arg
    else close_quote (quote_chars (record { out = 34 ∷ []; bs = 0 }) arg)

module _ (h : Host) (l : Launcher) where
  open l use {World}

  unfoldable pub load_marker : World → FilePath → Option SetupMarker
  load_marker w codex_home = elim (l.read_to_string w (setup_marker_path h codex_home)) [
    | none ↦ none
    | some contents ↦ l.marker_from_str contents
  ]

  unfoldable pub load_users : World → FilePath → Option SandboxUsersFile
  load_users w codex_home = elim (l.read_to_string w (sandbox_users_path h codex_home)) [
    | none ↦ none
    | some contents ↦ l.users_from_str contents
  ]

  abbrev pub matching_marker : Option SetupMarker → Bool
  matching_marker none = false
  matching_marker (some marker) = marker_matches marker

  abbrev pub matching_users : Option SandboxUsersFile → Bool
  matching_users none = false
  matching_users (some users) = users_match users

  unfoldable pub sandbox_setup_is_complete : World → FilePath → Bool
  sandbox_setup_is_complete w codex_home =
      matching_marker (load_marker w codex_home) && matching_users (load_users w codex_home)

  unfoldable pub report_helper_failure : FilePath → Bool → World → LaunchError
  report_helper_failure codex_home cleared_report w =
      if not cleared_report
      then failed orchestrator_helper_exit_nonzero
      else elim (l.read_report w codex_home) [
        | ok (some report) ↦ reported report
        | ok none ↦ failed orchestrator_helper_exit_nonzero
        | err why ↦ failed orchestrator_helper_report_read_failed
      ]

  -- `verify_setup_completed(codex_home)?`, and the report is cleared
  unfoldable pub end_setup : FilePath → World → Result LaunchError (Unit {0}) × World
  end_setup codex_home w =
      if sandbox_setup_is_complete w codex_home
      then (ok tt, (l.clear_report codex_home w).1)
      else (err (failed orchestrator_helper_incomplete), w)

  -- what both branches of `run_setup_exe_payload` do with the helper's end
  unfoldable pub after_helper :
      FilePath → Bool → HelperRun × World → Result LaunchError (Unit {0}) × World
  after_helper codex_home cleared_report (not_launched, w) =
      (err (failed orchestrator_helper_launch_failed), w)
  after_helper codex_home cleared_report (canceled, w) =
      (err (failed orchestrator_helper_launch_canceled), w)
  after_helper codex_home cleared_report (exited none, w) =
      (err (report_helper_failure codex_home cleared_report w), w)
  after_helper codex_home cleared_report (exited (some code), w) =
      if code == 0
      then end_setup codex_home w
      else (err (report_helper_failure codex_home cleared_report w), w)

  unfoldable pub run_setup_exe_payload :
      Text → Bool → FilePath → World → Result LaunchError (Unit {0}) × World
  unfolding after_helper
  run_setup_exe_payload payload_b64 needs_elevation codex_home w =
      let (cleared_report, v) = l.clear_report codex_home w in
      after_helper codex_home cleared_report (
        if needs_elevation
        then l.run_elevated (quote_arg payload_b64) v
        else l.run_helper payload_b64 v)

  unfoldable pub run_setup_exe :
      ElevationPayload → Bool → FilePath → World → Result LaunchError (Unit {0}) × World
  unfolding run_setup_exe_payload
  run_setup_exe payload needs_elevation codex_home w = elim (l.encode payload) [
    | none ↦ (err (failed orchestrator_payload_serialize_failed), w)
    | some payload_b64 ↦ run_setup_exe_payload payload_b64 needs_elevation codex_home w
  ]

  unfoldable pub run_elevated_setup_inner :
      SandboxSetupRequest
      → Option OfflineProxySettings
      → World
      → Result LaunchError (Unit {0}) × World
  unfolding run_setup_exe
  run_elevated_setup_inner request settings_override w =
      let codex_home = request.codex_home in
      let (made, v) = l.create_dir_all (sandbox_dir h codex_home) w in
      if not made
      then (err (failed orchestrator_sandbox_dir_create_failed), v)
      else elim (l.is_elevated v) [
        | none ↦ (err (failed orchestrator_elevation_check_failed), v)
        | some elevated ↦
            run_setup_exe (elevated_provisioning_payload h request settings_override) (not elevated)
              codex_home v
      ]

  -- what `run_setup_refresh_payload` does with the helper's end
  unfoldable pub after_refresh :
      FilePath → Bool → HelperRun × World → Result LaunchError (Unit {0}) × World
  after_refresh codex_home cleared_report (not_launched, w) =
      (err (failed orchestrator_helper_launch_failed), w)
  after_refresh codex_home cleared_report (canceled, w) =
      (err (failed orchestrator_helper_launch_failed), w)
  after_refresh codex_home cleared_report (exited none, w) =
      (err (report_helper_failure codex_home cleared_report w), w)
  after_refresh codex_home cleared_report (exited (some code), w) =
      if code == 0
      then (ok tt, (l.clear_report codex_home w).1)
      else (err (report_helper_failure codex_home cleared_report w), w)

  unfoldable pub run_setup_refresh_payload :
      Text → FilePath → World → Result LaunchError (Unit {0}) × World
  unfolding after_refresh
  run_setup_refresh_payload b64 codex_home w =
      let (cleared_report, v) = l.clear_report codex_home w in
      after_refresh codex_home cleared_report (l.run_helper b64 v)

  module _ (f : Files) (d : Directories) where
    unfoldable pub run_setup_refresh_inner :
        SandboxSetupRequest
        → SetupRootOverrides
        → Option OfflineProxySettings
        → World
        → Result LaunchError (Unit {0}) × World
    unfolding run_setup_refresh_payload
    run_setup_refresh_inner request overrides settings_override w =
        elim (l.encode (refresh_payload h f d request overrides settings_override)) [
          | none ↦ (err not_serialized, w)
          | some b64 ↦ run_setup_refresh_payload b64 request.codex_home w
        ]
