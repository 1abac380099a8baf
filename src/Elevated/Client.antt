-- ===== src/Elevated/Client.antt =====
-- The parent's side of the start: src/elevated/runner_client.rs.
use yj_sandbox.Base.{
  ℕ, Bool, true, false, not, List, [], ◌∷◌, Option, none, some, any, ◌||◌, ◌&&◌, ◌==◌,
  if◌then◌else◌,
}
use yj_sandbox.Base.Outcome.{Result, ok, err}
use yj_sandbox.Base.Text.{Text, codes, eq_ignore_ascii_case}
use yj_sandbox.Base.Host.{Host}
use yj_sandbox.Identity.{SandboxCreds, IdentityError}
use yj_sandbox.FramedIo.{FrameError, Reader, Writer, write_frame, read_frame}
use yj_sandbox.FramedIo.Waiting.{WaitError}
use yj_sandbox.Elevated.{
  ipc_protocol_version, SpawnRequest, ErrorPayload, ErrorStage, read_spawn_request, spawn_child,
  write_spawn_ready, Message, spawn_request, spawn_ready, error, FramedMessage, Codec,
}

abbrev pub error_account_disabled : ℕ
error_account_disabled = 1331

abbrev pub error_logon_failure : ℕ
error_logon_failure = 1326

abbrev pub error_no_such_logon_session : ℕ
error_no_such_logon_session = 1312

-- `RunnerLogonError`, `RunnerStartupError`, and the errors that are neither
pub data RunnerError : Type 0 where
  logon : ℕ → RunnerError
  startup : ErrorPayload → RunnerError
  framing : FrameError → RunnerError
  waiting : WaitError → RunnerError
  closed : RunnerError
  unexpected : Message → RunnerError
  identity : IdentityError → RunnerError

unfoldable pub is_refreshable_windows_error : ℕ → Bool
is_refreshable_windows_error code =
    code == error_account_disabled
    || code == error_logon_failure
    || code == error_no_such_logon_session

abbrev pub is_spawn_child : ErrorStage → Bool
is_spawn_child read_spawn_request = false
is_spawn_child spawn_child = true
is_spawn_child write_spawn_ready = false

unfoldable pub command_targets_windows_apps : Host → List Text → Bool
command_targets_windows_apps h [] = false
command_targets_windows_apps h (program ∷ arguments) =
    any (λ component. eq_ignore_ascii_case component (codes "WindowsApps")) (h.components program)

unfoldable pub is_refreshable_spawn_error : Host → List Text → Option ℕ → Bool
is_refreshable_spawn_error h command none = false
is_refreshable_spawn_error h command (some code) =
    is_refreshable_windows_error code
    && (not (code == error_no_such_logon_session) || not (command_targets_windows_apps h command))

unfoldable pub is_refreshable_sandbox_creds_error : Host → RunnerError → List Text → Bool
is_refreshable_sandbox_creds_error h (logon code) command = is_refreshable_windows_error code
is_refreshable_sandbox_creds_error h (startup payload) command =
    is_spawn_child payload.stage && is_refreshable_spawn_error h command payload.windows_error_code
is_refreshable_sandbox_creds_error h _ command = false

-- `spawn` and `refresh` act on a state.
module _ (h : Host) {S T : Type 0} (spawn : SandboxCreds → S → Result RunnerError T × S)
    (refresh : S → Result RunnerError SandboxCreds × S) where
  abbrev pub spawn_again : Result RunnerError SandboxCreds × S → Result RunnerError T × S
  spawn_again (ok creds, s) = spawn creds s
  spawn_again (err why, s) = (err why, s)

  abbrev pub after_spawn : List Text → Result RunnerError T × S → Result RunnerError T × S
  after_spawn command (ok result, s) = (ok result, s)
  after_spawn command (err why, s) =
      if is_refreshable_sandbox_creds_error h why command
      then spawn_again (refresh s)
      else (err why, s)

  unfoldable pub retry_runner_spawn_once : SandboxCreds → List Text → S → Result RunnerError T × S
  retry_runner_spawn_once sandbox_creds command s = after_spawn command (spawn sandbox_creds s)

module _ (c : Codec) where
  unfoldable pub send_spawn_request : SpawnRequest → Writer → Result FrameError Unit × Writer
  send_spawn_request request w =
      write_frame c.to_vec
        (record { version = ipc_protocol_version; message = spawn_request request }) w

  abbrev pub ready_of : Message → Result RunnerError (Unit {0})
  ready_of (spawn_ready payload) = ok tt
  ready_of (error payload) = err (startup payload)
  ready_of other = err (unexpected other)

  abbrev pub first_message :
      Result FrameError (Option FramedMessage) × Reader → Result RunnerError (Unit {0}) × Reader
  first_message (err why, r) = (err (framing why), r)
  first_message (ok none, r) = (err closed, r)
  first_message (ok (some framed), r) = (ready_of framed.message, r)

  -- given how the wait for a complete frame ended
  unfoldable pub read_spawn_ready :
      Result WaitError Unit → Reader → Result RunnerError (Unit {0}) × Reader
  read_spawn_ready (err why) r = (err (waiting why), r)
  read_spawn_ready (ok done) r = first_message (read_frame c.from_slice r)
