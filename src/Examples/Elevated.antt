-- ===== src/Examples/Elevated.antt =====
-- A parent and its runner: src/elevated and src/bin/command_runner.
use yj_sandbox.Base.{
  ℕ, zero, suc, ◌≡◌, ◌≢◌, refl, true, false, Option, none, some, List, [], ◌∷◌, ◌++◌, arith, length,
}
use yj_sandbox.Base.Outcome.{Result, ok, err}
use yj_sandbox.Base.Text.{Text, codes}
use yj_sandbox.Base.Host.{Host}
use yj_sandbox.Base.Unix.{unix_with_files}
use yj_sandbox.Identity.{SandboxCreds}
use yj_sandbox.FramedIo.{Bytes, Reader, read_frame, read_exact, from_le_bytes}
use yj_sandbox.FramedIo.Waiting.{WaitError, timed_out}
use yj_sandbox.FramedIo.Frames.{write_frames}
use yj_sandbox.Elevated.{
  SpawnRequest, SpawnReady, OutputStream, stdout, stderr, OutputPayload, ExitPayload, spawn_child,
  ErrorPayload, Message, spawn_request, spawn_ready, output, stdin, close_stdin, resize, exit,
  error, terminate, FramedMessage, Codec, IsCodec,
}
use yj_sandbox.Elevated.Client.{
  RunnerError, logon, retry_runner_spawn_once, is_refreshable_sandbox_creds_error,
  is_refreshable_windows_error,
}
use yj_sandbox.Elevated.Runner.{
  StartError, message_frame, unsupported_version, read_request, Call, Child, Win32, input_loop,
  write_stdin, wait_timeout, output_frame, exit_frame, write_file, close_handle,
}
use yj_sandbox.Elevated.Capture.{capture_loop}
use yj_sandbox.Elevated.Handshake.{new_pipe}
use yj_sandbox.Elevated.Captured.{
  Merges, both_end, from_stdout, from_stderr, nothing_yet, capture_loop-ne-none,
  capture_loop-IsComplete,
}
use yj_sandbox.Elevated.Input.{Uses, input_loop-IsClosed}
use yj_sandbox.Elevated.Forwarded.{IsWriting, input_of, input_loop-IsForwarded}
use yj_sandbox.Elevated.Retried.{IsRetried, retry_runner_spawn_once-IsRetried}
use yj_sandbox.Examples.Messages.{request, codec, codec-IsCodec}

abbrev not_found : SpawnRequest → Result (Text × Option ℕ) ℕ
not_found req = err (codes "no such file", some 2)

abbrev display : StartError → Text
display why = codes "failed"

abbrev old_request : FramedMessage
old_request = record { version = 4; message = spawn_request request }

abbrev late : Result WaitError (Unit {0})
late = err timed_out

-- The frame of a request with another version is refused.
old_version_test :
    (read_request codec (record { bytes = 2 ∷ 0 ∷ 0 ∷ 0 ∷ 4 ∷ 0 ∷ []; broken = none })).0
    ≡ err (unsupported_version 4)
unfolding read_request read_frame read_exact from_le_bytes
old_version_test = refl

abbrev chunks : List FramedMessage
chunks =
    output_frame codec stdout (97 ∷ 98 ∷ [])
    ∷ output_frame codec stderr (33 ∷ [])
    ∷ output_frame codec stdout (99 ∷ [])
    ∷ []

merges : Merges codec ((97 ∷ 98 ∷ []) ∷ (99 ∷ []) ∷ []) ((33 ∷ []) ∷ []) chunks
merges = from_stdout (97 ∷ 98 ∷ []) (from_stderr (33 ∷ []) (from_stdout (99 ∷ []) both_end))

capture_loop-IsComplete_example :
    (stream : Bytes) × (write_frames codec.to_vec (chunks ++ exit_frame true 1 ∷ []) new_pipe
      ≡ (ok tt, record { written = stream; room = none }))
    × (capture_loop codec true
          (suc (length stream))
          (record { bytes = stream; broken = none })
          nothing_yet
        ≡ some (
            ok (record {
              exit_code = 192;
              out = 97 ∷ 98 ∷ 99 ∷ [];
              errors = 33 ∷ [];
              timed_out = true;
            })))
capture_loop-IsComplete_example =
    capture_loop-IsComplete codec codec-IsCodec true 1 ((97 ∷ 98 ∷ []) ∷ (99 ∷ []) ∷ [])
      ((33 ∷ []) ∷ []) chunks merges
      (
        record {
          payload = 5 ∷ 2 ∷ 0 ∷ 97 ∷ 98 ∷ [];
          serialized = refl;
          parsed = refl;
          bounded = omega arith;
        },
        (
          record {
            payload = 5 ∷ 2 ∷ 1 ∷ 33 ∷ [];
            serialized = refl;
            parsed = refl;
            bounded = omega arith;
          },
          (
            record {
              payload = 5 ∷ 2 ∷ 0 ∷ 99 ∷ [];
              serialized = refl;
              parsed = refl;
              bounded = omega arith;
            },
            (
              record {
                payload = 5 ∷ 5 ∷ 192 ∷ 1 ∷ [];
                serialized = refl;
                parsed = refl;
                bounded = omega arith;
              },
              tt,
            ),
          ),
        ),
      )

-- The frames `stdin "ab"` and `close_stdin`, and a frame that is cut off.
abbrev stream : Bytes
stream = 4 ∷ 0 ∷ 0 ∷ 0 ∷ 5 ∷ 3 ∷ 97 ∷ 98 ∷ 2 ∷ 0 ∷ 0 ∷ 0 ∷ 5 ∷ 4 ∷ []

abbrev cut_off : Reader
cut_off = record { bytes = stream ++ 9 ∷ 0 ∷ 0 ∷ 0 ∷ 5 ∷ []; broken = none }

capture_loop-ne-none_example : capture_loop codec false 20 cut_off nothing_yet ≢ none
capture_loop-ne-none_example = capture_loop-ne-none codec false 20 cut_off nothing_yet (omega arith)

-- One byte at a time; the third call of the runner fails.
abbrev one_byte : List Call → Bytes → Option ℕ
one_byte calls [] = some 0
one_byte calls (b ∷ bytes) = some 1

abbrev windows : Win32
windows = record { written = one_byte; job_terminated = λ calls. true; has_pseudo_console = false }

windows-IsWriting : IsWriting windows
windows-IsWriting = record { writes = λ calls b bytes. (0, refl, omega arith) }

input_loop-IsClosed_example :
    (child : Child) × (input_loop codec windows 20 cut_off
        (record { stdin_handle = true; calls = [] })
      ≡ some child)
    × Uses true child.calls false
input_loop-IsClosed_example = input_loop-IsClosed codec windows true 20 cut_off (omega arith)

input_loop_test :
    input_loop codec windows 20 cut_off (record { stdin_handle = true; calls = [] })
    ≡ some (record {
      stdin_handle = false;
      calls = close_handle ∷ write_file (98 ∷ []) ∷ write_file (97 ∷ []) ∷ [];
    })
unfolding input_loop read_frame read_exact from_le_bytes write_stdin
    yj_sandbox.Elevated.Runner.handle_message
input_loop_test = refl

abbrev sent : List FramedMessage
sent =
    message_frame codec (stdin (record { data_b64 = 97 ∷ 98 ∷ [] }))
    ∷ message_frame codec close_stdin
    ∷ []

input_loop-IsForwarded_example :
    (child : Child) × (input_loop codec windows 20
        (record { bytes = stream; broken = none })
        (record { stdin_handle = true; calls = [] })
      ≡ some child)
    × (input_of child.calls ≡ 97 ∷ 98 ∷ [])
unfolding read_frame read_exact from_le_bytes
input_loop-IsForwarded_example =
    input_loop-IsForwarded codec windows windows-IsWriting sent 20
      (record { bytes = stream; broken = none })
      (
        record { bytes = 2 ∷ 0 ∷ 0 ∷ 0 ∷ 5 ∷ 4 ∷ []; broken = none },
        refl,
        (record { bytes = []; broken = none }, refl, (record { bytes = []; broken = none }, refl)),
      )
      (omega arith)

-- A timeout of 2 ^ 32 milliseconds is waited for not at all.
long_timeout_test : wait_timeout (some 4294967296) ≡ 0
unfolding wait_timeout
long_timeout_test = refl

abbrev creds : Text → SandboxCreds
creds password = record { username = codes "CodexSandboxOffline"; password = password }

abbrev host : Host
unfolding unix_with_files
host = unix_with_files []

-- The state counts the starts; the first one fails for its password.
abbrev spawn : SandboxCreds → ℕ → Result RunnerError ℕ × ℕ
spawn c zero = (err (logon 1326), 1)
spawn c (suc n) = (ok 42, suc (suc n))

abbrev refresh : ℕ → Result RunnerError SandboxCreds × ℕ
refresh n = (ok (creds (codes "new")), n)

retried_test :
    retry_runner_spawn_once host spawn refresh (creds (codes "old")) request.command 0 ≡ (ok 42, 2)
unfolding retry_runner_spawn_once is_refreshable_sandbox_creds_error is_refreshable_windows_error
retried_test = refl

retry_runner_spawn_once-IsRetried_example :
    IsRetried host spawn refresh
      (creds (codes "old"))
      request.command
      0
      (retry_runner_spawn_once host spawn refresh (creds (codes "old")) request.command 0)
retry_runner_spawn_once-IsRetried_example =
    retry_runner_spawn_once-IsRetried host spawn refresh (creds (codes "old")) request.command 0
