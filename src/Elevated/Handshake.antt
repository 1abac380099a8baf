-- ===== src/Elevated/Handshake.antt =====
-- The start of a runner, seen from both ends of its pipes: `send_spawn_request` and `read_spawn_ready`
-- of src/elevated/runner_client.rs, and `main` of src/bin/command_runner/win.rs.
use yj_sandbox.Base.{ℕ, Option, none, []}
use yj_sandbox.Base.Outcome.{Result, ok, err}
use yj_sandbox.Base.Text.{Text}
use yj_sandbox.FramedIo.{Reader, Writer}
use yj_sandbox.FramedIo.Waiting.{WaitError}
use yj_sandbox.Elevated.{spawn_child, Message, spawn_ready, error}
use yj_sandbox.Elevated.Client.{RunnerError, startup, waiting}
use yj_sandbox.Elevated.Runner.{StartError, not_spawned}

abbrev pub new_pipe : Writer
new_pipe = record { written = []; room = none }

-- what the reader of a pipe gets
abbrev pub other_end : Writer → Reader
other_end w = record { bytes = w.written; broken = none }

-- The message that tells of a spawn, and what it is for the runner and for its parent.
abbrev pub reply : Result (Text × Option ℕ) ℕ → Message
reply (ok process_id) = spawn_ready (record { process_id = process_id })
reply (err (message, code)) =
    error (record { message = message; stage = spawn_child; windows_error_code = code })

abbrev pub started_by : Result (Text × Option ℕ) ℕ → Result StartError ℕ
started_by (ok process_id) = ok process_id
started_by (err (message, code)) = err (not_spawned message code)

abbrev pub told_by : Result (Text × Option ℕ) ℕ → Result RunnerError (Unit {0})
told_by (ok process_id) = ok tt
told_by (err (message, code)) =
    err (startup (record { message = message; stage = spawn_child; windows_error_code = code }))

-- what the parent has, given how its wait for a complete frame ended
abbrev pub heard :
    Result WaitError (Unit {0}) → Result (Text × Option ℕ) ℕ → Result RunnerError (Unit {0})
heard (ok _) answer = told_by answer
heard (err why) answer = err (waiting why)
