-- ===== src/Elevated/Runner.antt =====
-- The runner: src/bin/command_runner/win.rs. Its calls of Win32 are kept in a list, the last one first.
use Prim.Native.Nat.{min}
use yj_sandbox.Base.{
  ℕ, zero, suc, ◌+◌, ◌-◌, ◌^◌, ◌%◌, Bool, false, List, [], ◌∷◌, Option, none, some, length, take,
  drop, ◌==◌, if◌then◌else◌,
}
use yj_sandbox.Base.Outcome.{Result, ok, err}
use yj_sandbox.Base.Text.{Text}
use yj_sandbox.FramedIo.{Bytes, FrameError, Reader, Writer, write_frame, read_frame}
use yj_sandbox.Elevated.{
  ipc_protocol_version, SpawnRequest, ErrorStage, read_spawn_request, spawn_child,
  write_spawn_ready, OutputStream, Message, spawn_request, spawn_ready, output, stdin, close_stdin,
  resize, exit, error, terminate, FramedMessage, Codec,
}

-- What ends the runner before a child runs.
pub data StartError : Type 0 where
  framing : FrameError → StartError
  closed : StartError
  unsupported_version : ℕ → StartError
  unexpected : Message → StartError
  not_spawned : Text → Option ℕ → StartError

module _ (c : Codec) where
  abbrev pub message_frame : Message → FramedMessage
  message_frame message = record { version = ipc_protocol_version; message = message }

  -- The lock of the writer is never poisoned here, and an error of the write is dropped, as both
  -- callers do.
  unfoldable pub send_error : ErrorStage → Option ℕ → Text → Writer → Writer
  send_error stage windows_error_code message w =
      (write_frame c.to_vec
        (message_frame (
          error
            (record { message = message; stage = stage; windows_error_code = windows_error_code })))
        w).1

  abbrev pub request_of : Message → Result StartError SpawnRequest
  request_of (spawn_request payload) = ok payload
  request_of other = err (unexpected other)

  abbrev pub checked :
      Result FrameError (Option FramedMessage) × Reader → Result StartError SpawnRequest × Reader
  checked (err why, r) = (err (framing why), r)
  checked (ok none, r) = (err closed, r)
  checked (ok (some framed), r) = (
    if framed.version == ipc_protocol_version
        then request_of framed.message
        else err (unsupported_version framed.version),
    r,
  )

  unfoldable pub read_request : Reader → Result StartError SpawnRequest × Reader
  read_request r = checked (read_frame c.from_slice r)

  -- `display` is an error's message; `spawn_ipc_process` gives the process, or a message and the
  -- Windows error code that its causes carry.
  module _ (display : StartError → Text)
      (spawn_ipc_process : SpawnRequest → Result (Text × Option ℕ) ℕ) where
    abbrev pub announce : ℕ → Writer → Result StartError ℕ × Writer
    announce process_id w =
        let (sent, v) =
          write_frame c.to_vec (message_frame (spawn_ready (record { process_id = process_id })))
            w in
        elim sent [
          | ok done ↦ (ok process_id, v)
          | err why ↦
              (err (framing why), send_error write_spawn_ready none (display (framing why)) v)
        ]

    abbrev pub spawned : Result (Text × Option ℕ) ℕ → Writer → Result StartError ℕ × Writer
    spawned (ok process_id) w = announce process_id w
    spawned (err (message, code)) w =
        (err (not_spawned message code), send_error spawn_child code message w)

    abbrev pub requested : Result StartError SpawnRequest → Writer → Result StartError ℕ × Writer
    requested (ok request) w = spawned (spawn_ipc_process request) w
    requested (err why) w = (err why, send_error read_spawn_request none (display why) w)

    -- `main`, up to the message that the child runs
    unfoldable pub start : Reader → Writer → Result StartError ℕ × Reader × Writer
    start r w =
        let (request, r') = read_request r in
        let (started, w') = requested request w in (started, r', w')

  -- The frame that `spawn_output_reader` writes for a chunk of the child's output.
  abbrev pub output_frame : OutputStream → Bytes → FramedMessage
  output_frame stream chunk =
      message_frame (output (record { data_b64 = c.encode chunk; stream = stream }))

-- Calls of Win32 of the input loop.
pub data Call : Type 0 where
  write_file : Bytes → Call
  close_handle : Call
  resize_pseudo_console : ℕ → ℕ → Call
  terminate_job terminate_process : Call

-- Whether the handle of the child's standard input is held, and the calls so far.
pub record Child : Type 0 where
  pub stdin_handle : Bool
  pub calls : List Call

abbrev pub u32_max : ℕ
u32_max = 2 ^ 32 - 1

-- The answers of Win32 may depend on the calls before: how many bytes of a chunk are written, if the
-- call succeeds, and whether a job is terminated. A pseudo-console is there as long as the child runs.
pub record Win32 : Type 0 where
  pub written : List Call → Bytes → Option ℕ
  pub job_terminated : List Call → Bool
  pub has_pseudo_console : Bool

module _ (c : Codec) (x : Win32) where
  abbrev pub close : Child → Child
  close child = record { stdin_handle = false; calls = close_handle ∷ child.calls }

  abbrev pub close_open : Child → Child
  close_open child = if child.stdin_handle then close child else child

  -- `while offset < bytes.len()`, on the bytes from the offset on
  unfoldable pub write_stdin : ℕ → Bytes → Child → Option Child
  write_stdin fuel [] child = some child
  write_stdin zero (b ∷ bytes) child = none
  write_stdin (suc fuel) (b ∷ bytes) child =
      let chunk = take (min (length (b ∷ bytes)) u32_max) (b ∷ bytes) in
      elim (x.written child.calls chunk) [
        | none ↦ some (close child)
        | some zero ↦ some (close child)
        | some (suc n) ↦
            write_stdin fuel (drop n bytes)
              (record child { calls = write_file (take (suc n) chunk) ∷ child.calls })
      ]

  unfoldable pub terminate_job_or_process : Child → Child
  terminate_job_or_process child =
      if x.job_terminated child.calls
      then record child { calls = terminate_job ∷ child.calls }
      else record child { calls = terminate_process ∷ terminate_job ∷ child.calls }

  abbrev pub forward : Option Bytes → Child → Option Child
  forward none child = some child
  forward (some bytes) child =
      if child.stdin_handle then write_stdin (length bytes) bytes child else some child

  -- one turn of the `match`; `as i16` keeps the sixteen bits of a size
  unfoldable pub handle_message : Message → Child → Option Child
  handle_message (stdin payload) child = forward (c.decode payload.data_b64) child
  handle_message close_stdin child = some (close_open child)
  handle_message (resize payload) child = some (
      if x.has_pseudo_console
      then record child { calls = resize_pseudo_console payload.cols payload.rows ∷ child.calls }
      else child)
  handle_message terminate child = some (terminate_job_or_process child)
  handle_message (spawn_request payload) child = some child
  handle_message (spawn_ready payload) child = some child
  handle_message (output payload) child = some child
  handle_message (exit payload) child = some child
  handle_message (error payload) child = some child

  -- Fuel counts the frames.
  unfoldable pub input_loop : ℕ → Reader → Child → Option Child
  input_loop zero r child = none
  input_loop (suc fuel) r child =
      let (read, r') = read_frame c.from_slice r in
      elim read [
        | ok (some framed) ↦ elim (handle_message framed.message child) [
          | none ↦ none
          | some child' ↦ input_loop fuel r' child'
        ]
        | ok none ↦ some (close_open child)
        | err why ↦ some (close_open child)
      ]

-- How long `main` waits for the child, where `INFINITE` is 2 ^ 32 - 1.
unfoldable pub wait_timeout : Option ℕ → ℕ
wait_timeout none = u32_max
wait_timeout (some ms) = ms % 2 ^ 32

-- the frame that reports the child's end
abbrev pub exit_frame : Bool → ℕ → FramedMessage
exit_frame timed_out raw_exit = record {
  version = ipc_protocol_version;
  message =
      exit (record { exit_code = if timed_out then 128 + 64 else raw_exit; timed_out = timed_out });
}
