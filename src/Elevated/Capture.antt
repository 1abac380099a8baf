-- ===== src/Elevated/Capture.antt =====
-- The capture of a command's output: `run_windows_sandbox_capture_elevated` of src/elevated_impl.rs,
-- from the start of the runner on.
use yj_sandbox.Base.{ℕ, zero, suc, Bool, ◌++◌, Option, none, some, if◌then◌else◌}
use yj_sandbox.Base.Outcome.{Result, ok, err}
use yj_sandbox.Base.Text.{Text}
use yj_sandbox.FramedIo.{Bytes, FrameError, Reader, read_frame}
use yj_sandbox.Elevated.{
  OutputStream, stdout, stderr, OutputPayload, Message, spawn_ready, output, exit, error,
  FramedMessage, terminate, Codec,
}

pub data CaptureError : Type 0 where
  framing : FrameError → CaptureError
  closed not_decoded : CaptureError
  runner_error : Text → CaptureError
  unexpected : Message → CaptureError

-- The bytes of both streams so far.
pub record Captured : Type 0 where
  pub out : Bytes
  pub errors : Bytes

pub record CaptureResult : Type 0 where
  pub exit_code : ℕ
  pub out : Bytes
  pub errors : Bytes
  pub timed_out : Bool

-- What the loop does with a message: it goes on, or breaks.
pub data Turn : Type 0 where
  goes_on : Captured → Turn
  breaks : Result CaptureError (ℕ × Bool) → Turn

abbrev pub add_bytes : OutputStream → Bytes → Captured → Captured
add_bytes stdout bytes s = record s { out = s.out ++ bytes }
add_bytes stderr bytes s = record s { errors = s.errors ++ bytes }

-- The frame of `spawn_cancel_writer`.
abbrev pub cancel_frame : FramedMessage
cancel_frame = record { version = 1; message = terminate }

module _ (c : Codec) (capture_output : Bool) where
  abbrev pub add_output : OutputPayload → Option Bytes → Captured → Turn
  add_output payload none s = breaks (err not_decoded)
  add_output payload (some bytes) s =
      goes_on (if capture_output then add_bytes payload.stream bytes s else s)

  unfoldable pub capture_turn : Message → Captured → Turn
  capture_turn (spawn_ready payload) s = goes_on s
  capture_turn (output payload) s = add_output payload (c.decode payload.data_b64) s
  capture_turn (exit payload) s = breaks (ok (payload.exit_code, payload.timed_out))
  capture_turn (error payload) s = breaks (err (runner_error payload.message))
  capture_turn other s = breaks (err (unexpected other))

  abbrev pub result_of :
      Result CaptureError (ℕ × Bool) → Captured → Result CaptureError CaptureResult
  result_of (err why) s = err why
  result_of (ok (exit_code, timed_out)) s =
      ok (record { exit_code = exit_code; out = s.out; errors = s.errors; timed_out = timed_out })

  -- Fuel counts the frames.
  unfoldable pub capture_loop : ℕ → Reader → Captured → Option (Result CaptureError CaptureResult)
  capture_loop zero r s = none
  capture_loop (suc fuel) r s =
      let (read, r') = read_frame c.from_slice r in
      elim read [
        | ok none ↦ some (err closed)
        | err why ↦ some (err (framing why))
        | ok (some framed) ↦ elim (capture_turn framed.message s) [
          | goes_on s' ↦ capture_loop fuel r' s'
          | breaks result ↦ some (result_of result s)
        ]
      ]
