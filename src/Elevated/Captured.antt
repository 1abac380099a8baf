-- ===== src/Elevated/Captured.antt =====
-- The capture of src/elevated_impl.rs over what the runner of src/bin/command_runner/win.rs writes: its
-- two threads that read the child's output, and its last frame.
use mathlib.Core.List.{append_assoc, append-nil}
use yj_sandbox.Base.{
  ℕ, zero, suc, ◌+◌, ◌<◌, ◌≡◌, ◌≢◌, refl, ap, Bool, true, Option, none, some, List, [], ◌∷◌, ◌++◌,
  All, arith, length, if◌then◌else◌,
}
use yj_sandbox.Base.Outcome.{Result, ok, err}
use yj_sandbox.FramedIo.{Bytes, FrameError, Reader, read_frame}
use yj_sandbox.FramedIo.Frames.{Fits, Delivers, write_frames, frames-round_trip}
use yj_sandbox.FramedIo.Reading.{read_frame_takes}
use yj_sandbox.Elevated.{stdout, stderr, FramedMessage, Codec, IsCodec}
use yj_sandbox.Elevated.Runner.{output_frame, exit_frame}
use yj_sandbox.Elevated.Capture.{
  CaptureError, framing, closed, result_of, Captured, CaptureResult, Turn, goes_on, breaks,
  capture_turn, capture_loop,
}
use yj_sandbox.Elevated.Handshake.{new_pipe}

abbrev pub concat : List Bytes → Bytes
concat [] = []
concat (chunk ∷ chunks) = chunk ++ concat chunks

-- The frames of both readers, in an order in which they may get the writer's lock.
pub data Merges (c : Codec) : List Bytes → List Bytes → List FramedMessage → Type 0 where
  both_end : Merges c [] [] []
  from_stdout :
      {outs errs : List Bytes} {frames : List FramedMessage} (chunk : Bytes)
      → Merges c outs errs frames
      → Merges c (chunk ∷ outs) errs (output_frame c stdout chunk ∷ frames)
  from_stderr :
      {outs errs : List Bytes} {frames : List FramedMessage} (chunk : Bytes)
      → Merges c outs errs frames
      → Merges c outs (chunk ∷ errs) (output_frame c stderr chunk ∷ frames)

abbrev pub nothing_yet : Captured
nothing_yet = record { out = []; errors = [] }

module _ (c : Codec) where
  module _ (capture_output : Bool) (fuel : ℕ) (r : Reader) where
    turn_ends :
        (turn : Turn) (s : Captured)
        → ((s' : Captured) → capture_loop c capture_output fuel r s' ≢ none)
        → (elim turn as (λ _. Option (Result CaptureError CaptureResult)) [
          | goes_on s' ↦ capture_loop c capture_output fuel r s'
          | breaks result ↦ some (result_of c capture_output result s)
        ])
          ≢ none
    turn_ends (goes_on s') s rest = rest s'
    turn_ends (breaks result) s rest = λ e. cc e

    read_ends :
        (read : Result FrameError (Option FramedMessage)) (s : Captured)
        → ((m : FramedMessage)
            → read ≡ ok (some m)
            → (s' : Captured) → capture_loop c capture_output fuel r s' ≢ none)
        → (elim read as (λ _. Option (Result CaptureError CaptureResult)) [
          | ok none ↦ some (err closed)
          | err why ↦ some (err (framing why))
          | ok (some framed) ↦
              elim (capture_turn c capture_output framed.message s)
                as (λ _. Option (Result CaptureError CaptureResult)) [
                  | goes_on s' ↦ capture_loop c capture_output fuel r s'
                  | breaks result ↦ some (result_of c capture_output result s)
                ]
        ])
          ≢ none
    read_ends (err why) s rest = λ e. cc e
    read_ends (ok none) s rest = λ e. cc e
    read_ends (ok (some m)) s rest =
        turn_ends (capture_turn c capture_output m.message s) s (rest m refl)

  -- Fuel for more frames than the stream has bytes is enough, whatever the bytes are: the loop ends
  -- with a result or an error.
  pub capture_loop-ne-none :
      (capture_output : Bool) (fuel : ℕ) (r : Reader) (s : Captured)
      → length r.bytes < fuel
      → capture_loop c capture_output fuel r s ≢ none
  unfolding capture_loop
  capture_loop-ne-none capture_output zero r s h = elim h [ ]
  capture_loop-ne-none capture_output (suc fuel) r s h =
      let (read, r') = read_frame c.from_slice r in
      read_ends capture_output fuel r' read s (λ m e s'.
        capture_loop-ne-none capture_output fuel r' s'
          (omega (arith, h, read_frame_takes c.from_slice r m e)))

  module _ (laws : IsCodec c) (timed_out : Bool) (raw_exit : ℕ) where
    abbrev exit_code : ℕ
    exit_code = if timed_out then 128 + 64 else raw_exit

    capture_loop-Delivers :
        (fuel : ℕ) {outs errs : List Bytes} {frames : List FramedMessage}
        → Merges c outs errs frames
        → (r : Reader) (s : Captured)
        → Delivers c.from_slice (frames ++ exit_frame timed_out raw_exit ∷ []) r
        → length r.bytes < fuel
        → capture_loop c true fuel r s
          ≡ some (
              ok (record {
                exit_code = exit_code;
                out = s.out ++ concat outs;
                errors = s.errors ++ concat errs;
                timed_out = timed_out;
              }))
    unfolding capture_loop capture_turn
    capture_loop-Delivers zero merges r s got h = elim h [ ]
    capture_loop-Delivers (suc fuel) both_end r s (r', read, rest) h =
        ground (arith, read, append-nil s.out, append-nil s.errors)
    capture_loop-Delivers (suc fuel) (from_stdout {outs} chunk m) r s (r', read, rest) h = ground (
      arith,
      read,
      laws.decodes chunk,
      append_assoc s.out chunk (concat outs),
      read_frame_takes c.from_slice r (output_frame c stdout chunk) (ap (λ p. p.0) read),
      capture_loop-Delivers fuel m r' (record s { out = s.out ++ chunk }) rest,
    )
    capture_loop-Delivers (suc fuel) (from_stderr {errs = errs} chunk m) r s (r', read, rest) h =
        ground (
          arith,
          read,
          laws.decodes chunk,
          append_assoc s.errors chunk (concat errs),
          read_frame_takes c.from_slice r (output_frame c stderr chunk) (ap (λ p. p.0) read),
          capture_loop-Delivers fuel m r' (record s { errors = s.errors ++ chunk }) rest,
        )

    -- The frames of both readers in any order and then the exit frame, which all fit: the runner
    -- writes them without an error, and the capture of what it has written ends, with fuel for one
    -- frame more than there are bytes, with all the chunks of each stream in their order, with 192
    -- for a child that was stopped by its timeout, and with the child's own exit code otherwise.
    pub capture_loop-IsComplete :
        (outs errs : List Bytes) (frames : List FramedMessage)
        → Merges c outs errs frames
        → All (Fits c.to_vec c.from_slice) (frames ++ exit_frame timed_out raw_exit ∷ [])
        → (stream : Bytes) × (write_frames c.to_vec
              (frames ++ exit_frame timed_out raw_exit ∷ [])
              new_pipe
            ≡ (ok tt, record { written = stream; room = none }))
          × (capture_loop c true
                (suc (length stream))
                (record { bytes = stream; broken = none })
                nothing_yet
              ≡ some (
                  ok (record {
                    exit_code = if timed_out then 192 else raw_exit;
                    out = concat outs;
                    errors = concat errs;
                    timed_out = timed_out;
                  })))
    capture_loop-IsComplete outs errs frames merges fits =
        let (stream, sent, got) =
          frames-round_trip c.to_vec c.from_slice (frames ++ exit_frame timed_out raw_exit ∷ [])
            new_pipe fits refl in
        (
          stream,
          sent,
          capture_loop-Delivers (suc (length stream)) merges
              (record { bytes = stream; broken = none }) nothing_yet got (omega arith),
        )
