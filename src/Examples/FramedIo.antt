-- ===== src/Examples/FramedIo.antt =====
-- Frames and the wait of src/framed_io.rs. The messages are numbers below 256, one byte each.
use yj_sandbox.Base.{ℕ, zero, suc, ◌≤◌, ◌≡◌, ◌≢◌, refl, Option, none, some, [], ◌∷◌, ◌++◌, arith}
use yj_sandbox.Base.Outcome.{ok, err}
use yj_sandbox.FramedIo.{
  Bytes, frame_too_large, from_le_bytes, Reader, Writer, read_exact, read_frame,
}
use yj_sandbox.FramedIo.Frames.{write_frames, Delivers, frames-round_trip}
use yj_sandbox.FramedIo.Waiting.{
  Peeked, timed_out, wait_for_complete_frame, wait-ne-none, Justifies, wait-Justifies,
}

abbrev to_vec : ℕ → Option Bytes
to_vec m = some (m ∷ [])

abbrev from_slice : Bytes → Option ℕ
from_slice [] = none
from_slice (m ∷ _) = some m

abbrev started : Writer
started = record { written = 7 ∷ []; room = none }

frames-round_trip_example :
    (stream : Bytes) × (write_frames to_vec (5 ∷ 6 ∷ []) started
      ≡ (ok tt, record { written = (7 ∷ []) ++ stream; room = none }))
    × Delivers from_slice (5 ∷ 6 ∷ []) (record { bytes = stream; broken = none })
frames-round_trip_example =
    frames-round_trip to_vec from_slice (5 ∷ 6 ∷ []) started
      (
        record { payload = 5 ∷ []; serialized = refl; parsed = refl; bounded = omega arith },
        (record { payload = 6 ∷ []; serialized = refl; parsed = refl; bounded = omega arith }, tt),
      )
      refl

abbrev partial : Reader
partial = record { bytes = 1 ∷ 0 ∷ []; broken = none }

abbrev oversized : Reader
oversized = record { bytes = 1 ∷ 0 ∷ 128 ∷ 0 ∷ 9 ∷ []; broken = none }

oversized_test : (read_frame from_slice oversized).0 ≡ err (frame_too_large 8388609)
unfolding read_frame read_exact from_le_bytes
oversized_test = refl

-- A frame of one byte that is whole from the seventh nanosecond on, and a pipe that stays empty.
abbrev slow_pipe : ℕ → Option Peeked
slow_pipe zero = some (record { len_buf = []; total_available = 0 })
slow_pipe (suc _) = some (record { len_buf = 1 ∷ 0 ∷ 0 ∷ 0 ∷ []; total_available = 5 })

abbrev empty_pipe : ℕ → Option Peeked
empty_pipe _ = some (record { len_buf = []; total_available = 0 })

slow_pipe_test : wait_for_complete_frame slow_pipe (λ _. 3) (λ _. 2) 100 101 0 ≡ some (ok tt)
unfolding wait_for_complete_frame from_le_bytes
slow_pipe_test = refl

empty_pipe_test :
    wait_for_complete_frame empty_pipe (λ _. 3) (λ _. 2) 100 101 0 ≡ some (err timed_out)
unfolding wait_for_complete_frame
empty_pipe_test = refl

wait-ne-none_example : wait_for_complete_frame empty_pipe (λ _. 3) (λ _. 2) 100 101 0 ≢ none
wait-ne-none_example = wait-ne-none empty_pipe (λ _. 3) (λ _. 2) 100 101 0 (omega arith)

wait-Justifies_example : (at : ℕ) × (0 ≤ at) × Justifies slow_pipe (λ _. 3) (λ _. 2) 100 at (ok tt)
wait-Justifies_example = wait-Justifies slow_pipe (λ _. 3) (λ _. 2) 100 101 0 (ok tt) slow_pipe_test
