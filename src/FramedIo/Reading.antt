-- ===== src/FramedIo/Reading.antt =====
-- A frame that is read is gone from the stream, so that a loop over the frames of src/framed_io.rs
-- ends.
use yj_sandbox.Base.{ℕ, ◌+◌, ◌≤◌, ◌<◌, ◌≡◌, refl, Option, some, length, arith, length-drop}
use yj_sandbox.Base.Outcome.{Result, ok, err}
use yj_sandbox.FramedIo.{
  Bytes, FrameError, unexpected_eof, Reader, read_exact, read_body, read_frame, from_le_bytes,
}

length-read_exact_le : (n : ℕ) (r : Reader) → length (read_exact n r).1.bytes ≤ length r.bytes
unfolding read_exact
length-read_exact_le n r = ground (arith, length-drop n r.bytes)

length-read_exact-ok :
    (n : ℕ) (r : Reader) (bytes : Bytes)
    → (read_exact n r).0 ≡ ok bytes
    → length (read_exact n r).1.bytes + n ≤ length r.bytes
unfolding read_exact
length-read_exact-ok n r bytes e = ground (arith, length-drop n r.bytes)

module _ {T : Type 0} (from_slice : Bytes → Option T) where
  length-read_body_le :
      (header : Result FrameError Bytes) (r : Reader)
      → length (read_body from_slice header r).1.bytes ≤ length r.bytes
  unfolding read_body
  length-read_body_le (ok len_buf) r =
      ground (arith, length-read_exact_le (from_le_bytes len_buf) r)
  length-read_body_le (err unexpected_eof) r = omega arith
  length-read_body_le (err e) r = omega arith

  read_body-some :
      (header : Result FrameError Bytes) (r : Reader) (m : T)
      → (read_body from_slice header r).0 ≡ ok (some m)
      → (bytes : Bytes) × (header ≡ ok bytes)
  unfolding read_body
  read_body-some (ok len_buf) r m e = (len_buf, refl)
  read_body-some (err unexpected_eof) r m e = cc
  read_body-some (err why) r m e = cc

  pub read_frame_takes :
      (r : Reader) (m : T)
      → (read_frame from_slice r).0 ≡ ok (some m)
      → length (read_frame from_slice r).1.bytes < length r.bytes
  unfolding read_frame
  read_frame_takes r m e =
      let (header, left) = read_exact 4 r in
      let (bytes, h) = read_body-some header left m e in
      ground (arith, length-read_exact-ok 4 r bytes h, length-read_body_le header left)
