-- ===== src/FramedIo/Frames.antt =====
-- Frames of src/framed_io.rs: what is written is read back, and the bound on a frame's length.
use mathlib.Core.List.{append_assoc, append-nil}
use yj_sandbox.Base.{
  ℕ, ◌+◌, ◌%◌, ◌^◌, ◌≤◌, ◌<◌, ◌≡◌, refl, true, Option, none, some, List, [], ◌∷◌, ◌++◌, arith,
  length, leb, take-append_left, drop-append_left, length-append, length-drop, All, ◌↔◌,
}
use yj_sandbox.Base.Outcome.{Result, ok, err}
use yj_sandbox.FramedIo.{
  Bytes, max_frame_len, FrameError, unexpected_eof, frame_too_large, to_le_bytes, from_le_bytes,
  Reader, Writer, read_exact, write_all, write_frame, read_frame, read_body,
}

pub from_le_bytes-to_le_bytes : (n : ℕ) → n < 2 ^ 32 → from_le_bytes (to_le_bytes n) ≡ n
unfolding from_le_bytes to_le_bytes
from_le_bytes-to_le_bytes n h = omega arith

read_exact-append :
    (xs rest : Bytes) (broken : Option ℕ)
    → read_exact (length xs) (record { bytes = xs ++ rest; broken = broken })
      ≡ (ok xs, record { bytes = rest; broken = broken })
unfolding read_exact
read_exact-append xs rest broken =
    let fits : leb (length xs) (length (xs ++ rest)) ≡ true =
      ground (arith, length-append xs rest) in
    rw (fits, take-append_left xs rest, drop-append_left xs rest)

-- A message that serde_json reads back from what it wrote, and that is not too long.
pub record Fits {T : Type 0} (to_vec : T → Option Bytes) (from_slice : Bytes → Option T) (m : T)
    : Type 0 where
  pub payload : Bytes
  pub serialized : to_vec m ≡ some payload
  pub parsed : from_slice payload ≡ some m
  pub bounded : length payload ≤ max_frame_len

module _ {T : Type 0} (to_vec : T → Option Bytes) (from_slice : Bytes → Option T) where
  abbrev pub frame : Bytes → Bytes
  frame payload = to_le_bytes (length payload) ++ payload

  header_reads :
      (n : ℕ) (rest : Bytes) (broken : Option ℕ)
      → read_exact 4 (record { bytes = to_le_bytes n ++ rest; broken = broken })
        ≡ (ok (to_le_bytes n), record { bytes = rest; broken = broken })
  header_reads n rest broken = unfold to_le_bytes in read_exact-append (to_le_bytes n) rest broken

  write_all_free :
      (bs : Bytes) (w : Writer)
      → w.room ≡ none
      → write_all bs w ≡ (ok tt, record w { written = w.written ++ bs })
  unfolding write_all
  write_all_free bs w free = rw free

  pub write_frame_lem :
      (m : T) (f : Fits to_vec from_slice m) (w : Writer)
      → w.room ≡ none
      → write_frame to_vec m w ≡ (ok tt, record w { written = w.written ++ frame f.payload })
  unfolding write_frame
  write_frame_lem m f w free =
      let exact : length f.payload % 2 ^ 32 ≡ length f.payload = omega (arith, f.bounded) in
      let header : Bytes = to_le_bytes (length f.payload) in
      ground (
        arith,
        f.serialized,
        f.bounded,
        exact,
        free,
        write_all_free header w free,
        write_all_free f.payload (record w { written = w.written ++ header }) free,
        append_assoc w.written header f.payload,
      )

  pub read_frame_lem :
      (m : T) (f : Fits to_vec from_slice m) (rest : Bytes) (broken : Option ℕ)
      → read_frame from_slice (record { bytes = frame f.payload ++ rest; broken = broken })
        ≡ (ok (some m), record { bytes = rest; broken = broken })
  unfolding read_frame
  read_frame_lem m f rest broken = ground (
    arith,
    f.parsed,
    f.bounded,
    append_assoc (to_le_bytes (length f.payload)) f.payload rest,
    header_reads (length f.payload) (f.payload ++ rest) broken,
    from_le_bytes-to_le_bytes (length f.payload) (omega (arith, f.bounded)),
    read_exact-append f.payload rest broken,
  )

-- `write_frame` for each message, up to the first error.
module _ {T : Type 0} (to_vec : T → Option Bytes) where
  pub write_frames : List T → Writer → Result FrameError Unit × Writer
  write_frames [] w = (ok tt, w)
  write_frames (m ∷ ms) w =
      let (sent, w') = write_frame to_vec m w in
      elim sent [ ok _ ↦ write_frames ms w' | err e ↦ (err e, w') ]

-- The reads from `r` give these messages and then the end of the stream.
abbrev pub Delivers : {T : Type 0} → (Bytes → Option T) → List T → Reader → Type 0
Delivers from_slice [] r = (r' : Reader) × (read_frame from_slice r ≡ (ok none, r'))
Delivers from_slice (m ∷ ms) r =
    (r' : Reader) × (read_frame from_slice r ≡ (ok (some m), r')) × Delivers from_slice ms r'

module _ {T : Type 0} (to_vec : T → Option Bytes) (from_slice : Bytes → Option T) where
  -- All messages that fit are written without an error, behind what the writer held, and a reader
  -- of these bytes, which ends with the end of the file, gives back the messages in order and then
  -- the end of the stream.
  pub frames-round_trip :
      (ms : List T) (w : Writer)
      → All (Fits to_vec from_slice) ms
      → w.room ≡ none
      → (stream : Bytes) × (write_frames to_vec ms w
          ≡ (ok tt, record w { written = w.written ++ stream }))
        × Delivers from_slice ms (record { bytes = stream; broken = none })
  unfolding write_frames
  frames-round_trip [] w fits free = (
    [],
    ground (arith, append-nil w.written),
    (record { bytes = []; broken = none }, unfold read_frame read_exact in refl),
  )
  frames-round_trip (m ∷ ms) w (f, fits) free =
      let one : Bytes = frame to_vec from_slice f.payload in
      let w' : Writer = record w { written = w.written ++ one } in
      let (stream, sent, got) = frames-round_trip ms w' fits free in
      (
        one ++ stream,
        ground (
          arith,
          write_frame_lem to_vec from_slice m f w free,
          append_assoc w.written one stream,
        ),
        (
          record { bytes = stream; broken = none },
          read_frame_lem to_vec from_slice m f stream none,
          got,
        ),
      )

-- A writer is untouched by a message whose serialized form is longer than the bound, which is
-- reported with its length.
pub write_frame_too_large :
    {T : Type 0} (to_vec : T → Option Bytes) (m : T) (payload : Bytes) (w : Writer)
    → to_vec m ≡ some payload
    → max_frame_len < length payload
    → write_frame to_vec m w ≡ (err (frame_too_large (length payload)), w)
unfolding write_frame
write_frame_too_large to_vec m payload w e h = ground arith

length-read_exact : (n : ℕ) (r : Reader) → length r.bytes ≤ length (read_exact n r).1.bytes + n
unfolding read_exact
length-read_exact n r = ground (arith, length-drop n r.bytes)

read_exact-eof_iff :
    (n : ℕ) (r : Reader)
    → ((read_exact n r).0 ≡ err unexpected_eof) ↔ ((length r.bytes < n) × (r.broken ≡ none))
unfolding read_exact
read_exact-eof_iff n r = ground arith

-- Reading `n` bytes fails for want of them or with the reader's own error.
read_exact-err : (n k : ℕ) (r : Reader) → (read_exact n r).0 ≡ err (frame_too_large k) → ⊥
unfolding read_exact
read_exact-err n k r e = ground arith

module _ {T : Type 0} (from_slice : Bytes → Option T) where
  length-read_body :
      (header : Result FrameError Bytes) (r : Reader)
      → length r.bytes ≤ length (read_body from_slice header r).1.bytes + max_frame_len
  unfolding read_body
  length-read_body (ok len_buf) r = ground (arith, length-read_exact (from_le_bytes len_buf) r)
  length-read_body (err unexpected_eof) r = omega arith
  length-read_body (err e) r = omega arith

  read_body_too_large :
      (header : Result FrameError Bytes) (r : Reader) (n : ℕ)
      → ¬ (header ≡ err (frame_too_large n))
      → (read_body from_slice header r).0 ≡ err (frame_too_large n)
      → max_frame_len < n
  unfolding read_body
  read_body_too_large (ok len_buf) r n h e =
      ground (arith, read_exact-err (from_le_bytes len_buf) n r)
  read_body_too_large (err unexpected_eof) r n h e = cc
  read_body_too_large (err other) r n h e = absurd (h (cc))

  -- One read takes at most a header and a frame of the greatest length from the stream, whatever
  -- the bytes are, and the length that it refuses is greater than the bound.
  read_frame_bound :
      (r : Reader)
      → (length r.bytes ≤ length (read_frame from_slice r).1.bytes + (4 + max_frame_len))
        × ((n : ℕ) → (read_frame from_slice r).0 ≡ err (frame_too_large n) → max_frame_len < n)
  unfolding read_frame
  read_frame_bound r =
      let (header, r') = read_exact 4 r in
      (
        omega (arith, length-read_exact 4 r, length-read_body header r'),
        λ n e. read_body_too_large header r' n (read_exact-err 4 n r) e,
      )

  read_body-none_iff :
      (header : Result FrameError Bytes) (r : Reader)
      → ((read_body from_slice header r).0 ≡ ok none) ↔ (header ≡ err unexpected_eof)
  unfolding read_body
  read_body-none_iff (ok len_buf) r = ground arith
  read_body-none_iff (err unexpected_eof) r = ground arith
  read_body-none_iff (err e) r = ground arith

  -- The end of the stream is what a read reports exactly when fewer than four bytes are left and
  -- the stream does not end with an error.
  read_frame-none_iff :
      (r : Reader)
      → ((read_frame from_slice r).0 ≡ ok none) ↔ ((length r.bytes < 4) × (r.broken ≡ none))
  unfolding read_frame
  read_frame-none_iff r =
      let (header, r') = read_exact 4 r in
      ground (arith, read_body-none_iff header r', read_exact-eof_iff 4 r)
