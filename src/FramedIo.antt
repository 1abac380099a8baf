-- ===== src/FramedIo.antt =====
-- Length-prefixed frames over a byte stream: src/framed_io.rs.
pub mod Frames
pub mod Reading
pub mod Waiting
use yj_sandbox.Base.{
  ℕ, ◌+◌, ◌-◌, ◌*◌, ◌/◌, ◌%◌, ◌^◌, Bool, Option, none, some, List, [], ◌∷◌, ◌++◌, length, take,
  drop, ltb, leb, if◌then◌else◌,
}
use yj_sandbox.Base.Outcome.{Result, ok, err}

abbrev pub Bytes : Type 0
Bytes = List ℕ

abbrev pub max_frame_len : ℕ
max_frame_len = 8 * 1024 * 1024

pub data FrameError : Type 0 where
  not_serialized not_parsed unexpected_eof : FrameError
  frame_too_large : ℕ → FrameError
  io_error : ℕ → FrameError

-- `u32::to_le_bytes` and `u32::from_le_bytes`
unfoldable pub to_le_bytes : ℕ → Bytes
to_le_bytes n = n % 256 ∷ n / 256 % 256 ∷ n / 65536 % 256 ∷ n / 16777216 % 256 ∷ []

unfoldable pub from_le_bytes : Bytes → ℕ
from_le_bytes (a ∷ b ∷ c ∷ d ∷ _) = a + 256 * b + 65536 * c + 16777216 * d
from_le_bytes _ = 0

-- The bytes that a reader will still give, and the error that it ends with, if it does not end
-- with the end of the file.
pub record Reader : Type 0 where
  pub bytes : Bytes
  pub broken : Option ℕ

-- What a writer has taken, and how many more bytes it takes, if that is bounded.
pub record Writer : Type 0 where
  pub written : Bytes
  pub room : Option ℕ

-- `Read::read_exact` of `n` bytes
unfoldable pub read_exact : ℕ → Reader → Result FrameError Bytes × Reader
read_exact n r =
    if leb n (length r.bytes) then (ok (take n r.bytes), record r { bytes = drop n r.bytes }) else (
      elim r.broken [ none ↦ err unexpected_eof | some e ↦ err (io_error e) ],
      record r { bytes = [] },
    )

-- `Write::write_all`; a flush takes nothing and cannot fail here
unfoldable pub write_all : Bytes → Writer → Result FrameError Unit × Writer
write_all bs w = elim w.room [
  | none ↦ (ok tt, record w { written = w.written ++ bs })
  | some n ↦
      if leb (length bs) n
      then (ok tt, record { written = w.written ++ bs; room = some (n - length bs) })
      else (err (io_error 0), record { written = w.written ++ take n bs; room = some 0 })
]

-- `to_vec` and `from_slice` are serde_json's, at the type of the messages.
module _ {T : Type 0} (to_vec : T → Option Bytes) where
  write_payload : Bytes → Writer → Result FrameError Unit × Writer
  write_payload payload w =
      let len = length payload % 2 ^ 32 in
      let (header, w') = write_all (to_le_bytes len) w in
      elim header [ ok _ ↦ write_all payload w' | err e ↦ (err e, w') ]

  unfoldable pub write_frame : T → Writer → Result FrameError Unit × Writer
  unfolding write_payload
  write_frame message w = elim (to_vec message) [
    | none ↦ (err not_serialized, w)
    | some payload ↦
        if ltb max_frame_len (length payload)
        then (err (frame_too_large (length payload)), w)
        else write_payload payload w
  ]

module _ {T : Type 0} (from_slice : Bytes → Option T) where
  read_payload : ℕ → Reader → Result FrameError (Option T) × Reader
  read_payload len r =
      let (got, r') = read_exact len r in
      elim got [
        | err e ↦ (err e, r')
        | ok payload ↦
            (elim (from_slice payload) [ none ↦ err not_parsed | some m ↦ ok (some m) ], r')
      ]

  -- the match on the result of reading the header
  read_body : Result FrameError Bytes → Reader → Result FrameError (Option T) × Reader
  unfolding read_payload
  read_body (ok len_buf) r =
      let len = from_le_bytes len_buf in
      if ltb max_frame_len len then (err (frame_too_large len), r) else read_payload len r
  read_body (err unexpected_eof) r = (ok none, r)
  read_body (err e) r = (err e, r)

  unfoldable pub read_frame : Reader → Result FrameError (Option T) × Reader
  unfolding read_body
  read_frame r = let (header, r') = read_exact 4 r in read_body header r'
