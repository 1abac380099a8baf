-- ===== src/Elevated/Forwarded.antt =====
-- What the child of the runner reads, of what its parent sends: `spawn_input_loop` of
-- src/bin/command_runner/win.rs.
use mathlib.Core.List.{append_assoc, append-nil}
use Prim.Native.Nat.{min}
use yj_sandbox.Base.{
  ℕ, zero, suc, ◌-◌, ◌≤◌, ◌<◌, ◌≡◌, refl, sym, ap, ◌∙◌, Bool, true, false, Option, none, some, List,
  [], ◌∷◌, ◌++◌, arith, length, take, drop, length-drop, length-take, take-take, take-drop,
  Bool-cases, inl, inr, if◌then◌else◌,
}
use yj_sandbox.FramedIo.{Bytes, Reader}
use yj_sandbox.FramedIo.Frames.{Delivers}
use yj_sandbox.FramedIo.Reading.{read_frame_takes}
use yj_sandbox.Elevated.{
  Message, spawn_request, spawn_ready, output, stdin, close_stdin, resize, exit, error, terminate,
  FramedMessage, Codec,
}
use yj_sandbox.Elevated.Runner.{
  Call, write_file, close_handle, resize_pseudo_console, terminate_job, terminate_process, Child,
  Win32, u32_max, close_open, write_stdin, forward, terminate_job_or_process, handle_message,
  input_loop,
}

-- Win32 writes a part of a chunk that is not empty.
pub record IsWriting (x : Win32) : Type 0 where
  pub writes :
      (calls : List Call) (b : ℕ) (bytes : Bytes)
      → (n : ℕ) × (x.written calls (b ∷ bytes) ≡ some (suc n)) × (n ≤ length bytes)

-- what the child reads, of calls with the last one first
abbrev pub input_of : List Call → Bytes
input_of [] = []
input_of (write_file bytes ∷ calls) = input_of calls ++ bytes
input_of (call ∷ calls) = input_of calls

abbrev pub decoded : Option Bytes → Bytes
decoded none = []
decoded (some bytes) = bytes

-- What the parent gives the child before it closes its input.
abbrev pub given : Codec → List FramedMessage → Bytes
given c [] = []
given c (m ∷ ms) = elim m.message [
  | stdin payload ↦ decoded (c.decode payload.data_b64) ++ given c ms
  | close_stdin ↦ []
  | _ ↦ given c ms
]

-- The first chunk of bytes that are not at an end.
take-first :
    (b : ℕ) (bytes : Bytes)
    → take (min (length (b ∷ bytes)) u32_max) (b ∷ bytes)
      ≡ b ∷ take (min (length bytes) (u32_max - 1)) bytes
take-first b bytes =
    let one : min (suc (length bytes)) 4294967295 ≡ suc (min (length bytes) 4294967294) =
      omega arith in
    ap (λ k. take k (b ∷ bytes)) one

module _ (c : Codec) (x : Win32) (law : IsWriting x) where
  -- the calls that `bytes` are written by
  write_stdin-all :
      (fuel : ℕ) (bytes : Bytes) (calls : List Call)
      → length bytes ≤ fuel
      → (after : List Call) × (write_stdin c x fuel bytes
            (record { stdin_handle = true; calls = calls })
          ≡ some (record { stdin_handle = true; calls = after }))
        × (input_of after ≡ input_of calls ++ bytes)
  unfolding write_stdin
  write_stdin-all fuel [] calls h = (calls, refl, sym (append-nil (input_of calls)))
  write_stdin-all zero (b ∷ bytes) calls h = elim h [ ]
  write_stdin-all (suc fuel) (b ∷ bytes) calls h =
      let most : ℕ = min (length bytes) (u32_max - 1) in
      let (n, wrote_n, bound) = law.writes calls b (take most bytes) in
      let part : Bytes = b ∷ take n (take most bytes) in
      let (after, e, all) =
        write_stdin-all fuel (drop n bytes) (write_file part ∷ calls)
          (omega (arith, h, length-drop n bytes)) in
      (
        after,
        ground (arith, take-first b bytes, wrote_n, e),
        ground (
          arith,
          all,
          append_assoc (input_of calls) part (drop n bytes),
          take-take most n bytes (omega (arith, bound, length-take most bytes)),
          take-drop n bytes,
        ),
      )

  abbrev sent_by : Bool → Bytes → Bytes
  sent_by true bytes = bytes
  sent_by false bytes = []

  abbrev Forwards : Option Child → Bytes → Type 0
  Forwards o bytes = (child : Child) × (o ≡ some child) × (input_of child.calls ≡ bytes)

  Handles : Option Child → Bytes → List FramedMessage → Type 0
  Handles o bytes ms =
      (next : Child) × (o ≡ some next)
      × (input_of next.calls ++ sent_by next.stdin_handle (given c ms) ≡ bytes)

  forward-Handles :
      (read : Option Bytes) (ms : List FramedMessage) (now : Bool) (calls : List Call)
      → Handles
          (forward c x read (record { stdin_handle = now; calls = calls }))
          (input_of calls ++ sent_by now (decoded read ++ given c ms))
          ms
  unfolding Handles
  forward-Handles none ms true calls = (record { stdin_handle = true; calls = calls }, refl, refl)
  forward-Handles none ms false calls = (record { stdin_handle = false; calls = calls }, refl, refl)
  forward-Handles (some bytes) ms true calls =
      let (after, e, all) = write_stdin-all (length bytes) bytes calls (omega arith) in
      (
        record { stdin_handle = true; calls = after },
        e,
        ground (arith, all, append_assoc (input_of calls) bytes (given c ms)),
      )
  forward-Handles (some bytes) ms false calls =
      (record { stdin_handle = false; calls = calls }, refl, refl)

  terminate-Handles :
      (ms : List FramedMessage) (now : Bool) (calls : List Call)
      → Handles
          (some (terminate_job_or_process c x (record { stdin_handle = now; calls = calls })))
          (input_of calls ++ sent_by now (given c ms))
          ms
  unfolding Handles terminate_job_or_process
  terminate-Handles ms now calls = elim (Bool-cases (x.job_terminated calls)) [
    | inl done ↦ rw done (record { stdin_handle = now; calls = terminate_job ∷ calls }, refl, refl)
    | inr failed ↦ rw failed (
      record { stdin_handle = now; calls = terminate_process ∷ terminate_job ∷ calls },
      refl,
      refl,
    )
  ]

  close-Handles :
      (ms : List FramedMessage) (now : Bool) (calls : List Call)
      → Handles
          (some (close_open c x (record { stdin_handle = now; calls = calls })))
          (input_of calls ++ [])
          ms
  unfolding Handles
  close-Handles ms true calls =
      (record { stdin_handle = false; calls = close_handle ∷ calls }, refl, refl)
  close-Handles ms false calls = (record { stdin_handle = false; calls = calls }, refl, refl)

  resize-Handles :
      (cols rows : ℕ) (ms : List FramedMessage) (now : Bool) (calls : List Call)
      → Handles
          (some (
            if x.has_pseudo_console
            then record { stdin_handle = now; calls = resize_pseudo_console cols rows ∷ calls }
            else record { stdin_handle = now; calls = calls }))
          (input_of calls ++ sent_by now (given c ms))
          ms
  unfolding Handles
  resize-Handles cols rows ms now calls = elim (Bool-cases x.has_pseudo_console) [
    | inl console ↦
        rw console (
          record { stdin_handle = now; calls = resize_pseudo_console cols rows ∷ calls },
          refl,
          refl,
        )
    | inr pipes ↦ rw pipes (record { stdin_handle = now; calls = calls }, refl, refl)
  ]

  handle_message-Handles :
      (version : ℕ) (message : Message) (ms : List FramedMessage) (now : Bool) (calls : List Call)
      → Handles
          (handle_message c x message (record { stdin_handle = now; calls = calls }))
          (input_of calls
            ++ sent_by now (given c (record { version = version; message = message } ∷ ms)))
          ms
  unfolding handle_message Handles
  handle_message-Handles v (stdin p) ms now calls =
      forward-Handles (c.decode p.data_b64) ms now calls
  handle_message-Handles v close_stdin ms true calls = close-Handles ms true calls
  handle_message-Handles v close_stdin ms false calls = close-Handles ms false calls
  handle_message-Handles v (resize p) ms now calls = resize-Handles p.cols p.rows ms now calls
  handle_message-Handles v terminate ms now calls = terminate-Handles ms now calls
  handle_message-Handles v (spawn_request p) ms now calls =
      (record { stdin_handle = now; calls = calls }, refl, refl)
  handle_message-Handles v (spawn_ready p) ms now calls =
      (record { stdin_handle = now; calls = calls }, refl, refl)
  handle_message-Handles v (output p) ms now calls =
      (record { stdin_handle = now; calls = calls }, refl, refl)
  handle_message-Handles v (exit p) ms now calls =
      (record { stdin_handle = now; calls = calls }, refl, refl)
  handle_message-Handles v (error p) ms now calls =
      (record { stdin_handle = now; calls = calls }, refl, refl)

  loop-Forwards :
      (ms : List FramedMessage) (fuel : ℕ) (r : Reader) (now : Bool) (calls : List Call)
      → Delivers c.from_slice ms r
      → length r.bytes < fuel
      → Forwards
          (input_loop c x fuel r (record { stdin_handle = now; calls = calls }))
          (input_of calls ++ sent_by now (given c ms))
  unfolding input_loop Handles
  loop-Forwards ms zero r now calls got h = elim h [ ]
  loop-Forwards [] (suc fuel) r true calls (r', read) h = (
    record { stdin_handle = false; calls = close_handle ∷ calls },
    ground (arith, read),
    sym (append-nil (input_of calls)),
  )
  loop-Forwards [] (suc fuel) r false calls (r', read) h = (
    record { stdin_handle = false; calls = calls },
    ground (arith, read),
    sym (append-nil (input_of calls)),
  )
  loop-Forwards (m ∷ ms) (suc fuel) r now calls (r', read, rest) h =
      let (next, handled, kept) = handle_message-Handles m.version m.message ms now calls in
      let (last, ended, all) =
        loop-Forwards ms fuel r' next.stdin_handle next.calls rest
          (ground (arith, h, read, read_frame_takes c.from_slice r m (ap (λ p. p.0) read))) in
      (last, ground (arith, read, handled, ended), all ∙ kept)

-- Where Win32 writes a part of each chunk: from a stream that delivers these messages and then ends,
-- with fuel for more frames than it has bytes, the child gets all bytes of the `stdin` messages that
-- can be decoded, in their order, up to the first message that closes its input, and no others.
pub input_loop-IsForwarded :
    (c : Codec) (x : Win32)
    → IsWriting x
    → (ms : List FramedMessage) (fuel : ℕ) (r : Reader) → Delivers c.from_slice ms r
    → length r.bytes < fuel
    → (child : Child) × (input_loop c x fuel r (record { stdin_handle = true; calls = [] })
        ≡ some child)
      × (input_of child.calls ≡ given c ms)
input_loop-IsForwarded c x law ms fuel r got h = loop-Forwards c x law ms fuel r true [] got h
