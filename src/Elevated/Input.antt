-- ===== src/Elevated/Input.antt =====
-- The loop over the parent's messages in the runner: `spawn_input_loop` of
-- src/bin/command_runner/win.rs.
use Prim.Native.Nat.{min}
use yj_sandbox.Base.{
  ℕ, zero, suc, ◌≤◌, ◌<◌, ◌≡◌, refl, Bool, true, false, Option, none, some, List, [], ◌∷◌, arith,
  length, take, drop, length-drop, Bool-cases, Option-cases, inl, inr,
}
use yj_sandbox.Base.Outcome.{Result-cases}
use yj_sandbox.FramedIo.{Bytes, Reader, read_frame}
use yj_sandbox.FramedIo.Reading.{read_frame_takes}
use yj_sandbox.Elevated.{
  Message, spawn_request, spawn_ready, output, stdin, close_stdin, resize, exit, error, terminate,
  Codec,
}
use yj_sandbox.Elevated.Runner.{
  Call, write_file, close_handle, resize_pseudo_console, terminate_job, terminate_process, Child,
  Win32, u32_max, close_open, write_stdin, forward, terminate_job_or_process, handle_message,
  input_loop,
}

-- Calls on a handle that is held at first, or not: whether it is held after them. It is written to and
-- closed only while it is held, so it is closed at most once and never used after that.
pub data Uses (held : Bool) : List Call → Bool → Type 0 where
  started : Uses held [] held
  wrote :
      {calls : List Call} (bytes : Bytes)
      → Uses held calls true
      → Uses held (write_file bytes ∷ calls) true
  closed : {calls : List Call} → Uses held calls true → Uses held (close_handle ∷ calls) false
  resized :
      {calls : List Call} {now : Bool} (cols rows : ℕ)
      → Uses held calls now
      → Uses held (resize_pseudo_console cols rows ∷ calls) now
  ended_job :
      {calls : List Call} {now : Bool} → Uses held calls now → Uses held (terminate_job ∷ calls) now
  ended_process :
      {calls : List Call} {now : Bool}
      → Uses held calls now
      → Uses held (terminate_process ∷ calls) now

module _ (c : Codec) (x : Win32) (held : Bool) where
  abbrev Keeps : Option Child → Type 0
  Keeps o = (child : Child) × (o ≡ some child) × Uses held child.calls child.stdin_handle

  write_stdin-Keeps :
      (fuel : ℕ) (bytes : Bytes) (calls : List Call)
      → length bytes ≤ fuel
      → Uses held calls true
      → Keeps (write_stdin c x fuel bytes (record { stdin_handle = true; calls = calls }))
  unfolding write_stdin
  write_stdin-Keeps fuel [] calls h uses =
      (record { stdin_handle = true; calls = calls }, refl, uses)
  write_stdin-Keeps zero (b ∷ bytes) calls h uses = elim h [ ]
  write_stdin-Keeps (suc fuel) (b ∷ bytes) calls h uses =
      let chunk : Bytes = take (min (length (b ∷ bytes)) u32_max) (b ∷ bytes) in
      let shut : Child = record { stdin_handle = false; calls = close_handle ∷ calls } in
      elim (Option-cases (x.written calls chunk)) [
        | inl failed ↦ (shut, ground (arith, failed), closed uses)
        | inr (zero, stuck) ↦ (shut, ground (arith, stuck), closed uses)
        | inr (suc n, wrote_n) ↦
            let (child, e, after) =
              write_stdin-Keeps fuel (drop n bytes) (write_file (take (suc n) chunk) ∷ calls)
                (omega (arith, h, length-drop n bytes)) (wrote (take (suc n) chunk) uses) in
            (child, ground (arith, wrote_n, e), after)
      ]

  close_open-Uses :
      (now : Bool) (calls : List Call)
      → Uses held calls now
      → Uses held
          (close_open c x (record { stdin_handle = now; calls = calls })).calls
          (close_open c x (record { stdin_handle = now; calls = calls })).stdin_handle
  close_open-Uses true calls uses = closed uses
  close_open-Uses false calls uses = uses

  terminate-Uses :
      (child : Child)
      → Uses held child.calls child.stdin_handle
      → Keeps (some (terminate_job_or_process c x child))
  unfolding terminate_job_or_process
  terminate-Uses child uses = (
    terminate_job_or_process c x child,
    refl,
    elim (Bool-cases (x.job_terminated child.calls)) [
      | inl done ↦ rw done (ended_job uses)
      | inr failed ↦ rw failed (ended_process (ended_job uses))
    ],
  )

  forward-Keeps :
      (read : Option Bytes) (now : Bool) (calls : List Call)
      → Uses held calls now
      → Keeps (forward c x read (record { stdin_handle = now; calls = calls }))
  forward-Keeps none now calls uses = (record { stdin_handle = now; calls = calls }, refl, uses)
  forward-Keeps (some bytes) true calls uses =
      write_stdin-Keeps (length bytes) bytes calls (omega arith) uses
  forward-Keeps (some bytes) false calls uses =
      (record { stdin_handle = false; calls = calls }, refl, uses)

  handle_message-Keeps :
      (message : Message) (now : Bool) (calls : List Call)
      → Uses held calls now
      → Keeps (handle_message c x message (record { stdin_handle = now; calls = calls }))
  unfolding handle_message
  handle_message-Keeps (stdin payload) now calls uses =
      forward-Keeps (c.decode payload.data_b64) now calls uses
  handle_message-Keeps close_stdin now calls uses = (
    close_open c x (record { stdin_handle = now; calls = calls }),
    refl,
    close_open-Uses now calls uses,
  )
  handle_message-Keeps (resize payload) now calls uses = elim (Bool-cases x.has_pseudo_console) [
    | inl console ↦ rw console (
      record {
        stdin_handle = now;
        calls = resize_pseudo_console payload.cols payload.rows ∷ calls;
      },
      refl,
      resized payload.cols payload.rows uses,
    )
    | inr pipes ↦ rw pipes (record { stdin_handle = now; calls = calls }, refl, uses)
  ]
  handle_message-Keeps terminate now calls uses =
      terminate-Uses (record { stdin_handle = now; calls = calls }) uses
  handle_message-Keeps (spawn_request p) now calls uses =
      (record { stdin_handle = now; calls = calls }, refl, uses)
  handle_message-Keeps (spawn_ready p) now calls uses =
      (record { stdin_handle = now; calls = calls }, refl, uses)
  handle_message-Keeps (output p) now calls uses =
      (record { stdin_handle = now; calls = calls }, refl, uses)
  handle_message-Keeps (exit p) now calls uses =
      (record { stdin_handle = now; calls = calls }, refl, uses)
  handle_message-Keeps (error p) now calls uses =
      (record { stdin_handle = now; calls = calls }, refl, uses)

  abbrev Shuts : Option Child → Type 0
  Shuts o = (child : Child) × (o ≡ some child) × Uses held child.calls false

  Shuts-open :
      (now : Bool) (calls : List Call)
      → Uses held calls now
      → Shuts (some (close_open c x (record { stdin_handle = now; calls = calls })))
  Shuts-open true calls uses =
      (record { stdin_handle = false; calls = close_handle ∷ calls }, refl, closed uses)
  Shuts-open false calls uses = (record { stdin_handle = false; calls = calls }, refl, uses)

  loop-Shuts :
      (fuel : ℕ) (r : Reader) (child : Child)
      → length r.bytes < fuel
      → Uses held child.calls child.stdin_handle
      → Shuts (input_loop c x fuel r child)
  unfolding input_loop
  loop-Shuts zero r child h uses = elim h [ ]
  loop-Shuts (suc fuel) r child h uses = elim (Result-cases (read_frame c.from_slice r).0) [
    | inl (why, e) ↦ rw (e, input_loop) (Shuts-open child.stdin_handle child.calls uses)
    | inr (none, e) ↦ rw (e, input_loop) (Shuts-open child.stdin_handle child.calls uses)
    | inr (some m, e) ↦
        let (next, handled, kept) =
          handle_message-Keeps m.message child.stdin_handle child.calls uses in
        let (last, ended, shut) =
          loop-Shuts fuel (read_frame c.from_slice r).1 next
            (omega (arith, h, read_frame_takes c.from_slice r m e)) kept in
        (last, ground (arith, e, handled, ended), shut)
  ]

-- Whatever the parent sends and whatever Win32 answers, with fuel for more frames than the stream has
-- bytes the loop ends. If it has a handle of the child's standard input, it writes to it only while it
-- holds it and closes it exactly once; if it has none, it writes to none and closes none.
pub input_loop-IsClosed :
    (c : Codec) (x : Win32) (held : Bool) (fuel : ℕ) (r : Reader)
    → length r.bytes < fuel
    → (child : Child) × (input_loop c x fuel r (record { stdin_handle = held; calls = [] })
        ≡ some child)
      × Uses held child.calls false
input_loop-IsClosed c x held fuel r h =
    loop-Shuts c x held fuel r (record { stdin_handle = held; calls = [] }) h started
