-- ===== src/FramedIo/Waiting.antt =====
-- The wait for a complete frame on a named pipe: `wait_for_complete_frame` of src/framed_io.rs.
-- Times are in nanoseconds. Fuel counts the rounds; each sleeps for at least one nanosecond, so one
-- round more than the time that is left is enough.
use Prim.Native.Nat.{min}
use yj_sandbox.Base.{
  ℕ, zero, suc, ◌+◌, ◌-◌, ◌*◌, ◌≤◌, ◌<◌, ◌≡◌, ◌≢◌, subst, Option, none, some, arith, length, ltb,
  leb, ◌==◌, if◌then◌else◌, Bool-cases, Option-cases, inl, inr,
}
use yj_sandbox.Base.Outcome.{Result, ok, err}
use yj_sandbox.FramedIo.{Bytes, max_frame_len, from_le_bytes}

abbrev pub frame_poll_interval : ℕ
frame_poll_interval = 5 * 1000000

pub data WaitError : Type 0 where
  peek_failed timed_out : WaitError
  invalid_data : ℕ → WaitError

-- The Win32 call: the bytes copied out, at most four, and how many the pipe holds.
pub record Peeked : Type 0 where
  pub len_buf : Bytes
  pub total_available : ℕ

-- What one look at the pipe decides, or `none` to go on waiting.
abbrev pub inspect : Option Peeked → Option (Result WaitError Unit)
inspect none = some (err peek_failed)
inspect (some p) =
    let frame_len = from_le_bytes p.len_buf in
    if length p.len_buf == 4
    then (if ltb max_frame_len frame_len
        then some (err (invalid_data frame_len))
        else if leb (4 + frame_len) p.total_available
        then some (ok tt)
        else none)
    else none

-- `peek t` is what the pipe shows at time `t`. After a look at time `t` the clock is read `delay t`
-- later, and a sleep that ends at time `t` by its length is over, and the next look taken, `late t`
-- later.
module _ (peek : ℕ → Option Peeked) (delay late : ℕ → ℕ) (deadline : ℕ) where
  -- what `Instant::now()` gives after the look
  abbrev pub clock : ℕ → ℕ
  clock now = now + delay now

  -- the time of the look after the sleep
  abbrev pub next_round : ℕ → ℕ
  next_round now =
      let woken = clock now + min (deadline - clock now) frame_poll_interval in woken + late woken

  unfoldable pub wait_for_complete_frame : ℕ → ℕ → Option (Result WaitError Unit)
  wait_for_complete_frame zero now = none
  wait_for_complete_frame (suc fuel) now = elim (inspect (peek now)) [
    | some outcome ↦ some outcome
    | none ↦
        let rest = wait_for_complete_frame fuel (next_round now) in
        if deadline - clock now == 0 then some (err timed_out) else rest
  ]

  -- With fuel for one round more than the nanoseconds that are left, the wait ends with a result.
  pub wait-ne-none :
      (fuel now : ℕ) → deadline - now < fuel → wait_for_complete_frame fuel now ≢ none
  unfolding wait_for_complete_frame
  wait-ne-none zero now h = elim h [ ]
  wait-ne-none (suc fuel) now h = ground (arith, wait-ne-none fuel (next_round now))

  -- What each outcome says of the pipe at the time of the last look.
  abbrev pub Justifies : ℕ → Result WaitError Unit → Type 0
  Justifies at (ok _) =
      (p : Peeked) × (peek at ≡ some p)
      × (length p.len_buf ≡ 4)
      × (from_le_bytes p.len_buf ≤ max_frame_len)
      × (4 + from_le_bytes p.len_buf ≤ p.total_available)
  Justifies at (err timed_out) = (deadline ≤ clock at) × (inspect (peek at) ≡ none)
  Justifies at (err peek_failed) = peek at ≡ none
  Justifies at (err (invalid_data n)) =
      (p : Peeked) × (peek at ≡ some p) × (from_le_bytes p.len_buf ≡ n) × (max_frame_len < n)

  inspect-Justifies :
      (at : ℕ) (outcome : Result WaitError Unit)
      → inspect (peek at) ≡ some outcome
      → Justifies at outcome
  inspect-Justifies at outcome h = elim (Option-cases (peek at)) [
    | inl gone ↦ failed outcome gone h
    | inr (p, seen) ↦ looked p seen outcome (ground arith)
  ]
    where
      failed :
          (o : Result WaitError Unit) → peek at ≡ none → inspect (peek at) ≡ some o → Justifies at o
      failed (ok _) gone h = ground arith
      failed (err peek_failed) gone h = gone
      failed (err timed_out) gone h = ground arith
      failed (err (invalid_data n)) gone h = ground arith

      looked :
          (p : Peeked)
          → peek at ≡ some p
          → (o : Result WaitError Unit) → inspect (some p) ≡ some o
          → Justifies at o
      looked p seen (ok _) h = (p, seen, ground arith, ground arith, ground arith)
      looked p seen (err peek_failed) h = ground arith
      looked p seen (err timed_out) h = ground arith
      looked p seen (err (invalid_data n)) h = (p, seen, ground arith, ground arith)

  -- A result of the wait rests on a look at the pipe not before the start: a success, on a whole
  -- header with a length in bounds and all the bytes of its frame there; a timeout, on an
  -- incomplete frame and on the clock, read after that look, at or after the deadline; the two
  -- failures, on a failed look and on a header with a length out of bounds.
  pub wait-Justifies :
      (fuel now : ℕ) (outcome : Result WaitError Unit)
      → wait_for_complete_frame fuel now ≡ some outcome
      → (at : ℕ) × (now ≤ at) × Justifies at outcome
  unfolding wait_for_complete_frame
  wait-Justifies zero now outcome h = cc
  wait-Justifies (suc fuel) now outcome h = elim (Option-cases (inspect (peek now))) [
    | inr (o, seen) ↦ (now, omega arith, inspect-Justifies now outcome (ground arith))
    | inl unseen ↦ elim (Bool-cases (deadline - clock now == 0)) [
      | inl late ↦
          let timeout : err timed_out ≡ outcome = ground arith in
          (now, omega arith, subst (Justifies now) timeout (ground arith, unseen))
      | inr early ↦
          let (at, after, why) = wait-Justifies fuel (next_round now) outcome (ground arith) in
          (at, omega arith, why)
    ]
  ]
