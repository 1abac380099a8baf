-- ===== src/Setup/Flights/Ends.antt =====
-- Every caller of `run_setup_singleflight` in src/setup.rs returns.
use yj_sandbox.Base.{
  ℕ, zero, suc, ◌+◌, ◌*◌, ◌<◌, ◌≤◌, ◌≡◌, refl, ◌⊎◌, inl, inr, some, ◌==◌, if◌then◌else◌, ap, arith,
  Bool-cases, Option-cases,
}
use yj_sandbox.Base.Outcome.{Result, ok}
use yj_sandbox.Base.Text.{Text}
use yj_sandbox.Base.Maps.{map_get}
use yj_sandbox.Setup.Flights.{
  SharedSetupError, Outcome, Caller, arriving, running, finished, published, led, waiting, joined,
  waited, shared_result, System, update, enter, finish, complete, leave, wake, Step, enters,
  finishes, completes, leaves, wakes, Reach, start, later,
}
use yj_sandbox.Setup.Flights.Led.{flight_led, result_of}
use yj_sandbox.Setup.Flights.Invariant.{IsSound, Reach-IsSound}

-- The steps that a caller may still take.
abbrev pub rank : Caller → ℕ
rank arriving = 4
rank (running i) = 3
rank (finished i o) = 2
rank (published i o) = 1
rank (led i o) = 0
rank (waiting i) = 1
rank (joined i o) = 0

pub data HasReturned : Caller → Type 0 where
  as_leader : (i : ℕ) (o : Outcome) → HasReturned (led i o)
  as_joiner : (i : ℕ) (o : Outcome) → HasReturned (joined i o)

unfoldable total : ℕ → (ℕ → Caller) → ℕ
total zero callers = 0
total (suc n) callers = rank (callers n) + total n callers

total_same :
    (n : ℕ) (callers : ℕ → Caller) (c : ℕ) (to : Caller)
    → n ≤ c
    → total n (update callers c to) ≡ total n callers
unfolding total
total_same zero callers c to h = refl
total_same (suc n) callers c to h = ground (arith, total_same n callers c to)

total_falls :
    (n : ℕ) (callers : ℕ → Caller) (c : ℕ) (to : Caller)
    → c < n
    → rank to < rank (callers c)
    → total n (update callers c to) < total n callers
unfolding total
total_falls zero callers c to h less = absurd (omega arith)
total_falls (suc n) callers c to h less = elim (Bool-cases (n == c)) [
  | inl last ↦ ground (arith, last, total_same n callers c to)
  | inr other ↦ ground (arith, other, total_falls n callers c to)
]

total_init : (n : ℕ) → total n (λ _. arriving) ≡ 4 * n
unfolding total
total_init zero = omega arith
total_init (suc n) = omega (arith, total_init n)

module _ (keys : ℕ → Text) (n : ℕ) where
  Step-falls : {s t : System} → Step keys n s t → total n t.callers < total n s.callers
  unfolding enter finish complete leave wake
  Step-falls {s} (enters c low e) = elim (Option-cases (map_get s.flights (keys c))) [
    | inl free ↦ ground (arith, free, total_falls n s.callers c (running s.next) low, e)
    | inr (i, there) ↦ ground (arith, there, total_falls n s.callers c (waiting i) low, e)
  ]
  Step-falls {s} (finishes c i o low e) =
      total_falls n s.callers c (finished i o) low (ground (arith, e))
  Step-falls {s} (completes c i o low e) =
      total_falls n s.callers c (published i o) low (ground (arith, e))
  Step-falls {s} (leaves c i o low e) = total_falls n s.callers c (led i o) low (ground (arith, e))
  Step-falls {s} (wakes c i r low e there) =
      total_falls n s.callers c (joined i (waited r)) low (ground (arith, e))

  Reach-bound : {steps : ℕ} {s : System} → Reach keys n steps s → steps + total n s.callers ≤ 4 * n
  Reach-bound start = omega (arith, total_init n)
  Reach-bound (later before step) = omega (arith, Reach-bound before, Step-falls step)

  -- The caller that takes a step, and how many steps of a caller lead to a system.
  abbrev pub caller_of : {s t : System} → Step keys n s t → ℕ
  caller_of (enters c low e) = c
  caller_of (finishes c i o low e) = c
  caller_of (completes c i o low e) = c
  caller_of (leaves c i o low e) = c
  caller_of (wakes c i r low e there) = c

  abbrev pub steps_of : ℕ → {steps : ℕ} {s : System} → Reach keys n steps s → ℕ
  steps_of a start = 0
  steps_of a (later before step) = (if caller_of step == a then 1 else 0) + steps_of a before

  Step-rank :
      (a : ℕ) {s t : System} (step : Step keys n s t)
      → (if caller_of step == a then 1 else 0) + rank (t.callers a) ≤ rank (s.callers a)
  unfolding enter finish complete leave wake
  Step-rank a {s} (enters c low e) = elim (Option-cases (map_get s.flights (keys c))) [
    | inl free ↦ ground (arith, free, e, ap s.callers)
    | inr (i, there) ↦ ground (arith, there, e)
  ]
  Step-rank a {s} (finishes c i o low e) = ground (arith, e)
  Step-rank a {s} (completes c i o low e) = ground (arith, e)
  Step-rank a {s} (leaves c i o low e) = ground (arith, e)
  Step-rank a {s} (wakes c i r low e there) = ground (arith, e)

  steps_of_bound :
      (a : ℕ) {steps : ℕ} {s : System} (reach : Reach keys n steps s)
      → steps_of a reach + rank (s.callers a) ≤ 4
  steps_of_bound a start = omega arith
  steps_of_bound a (later before step) = omega (arith, steps_of_bound a before, Step-rank a step)

  -- What a caller does next.
  advance :
      (s : System) (c : ℕ) (caller : Caller)
      → s.callers c ≡ caller
      → c < n
      → HasReturned caller ⊎ (((t : System) × Step keys n s t) ⊎ ((i : ℕ) × (caller ≡ waiting i)))
  advance s c arriving e low = inr (inl (enter keys c s, enters c low e))
  advance s c (running i) e low = inr (inl (finish keys c i (ok tt) s, finishes c i (ok tt) low e))
  advance s c (finished i o) e low = inr (inl (complete keys c i o s, completes c i o low e))
  advance s c (published i o) e low = inr (inl (leave keys c i o s, leaves c i o low e))
  advance s c (led i o) e low = inl (as_leader i o)
  advance s c (waiting i) e low = inr (inr (i, refl))
  advance s c (joined i o) e low = inl (as_joiner i o)

  led_result :
      (caller : Caller) (i : ℕ)
      → HasReturned caller
      → flight_led caller ≡ some i
      → (r : Result SharedSetupError (Unit {0})) × (result_of caller ≡ some r)
  led_result caller i (as_leader j o) e = (shared_result o, refl)
  led_result caller i (as_joiner j o) e = cc e

  -- A waiting caller wakes, or the leader of its flight goes on.
  waiting_goes_on :
      (s : System) (c i : ℕ)
      → IsSound keys n s
      → c < n
      → s.callers c ≡ waiting i
      → (t : System) × Step keys n s t
  waiting_goes_on s c i (v, w) low e =
      let (a, ka, led_a) = w.joins c i (ground (arith, e)) in
      let inside : a < n = ground (arith, v.inside a, led_a) in
      elim (advance s a (s.callers a) refl inside) [
        | inl returned ↦
            let (r, said) = led_result (s.callers a) i returned led_a in
            let there : s.results i ≡ some r = ground (arith, v.shared a i led_a, said) in
            (wake keys c i r s, wakes c i r low e there)
        | inr (inl step) ↦ step
        | inr (inr (j, waits)) ↦ absurd (ground (arith, waits, led_a))
      ]

  -- Whatever the order, each caller takes at most four steps, and so `n` of them at most 4 * n together;
  -- and as long as one of them has not returned, one of them can go on. So all of them return, whatever
  -- the helper's outcomes.
  pub Reach-Ends :
      {steps : ℕ} {s : System} (reach : Reach keys n steps s)
      → ((a : ℕ) → steps_of a reach ≤ 4)
        × (steps ≤ 4 * n)
        × ((c : ℕ) → c < n → HasReturned (s.callers c) ⊎ ((t : System) × Step keys n s t))
  Reach-Ends {s} reach = (
    λ a. omega (arith, steps_of_bound a reach),
    omega (arith, Reach-bound reach),
    λ c low. elim (advance s c (s.callers c) refl low) [
      | inl returned ↦ inl returned
      | inr (inl step) ↦ inr step
      | inr (inr (i, waits)) ↦ inr (waiting_goes_on s c i (Reach-IsSound keys n reach) low waits)
    ],
  )
