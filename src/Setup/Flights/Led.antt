-- ===== src/Setup/Flights/Led.antt =====
-- Who leads the flights of `run_setup_singleflight` in src/setup.rs, and who has joined them, when a
-- caller goes on.
use yj_sandbox.Base.{
  ℕ, ◌<◌, ◌≤◌, ◌≡◌, inl, inr, Bool, true, false, Option, none, some, ◌==◌, arith, Bool-cases,
}
use yj_sandbox.Base.Outcome.{Result}
use yj_sandbox.Base.Text.{Text}
use yj_sandbox.Base.Maps.{map_get}
use yj_sandbox.Setup.Flights.{
  SharedSetupError, Outcome, shared_result, waited, Caller, arriving, running, finished, published,
  led, waiting, joined, System, update, complete,
}

-- The flight that a caller leads or has led, or that it joined.
abbrev pub flight_led : Caller → Option ℕ
flight_led arriving = none
flight_led (running i) = some i
flight_led (finished i o) = some i
flight_led (published i o) = some i
flight_led (led i o) = some i
flight_led (waiting i) = none
flight_led (joined i o) = none

abbrev pub flight_joined : Caller → Option ℕ
flight_joined (waiting i) = some i
flight_joined (joined i o) = some i
flight_joined _ = none

-- Whether the caller leads and its flight has not gone.
abbrev pub is_leading : Caller → Bool
is_leading (running i) = true
is_leading (finished i o) = true
is_leading (published i o) = true
is_leading _ = false

-- What a leader has published.
abbrev pub result_of : Caller → Option (Result SharedSetupError (Unit {0}))
result_of (published i o) = some (shared_result o)
result_of (led i o) = some (shared_result o)
result_of _ = none

module _ (keys : ℕ → Text) (n : ℕ) where
  -- The leaders: each flight has one, and those that are listed are those whose leader has not left.
  pub record IsLed (s : System) : Type 0 where
    pub inside : (c : ℕ) → n ≤ c → s.callers c ≡ arriving
    pub below : (c i : ℕ) → flight_led (s.callers c) ≡ some i → i < s.next
    pub alone :
        (a b i : ℕ) → flight_led (s.callers a) ≡ some i → flight_led (s.callers b) ≡ some i → a ≡ b
    pub listed :
        (c i : ℕ)
        → flight_led (s.callers c) ≡ some i
        → is_leading (s.callers c) ≡ true
        → map_get s.flights (keys c) ≡ some i
    pub leads :
        (k : Text) (i : ℕ)
        → map_get s.flights k ≡ some i
        → (c : ℕ) × (keys c ≡ k)
          × (flight_led (s.callers c) ≡ some i)
          × (is_leading (s.callers c) ≡ true)
    pub shared :
        (c i : ℕ) → flight_led (s.callers c) ≡ some i → s.results i ≡ result_of (s.callers c)

  -- The others: each has joined a flight of its key, and has returned what was published there.
  pub record IsJoined (s : System) : Type 0 where
    pub joins :
        (c i : ℕ)
        → flight_joined (s.callers c) ≡ some i
        → (a : ℕ) × (keys a ≡ keys c) × (flight_led (s.callers a) ≡ some i)
    pub got :
        (c i : ℕ) (o : Outcome)
        → s.callers c ≡ joined i o
        → (r : Result SharedSetupError (Unit {0})) × (s.results i ≡ some r) × (o ≡ waited r)

  -- A caller goes on that keeps its flight, whether it leads, and what it has published.
  pub moves-IsLed :
      (s : System) (c : ℕ) (to : Caller)
      → IsLed s
      → c < n
      → flight_led to ≡ flight_led (s.callers c)
      → is_leading to ≡ is_leading (s.callers c)
      → result_of to ≡ result_of (s.callers c)
      → IsLed (record s { callers = update s.callers c to })
  moves-IsLed s c to v low same still unsaid = record {
    inside = λ x h. ground (arith, v.inside x h);
    below = λ x i e. ground (arith, v.below x i, v.below c i);
    alone = λ a b i e f. ground (arith, v.alone a b i, v.alone a c i, v.alone c b i);
    listed = λ x i e l. ground (arith, v.listed x i, v.listed c i);
    leads = λ k i e.
        let (a, ka, led_a, leading_a) = v.leads k i e in
        (a, ka, ground (arith, led_a, same), ground (arith, leading_a, still));
    shared = λ x i e. ground (arith, v.shared x i, v.shared c i);
  }

  -- Another caller goes on, with its flight if it led one.
  pub leader-IsJoined :
      (s : System) (c : ℕ) (to : Caller)
      → IsJoined s
      → flight_led to ≡ flight_led (s.callers c)
      → flight_joined to ≡ none
      → IsJoined (record s { callers = update s.callers c to })
  leader-IsJoined s c to v same out = record {
    joins = λ x i e.
        let (a, ka, led_a) = v.joins x i (ground (arith, out)) in
        (a, ka, ground (arith, led_a, same));
    got = λ x i o e. v.got x i o (ground (arith, out));
  }

  pub joiner-IsJoined :
      (s : System) (c i : ℕ) (to : Caller)
      → IsJoined s
      → flight_led (s.callers c) ≡ none
      → flight_joined to ≡ some i
      → ((a : ℕ) × (keys a ≡ keys c) × (flight_led (s.callers a) ≡ some i))
      → ((o : Outcome)
          → to ≡ joined i o
          → (r : Result SharedSetupError (Unit {0})) × (s.results i ≡ some r) × (o ≡ waited r))
      → IsJoined (record s { callers = update s.callers c to })
  joiner-IsJoined s c i to v free into (l, kl, led_l) said = record {
    joins = λ x j e. elim (Bool-cases (x == c)) [
      | inl at ↦ (l, ground (arith, at, kl), ground (arith, at, e, into, led_l, free))
      | inr other ↦
          let (a, ka, led_a) = v.joins x j (ground (arith, other, e)) in
          (a, ka, ground (arith, led_a, free))
    ];
    got = λ x j o e. elim (Bool-cases (x == c)) [
      | inl at ↦
          let mine : to ≡ joined j o = ground (arith, at, e) in
          let same : j ≡ i = ground (arith, mine, into) in
          let (r, there, heard) = said o (ground (arith, mine, same)) in
          (r, ground (arith, same, there), heard)
      | inr other ↦ v.got x j o (ground (arith, other, e))
    ];
  }

  pub complete-IsLed :
      (s : System) (c i : ℕ) (o : Outcome)
      → IsLed s
      → c < n
      → s.callers c ≡ finished i o
      → IsLed (complete keys c i o s)
  unfolding complete
  complete-IsLed s c i o v low e = record {
    inside = λ x h. ground (arith, v.inside x h);
    below = λ x j f. ground (arith, v.below x j, v.below c j);
    alone = λ a b j f g. ground (arith, v.alone a b j, v.alone a c j, v.alone c b j);
    listed = λ x j f l. ground (arith, v.listed x j, v.listed c j);
    leads = λ k j f.
        let (a, ka, led_a, leading_a) = v.leads k j f in
        (a, ka, ground (arith, led_a, e), ground (arith, leading_a, e));
    shared = λ x j f. ground (arith, v.shared x j, v.alone x c i);
  }

  pub complete-IsJoined :
      (s : System) (c i : ℕ) (o : Outcome)
      → IsLed s
      → IsJoined s
      → s.callers c ≡ finished i o
      → IsJoined (complete keys c i o s)
  unfolding complete
  complete-IsJoined s c i o v w e = record {
    joins = λ x j f.
        let (a, ka, led_a) = w.joins x j (ground (arith, e, f)) in
        (a, ka, ground (arith, led_a, e));
    got = λ x j out f.
        let (r, there, same) = w.got x j out (ground (arith, e, f)) in
        (r, ground (arith, there, v.shared c i, e), same);
  }
