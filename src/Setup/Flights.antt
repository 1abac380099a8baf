-- ===== src/Setup/Flights.antt =====
-- Callers that share one run of the helper: `run_setup_singleflight` of src/setup.rs, whose sections
-- under a lock are the steps of a system of threads.
pub mod Led
mod Listing
pub mod Invariant
pub mod Ends
use yj_sandbox.Base.{
  ℕ, suc, ◌+◌, ◌<◌, ◌≡◌, Bool, true, false, Option, none, some, [], ◌==◌, if◌then◌else◌,
}
use yj_sandbox.Base.Outcome.{Result, ok, err}
use yj_sandbox.Base.Text.{Text}
use yj_sandbox.Base.Maps.{TextMap, map_get, map_insert, map_remove}
use yj_sandbox.SetupError.{SetupErrorCode, SetupFailure, display}

-- An `anyhow::Error`: the failure that it was made from, if it was, and its text with its causes.
pub record AnyError : Type 0 where
  pub failure : Option SetupFailure
  pub text : Text

pub record SharedSetupError : Type 0 where
  pub code : Option SetupErrorCode
  pub message : Text

unfoldable pub from_error : AnyError → SharedSetupError
from_error e = elim e.failure [
  | some f ↦ record { code = some f.code; message = f.message }
  | none ↦ record { code = none; message = e.text }
]

unfoldable pub into_error : SharedSetupError → AnyError
into_error s = elim s.code [
  | some code ↦
      let f : SetupFailure = record { code = code; message = s.message } in
      record { failure = some f; text = display f }
  | none ↦ record { failure = none; text = s.message }
]

abbrev pub Outcome : Type 0
Outcome = Result AnyError (Unit {0})

unfoldable pub shared_result : Outcome → Result SharedSetupError (Unit {0})
unfolding from_error
shared_result (ok done) = ok done
shared_result (err e) = err (from_error e)

unfoldable pub waited : Result SharedSetupError (Unit {0}) → Outcome
unfolding into_error
waited (ok done) = ok done
waited (err s) = err (into_error s)

-- Where a caller stands. A leader of a flight runs the helper, has its result, has published it,
-- and has returned it; the others wait for the flight, and have returned what was published.
pub data Caller : Type 0 where
  arriving : Caller
  running : ℕ → Caller
  finished published led : ℕ → Outcome → Caller
  waiting : ℕ → Caller
  joined : ℕ → Outcome → Caller

pub record System : Type 0 where
  -- the flights by their keys
  pub flights : TextMap ℕ
  -- the flights that were made, and their results
  pub next : ℕ
  pub results : ℕ → Option (Result SharedSetupError (Unit {0}))
  pub callers : ℕ → Caller

abbrev pub update : {A : Type 0} → (ℕ → A) → ℕ → A → ℕ → A
update f i a j = if j == i then a else f j

module _ (keys : ℕ → Text) where
  -- the first section: a caller joins the flight of its key, or leads a new one
  unfoldable pub enter : ℕ → System → System
  enter c s = elim (map_get s.flights (keys c)) [
    | some flight ↦ record s { callers = update s.callers c (waiting flight) }
    | none ↦ record {
      flights = map_insert (keys c) s.next s.flights;
      next = s.next + 1;
      results = update s.results s.next none;
      callers = update s.callers c (running s.next);
    }
  ]

  -- `run()` returns
  unfoldable pub finish : ℕ → ℕ → Outcome → System → System
  finish c flight outcome s = record s { callers = update s.callers c (finished flight outcome) }

  -- `flight.complete(shared_result)`
  unfoldable pub complete : ℕ → ℕ → Outcome → System → System
  complete c flight outcome s = record s {
    results = update s.results flight (some (shared_result outcome));
    callers = update s.callers c (published flight outcome);
  }

  abbrev pub is_flight : ℕ → Option ℕ → Bool
  is_flight flight none = false
  is_flight flight (some current) = current == flight

  -- the last section: the flight goes, if it is still the one of its key
  unfoldable pub leave : ℕ → ℕ → Outcome → System → System
  leave c flight outcome s = record s {
    flights =
        (if is_flight flight (map_get s.flights (keys c))
          then map_remove (keys c) s.flights
          else s.flights);
    callers = update s.callers c (led flight outcome);
  }

  -- `flight.wait()` finds a result
  unfoldable pub wake : ℕ → ℕ → Result SharedSetupError (Unit {0}) → System → System
  unfolding waited
  wake c flight result s = record s { callers = update s.callers c (joined flight (waited result)) }

  -- `n` callers take steps in any order, and the helper has any outcome.
  pub data Step (n : ℕ) (s : System) : System → Type 0 where
    enters : (c : ℕ) → c < n → s.callers c ≡ arriving → Step n s (enter c s)
    finishes :
        (c flight : ℕ) (outcome : Outcome)
        → c < n
        → s.callers c ≡ running flight
        → Step n s (finish c flight outcome s)
    completes :
        (c flight : ℕ) (outcome : Outcome)
        → c < n
        → s.callers c ≡ finished flight outcome
        → Step n s (complete c flight outcome s)
    leaves :
        (c flight : ℕ) (outcome : Outcome)
        → c < n
        → s.callers c ≡ published flight outcome
        → Step n s (leave c flight outcome s)
    wakes :
        (c flight : ℕ) (result : Result SharedSetupError (Unit {0}))
        → c < n
        → s.callers c ≡ waiting flight
        → s.results flight ≡ some result
        → Step n s (wake c flight result s)

abbrev pub init : System
init = record { flights = []; next = 0; results = λ _. none; callers = λ _. arriving }

-- The systems that so many steps lead to.
pub data Reach (keys : ℕ → Text) (n : ℕ) : ℕ → System → Type 0 where
  start : Reach keys n 0 init
  later :
      {steps : ℕ} {s t : System}
      → Reach keys n steps s
      → Step keys n s t
      → Reach keys n (suc steps) t
