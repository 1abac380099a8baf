-- ===== src/Examples/Flights.antt =====
-- Callers that share a run of the helper, and the helper's argument, src/setup.rs.
use yj_sandbox.Base.{ℕ, ◌*◌, ◌≤◌, ◌<◌, true, ◌≡◌, refl, ◌⊎◌, some, arith}
use yj_sandbox.Base.Outcome.{ok}
use yj_sandbox.Base.Text.{Text, codes, text_eq}
use yj_sandbox.Base.Maps.{map_get, map_insert}
use yj_sandbox.Winutil.{quote_windows_arg}
use yj_sandbox.Setup.Flights.{
  Outcome, System, Step, enters, finishes, completes, wakes, init, Reach, start, later, joined,
  enter, finish, complete, wake, shared_result, waited,
}
use yj_sandbox.Setup.Flights.Led.{flight_led, is_leading, result_of}
use yj_sandbox.Setup.Flights.Invariant.{Reach-Shares}
use yj_sandbox.Setup.Flights.Ends.{HasReturned, steps_of, Reach-Ends}
use yj_sandbox.Setup.Launch.{quote_chars, quote_arg}
use yj_sandbox.Setup.Launch.Argument.{quote_arg-quote_windows_arg}

-- Two callers with one key.
abbrev keys : ℕ → Text
keys _ = codes "k"

entered : System
unfolding enter
entered = enter keys 1 (enter keys 0 init)

-- The second joins the flight of the first and returns when it has published.
ended : System
unfolding finish complete wake
ended = wake keys 1 0 (ok tt) (complete keys 0 0 (ok tt) (finish keys 0 0 (ok tt) entered))

ended_test : ended.callers 1 ≡ joined 0 (ok tt)
unfolding ended wake waited
ended_test = refl

ended_reach : Reach keys 2 5 ended
unfolding ended entered enter finish complete wake map_get map_insert text_eq shared_result
ended_reach =
    later
      (later
        (later (later (later start (enters 0 (omega arith) refl)) (enters 1 (omega arith) refl))
          (finishes 0 0 (ok tt) (omega arith) refl))
        (completes 0 0 (ok tt) (omega arith) refl))
      (wakes 1 0 (ok tt) (omega arith) refl refl)

Reach-Shares_example :
    ((a b : ℕ)
      → is_leading (ended.callers a) ≡ true
      → is_leading (ended.callers b) ≡ true
      → keys a ≡ keys b
      → a ≡ b)
    × ((c i : ℕ) (o : Outcome)
        → ended.callers c ≡ joined i o
        → (a : ℕ) × (keys a ≡ keys c)
          × (flight_led (ended.callers a) ≡ some i)
          × ((done : Outcome) × (result_of (ended.callers a) ≡ some (shared_result done))
              × (o ≡ waited (shared_result done))))
Reach-Shares_example = Reach-Shares keys 2 ended_reach

Reach-Ends_example :
    ((a : ℕ) → steps_of keys 2 a ended_reach ≤ 4)
    × (5 ≤ 4 * 2)
    × ((c : ℕ) → c < 2 → HasReturned (ended.callers c) ⊎ ((t : System) × Step keys 2 ended t))
Reach-Ends_example = Reach-Ends keys 2 ended_reach

quote_arg_test : quote_arg (codes "a b\\") ≡ codes "\"a b\\\\\""
unfolding quote_arg quote_chars
quote_arg_test = refl

quote_arg-quote_windows_arg_example : quote_arg (codes "a b\\") ≡ quote_windows_arg (codes "a b\\")
quote_arg-quote_windows_arg_example = quote_arg-quote_windows_arg (codes "a b\\")
