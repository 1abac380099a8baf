-- ===== src/Setup/Flights/Invariant.antt =====
-- What holds of the callers in `run_setup_singleflight` of src/setup.rs whatever their order.
use yj_sandbox.Base.{ℕ, ◌≡◌, refl, sym, subst, inl, inr, true, some, arith, Option-cases}
use yj_sandbox.Base.Outcome.{Result}
use yj_sandbox.Base.Text.{Text}
use yj_sandbox.Base.Maps.{map_get}
use yj_sandbox.Setup.Flights.{
  SharedSetupError, Outcome, shared_result, waited, Caller, arriving, running, finished, published,
  led, waiting, joined, System, finish, wake, Step, enters, finishes, completes, leaves, wakes,
  init, Reach, start, later,
}
use yj_sandbox.Setup.Flights.Led.{
  flight_led, is_leading, result_of, IsLed, IsJoined, moves-IsLed, leader-IsJoined, joiner-IsJoined,
  complete-IsLed, complete-IsJoined,
}
use yj_sandbox.Setup.Flights.Listing.{
  leave-IsLed, leave-IsJoined, new_flight-IsLed, new_flight-IsJoined, enter-new, enter-wait,
}

leading_led : (caller : Caller) → is_leading caller ≡ true → (i : ℕ) × (flight_led caller ≡ some i)
leading_led arriving e = cc e
leading_led (running i) e = (i, refl)
leading_led (finished i o) e = (i, refl)
leading_led (published i o) e = (i, refl)
leading_led (led i o) e = cc e
leading_led (waiting i) e = cc e
leading_led (joined i o) e = cc e

result_of-done :
    (caller : Caller) (r : Result SharedSetupError (Unit {0}))
    → result_of caller ≡ some r
    → (done : Outcome) × (r ≡ shared_result done)
result_of-done arriving r e = cc e
result_of-done (running i) r e = cc e
result_of-done (finished i o) r e = cc e
result_of-done (published i o) r e = (o, cc e)
result_of-done (led i o) r e = (o, cc e)
result_of-done (waiting i) r e = cc e
result_of-done (joined i o) r e = cc e

module _ (keys : ℕ → Text) (n : ℕ) where
  abbrev pub IsSound : System → Type 0
  IsSound s = IsLed keys n s × IsJoined keys n s

  Step-IsSound : {s t : System} → Step keys n s t → IsSound s → IsSound t
  unfolding finish wake
  Step-IsSound {s} (enters c low e) (v, w) = elim (Option-cases (map_get s.flights (keys c))) [
    | inl free ↦
        subst IsSound (sym (enter-new keys n s c free))
          (new_flight-IsLed keys n s c v low e free, new_flight-IsJoined keys n s c v w e)
    | inr (i, there) ↦
        let (a, ka, led_a, leading_a) = v.leads (keys c) i there in
        subst IsSound (sym (enter-wait keys n s c i there)) (
          moves-IsLed keys n s c (waiting i) v low (ground (arith, e)) (ground (arith, e))
              (ground (arith, e)),
          joiner-IsJoined keys n s c i (waiting i) w (ground (arith, e)) refl (a, ka, led_a)
              (λ o f. cc f),
        )
  ]
  Step-IsSound {s} (finishes c i o low e) (v, w) = (
    moves-IsLed keys n s c (finished i o) v low (ground (arith, e)) (ground (arith, e))
        (ground (arith, e)),
    leader-IsJoined keys n s c (finished i o) w (ground (arith, e)) refl,
  )
  Step-IsSound {s} (completes c i o low e) (v, w) =
      (complete-IsLed keys n s c i o v low e, complete-IsJoined keys n s c i o v w e)
  Step-IsSound {s} (leaves c i o low e) (v, w) =
      (leave-IsLed keys n s c i o v low e, leave-IsJoined keys n s c i o w e)
  Step-IsSound {s} (wakes c i r low e there) (v, w) = (
    moves-IsLed keys n s c (joined i (waited r)) v low (ground (arith, e)) (ground (arith, e))
        (ground (arith, e)),
    joiner-IsJoined keys n s c i (joined i (waited r)) w (ground (arith, e)) refl
        (w.joins c i (ground (arith, e))) (λ o f. (r, there, cc f)),
  )

  init-IsSound : IsSound init
  unfolding map_get
  init-IsSound = (
    record {
      inside = λ c h. refl;
      below = λ c i e. cc;
      alone = λ a b i e f. cc e;
      listed = λ c i e l. cc;
      leads = λ k i e. cc;
      shared = λ c i e. cc;
    },
    record { joins = λ c i e. cc; got = λ c i o e. cc },
  )

  pub Reach-IsSound : {steps : ℕ} {s : System} → Reach keys n steps s → IsSound s
  Reach-IsSound start = init-IsSound
  Reach-IsSound (later before step) = Step-IsSound step (Reach-IsSound before)

  -- In whatever order the callers go on, no two of them with one key lead at a time, and one that has
  -- joined a flight has returned the outcome, as it is shared, of a leader of that flight with its key.
  pub Reach-Shares :
      {steps : ℕ} {s : System}
      → Reach keys n steps s
      → ((a b : ℕ)
          → is_leading (s.callers a) ≡ true
          → is_leading (s.callers b) ≡ true
          → keys a ≡ keys b
          → a ≡ b)
        × ((c i : ℕ) (o : Outcome)
            → s.callers c ≡ joined i o
            → (a : ℕ) × (keys a ≡ keys c)
              × (flight_led (s.callers a) ≡ some i)
              × ((done : Outcome) × (result_of (s.callers a) ≡ some (shared_result done))
                  × (o ≡ waited (shared_result done))))
  Reach-Shares {s} reach =
      let (v, w) = Reach-IsSound reach in
      (
        λ a b la lb same.
            let (i, ia) = leading_led (s.callers a) la in
            let (j, jb) = leading_led (s.callers b) lb in
            let flight : map_get s.flights (keys b) ≡ some i =
              subst (λ k. map_get s.flights k ≡ some i) same (v.listed a i ia la) in
            v.alone a b i ia (ground (arith, flight, v.listed b j jb lb, jb)),
        λ c i o e.
            let (r, there, heard) = w.got c i o e in
            let (a, ka, led_a) = w.joins c i (ground (arith, e)) in
            let (done, said) =
              result_of-done (s.callers a) r (ground (arith, there, v.shared a i led_a)) in
            (
              a,
              ka,
              led_a,
              (done, ground (arith, there, v.shared a i led_a, said), ground (arith, heard, said)),
            ),
      )
