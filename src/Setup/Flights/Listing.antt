-- ===== src/Setup/Flights/Listing.antt =====
-- The same when the list of the flights in src/setup.rs changes.
use yj_sandbox.Base.{
  ℕ, ◌+◌, ◌<◌, ◌≡◌, inl, inr, false, none, some, if◌then◌else◌, arith, Bool-cases,
}
use yj_sandbox.Base.Text.{Text, text_eq}
use yj_sandbox.Base.Text.Laws.{text_eq_iff}
use yj_sandbox.Base.Maps.{
  map_get, map_insert, map_remove, map_get-insert_at, map_get-remove, map_get-remove_other,
}
use yj_sandbox.Setup.Flights.{
  Outcome, arriving, running, published, waiting, joined, System, update, is_flight, enter, leave,
}
use yj_sandbox.Setup.Flights.Led.{IsLed, IsJoined}

module _ (keys : ℕ → Text) (n : ℕ) where
  -- The flights when a leader has left.
  left_get :
      (s : System) (c i : ℕ) (k : Text)
      → map_get s.flights (keys c) ≡ some i
      → map_get
          (if is_flight keys i (map_get s.flights (keys c))
            then map_remove (keys c) s.flights
            else s.flights)
          k
        ≡ (if text_eq (keys c) k then none else map_get s.flights k)
  left_get s c i k e = elim (Bool-cases (text_eq (keys c) k)) [
    | inl same ↦
        let at = (text_eq_iff (keys c) k).0 same in
        rw at (ground (arith, e, same, at, map_get-remove s.flights k))
    | inr apart ↦
        ground (arith, e, apart, map_get-remove_other s.flights (keys c) k, text_eq_iff (keys c) k)
  ]

  pub leave-IsLed :
      (s : System) (c i : ℕ) (o : Outcome)
      → IsLed keys n s
      → c < n
      → s.callers c ≡ published i o
      → IsLed keys n (leave keys c i o s)
  unfolding leave
  leave-IsLed s c i o v low e =
      let mine : map_get s.flights (keys c) ≡ some i = ground (arith, e, v.listed c i) in
      record {
        inside = λ x h. ground (arith, v.inside x h);
        below = λ x j f. ground (arith, v.below x j, v.below c j);
        alone = λ a b j f g. ground (arith, v.alone a b j, v.alone a c j, v.alone c b j);
        listed = λ x j f l. ground (
          arith,
          e,
          mine,
          left_get s c i (keys x),
          v.listed x j,
          v.alone x c i,
          text_eq_iff (keys c) (keys x),
        );
        leads = λ k j f.
            let kept : map_get s.flights k ≡ some j = ground (arith, mine, left_get s c i k, f) in
            let apart : text_eq (keys c) k ≡ false = ground (arith, mine, left_get s c i k, f) in
            let (a, ka, led_a, leading_a) = v.leads k j kept in
            (
              a,
              ka,
              ground (arith, led_a, e),
              ground (arith, leading_a, e, ka, apart, text_eq_iff (keys c) k),
            );
        shared = λ x j f. ground (arith, v.shared x j, v.shared c j);
      }

  pub leave-IsJoined :
      (s : System) (c i : ℕ) (o : Outcome)
      → IsJoined keys n s
      → s.callers c ≡ published i o
      → IsJoined keys n (leave keys c i o s)
  unfolding leave
  leave-IsJoined s c i o w e = record {
    joins = λ x j f.
        let (a, ka, led_a) = w.joins x j (ground (arith, e, f)) in
        (a, ka, ground (arith, led_a, e));
    got = λ x j out f. w.got x j out (ground (arith, e, f));
  }

  -- A caller that finds no flight of its key leads a new one.
  pub new_flight : (s : System) (c : ℕ) → System
  new_flight s c = record {
    flights = map_insert (keys c) s.next s.flights;
    next = s.next + 1;
    results = update s.results s.next none;
    callers = update s.callers c (running s.next);
  }

  pub new_flight-IsLed :
      (s : System) (c : ℕ)
      → IsLed keys n s
      → c < n
      → s.callers c ≡ arriving
      → map_get s.flights (keys c) ≡ none
      → IsLed keys n (new_flight s c)
  unfolding new_flight
  new_flight-IsLed s c v low e free = record {
    inside = λ x h. ground (arith, v.inside x h);
    below = λ x j f. ground (arith, v.below x j);
    alone = λ a b j f g. ground (arith, v.alone a b j, v.below a j, v.below b j);
    listed = λ x j f l. ground (
      arith,
      e,
      map_get-insert_at s.flights (keys c) s.next (keys x),
      v.listed x j,
      free,
      text_eq_iff (keys c) (keys x),
    );
    leads = λ k j f. elim (Bool-cases (text_eq (keys c) k)) [
      | inl same ↦ (
        c,
        (text_eq_iff (keys c) k).0 same,
        ground (arith, same, f, map_get-insert_at s.flights (keys c) s.next k),
        ground arith,
      )
      | inr apart ↦
          let (a, ka, led_a, leading_a) =
            v.leads k j (ground (arith, apart, f, map_get-insert_at s.flights (keys c) s.next k)) in
          (a, ka, ground (arith, led_a, e), ground (arith, leading_a, e))
    ];
    shared = λ x j f. ground (arith, v.shared x j, v.below x j);
  }

  pub new_flight-IsJoined :
      (s : System) (c : ℕ)
      → IsLed keys n s
      → IsJoined keys n s
      → s.callers c ≡ arriving
      → IsJoined keys n (new_flight s c)
  unfolding new_flight
  new_flight-IsJoined s c v w e = record {
    joins = λ x j f.
        let (a, ka, led_a) = w.joins x j (ground (arith, e, f)) in
        (a, ka, ground (arith, led_a, e));
    got = λ x j out f.
        let old : s.callers x ≡ joined j out = ground (arith, e, f) in
        let (r, there, same) = w.got x j out old in
        let (a, ka, led_a) = w.joins x j (ground (arith, old)) in
        (r, ground (arith, there, v.below a j led_a), same);
  }

  pub enter-new :
      (s : System) (c : ℕ) → map_get s.flights (keys c) ≡ none → enter keys c s ≡ new_flight s c
  unfolding enter new_flight
  enter-new s c free = ground (arith, free)

  pub enter-wait :
      (s : System) (c i : ℕ)
      → map_get s.flights (keys c) ≡ some i
      → enter keys c s ≡ record s { callers = update s.callers c (waiting i) }
  unfolding enter
  enter-wait s c i there = ground (arith, there)
