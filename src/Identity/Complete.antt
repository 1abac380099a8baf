-- ===== src/Identity/Complete.antt =====
-- Whether a setup is there with given settings: `sandbox_setup_is_complete_with_settings` of
-- src/identity.rs, which compares the ports in any order.
use yj_sandbox.Base.{
  ℕ, ◌+◌, ◌≤◌, ◌<◌, ◌≡◌, ◌↔◌, refl, ap, sym, ◌∙◌, Bool, true, false, ◌&&◌, Option, none, some, List,
  [], ◌∷◌, All, arith, ltb, ltb→lt, ◌==◌, if◌then◌else◌, Bool-cases, Option-cases, inl, inr,
}
use yj_sandbox.Base.Host.{Host, FilePath}
use yj_sandbox.Setup.Ports.{OfflineProxySettings}
use yj_sandbox.Setup.Launch.{
  Launcher, SetupMarker, SandboxUsersFile, marker_matches, matching_users, load_marker, load_users,
}
use yj_sandbox.Identity.{ports_eq, bool_eq}

-- `sort_unstable`, for which equal numbers are the same
unfoldable pub insert_sorted : ℕ → List ℕ → List ℕ
insert_sorted a [] = a ∷ []
insert_sorted a (x ∷ xs) = let rest = insert_sorted a xs in if ltb x a then x ∷ rest else a ∷ x ∷ xs

unfoldable pub sort_ports : List ℕ → List ℕ
unfolding insert_sorted
sort_ports [] = []
sort_ports (x ∷ xs) = insert_sorted x (sort_ports xs)

module _ (h : Host) (l : Launcher) where
  open l use {World}

  unfoldable pub agrees : SetupMarker → OfflineProxySettings → Option SandboxUsersFile → Bool
  unfolding sort_ports
  agrees marker settings users =
      marker_matches marker
      && ports_eq (sort_ports marker.proxy_ports) (sort_ports settings.proxy_ports)
      && bool_eq marker.allow_local_binding settings.allow_local_binding
      && matching_users h l users

  unfoldable pub sandbox_setup_is_complete_with_settings :
      World → FilePath → OfflineProxySettings → Bool
  unfolding agrees
  sandbox_setup_is_complete_with_settings w codex_home settings =
      elim (load_marker h l w codex_home) [
        | none ↦ false
        | some marker ↦ agrees marker settings (load_users h l w codex_home)
      ]

-- how often a number is in a list
abbrev pub count : ℕ → List ℕ → ℕ
count n [] = 0
count n (x ∷ xs) = (if x == n then 1 else 0) + count n xs

abbrev IsAscending : List ℕ → Type 0
IsAscending [] = Unit
IsAscending (x ∷ xs) = All (λ y. x ≤ y) xs × IsAscending xs

count-insert_sorted : (n a : ℕ) (xs : List ℕ) → count n (insert_sorted a xs) ≡ count n (a ∷ xs)
unfolding insert_sorted
count-insert_sorted n a [] = refl
count-insert_sorted n a (x ∷ xs) = ground (arith, count-insert_sorted n a xs)

count-sort_ports : (n : ℕ) (xs : List ℕ) → count n (sort_ports xs) ≡ count n xs
unfolding sort_ports
count-sort_ports n [] = refl
count-sort_ports n (x ∷ xs) =
    ground (arith, count-insert_sorted n x (sort_ports xs), count-sort_ports n xs)

insert_sorted-All :
    (b a : ℕ) (xs : List ℕ) → b ≤ a → All (λ y. b ≤ y) xs → All (λ y. b ≤ y) (insert_sorted a xs)
unfolding insert_sorted
insert_sorted-All b a [] h all = (h, tt)
insert_sorted-All b a (x ∷ xs) h (first, all) = elim (Bool-cases (ltb x a)) [
  | inl below ↦ rw below (first, insert_sorted-All b a xs h all)
  | inr above ↦ rw above (h, (first, all))
]

All-weaken : (a b : ℕ) (xs : List ℕ) → a ≤ b → All (λ y. b ≤ y) xs → All (λ y. a ≤ y) xs
All-weaken a b [] h all = tt
All-weaken a b (x ∷ xs) h (first, all) = (omega (arith, h, first), All-weaken a b xs h all)

insert_sorted-IsAscending :
    (a : ℕ) (xs : List ℕ) → IsAscending xs → IsAscending (insert_sorted a xs)
unfolding insert_sorted
insert_sorted-IsAscending a [] up = (tt, tt)
insert_sorted-IsAscending a (x ∷ xs) (low, up) = elim (Bool-cases (ltb x a)) [
  | inl below ↦
      rw below
        (insert_sorted-All x a xs (ground (arith, below)) low, insert_sorted-IsAscending a xs up)
  | inr above ↦
      let most : a ≤ x = ground (arith, above) in
      rw above ((most, All-weaken a x xs most low), (low, up))
]

sort_ports-IsAscending : (xs : List ℕ) → IsAscending (sort_ports xs)
unfolding sort_ports
sort_ports-IsAscending [] = tt
sort_ports-IsAscending (x ∷ xs) =
    insert_sorted-IsAscending x (sort_ports xs) (sort_ports-IsAscending xs)

-- A number below all of a list is not in it.
count-All : (n b : ℕ) (xs : List ℕ) → n < b → All (λ y. b ≤ y) xs → count n xs ≡ 0
count-All n b [] h all = refl
count-All n b (x ∷ xs) h (first, all) = ground (arith, h, first, count-All n b xs h all)

heads_le :
    (x y : ℕ) (xs ys : List ℕ) → All (λ z. y ≤ z) ys → count x (x ∷ xs) ≡ count x (y ∷ ys) → y ≤ x
heads_le x y xs ys low same = elim (Bool-cases (ltb x y)) [
  | inl less ↦ ground (arith, same, count-All x y ys (ltb→lt x y less) low, less)
  | inr more ↦ ground (arith, more)
]

ascending_unique :
    (xs ys : List ℕ)
    → IsAscending xs
    → IsAscending ys
    → ((n : ℕ) → count n xs ≡ count n ys)
    → xs ≡ ys
ascending_unique [] [] up vp same = refl
ascending_unique [] (y ∷ ys) up vp same = ground (arith, same y)
ascending_unique (x ∷ xs) [] up vp same = ground (arith, same x)
ascending_unique (x ∷ xs) (y ∷ ys) (low, up) (mow, vp) same =
    let one : x ≡ y =
      omega (arith, heads_le x y xs ys mow (same x), heads_le y x ys xs low (sym (same y))) in
    let rest : (n : ℕ) → count n xs ≡ count n ys = λ n. ground (arith, one, same n) in
    ground (arith, one, ascending_unique xs ys up vp rest)

ports_eq_iff : (xs ys : List ℕ) → (ports_eq xs ys ≡ true) ↔ (xs ≡ ys)
ports_eq_iff [] [] = ground arith
ports_eq_iff [] (y ∷ ys) = ground arith
ports_eq_iff (x ∷ xs) [] = ground arith
ports_eq_iff (x ∷ xs) (y ∷ ys) = ground (arith, ports_eq_iff xs ys)

-- The lists have the same numbers, each as often.
abbrev pub HasSamePorts : List ℕ → List ℕ → Type 0
HasSamePorts xs ys = (n : ℕ) → count n xs ≡ count n ys

sorted_ports_iff :
    (xs ys : List ℕ) → (ports_eq (sort_ports xs) (sort_ports ys) ≡ true) ↔ HasSamePorts xs ys
sorted_ports_iff xs ys = (
  λ e n.
      let same = (ports_eq_iff (sort_ports xs) (sort_ports ys)).0 e in
      sym (count-sort_ports n xs) ∙ ap (count n) same ∙ count-sort_ports n ys,
  λ same. (ports_eq_iff (sort_ports xs) (sort_ports ys)).1 (
      ascending_unique (sort_ports xs) (sort_ports ys) (sort_ports-IsAscending xs)
        (sort_ports-IsAscending ys)
        (λ n. count-sort_ports n xs ∙ same n ∙ sym (count-sort_ports n ys))),
)

module _ (h : Host) (l : Launcher) where
  -- The setup counts as complete with given settings exactly when there are a marker and a file of
  -- users that can be read and are of this version, and the marker has the same ports, in any order
  -- and each as often, and the same choice on local binding.
  pub complete_with_settings_iff :
      (w : l.World) (codex_home : FilePath) (settings : OfflineProxySettings)
      → (sandbox_setup_is_complete_with_settings h l w codex_home settings ≡ true) ↔ (
          (marker : SetupMarker) × (users : SandboxUsersFile) × (load_marker h l w codex_home
            ≡ some marker)
          × (load_users h l w codex_home ≡ some users)
          × (marker.version ≡ 5)
          × (users.version ≡ 5)
          × HasSamePorts marker.proxy_ports settings.proxy_ports
          × (marker.allow_local_binding ≡ settings.allow_local_binding))
  unfolding sandbox_setup_is_complete_with_settings agrees
  complete_with_settings_iff w codex_home settings =
      elim (Option-cases (load_marker h l w codex_home)) [
        | inl gone ↦ (
          λ e. ground (arith, e, gone),
          λ (m, u, f, g, v, v', same, binds). ground (arith, f, gone),
        )
        | inr (marker, f) ↦ elim (Option-cases (load_users h l w codex_home)) [
          | inl gone ↦ (
            λ e. ground (arith, e, f, gone),
            λ (m, u, f', g, v, v', same, binds). ground (arith, g, gone),
          )
          | inr (users, g) ↦ (
            λ e. (
              marker,
              users,
              f,
              g,
              ground (arith, e, f, g),
              ground (arith, e, f, g),
              (sorted_ports_iff marker.proxy_ports settings.proxy_ports).0
                  (ground (arith, e, f, g)),
              ground (arith, e, f, g),
            ),
            λ (m, u, f', g', v, v', same, binds). ground (
              arith,
              f',
              g',
              v,
              v',
              binds,
              (sorted_ports_iff m.proxy_ports settings.proxy_ports).1 same,
            ),
          )
        ]
      ]
