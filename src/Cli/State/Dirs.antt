-- ===== src/Cli/State/Dirs.antt =====
-- The directories of the options beside the paths that entries ask for: `resolve_add_dirs` and the loop
-- over its result in src/bin/yj-sandbox-run/main.rs.
use yj_sandbox.Base.{
  true, false, ◌≡◌, ◌⊎◌, refl, sym, subst, inl, inr, List, [], ◌∷◌, ◌++◌, some, none, any,
  any-Member, map, Member, Member-append, Member-map, arith, Bool-cases, Option-cases,
  if◌then◌else◌,
}
use yj_sandbox.Base.Host.{Host, FilePath, path_eq, path_eq_refl, path_eq_trans}
use yj_sandbox.Paths.{or_else}
use yj_sandbox.Cli.{push_add_dirs, resolve_add_dirs}
use yj_sandbox.Cli.State.Resolve.{extend_roots}

module _ (h : Host) where
  extend_step : List FilePath → FilePath → List FilePath
  extend_step roots r = if any (λ p. path_eq h p r) roots then roots else roots ++ r ∷ []

  extend_step-Member :
      (roots : List FilePath) (r p : FilePath)
      → Member p (extend_step roots r)
      → Member p roots ⊎ (p ≡ r)
  unfolding extend_step
  extend_step-Member roots r p = elim (Bool-cases (any (λ q. path_eq h q r) roots)) [
    | inl there ↦ rw there (λ m. inl m)
    | inr apart ↦ rw apart (λ m. elim ((Member-append p roots (r ∷ [])).0 m) [
      | inl before ↦ inl before
      | inr (inl own) ↦ inr own
      | inr (inr nothing) ↦ absurd nothing
    ])
  ]

  Member-extend_step :
      (roots : List FilePath) (r p : FilePath) → Member p roots → Member p (extend_step roots r)
  unfolding extend_step
  Member-extend_step roots r p m = elim (Bool-cases (any (λ q. path_eq h q r) roots)) [
    | inl there ↦ rw there m
    | inr apart ↦ rw apart ((Member-append p roots (r ∷ [])).1 (inl m))
  ]

  extend_step_covers :
      (roots : List FilePath) (r : FilePath)
      → (q : FilePath) × Member q (extend_step roots r) × (path_eq h q r ≡ true)
  unfolding extend_step
  extend_step_covers roots r = elim (Bool-cases (any (λ q. path_eq h q r) roots)) [
    | inl there ↦ rw there (any-Member (λ q. path_eq h q r) roots there)
    | inr apart ↦
        rw apart (r, (Member-append r roots (r ∷ [])).1 (inr (inl refl)), path_eq_refl h r)
  ]

  extend_roots-Member :
      (roots rs : List FilePath) (p : FilePath)
      → Member p (extend_roots h roots rs)
      → Member p roots ⊎ Member p rs
  unfolding extend_roots extend_step
  extend_roots-Member roots [] p m = inl m
  extend_roots-Member roots (r ∷ rs) p m = elim (extend_roots-Member (extend_step roots r) rs p m) [
    | inl before ↦ elim (extend_step-Member roots r p before) [
      | inl there ↦ inl there
      | inr own ↦ inr (inl own)
    ]
    | inr later ↦ inr (inr later)
  ]

  Member-extend_roots :
      (roots rs : List FilePath) (p : FilePath)
      → Member p roots
      → Member p (extend_roots h roots rs)
  unfolding extend_roots extend_step
  Member-extend_roots roots [] p m = m
  Member-extend_roots roots (r ∷ rs) p m =
      Member-extend_roots (extend_step roots r) rs p (Member-extend_step roots r p m)

  extend_roots_covers :
      (roots rs : List FilePath) (r : FilePath)
      → Member r rs
      → (q : FilePath) × Member q (extend_roots h roots rs) × (path_eq h q r ≡ true)
  unfolding extend_roots extend_step
  extend_roots_covers roots (x ∷ rs) r (inl own) =
      let (q, m, e) = extend_step_covers roots x in
      (
        q,
        Member-extend_roots (extend_step roots x) rs q m,
        subst (λ y. path_eq h q y ≡ true) (sym own) e,
      )
  extend_roots_covers roots (x ∷ rs) r (inr later) =
      extend_roots_covers (extend_step roots x) rs r later
  extend_roots_covers roots [] r m = absurd m

  module _ (cwd : FilePath) where
    -- The directory that an option means: a relative path is below the working directory, and the result
    -- is the canonical path, if there is one.
    abbrev pub IsDirectory : FilePath → FilePath → Type 0
    IsDirectory path p =
        (absolute : FilePath) × (((h.is_absolute path ≡ true) × (absolute ≡ path))
          ⊎ ((h.is_absolute path ≡ false) × (absolute ≡ h.join cwd path)))
        × ((h.canonicalize absolute ≡ some p) ⊎ ((h.canonicalize absolute ≡ none) × (p ≡ absolute)))

    directory : FilePath → FilePath
    directory path =
        let absolute = if h.is_absolute path then path else h.join cwd path in
        or_else (h.canonicalize absolute) absolute

    canonical-cases :
        (absolute : FilePath)
        → let p = or_else (h.canonicalize absolute) absolute in
          (h.canonicalize absolute ≡ some p) ⊎ ((h.canonicalize absolute ≡ none) × (p ≡ absolute))
    canonical-cases absolute = elim (Option-cases (h.canonicalize absolute)) [
      | inl unknown ↦ inr (unknown, rw unknown refl)
      | inr (p, known) ↦ inl (ground (arith, known))
    ]

    directory-IsDirectory : (path : FilePath) → IsDirectory path (directory path)
    unfolding directory
    directory-IsDirectory path = (
      if h.is_absolute path then path else h.join cwd path,
      elim (Bool-cases (h.is_absolute path)) [
        | inl absolute ↦ inl (absolute, ground (arith, absolute))
        | inr relative ↦ inr (relative, ground (arith, relative))
      ],
      canonical-cases (if h.is_absolute path then path else h.join cwd path),
    )

    push_add_dirs_lem :
        (paths resolved : List FilePath)
        → push_add_dirs h cwd resolved paths ≡ extend_roots h resolved (map directory paths)
    unfolding push_add_dirs extend_roots directory extend_step
    push_add_dirs_lem [] resolved = refl
    push_add_dirs_lem (path ∷ paths) resolved =
        push_add_dirs_lem paths (extend_step resolved (directory path))

    -- The list has the roots, and the directories of the options up to the spelling, and nothing else.
    abbrev pub IsExtended : List FilePath → List FilePath → List FilePath → Type 0
    IsExtended add_dirs roots extra =
        ((p : FilePath) → Member p roots → Member p extra)
        × ((p : FilePath)
            → Member p extra
            → Member p roots ⊎ ((path : FilePath) × Member path add_dirs × IsDirectory path p))
        × ((path : FilePath)
            → Member path add_dirs
            → (p q : FilePath) × IsDirectory path p × Member q extra × (path_eq h q p ≡ true))

    pub extend_roots-IsExtended :
        (add_dirs roots : List FilePath)
        → IsExtended add_dirs roots (extend_roots h roots (resolve_add_dirs h add_dirs cwd))
    unfolding resolve_add_dirs
    extend_roots-IsExtended add_dirs roots =
        let dirs = map directory add_dirs in
        let resolved = extend_roots h [] dirs in
        rw (push_add_dirs_lem add_dirs []) (
          λ p m. Member-extend_roots roots resolved p m,
          λ p m. elim (extend_roots-Member roots resolved p m) [
            | inl own ↦ inl own
            | inr added ↦ elim (extend_roots-Member [] dirs p added) [
              | inl nothing ↦ absurd nothing
              | inr there ↦
                  let (path, is, e) = (Member-map directory add_dirs p).0 there in
                  inr (path, is, subst (IsDirectory path) (sym e) (directory-IsDirectory path))
            ]
          ],
          λ path m.
              let p = directory path in
              let there = (Member-map directory add_dirs p).1 (path, m, refl) in
              let (q, is_q, e) = extend_roots_covers [] dirs p there in
              let (r, is_r, e') = extend_roots_covers roots resolved q is_q in
              (p, r, directory-IsDirectory path, is_r, path_eq_trans h r q p e' e),
        )
