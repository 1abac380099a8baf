-- ===== src/Setup/Roots/Children.antt =====
-- The children of a directory and what lies below it, as the keys of src/setup.rs say it.
use yj_sandbox.Base.{
  Bool, true, false, ◌≡◌, refl, sym, subst, ◌≢◌, ◌⊎◌, inl, inr, ◌↔◌, ◌&&◌, not, List, [], ◌∷◌, ◌++◌,
  Option, none, some, Member, Member-keep, any, any-Member, Member-any, keep, arith, Bool-cases,
  Option-cases,
}
use yj_sandbox.Base.Text.{Text, codes, text_eq, strip_prefix, split, eq_ignore_ascii_case}
use yj_sandbox.Base.Text.Laws.{text_eq_iff}
use yj_sandbox.Base.Text.Prefixes.{
  strip_prefix_iff, strip_prefix-none, starts_with_iff, IsFirstPart, split-IsFirstPart,
  IsFirstPart-unique,
}
use yj_sandbox.Base.Host.{Host, FilePath}
use yj_sandbox.Paths.{canonical_path_key}
use yj_sandbox.SshConfig.{Files, ssh_config_dependency_paths}
use yj_sandbox.Setup.{
  userprofile_root_exclusions, sandbox_dir, sandbox_bin_dir, sandbox_secrets_dir,
}
use yj_sandbox.Setup.Roots.{
  child_prefix, first_name, is_excluded_name, user_profile_child_name,
  is_user_profile_root_exclusion, is_some_and, is_ssh_config_dependency_root, is_at_or_below,
}

-- The name is the first part of what the key has below the directory.
abbrev pub HasChild : Host → Text → FilePath → Text → Type 0
HasChild h key dir name =
    (name ≢ [])
    × ((rest : Text) × (key ≡ child_prefix (canonical_path_key h dir) ++ rest)
        × IsFirstPart b'/' name rest)

abbrev pub IsExcluded : Text → Type 0
IsExcluded name =
    (excluded : Text) × Member excluded userprofile_root_exclusions
    × (eq_ignore_ascii_case name excluded ≡ true)

-- The SSH configuration of the profile depends on something in its child of that name.
abbrev pub IsDependencyChild : Host → Files → FilePath → Text → Type 0
IsDependencyChild h f user_profile name =
    (path : FilePath) × Member path (ssh_config_dependency_paths h f user_profile)
    × ((child : Text) × HasChild h (canonical_path_key h path) user_profile child
        × (eq_ignore_ascii_case name child ≡ true))

-- Neither the profile nor in one of the children of the profile that are kept closed.
abbrev pub IsOpenIn : Host → Files → FilePath → Text → Type 0
IsOpenIn h f user_profile key =
    ¬ (key ≡ canonical_path_key h user_profile)
    × ((name : Text)
        → HasChild h key user_profile name
        → ¬ IsExcluded name × ¬ IsDependencyChild h f user_profile name)

abbrev pub IsOpen : Host → Files → Text → Type 0
IsOpen h f key =
    (user_profile : FilePath)
    → h.env_var (codes "USERPROFILE") ≡ some user_profile
    → IsOpenIn h f user_profile key

abbrev pub IsAtOrBelow : Host → Text → FilePath → Type 0
IsAtOrBelow h key dir =
    (key ≡ canonical_path_key h dir)
    ⊎ ((rest : Text) × (key ≡ child_prefix (canonical_path_key h dir) ++ rest))

-- Neither the home nor at or below one of the directories in it that control the sandbox.
abbrev pub IsHarmless : Host → FilePath → Text → Type 0
IsHarmless h codex_home key =
    ¬ (key ≡ canonical_path_key h codex_home)
    × ¬ IsAtOrBelow h key (sandbox_dir h codex_home)
    × ¬ IsAtOrBelow h key (sandbox_bin_dir h codex_home)
    × ¬ IsAtOrBelow h key (sandbox_secrets_dir h codex_home)

pub not_iff : (b : Bool) {P : Type 0} → (b ≡ true) ↔ P → (not b ≡ true) ↔ (¬ P)
not_iff true i = (λ e. cc e, λ no_p. absurd (no_p (i.0 refl)))
not_iff false i = (λ e p. ground (arith, i.1 p), λ _. refl)

first_name_of :
    (part name : Text) (more : List Text)
    → (first_name (part ∷ more) ≡ some name) ↔ ((name ≢ []) × (part ≡ name))
first_name_of [] name more = (λ e. cc e, λ (filled, e). absurd (filled (sym e)))
first_name_of (c ∷ cs) name more = (λ e. (λ empty. cc (e, empty), cc e), λ (filled, e). cc e)

first_name_iff :
    (rest name : Text)
    → (first_name (split b'/' rest) ≡ some name) ↔ ((name ≢ []) × IsFirstPart b'/' name rest)
first_name_iff rest name =
    let (part, (more, e), is) = split-IsFirstPart b'/' rest in
    rw e (
      λ found.
          let (filled, same) = (first_name_of part name more).0 found in
          (filled, subst (λ p. IsFirstPart b'/' p rest) same is),
      λ (filled, is').
          (first_name_of part name more).1 (filled, IsFirstPart-unique b'/' rest part name is is'),
    )

-- The child that a key has, as the code looks for it.
child_in : Option Text → Option Text
child_in none = none
child_in (some relative_key) = first_name (split b'/' relative_key)

child_in_iff :
    (prefix key name : Text)
    → (child_in (strip_prefix prefix key) ≡ some name)
      ↔ ((name ≢ []) × ((rest : Text) × (key ≡ prefix ++ rest) × IsFirstPart b'/' name rest))
unfolding child_in
child_in_iff prefix key name = elim (Option-cases (strip_prefix prefix key)) [
  | inl outside ↦
      rw outside
        (λ e. cc e, λ (filled, (rest, e, is)). absurd (strip_prefix-none prefix key outside rest e))
  | inr (rest, inside) ↦
      let e = (strip_prefix_iff prefix key rest).0 inside in
      rw inside (
        λ found. let (filled, is) = (first_name_iff rest name).0 found in (filled, (rest, e, is)),
        λ (filled, (other, e', is)).
            let same : other ≡ rest =
              ground (arith, inside, (strip_prefix_iff prefix key other).1 e') in
            (first_name_iff rest name).1 (filled, subst (IsFirstPart b'/' name) same is),
      )
]

-- A test on an optional value.
some_iff :
    {A : Type 0} {P Q : A → Type 0} (p : A → Bool) (o : Option A)
    → ((a : A) → (o ≡ some a) ↔ P a)
    → ((a : A) → (p a ≡ true) ↔ Q a)
    → (is_some_and p o ≡ true) ↔ ((a : A) × P a × Q a)
some_iff p none is tests = (λ e. cc e, λ (a, has, _). cc ((is a).1 has))
some_iff {Q} p (some a) is tests = (
  λ e. (a, (is a).0 refl, (tests a).0 e),
  λ (b, has, q). let same : b ≡ a = cc ((is b).1 has) in (tests a).1 (subst Q same q),
)

pub and_iff :
    {a b : Bool} {P Q : Type 0} → (a ≡ true) ↔ P → (b ≡ true) ↔ Q → ((a && b) ≡ true) ↔ (P × Q)
and_iff {a} {b} p q = (
  λ e. (p.0 (ground (arith, e)), q.0 (ground (arith, e))),
  λ (x, y). ground (arith, p.1 x, q.1 y),
)

pub keep-not_iff :
    {P : Type 0} (p : FilePath → Bool) (roots : List FilePath) (r : FilePath)
    → (p r ≡ true) ↔ P
    → Member r (keep (λ x. not (p x)) roots) ↔ (Member r roots × ¬ P)
keep-not_iff p roots r test =
    let (there, back) = Member-keep (λ x. not (p x)) roots r in
    (
      λ m. let (n, e) = there m in (n, (not_iff (p r) test).0 e),
      λ (n, no_p). back (n, (not_iff (p r) test).1 no_p),
    )

pub some_injective : {A : Type 0} {a b : A} → ◌≡◌ {A = Option A} (some a) (some b) → a ≡ b
some_injective e = cc

module _ (h : Host) where
  pub is_at_or_below_iff :
      (key : Text) (dir : FilePath) → (is_at_or_below h key dir ≡ true) ↔ IsAtOrBelow h key dir
  is_at_or_below_iff key dir =
      let dir_key = canonical_path_key h dir in
      let same = text_eq_iff key dir_key in
      let below = starts_with_iff key (child_prefix dir_key) in
      (
        λ e. elim (Bool-cases (text_eq key dir_key)) [
          | inl at ↦ inl (same.0 at)
          | inr apart ↦ inr (below.0 (ground (arith, e, apart)))
        ],
        elim [ inl at ↦ ground (arith, same.1 at) | inr under ↦ ground (arith, below.1 under) ],
      )

  user_profile_child_name_lem :
      (path user_profile : FilePath)
      → user_profile_child_name h path user_profile
        ≡ child_in (
            strip_prefix
              (child_prefix (canonical_path_key h user_profile))
              (canonical_path_key h path))
  unfolding user_profile_child_name child_in
  user_profile_child_name_lem path user_profile = ground arith

  user_profile_child_name_iff :
      (path user_profile : FilePath) (name : Text)
      → (user_profile_child_name h path user_profile ≡ some name)
        ↔ HasChild h (canonical_path_key h path) user_profile name
  user_profile_child_name_iff path user_profile name =
      rw (user_profile_child_name_lem path user_profile) (
        child_in_iff (child_prefix (canonical_path_key h user_profile)) (canonical_path_key h path)
          name)

  pub is_excluded_name_iff : (name : Text) → (is_excluded_name name ≡ true) ↔ IsExcluded name
  is_excluded_name_iff name = (
    any-Member (eq_ignore_ascii_case name) userprofile_root_exclusions,
    λ (excluded, m, e).
        Member-any (eq_ignore_ascii_case name) userprofile_root_exclusions excluded m e,
  )

  pub exclusion_iff :
      (root user_profile : FilePath)
      → (is_user_profile_root_exclusion h root user_profile ≡ true) ↔ (
          (name : Text) × HasChild h (canonical_path_key h root) user_profile name
          × IsExcluded name)
  unfolding is_user_profile_root_exclusion
  exclusion_iff root user_profile =
      some_iff is_excluded_name (user_profile_child_name h root user_profile)
        (user_profile_child_name_iff root user_profile) is_excluded_name_iff

  IsDependencyChild-iff :
      (f : Files) (user_profile : FilePath) (name : Text)
      → (any
            (λ path.
              is_some_and (eq_ignore_ascii_case name) (user_profile_child_name h path user_profile))
            (ssh_config_dependency_paths h f user_profile)
          ≡ true)
        ↔ IsDependencyChild h f user_profile name
  IsDependencyChild-iff f user_profile name =
      let test : FilePath → Bool = λ path.
        is_some_and (eq_ignore_ascii_case name) (user_profile_child_name h path user_profile) in
      let paths = ssh_config_dependency_paths h f user_profile in
      let child : (path : FilePath)
          → (test path ≡ true) ↔ (
              (child : Text) × HasChild h (canonical_path_key h path) user_profile child
              × (eq_ignore_ascii_case name child ≡ true)) =
        λ path.
          some_iff (eq_ignore_ascii_case name) (user_profile_child_name h path user_profile)
            (user_profile_child_name_iff path user_profile) (λ c. (λ e. e, λ e. e)) in
      (
        λ e. let (path, m, t) = any-Member test paths e in (path, m, (child path).0 t),
        λ (path, m, c). Member-any test paths path m ((child path).1 c),
      )

  pub dependency_iff :
      (f : Files) (root user_profile : FilePath)
      → (is_ssh_config_dependency_root h root user_profile
            (ssh_config_dependency_paths h f user_profile)
          ≡ true)
        ↔ ((name : Text) × HasChild h (canonical_path_key h root) user_profile name
            × IsDependencyChild h f user_profile name)
  unfolding is_ssh_config_dependency_root
  dependency_iff f root user_profile =
      some_iff
        (λ name.
          any
            (λ path.
              is_some_and (eq_ignore_ascii_case name) (user_profile_child_name h path user_profile))
            (ssh_config_dependency_paths h f user_profile))
        (user_profile_child_name h root user_profile)
        (user_profile_child_name_iff root user_profile) (IsDependencyChild-iff f user_profile)
