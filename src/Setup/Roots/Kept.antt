-- ===== src/Setup/Roots/Kept.antt =====
-- What the filters of src/setup.rs leave of a list of roots, said of the roots' keys.
use yj_sandbox.Base.{
  ◌≡◌, sym, ◌∙◌, subst, inl, inr, ◌↔◌, List, none, some, Member, Member-keep, arith, Option-cases,
}
use yj_sandbox.Base.Text.{Text, codes, text_eq}
use yj_sandbox.Base.Text.Laws.{text_eq_iff}
use yj_sandbox.Base.Host.{Host, FilePath}
use yj_sandbox.Paths.{canonical_path_key}
use yj_sandbox.SshConfig.{Files, ssh_config_dependency_paths}
use yj_sandbox.Setup.{sandbox_dir, sandbox_bin_dir, sandbox_secrets_dir}
use yj_sandbox.Setup.Roots.{
  is_user_profile_root_exclusion, is_ssh_config_dependency_root, filter_user_profile_root,
  filter_user_profile_root_exclusions, filter_ssh_config_dependency_roots, is_at_or_below,
  filter_sensitive_write_roots,
}
use yj_sandbox.Setup.Roots.Children.{
  HasChild, IsExcluded, IsDependencyChild, IsOpenIn, IsOpen, IsHarmless, is_at_or_below_iff,
  exclusion_iff, dependency_iff, not_iff, and_iff, keep-not_iff, some_injective,
}

module _ (h : Host) where
  -- What is left of the roots when the profile and its closed children are taken out.
  abbrev pub open_roots : Files → List FilePath → List FilePath
  open_roots f roots =
      filter_ssh_config_dependency_roots h f
        (filter_user_profile_root_exclusions h (filter_user_profile_root h roots))

  open_roots_unset :
      (f : Files) (roots : List FilePath)
      → h.env_var (codes "USERPROFILE") ≡ none
      → open_roots f roots ≡ roots
  unfolding filter_ssh_config_dependency_roots filter_user_profile_root_exclusions
      filter_user_profile_root
  open_roots_unset f roots unset = ground (arith, unset)

  module _ (user_profile : FilePath)
      (set : h.env_var (codes "USERPROFILE") ≡ some user_profile) where
    Member-filter_profile :
        (roots : List FilePath) (r : FilePath)
        → Member r (filter_user_profile_root h roots)
          ↔ (Member r roots × ¬ (canonical_path_key h r ≡ canonical_path_key h user_profile))
    unfolding filter_user_profile_root
    Member-filter_profile roots r =
        rw (set, Member)
          (keep-not_iff
            (λ root. text_eq (canonical_path_key h root) (canonical_path_key h user_profile)) roots
            r (text_eq_iff (canonical_path_key h r) (canonical_path_key h user_profile)))

    Member-filter_exclusions :
        (roots : List FilePath) (r : FilePath)
        → Member r (filter_user_profile_root_exclusions h roots) ↔ (
            Member r roots
            × ¬ (
                (name : Text) × HasChild h (canonical_path_key h r) user_profile name
                × IsExcluded name))
    unfolding filter_user_profile_root_exclusions
    Member-filter_exclusions roots r =
        rw (set, Member)
          (keep-not_iff (λ root. is_user_profile_root_exclusion h root user_profile) roots r
            (exclusion_iff h r user_profile))

    Member-filter_dependencies :
        (f : Files) (roots : List FilePath) (r : FilePath)
        → Member r (filter_ssh_config_dependency_roots h f roots) ↔ (
            Member r roots
            × ¬ (
                (name : Text) × HasChild h (canonical_path_key h r) user_profile name
                × IsDependencyChild h f user_profile name))
    unfolding filter_ssh_config_dependency_roots
    Member-filter_dependencies f roots r =
        rw (set, Member)
          (keep-not_iff
            (λ root.
              is_ssh_config_dependency_root h root user_profile
                (ssh_config_dependency_paths h f user_profile))
            roots r (dependency_iff h f r user_profile))

    Member-open_roots_set :
        (f : Files) (roots : List FilePath) (r : FilePath)
        → Member r (open_roots f roots)
          ↔ (Member r roots × IsOpenIn h f user_profile (canonical_path_key h r))
    Member-open_roots_set f roots r =
        let rest = filter_user_profile_root h roots in
        let shut = filter_user_profile_root_exclusions h rest in
        let (c, c') = Member-filter_dependencies f shut r in
        let (b, b') = Member-filter_exclusions rest r in
        let (a, a') = Member-filter_profile roots r in
        (
          λ m.
              let (m1, apart) = c m in
              let (m2, closed) = b m1 in
              let (m3, other) = a m2 in
              (m3, (other, λ name has. (λ e. closed (name, has, e), λ e. apart (name, has, e)))),
          λ (m, (other, open_child)). c' (
            b' (a' (m, other), λ (name, has, e). (open_child name has).0 e),
            λ (name, has, e). (open_child name has).1 e,
          ),
        )

  pub Member-open_roots :
      (f : Files) (roots : List FilePath) (r : FilePath)
      → Member r (open_roots f roots) ↔ (Member r roots × IsOpen h f (canonical_path_key h r))
  Member-open_roots f roots r = elim (Option-cases (h.env_var (codes "USERPROFILE"))) [
    | inl unset ↦
        rw (open_roots_unset f roots unset) (λ m. (m, λ up set. cc (unset, set)), λ (m, _). m)
    | inr (user_profile, set) ↦
        let (there, back) = Member-open_roots_set user_profile set f roots r in
        (
          λ m.
              let (n, is) = there m in
              (
                n,
                λ up set'.
                    subst (λ p. IsOpenIn h f p (canonical_path_key h r))
                      (some_injective (sym set ∙ set')) is,
              ),
          λ (m, is). back (m, is user_profile set),
        )
  ]

  pub Member-filter_sensitive :
      (roots : List FilePath) (codex_home : FilePath) (r : FilePath)
      → Member r (filter_sensitive_write_roots h roots codex_home)
        ↔ (Member r roots × IsHarmless h codex_home (canonical_path_key h r))
  unfolding filter_sensitive_write_roots
  Member-filter_sensitive roots codex_home r =
      let key = canonical_path_key h r in
      let at =
        λ (dir : FilePath). not_iff (is_at_or_below h key dir) (is_at_or_below_iff h key dir) in
      let home = not_iff _ (text_eq_iff key (canonical_path_key h codex_home)) in
      let tests =
        and_iff
          (and_iff (and_iff home (at (sandbox_dir h codex_home)))
            (at (sandbox_bin_dir h codex_home)))
          (at (sandbox_secrets_dir h codex_home)) in
      let (there, back) = Member-keep _ roots r in
      (
        λ m. let (n, e) = there m in let (((a, b), c), d) = tests.0 e in (n, (a, b, c, d)),
        λ (n, (a, b, c, d)). back (n, tests.1 (((a, b), c), d)),
      )
