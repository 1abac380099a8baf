-- ===== src/Setup/Payload/Written.antt =====
-- Which roots the helper of src/setup.rs is told to let be written.
use yj_sandbox.Base.{
  ◌≡◌, refl, subst, sym, List, Option, none, some, Member, Option-cases, inl, inr,
}
use yj_sandbox.Base.Text.{codes}
use yj_sandbox.Base.Host.{Host, FilePath}
use yj_sandbox.Paths.{canonical_path_key}
use yj_sandbox.Permissions.{EnvMap, ResolvedSandboxPermissions}
use yj_sandbox.SshConfig.{Files}
use yj_sandbox.Setup.Roots.{Directories, expand_user_profile_root, expand_user_profile_root_for}
use yj_sandbox.Setup.Roots.Profile.{IsExpanded, expand_user_profile_root-IsExpanded}
use yj_sandbox.Setup.Roots.Children.{IsOpen, IsHarmless}
use yj_sandbox.Setup.Roots.Kept.{open_roots, Member-open_roots, Member-filter_sensitive}
use yj_sandbox.Setup.Payload.{wanted_write_roots, effective_write_roots_for_permissions}

module _ (h : Host) (f : Files) (d : Directories) where
  -- A root that was asked for, where the entries of the profile stand for the profile.
  abbrev pub IsAsked : List FilePath → FilePath → Type 0
  IsAsked roots r =
      (h.env_var (codes "USERPROFILE") ≡ none → Member r roots)
      × ((user_profile : FilePath)
          → h.env_var (codes "USERPROFILE") ≡ some user_profile
          → IsExpanded h d user_profile roots r)

  expand_unset :
      (roots : List FilePath)
      → h.env_var (codes "USERPROFILE") ≡ none
      → expand_user_profile_root h d roots ≡ roots
  unfolding expand_user_profile_root
  expand_unset roots unset = rw (unset, expand_user_profile_root) refl

  expand_set :
      (roots : List FilePath) (up : FilePath)
      → h.env_var (codes "USERPROFILE") ≡ some up
      → expand_user_profile_root h d roots ≡ expand_user_profile_root_for h d roots up
  unfolding expand_user_profile_root
  expand_set roots up set = rw (set, expand_user_profile_root) refl

  pub expanded-IsAsked :
      (roots : List FilePath) (r : FilePath)
      → Member r (expand_user_profile_root h d roots)
      → IsAsked roots r
  expanded-IsAsked roots r m = (
    λ unset. subst (Member r) (expand_unset roots unset) m,
    λ up set.
        (expand_user_profile_root-IsExpanded h d up roots).1 r
          (subst (Member r) (expand_set roots up set) m),
  )

  pub IsAsked-expanded :
      (roots : List FilePath) (r : FilePath)
      → IsAsked roots r
      → (s : FilePath) × Member s (expand_user_profile_root h d roots)
        × (canonical_path_key h r ≡ canonical_path_key h s)
  IsAsked-expanded roots r (bare, expanded) =
      elim (Option-cases (h.env_var (codes "USERPROFILE"))) [
        | inl unset ↦ (r, subst (Member r) (sym (expand_unset roots unset)) (bare unset), refl)
        | inr (up, set) ↦
            let (s, m, e) =
              (expand_user_profile_root-IsExpanded h d up roots).2 r (expanded up set) in
            (s, subst (Member s) (sym (expand_set roots up set)) m, e)
      ]

  module _ (p : ResolvedSandboxPermissions) (cwd : FilePath) (env : EnvMap) where
    -- Each root that is to be written was asked for, is neither the user's profile nor in a child of
    -- it that is kept closed, and is neither the home nor at or below one of its control directories.
    -- Of each such root that was asked for, one with its key is to be written.
    pub write_roots-IsHarmless :
        (codex_home : FilePath) (roots : Option (List FilePath))
        → ((r : FilePath)
            → Member r (effective_write_roots_for_permissions h f d p cwd env codex_home roots)
            → IsAsked (wanted_write_roots h f d p cwd env roots) r
              × IsOpen h f (canonical_path_key h r)
              × IsHarmless h codex_home (canonical_path_key h r))
          × ((r : FilePath)
              → IsAsked (wanted_write_roots h f d p cwd env roots) r
              → IsOpen h f (canonical_path_key h r)
              → IsHarmless h codex_home (canonical_path_key h r)
              → (s : FilePath) × Member s
                  (effective_write_roots_for_permissions h f d p cwd env codex_home roots)
                × (canonical_path_key h r ≡ canonical_path_key h s))
    unfolding effective_write_roots_for_permissions
    write_roots-IsHarmless codex_home roots =
        let wanted = wanted_write_roots h f d p cwd env roots in
        let expanded = expand_user_profile_root h d wanted in
        (
          λ r m.
              let (n, harmless) =
                (Member-filter_sensitive h (open_roots h f expanded) codex_home r).0 m in
              let (there, is_open) = (Member-open_roots h f expanded r).0 n in
              (expanded-IsAsked wanted r there, is_open, harmless),
          λ r asked is_open harmless.
              let (s, m, e) = IsAsked-expanded wanted r asked in
              (
                s,
                (Member-filter_sensitive h (open_roots h f expanded) codex_home s).1 (
                  (Member-open_roots h f expanded s).1 (m, subst (IsOpen h f) e is_open),
                  subst (IsHarmless h codex_home) e harmless,
                ),
                e,
              ),
        )
