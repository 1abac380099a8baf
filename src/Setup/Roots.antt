-- ===== src/Setup/Roots.antt =====
-- The roots that the setup gives access to: `build_payload_roots` and what it calls, src/setup.rs.
-- `Host` is the file system after the directory of the helpers was made.
pub mod Profile
pub mod Children
pub mod Kept
use yj_sandbox.Base.{
  Bool, true, false, ◌&&◌, ◌||◌, not, List, [], ◌∷◌, ◌++◌, Option, none, some, any, keep, is_empty,
  map, ◌==◌, if◌then◌else◌,
}
use yj_sandbox.Base.Text.{
  Text, codes, text_eq, starts_with, strip_prefix, split, trim_end_while, eq_ignore_ascii_case,
}
use yj_sandbox.Base.Sorting.{sort_by_key, dedup_by_key}
use yj_sandbox.Base.Host.{Host, FilePath, path_eq, path_starts_with}
use yj_sandbox.Paths.{canonicalize_path, canonical_path_key, or_else}
use yj_sandbox.Permissions.{
  EnvMap, WindowsWritableRoot, ResolvedSandboxPermissions, readable_roots_for_cwd,
  writable_roots_for_cwd,
}
use yj_sandbox.Allow.{compute_allow_paths_for_permissions}
use yj_sandbox.SshConfig.{Files, ssh_config_dependency_paths}
use yj_sandbox.Setup.{
  SandboxSetupRequest, SetupRootOverrides, userprofile_root_exclusions,
  windows_platform_default_read_roots, sandbox_dir, sandbox_bin_dir, sandbox_secrets_dir,
}

pub record DirEntry : Type 0 where
  pub file_name : Text
  pub path : FilePath

pub record Directories : Type 0 where
  -- `read_dir`, with the entries that could be read
  pub read_dir : FilePath → Option (List DirEntry)
  pub parent : FilePath → Option FilePath

abbrev pub is_excluded_name : Text → Bool
is_excluded_name name =
    any (λ excluded. eq_ignore_ascii_case name excluded) userprofile_root_exclusions

abbrev pub is_some : {A : Type 0} → Option A → Bool
is_some none = false
is_some (some a) = true

-- `is_some_and`; also `let Some(a) = … else { return false }` before a test of `a`
abbrev pub is_some_and : {A : Type 0} → (A → Bool) → Option A → Bool
is_some_and p none = false
is_some_and p (some a) = p a

-- `format!("{}/", key.trim_end_matches('/'))`
unfoldable pub child_prefix : Text → Text
child_prefix key = trim_end_while (λ c. c == b'/') key ++ codes "/"

-- what stands before the first `/`, if it is not empty
abbrev pub first_name : List Text → Option Text
first_name [] = none
first_name (name ∷ _) = if is_empty name then none else some name

module _ (h : Host) where
  unfoldable pub canonical_existing : List FilePath → List FilePath
  unfolding canonicalize_path
  canonical_existing [] = []
  canonical_existing (p ∷ ps) =
      if h.exists p then canonicalize_path h p ∷ canonical_existing ps else canonical_existing ps

  unfoldable pub gather_helper_read_roots : FilePath → List FilePath
  unfolding sandbox_bin_dir
  gather_helper_read_roots codex_home = sandbox_bin_dir h codex_home ∷ []

  -- the loop of `gather_write_roots_for_permissions`
  unfoldable pub distinct_roots : List FilePath → List FilePath → List FilePath
  distinct_roots out [] = out
  distinct_roots out (r ∷ rs) =
      distinct_roots (if any (λ q. path_eq h q r) out then out else out ++ r ∷ []) rs

  unfoldable pub gather_write_roots_for_permissions :
      ResolvedSandboxPermissions → FilePath → EnvMap → List FilePath
  gather_write_roots_for_permissions permissions command_cwd env_map = distinct_roots [] (
      canonical_existing (
        map (λ (w : WindowsWritableRoot). w.root)
          (writable_roots_for_cwd h permissions command_cwd env_map)))

  unfoldable pub user_profile_child_name : FilePath → FilePath → Option Text
  user_profile_child_name path user_profile =
      elim (strip_prefix (child_prefix (canonical_path_key h user_profile))
        (canonical_path_key h path)) [
          | none ↦ none
          | some relative_key ↦ first_name (split b'/' relative_key)
        ]

  unfoldable pub is_user_profile_root_exclusion : FilePath → FilePath → Bool
  is_user_profile_root_exclusion root user_profile =
      is_some_and is_excluded_name (user_profile_child_name root user_profile)

  unfoldable pub is_ssh_config_dependency_root : FilePath → FilePath → List FilePath → Bool
  is_ssh_config_dependency_root root user_profile dependency_paths =
      is_some_and
        (λ child_name.
          any
            (λ path.
              is_some_and (eq_ignore_ascii_case child_name)
                (user_profile_child_name path user_profile))
            dependency_paths)
        (user_profile_child_name root user_profile)

  unfoldable pub filter_user_profile_root : List FilePath → List FilePath
  filter_user_profile_root roots = elim (h.env_var (codes "USERPROFILE")) [
    | none ↦ roots
    | some user_profile ↦
        keep (λ root. not (text_eq (canonical_path_key h root) (canonical_path_key h user_profile)))
          roots
  ]

  unfoldable pub filter_user_profile_root_exclusions : List FilePath → List FilePath
  filter_user_profile_root_exclusions roots = elim (h.env_var (codes "USERPROFILE")) [
    | none ↦ roots
    | some user_profile ↦
        keep (λ root. not (is_user_profile_root_exclusion root user_profile)) roots
  ]

  -- whether a key is that of the directory or one below it
  abbrev pub is_at_or_below : Text → FilePath → Bool
  is_at_or_below key dir =
      text_eq key (canonical_path_key h dir)
      || starts_with key (child_prefix (canonical_path_key h dir))

  unfoldable pub filter_sensitive_write_roots : List FilePath → FilePath → List FilePath
  filter_sensitive_write_roots roots codex_home =
      keep
        (λ root.
          let key = canonical_path_key h root in
          not (text_eq key (canonical_path_key h codex_home))
          && not (is_at_or_below key (sandbox_dir h codex_home))
          && not (is_at_or_below key (sandbox_bin_dir h codex_home))
          && not (is_at_or_below key (sandbox_secrets_dir h codex_home)))
        roots

module _ (h : Host) (f : Files) where
  unfoldable pub filter_ssh_config_dependency_roots : List FilePath → List FilePath
  filter_ssh_config_dependency_roots roots = elim (h.env_var (codes "USERPROFILE")) [
    | none ↦ roots
    | some user_profile ↦
        let dependency_paths = ssh_config_dependency_paths h f user_profile in
        keep (λ root. not (is_ssh_config_dependency_root h root user_profile dependency_paths))
          roots
  ]

module _ (h : Host) (d : Directories) where
  unfoldable pub profile_read_roots : FilePath → List FilePath
  profile_read_roots user_profile = elim (d.read_dir user_profile) [
    | none ↦ user_profile ∷ []
    | some entries ↦
        map (λ (e : DirEntry). e.path)
          (keep (λ (e : DirEntry). not (is_excluded_name e.file_name)) entries)
  ]

  -- the loop of `expand_user_profile_root_for`
  unfoldable pub with_profile_entries : FilePath → List FilePath → List FilePath
  with_profile_entries user_profile [] = []
  with_profile_entries user_profile (root ∷ roots) =
      (if text_eq (canonical_path_key h root) (canonical_path_key h user_profile)
        then profile_read_roots user_profile
        else root ∷ [])
      ++ with_profile_entries user_profile roots

  unfoldable pub expand_user_profile_root_for : List FilePath → FilePath → List FilePath
  expand_user_profile_root_for roots user_profile =
      dedup_by_key (canonical_path_key h)
        (sort_by_key (canonical_path_key h) (with_profile_entries user_profile roots))

  unfoldable pub expand_user_profile_root : List FilePath → List FilePath
  expand_user_profile_root roots = elim (h.env_var (codes "USERPROFILE")) [
    | none ↦ roots
    | some user_profile ↦ expand_user_profile_root_for roots user_profile
  ]

  unfoldable pub gather_full_read_roots_for_permissions :
      FilePath → ResolvedSandboxPermissions → EnvMap → FilePath → List FilePath
  gather_full_read_roots_for_permissions command_cwd permissions env_map codex_home =
      canonical_existing h (
        gather_helper_read_roots h codex_home
        ++ (windows_platform_default_read_roots
            ++ ((elim (h.env_var (codes "USERPROFILE")) [
              | none ↦ []
              | some up ↦ profile_read_roots up
            ])
                ++ (command_cwd
                    ∷ (map (λ (w : WindowsWritableRoot). w.root)
                          (writable_roots_for_cwd h permissions command_cwd env_map)
                        ++ keep
                            (λ root.
                              is_some (d.parent root) || not (path_starts_with h command_cwd root))
                            (readable_roots_for_cwd h permissions command_cwd))))))

  unfoldable pub gather_read_roots :
      FilePath → ResolvedSandboxPermissions → EnvMap → FilePath → List FilePath
  gather_read_roots command_cwd permissions env_map codex_home =
      if permissions.full_disk_read
      then gather_full_read_roots_for_permissions command_cwd permissions env_map codex_home
      else canonical_existing h (
          gather_helper_read_roots h codex_home
          ++ ((if permissions.include_platform_defaults
                then windows_platform_default_read_roots
                else [])
              ++ readable_roots_for_cwd h permissions command_cwd))
