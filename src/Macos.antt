-- ===== src/Macos.antt =====
-- The permissions that the Seatbelt generator reads on macOS: src/macos_permissions.rs, and the macOS
-- part of src/resolved_permissions.rs.
pub mod Writes
use yj_sandbox.Base.{
  Bool, true, false, ◌&&◌, ◌||◌, not, List, [], ◌∷◌, ◌++◌, Option, none, some, any, is_empty,
  if◌then◌else◌,
}
use yj_sandbox.Base.Outcome.{Result, ok, err}
use yj_sandbox.Base.Text.{Text, codes}
use yj_sandbox.Base.Maps.{map_get}
use yj_sandbox.Base.Host.{Host, FilePath, path_eq, path_starts_with}
use yj_sandbox.Paths.{canonicalize_path, from_absolute_path, or_else, or_other}
use yj_sandbox.Permissions.{
  EnvMap, ResolvedSandboxPermissions, protected_subdirs, protected_subpaths,
}

pub data NetworkSandboxPolicy : Type 0 where
  restricted enabled : NetworkSandboxPolicy

abbrev pub is_enabled : NetworkSandboxPolicy → Bool
is_enabled enabled = true
is_enabled restricted = false

pub record WritableRoot : Type 0 where
  pub root : FilePath
  pub read_only_subpaths : List FilePath
  pub protected_metadata_names : List Text

pub record FileSystemSandboxPolicy : Type 0 where
  pub full_disk_read : Bool
  pub full_disk_write : Bool
  pub include_platform_defaults : Bool
  pub readable_roots : List FilePath
  pub writable_roots : List WritableRoot
  pub unreadable_roots : List FilePath
  pub unreadable_globs : List Text

abbrev pub read_only_full_disk : FileSystemSandboxPolicy
read_only_full_disk = record {
  full_disk_read = true;
  full_disk_write = false;
  include_platform_defaults = true;
  readable_roots = [];
  writable_roots = [];
  unreadable_roots = [];
  unreadable_globs = [];
}

abbrev pub workspace_write_full_read : List WritableRoot → FileSystemSandboxPolicy
workspace_write_full_read writable_roots = record {
  full_disk_read = true;
  full_disk_write = false;
  include_platform_defaults = true;
  readable_roots = [];
  writable_roots = writable_roots;
  unreadable_roots = [];
  unreadable_globs = [];
}

-- `macos_network_policy`
unfoldable pub macos_network_policy : ResolvedSandboxPermissions → NetworkSandboxPolicy
macos_network_policy p = if p.block_network then restricted else enabled

module _ (h : Host) where
  -- `path == excluded || path.starts_with(excluded)`
  abbrev pub is_at_or_below : FilePath → FilePath → Bool
  is_at_or_below path root = path_eq h path root || path_starts_with h path root

  unfoldable pub is_unreadable : FileSystemSandboxPolicy → FilePath → Bool
  is_unreadable policy path = any (is_at_or_below path) policy.unreadable_roots

  abbrev pub root_lets_write : FilePath → WritableRoot → Bool
  root_lets_write path root =
      path_starts_with h path root.root && not (any (is_at_or_below path) root.read_only_subpaths)

  unfoldable pub can_write_path_with_cwd : FileSystemSandboxPolicy → FilePath → Bool
  unfolding is_unreadable
  can_write_path_with_cwd policy path =
      if policy.full_disk_write
      then not (is_unreadable policy path)
      else any (root_lets_write path) policy.writable_roots

  unfoldable pub absolute_cwd : FilePath → FilePath
  absolute_cwd cwd =
      if h.is_absolute cwd then cwd else h.join (or_else h.current_dir (codes ".")) cwd

  unfoldable pub absolute_for_cwd : FilePath → FilePath → FilePath
  absolute_for_cwd path cwd = if h.is_absolute path then path else h.join cwd path

  -- `filter_map(|path| AbsolutePathBuf::from_absolute_path(path).ok())`
  abbrev pub keep_absolute : List FilePath → List FilePath
  keep_absolute [] = []
  keep_absolute (path ∷ paths) =
      if h.is_absolute path then path ∷ keep_absolute paths else keep_absolute paths

  unfoldable pub push_macos_root : List WritableRoot → FilePath → List WritableRoot
  push_macos_root out root =
      if any (λ (existing : WritableRoot). path_eq h existing.root root) out
      then out
      else elim (from_absolute_path h root) [
        | err _ ↦ out
        | ok absolute ↦
            out
            ++ record {
              root = absolute;
              read_only_subpaths = keep_absolute (protected_subpaths h absolute);
              protected_metadata_names = protected_subdirs;
            }
              ∷ []
      ]

  unfoldable pub macos_temp_env_roots : EnvMap → List FilePath
  macos_temp_env_roots env =
      elim (or_other (map_get env (codes "TMPDIR")) (h.env_var (codes "TMPDIR"))) [
        | none ↦ codes "/tmp" ∷ []
        | some tmpdir ↦
            if h.is_absolute tmpdir then tmpdir ∷ codes "/tmp" ∷ [] else codes "/tmp" ∷ []
      ]

  unfoldable pub push_workspace : FilePath → List WritableRoot → List FilePath → List WritableRoot
  push_workspace canonical_cwd out [] = out
  push_workspace canonical_cwd out (root ∷ roots) =
      let canonical = canonicalize_path h (absolute_for_cwd root canonical_cwd) in
      push_workspace canonical_cwd
        (if path_starts_with h canonical_cwd canonical then push_macos_root out canonical else out)
        roots

  unfoldable pub push_extra : FilePath → List WritableRoot → List FilePath → List WritableRoot
  push_extra canonical_cwd out [] = out
  push_extra canonical_cwd out (root ∷ roots) =
      push_extra canonical_cwd
        (push_macos_root out (canonicalize_path h (absolute_for_cwd root canonical_cwd))) roots

  unfoldable pub push_temp : List WritableRoot → List FilePath → List WritableRoot
  push_temp out [] = out
  push_temp out (root ∷ roots) = push_temp (push_macos_root out (canonicalize_path h root)) roots

  unfoldable pub macos_writable_roots_for_cwd :
      ResolvedSandboxPermissions → FilePath → EnvMap → List WritableRoot
  macos_writable_roots_for_cwd p cwd env =
      let canonical_cwd = canonicalize_path h (absolute_cwd cwd) in
      let workspace = push_workspace canonical_cwd [] p.workspace_roots in
      let out = push_extra canonical_cwd workspace p.extra_writable_roots in
      if p.include_temp then push_temp out (macos_temp_env_roots env) else out

  unfoldable pub macos_file_system_policy_for_cwd :
      ResolvedSandboxPermissions → FilePath → EnvMap → FileSystemSandboxPolicy
  macos_file_system_policy_for_cwd p cwd env =
      let writable_roots = macos_writable_roots_for_cwd p cwd env in
      if is_empty writable_roots
      then read_only_full_disk
      else workspace_write_full_read writable_roots
