-- ===== src/Permissions.antt =====
-- The resolved permissions of a run and its writable roots on Windows: src/resolved_permissions.rs.
pub mod Pushing
pub mod Temp
pub mod Roots
use yj_sandbox.Base.{
  ℕ, Bool, true, false, not, List, [], ◌∷◌, ◌++◌, map, Option, none, some, any, keep, is_empty,
  if◌then◌else◌,
}
use yj_sandbox.Base.Text.{Text, codes, eq_ignore_ascii_case}
use yj_sandbox.Base.Host.{Host, FilePath, path_eq, path_starts_with}
use yj_sandbox.Paths.{canonicalize_path, or_other}

abbrev pub EnvMap : Type 0
EnvMap = List (Text × Text)

-- `PROTECTED_SUBDIRS`
abbrev pub protected_subdirs : List Text
protected_subdirs = codes ".git" ∷ codes ".codex" ∷ codes ".agents" ∷ []

pub record WindowsWritableRoot : Type 0 where
  pub root : FilePath
  pub read_only_subpaths : List FilePath

pub record ResolvedSandboxPermissions : Type 0 where
  pub readable_roots : List FilePath
  pub full_disk_read : Bool
  pub include_platform_defaults : Bool
  pub workspace_roots : List FilePath
  pub extra_writable_roots : List FilePath
  pub include_temp : Bool
  pub block_network : Bool

pub data WindowsSandboxTokenMode : Type 0 where
  read_only_capability writable_roots_capability : WindowsSandboxTokenMode

unfoldable pub read_only : Bool → ResolvedSandboxPermissions
read_only block_network = record {
  readable_roots = [];
  full_disk_read = true;
  include_platform_defaults = true;
  workspace_roots = [];
  extra_writable_roots = [];
  include_temp = false;
  block_network = block_network;
}

unfoldable pub workspace_write :
    List FilePath → List FilePath → Bool → Bool → ResolvedSandboxPermissions
workspace_write workspace_roots extra_writable_roots include_temp block_network = record {
  readable_roots = [];
  full_disk_read = true;
  include_platform_defaults = true;
  workspace_roots = workspace_roots;
  extra_writable_roots = extra_writable_roots;
  include_temp = include_temp;
  block_network = block_network;
}

unfoldable pub restricted :
    List FilePath → List FilePath → List FilePath → Bool → Bool → Bool → ResolvedSandboxPermissions
restricted readable workspace extra include_temp block_network include_platform_defaults = record {
  readable_roots = readable;
  full_disk_read = false;
  include_platform_defaults = include_platform_defaults;
  workspace_roots = workspace;
  extra_writable_roots = extra;
  include_temp = include_temp;
  block_network = block_network;
}

-- The first variable of the child whose name is `key` in any case; a HashMap's order is arbitrary.
unfoldable pub find_ignoring_case : Text → EnvMap → Option Text
find_ignoring_case key [] = none
find_ignoring_case key ((name, value) ∷ env) =
    if eq_ignore_ascii_case name key then some value else find_ignoring_case key env

module _ (h : Host) where
  unfoldable pub readable_roots_for_cwd : ResolvedSandboxPermissions → FilePath → List FilePath
  unfolding canonicalize_path
  readable_roots_for_cwd p cwd =
      map (λ root. canonicalize_path h (if h.is_absolute root then root else h.join cwd root))
        p.readable_roots

  unfoldable pub protected_subpaths : FilePath → List FilePath
  protected_subpaths root = keep h.exists (map (h.join root) protected_subdirs)

  -- the value of one of the two variables, if it is an absolute path
  temp_root : EnvMap → Text → List FilePath
  unfolding find_ignoring_case
  temp_root env key = elim (or_other (find_ignoring_case key env) (h.env_var key)) [
    | none ↦ []
    | some path ↦ if h.is_absolute path then path ∷ [] else []
  ]

  unfoldable pub windows_temp_env_roots : EnvMap → List FilePath
  unfolding temp_root
  windows_temp_env_roots env = temp_root env (codes "TEMP") ++ temp_root env (codes "TMP")

  unfoldable pub push_root : List WindowsWritableRoot → FilePath → List WindowsWritableRoot
  push_root out root =
      if any (λ existing. path_eq h existing.root root) out
      then out
      else out ++ record { root = root; read_only_subpaths = protected_subpaths root } ∷ []

  unfoldable pub push_workspace_roots :
      FilePath → List WindowsWritableRoot → List FilePath → List WindowsWritableRoot
  push_workspace_roots canonical_cwd out [] = out
  push_workspace_roots canonical_cwd out (root ∷ roots) =
      let canonical = canonicalize_path h root in
      push_workspace_roots canonical_cwd
        (if path_starts_with h canonical_cwd canonical then push_root out canonical else out) roots

  unfoldable pub push_extra_roots :
      List WindowsWritableRoot → List FilePath → List WindowsWritableRoot
  push_extra_roots out [] = out
  push_extra_roots out (root ∷ roots) =
      push_extra_roots (push_root out (canonicalize_path h root)) roots

  unfoldable pub push_temp_roots :
      List WindowsWritableRoot → List FilePath → List WindowsWritableRoot
  push_temp_roots out [] = out
  push_temp_roots out (root ∷ roots) = push_temp_roots (push_root out root) roots

  unfoldable pub writable_roots_for_cwd :
      ResolvedSandboxPermissions → FilePath → EnvMap → List WindowsWritableRoot
  writable_roots_for_cwd p cwd env =
      let canonical_cwd = canonicalize_path h cwd in
      let workspace = push_workspace_roots canonical_cwd [] p.workspace_roots in
      let out = push_extra_roots workspace p.extra_writable_roots in
      if p.include_temp then push_temp_roots out (windows_temp_env_roots env) else out

  unfoldable pub uses_write_capabilities_for_cwd :
      ResolvedSandboxPermissions → FilePath → EnvMap → Bool
  uses_write_capabilities_for_cwd p cwd env = not (is_empty (writable_roots_for_cwd p cwd env))

  unfoldable pub token_mode_for_cwd :
      ResolvedSandboxPermissions → FilePath → EnvMap → WindowsSandboxTokenMode
  token_mode_for_cwd p cwd env =
      if is_empty (writable_roots_for_cwd p cwd env)
      then read_only_capability
      else writable_roots_capability
