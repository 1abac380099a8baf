-- ===== src/Allow.antt =====
-- The paths whose access control lists a run changes: src/allow.rs.
pub mod Sets
use yj_sandbox.Base.{Bool, true, false, List, [], ◌∷◌, ◌++◌, any, if◌then◌else◌}
use yj_sandbox.Base.Host.{Host, FilePath, path_eq}
use yj_sandbox.Paths.{canonicalize_path}
use yj_sandbox.Permissions.{
  EnvMap, WindowsWritableRoot, ResolvedSandboxPermissions, writable_roots_for_cwd,
}

-- Two sets of paths, of which equal ones stand once.
pub record AllowDenyPaths : Type 0 where
  pub allow : List FilePath
  pub deny : List FilePath

module _ (h : Host) where
  -- `add_allow_path` and `add_deny_path`: `HashSet::insert` of a path that exists
  unfoldable pub add_existing : FilePath → List FilePath → List FilePath
  add_existing p paths =
      if h.exists p
      then (if any (λ q. path_eq h q p) paths then paths else paths ++ p ∷ [])
      else paths

  unfoldable pub add_all_existing : List FilePath → List FilePath → List FilePath
  add_all_existing [] paths = paths
  add_all_existing (p ∷ ps) paths = add_all_existing ps (add_existing p paths)

  unfoldable pub add_writable_roots : List WindowsWritableRoot → AllowDenyPaths → AllowDenyPaths
  add_writable_roots [] sets = sets
  add_writable_roots (w ∷ ws) sets = add_writable_roots ws (record {
    allow = add_existing (canonicalize_path h w.root) sets.allow;
    deny = add_all_existing w.read_only_subpaths sets.deny;
  })

  unfoldable pub compute_allow_paths_for_permissions :
      ResolvedSandboxPermissions → FilePath → EnvMap → AllowDenyPaths
  unfolding add_writable_roots
  compute_allow_paths_for_permissions permissions command_cwd env =
      add_writable_roots (writable_roots_for_cwd h permissions command_cwd env)
        (record { allow = []; deny = [] })
