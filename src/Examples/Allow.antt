-- ===== src/Examples/Allow.antt =====
-- Allowed and denied paths of src/allow.rs.
use yj_sandbox.Base.{◌≡◌, refl, true, [], ◌∷◌}
use yj_sandbox.Base.Text.{codes, eq_ignore_ascii_case, texts_start_with, texts_eq}
use yj_sandbox.Base.Host.{Host, path_eq, path_starts_with}
use yj_sandbox.Base.Unix.{unix_with_files}
use yj_sandbox.Paths.{canonicalize_path}
use yj_sandbox.Permissions.{
  EnvMap, ResolvedSandboxPermissions, workspace_write, protected_subpaths, windows_temp_env_roots,
  push_root, push_workspace_roots, push_extra_roots, push_temp_roots, writable_roots_for_cwd,
}
use yj_sandbox.Allow.{
  add_existing, add_all_existing, add_writable_roots, compute_allow_paths_for_permissions,
}
use yj_sandbox.Allow.Sets.{IsSetOf, canonical_roots, read_only_paths, compute_allow_paths-IsSetOf}

runs : Unit {0}
unfolding eq_ignore_ascii_case texts_start_with texts_eq writable_roots_for_cwd push_workspace_roots
    push_extra_roots push_temp_roots push_root protected_subpaths canonicalize_path path_eq
    path_starts_with windows_temp_env_roots unix_with_files workspace_write add_existing
    add_all_existing add_writable_roots compute_allow_paths_for_permissions
runs = tt

host : Host
unfolding unix_with_files
host = unix_with_files (codes "/w/app" ∷ codes "/w/app/.git" ∷ codes "/cache" ∷ [])

abbrev permissions : ResolvedSandboxPermissions
unfolding workspace_write
permissions = workspace_write (codes "/w/app" ∷ codes "/other" ∷ []) (codes "/cache" ∷ []) true true

abbrev env : EnvMap
env = (codes "temp", codes "/scratch") ∷ []

compute_allow_paths_test :
    compute_allow_paths_for_permissions host permissions (codes "/w/app/src") env
    ≡ record { allow = codes "/w/app" ∷ codes "/cache" ∷ []; deny = codes "/w/app/.git" ∷ [] }
unfolding runs host
compute_allow_paths_test = refl

compute_allow_paths-IsSetOf_example :
    IsSetOf host
      (canonical_roots host (writable_roots_for_cwd host permissions (codes "/w/app/src") env))
      (compute_allow_paths_for_permissions host permissions (codes "/w/app/src") env).allow
    × IsSetOf host
        (read_only_paths (writable_roots_for_cwd host permissions (codes "/w/app/src") env))
        (compute_allow_paths_for_permissions host permissions (codes "/w/app/src") env).deny
compute_allow_paths-IsSetOf_example =
    compute_allow_paths-IsSetOf host permissions (codes "/w/app/src") env
