-- ===== src/Examples/Macos.antt =====
-- Writes on macOS: src/macos_permissions.rs.
use yj_sandbox.Base.{true, false, ◌≡◌, refl, [], ◌∷◌, All}
use yj_sandbox.Base.Text.{codes, text_eq, texts_eq, texts_start_with, contains_text, split}
use yj_sandbox.Base.Maps.{map_get}
use yj_sandbox.Base.Host.{Host, FilePath, path_eq, path_starts_with}
use yj_sandbox.Base.Unix.{unix_with_files, unix_join, unix_components}
use yj_sandbox.Paths.{canonicalize_path, from_absolute_path}
use yj_sandbox.Permissions.{ResolvedSandboxPermissions, workspace_write, protected_subpaths}
use yj_sandbox.Macos.{
  is_at_or_below, can_write_path_with_cwd, absolute_cwd, absolute_for_cwd, keep_absolute,
  push_macos_root, macos_temp_env_roots, push_workspace, push_extra, push_temp,
  macos_writable_roots_for_cwd, macos_file_system_policy_for_cwd,
}
use yj_sandbox.Macos.Writes.{Asked, can_write-Asked}

writing : Unit {0}
unfolding text_eq texts_eq texts_start_with contains_text split map_get path_eq path_starts_with
    unix_with_files unix_join unix_components canonicalize_path from_absolute_path workspace_write
    protected_subpaths can_write_path_with_cwd absolute_cwd absolute_for_cwd push_macos_root
    macos_temp_env_roots push_workspace push_extra push_temp macos_writable_roots_for_cwd
    macos_file_system_policy_for_cwd
writing = tt

unfoldable host : Host
unfolding unix_with_files
host = unix_with_files (codes "/w" ∷ codes "/w/.git" ∷ [])

unfoldable permissions : ResolvedSandboxPermissions
unfolding workspace_write
permissions = workspace_write (codes "/w" ∷ []) [] true true

git_test :
    can_write_path_with_cwd host
      (macos_file_system_policy_for_cwd host permissions (codes "/w/a") [])
      (codes "/w/.git/hooks")
    ≡ false
unfolding writing host permissions
git_test = refl

file_test :
    can_write_path_with_cwd host
      (macos_file_system_policy_for_cwd host permissions (codes "/w/a") [])
      (codes "/w/x")
    ≡ true
unfolding writing host permissions
file_test = refl

can_write-Asked_example :
    (root : FilePath) × Asked host permissions (codes "/w/a") [] root
    × (host.is_absolute root ≡ true)
    × (path_starts_with host (codes "/w/x") root ≡ true)
    × All
        (λ s. is_at_or_below host (codes "/w/x") s ≡ false)
        (keep_absolute host (protected_subpaths host root))
can_write-Asked_example =
    can_write-Asked host permissions (codes "/w/a") [] (codes "/w/x") file_test
