-- ===== src/Examples/Permissions.antt =====
-- Writable roots of src/resolved_permissions.rs.
use yj_sandbox.Base.{◌≡◌, ◌↔◌, refl, sym, subst, true, [], ◌∷◌, inl, Member}
use yj_sandbox.Base.Text.{codes, eq_ignore_ascii_case, texts_start_with, texts_eq}
use yj_sandbox.Base.Host.{Host, FilePath, path_eq, path_starts_with}
use yj_sandbox.Base.Unix.{unix_with_files}
use yj_sandbox.Paths.{canonicalize_path}
use yj_sandbox.Permissions.{
  EnvMap, WindowsWritableRoot, ResolvedSandboxPermissions, read_only, workspace_write,
  protected_subpaths, windows_temp_env_roots, push_root, push_workspace_roots, push_extra_roots,
  push_temp_roots, writable_roots_for_cwd,
}
use yj_sandbox.Permissions.Roots.{IsGranted, IsProtected, writable_roots-IsGranted}

roots : Unit {0}
unfolding eq_ignore_ascii_case texts_start_with texts_eq writable_roots_for_cwd push_workspace_roots
    push_extra_roots push_temp_roots push_root protected_subpaths canonicalize_path path_eq
    path_starts_with windows_temp_env_roots unix_with_files workspace_write read_only
roots = tt

host : Host
unfolding unix_with_files
host = unix_with_files (codes "/w/app" ∷ codes "/w/app/.git" ∷ codes "/cache" ∷ [])

abbrev permissions : ResolvedSandboxPermissions
unfolding workspace_write
permissions =
    workspace_write (codes "/w/app" ∷ codes "/other" ∷ []) (codes "/cache" ∷ codes "/w//app/" ∷ [])
      true true

abbrev env : EnvMap
env = (codes "temp", codes "/scratch") ∷ []

abbrev app : WindowsWritableRoot
app = record { root = codes "/w/app"; read_only_subpaths = codes "/w/app/.git" ∷ [] }

abbrev bare : FilePath → WindowsWritableRoot
bare root = record { root = root; read_only_subpaths = [] }

writable_roots_test :
    writable_roots_for_cwd host permissions (codes "/w/app/src") env
    ≡ app ∷ bare (codes "/cache") ∷ bare (codes "/scratch") ∷ []
unfolding roots host
writable_roots_test = refl

app_listed : Member app (writable_roots_for_cwd host permissions (codes "/w/app/src") env)
app_listed = subst (Member app) (sym writable_roots_test) (inl refl)

writable_roots-IsGranted_example :
    IsGranted host permissions (codes "/w/app/src") env (codes "/w/app")
    × ((q : FilePath) → Member q (codes "/w/app/.git" ∷ []) ↔ IsProtected host (codes "/w/app") q)
writable_roots-IsGranted_example =
    writable_roots-IsGranted host permissions (codes "/w/app/src") env app app_listed
