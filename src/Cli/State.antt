-- ===== src/Cli/State.antt =====
-- The sandbox state given as JSON: `resolve_sandbox_state` of src/bin/yj-sandbox-run/main.rs.
pub mod Entries
pub mod Resolve
pub mod Rules
pub mod Asked
pub mod Special
pub mod Ruled
pub mod Dirs
pub mod Amounts
pub mod Exact
pub mod Writes
use yj_sandbox.Base.{
  ℕ, suc, Bool, true, false, ◌&&◌, ◌||◌, not, List, [], ◌∷◌, ◌++◌, Option, none, some, any,
  is_empty, if◌then◌else◌,
}
use yj_sandbox.Base.Outcome.{Result, ok, err, ◌>>=◌, ok_or}
use yj_sandbox.Base.Text.{Text, codes, text_eq}
use yj_sandbox.Base.Host.{Host, FilePath, path_eq}
use yj_sandbox.Permissions.{ResolvedSandboxPermissions, read_only, workspace_write, restricted}
use yj_sandbox.Cli.{resolve_add_dirs}

-- What the code uses of serde_json and of url: a JSON text's value, its members and its kinds; a
-- URL's scheme and the path of a file URL.
pub record Libraries : Type 1 where
  pub Value : Type 0
  pub Object : Type 0
  pub from_str : Text → Option Value
  pub get : Value → Text → Option Value
  pub member : Object → Text → Option Value
  pub as_str : Value → Option Text
  pub as_object : Value → Option Object
  pub as_array : Value → Option (List Value)
  pub url_scheme : Text → Option Text
  pub url_file_path : Text → Option FilePath

pub data StateError : Type 0 where
  invalid_json missing_cwd missing_profile missing_profile_type disabled_profile : StateError
  missing_network missing_file_system missing_file_system_type unrestricted : StateError
  missing_entries glob_not_supported : StateError
  not_native not_absolute unsupported_network unsupported_profile_type : Text → StateError
  unsupported_file_system_type : Text → StateError
  entry_missing_access entry_missing_path path_missing_path special_missing_value : ℕ → StateError
  subpath_not_string special_missing_kind path_missing_type : ℕ → StateError
  entry_unsupported_access unsupported_special unsupported_path_type : ℕ → Text → StateError

pub data Access : Type 0 where
  read write deny : Access

-- What one entry asks for.
pub data Rule : Type 0 where
  read_path write_path deny_path : FilePath → Rule
  read_everything write_workspace write_temp read_platform_defaults ignored : Rule

-- The variables of the loop over the entries.
pub record Grants : Type 0 where
  pub readable_roots : List FilePath
  pub workspace_write : Bool
  pub extra_writable_roots : List FilePath
  pub deny_read_paths : List FilePath
  pub deny_write_paths : List FilePath
  pub include_temp : Bool
  pub include_platform_defaults : Bool
  pub full_disk_read : Bool

pub record ResolvedCommandState : Type 0 where
  pub cwd : FilePath
  pub permissions : ResolvedSandboxPermissions
  pub deny_read_paths : List FilePath
  pub deny_write_paths : List FilePath

unfoldable pub access_of : ℕ → Text → Result StateError Access
access_of index access =
    if text_eq access (codes "read")
    then ok read
    else if text_eq access (codes "write")
    then ok write
    else if text_eq access (codes "deny") || text_eq access (codes "none")
    then ok deny
    else err (entry_unsupported_access index access)

-- The three arms of the match on the access of an explicit path, and of a project path.
abbrev pub on_path : Access → FilePath → Rule
on_path read path = read_path path
on_path write path = write_path path
on_path deny path = deny_path path

-- What an arm of the loop does to its variables.
unfoldable pub apply_rule : Rule → Grants → Grants
apply_rule (read_path p) g = record g { readable_roots = g.readable_roots ++ p ∷ [] }
apply_rule (write_path p) g = record g { extra_writable_roots = g.extra_writable_roots ++ p ∷ [] }
apply_rule (deny_path p) g = record g {
  deny_read_paths = g.deny_read_paths ++ p ∷ [];
  deny_write_paths = g.deny_write_paths ++ p ∷ [];
}
apply_rule read_everything g = record g { full_disk_read = true }
apply_rule write_workspace g = record g { workspace_write = true }
apply_rule write_temp g = record g { include_temp = true }
apply_rule read_platform_defaults g = record g { include_platform_defaults = true }
apply_rule ignored g = g

abbrev pub is_project : Text → Bool
is_project kind =
    text_eq kind (codes "project_roots") || text_eq kind (codes "current_working_directory")

abbrev pub is_temp : Text → Bool
is_temp kind = text_eq kind (codes "tmpdir") || text_eq kind (codes "slash_tmp")
