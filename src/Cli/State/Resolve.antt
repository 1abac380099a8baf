-- ===== src/Cli/State/Resolve.antt =====
-- `resolve_sandbox_state` of src/bin/yj-sandbox-run/main.rs, around the loop over the entries.
use yj_sandbox.Base.{
  Bool, true, false, ◌&&◌, ◌||◌, not, List, [], ◌∷◌, ◌++◌, Option, none, some, any, is_empty,
  if◌then◌else◌,
}
use yj_sandbox.Base.Outcome.{Result, ok, err, ◌>>=◌, ok_or}
use yj_sandbox.Base.Text.{Text, codes, text_eq}
use yj_sandbox.Base.Host.{Host, FilePath, path_eq}
use yj_sandbox.Permissions.{ResolvedSandboxPermissions, read_only, workspace_write, restricted}
use yj_sandbox.Cli.{resolve_add_dirs}
use yj_sandbox.Cli.State.{
  Libraries, StateError, invalid_json, missing_cwd, missing_profile, missing_profile_type,
  disabled_profile, missing_network, missing_file_system, missing_file_system_type, unrestricted,
  missing_entries, unsupported_network, unsupported_profile_type, unsupported_file_system_type,
  Grants, ResolvedCommandState,
}
use yj_sandbox.Cli.State.Entries.{and_then, native_path, resolve_entries}

-- `Some("enabled") => true, Some("restricted") => false`
unfoldable pub network_enabled : Option Text → Result StateError Bool
network_enabled none = err missing_network
network_enabled (some network) =
    if text_eq network (codes "enabled")
    then ok true
    else if text_eq network (codes "restricted")
    then ok false
    else err (unsupported_network network)

unfoldable pub check_file_system_type : Text → Result StateError Unit
check_file_system_type kind =
    if text_eq kind (codes "restricted")
    then ok tt
    else if text_eq kind (codes "unrestricted")
    then err unrestricted
    else err (unsupported_file_system_type kind)

-- The variables of the loop before its first round.
abbrev pub no_grants : List FilePath → Grants
no_grants additional_readable_roots = record {
  readable_roots = additional_readable_roots;
  workspace_write = false;
  extra_writable_roots = [];
  deny_read_paths = [];
  deny_write_paths = [];
  include_temp = false;
  include_platform_defaults = false;
  full_disk_read = false;
}

-- The state for an external profile: full-disk read, no writes, no network.
unfoldable pub external_state : FilePath → ResolvedCommandState
unfolding read_only
external_state cwd = record {
  cwd = cwd;
  permissions = read_only true;
  deny_read_paths = [];
  deny_write_paths = [];
}

module _ (h : Host) where
  -- `for root in resolve_add_dirs(…) { if !contains { push } }`
  unfoldable pub extend_roots : List FilePath → List FilePath → List FilePath
  extend_roots roots [] = roots
  extend_roots roots (r ∷ rs) =
      extend_roots (if any (λ p. path_eq h p r) roots then roots else roots ++ r ∷ []) rs

  unfoldable pub grants_permissions :
      FilePath → List FilePath → Bool → Grants → ResolvedSandboxPermissions
  unfolding read_only workspace_write restricted
  grants_permissions cwd add_dirs block_network g =
      let workspace_roots = if g.workspace_write then cwd ∷ [] else [] in
      let writes = g.workspace_write || not (is_empty g.extra_writable_roots) || g.include_temp in
      let extra =
        if writes
        then extend_roots g.extra_writable_roots (resolve_add_dirs h add_dirs cwd)
        else g.extra_writable_roots in
      if g.full_disk_read
      then (if is_empty workspace_roots && is_empty extra && not g.include_temp
          then read_only block_network
          else workspace_write workspace_roots extra g.include_temp block_network)
      else restricted g.readable_roots workspace_roots extra g.include_temp block_network
          g.include_platform_defaults

  module _ (l : Libraries) where
    open l use {Value, Object, from_str, get, member, as_str, as_object, as_array}

    -- the branch for an external profile
    unfoldable pub external_profile : FilePath → Object → Result StateError ResolvedCommandState
    unfolding external_state
    external_profile cwd profile = do
      _ ← network_enabled (and_then (member profile (codes "network")) as_str)
      ok (external_state cwd)

    -- the branch for a managed profile
    unfoldable pub managed_profile :
        List FilePath
        → Bool
        → List FilePath
        → FilePath
        → Object
        → Result StateError ResolvedCommandState
    managed_profile readable disable_network add_dirs cwd profile = do
      file_system ←
          ok_or (and_then (member profile (codes "file_system")) as_object) missing_file_system
      kind ← ok_or (and_then (member file_system (codes "type")) as_str) missing_file_system_type
      _ ← check_file_system_type kind
      entries ← ok_or (and_then (member file_system (codes "entries")) as_array) missing_entries
      grants ← resolve_entries l h 0 cwd (no_grants readable) entries
      enabled ← network_enabled (and_then (member profile (codes "network")) as_str)
      ok (record {
        cwd = cwd;
        permissions = grants_permissions cwd add_dirs (disable_network || not enabled) grants;
        deny_read_paths = grants.deny_read_paths;
        deny_write_paths = grants.deny_write_paths;
      })

    unfoldable pub typed_profile :
        List FilePath
        → Bool
        → List FilePath
        → FilePath
        → Object
        → Text
        → Result StateError ResolvedCommandState
    typed_profile readable disable_network add_dirs cwd profile kind =
        if text_eq kind (codes "disabled")
        then err disabled_profile
        else if text_eq kind (codes "external")
        then external_profile cwd profile
        else if text_eq kind (codes "managed")
        then managed_profile readable disable_network add_dirs cwd profile
        else err (unsupported_profile_type kind)

    unfoldable pub resolve_sandbox_state :
        Text → List FilePath → Bool → List FilePath → Result StateError ResolvedCommandState
    resolve_sandbox_state raw readable disable_network add_dirs = do
      value ← ok_or (from_str raw) invalid_json
      cwd_raw ← ok_or (and_then (get value (codes "sandboxCwd")) as_str) missing_cwd
      cwd ← native_path l h cwd_raw
      profile ← ok_or (and_then (get value (codes "permissionProfile")) as_object) missing_profile
      kind ← ok_or (and_then (member profile (codes "type")) as_str) missing_profile_type
      typed_profile readable disable_network add_dirs cwd profile kind
