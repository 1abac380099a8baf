-- ===== src/Setup/Payload.antt =====
-- What the setup asks its helper for: `ElevationPayload` and the functions that fill it, src/setup.rs.
pub mod Written
pub mod Readable
use yj_sandbox.Base.{
  ℕ, Bool, true, false, ◌&&◌, ◌||◌, not, List, [], ◌∷◌, ◌++◌, Option, none, some, any, keep,
  is_empty, map, if◌then◌else◌,
}
use yj_sandbox.Base.Text.{Text, codes}
use yj_sandbox.Base.Host.{Host, FilePath, path_eq, path_starts_with}
use yj_sandbox.Paths.{canonicalize_path, canonical_path_key, or_else}
use yj_sandbox.Permissions.{EnvMap, ResolvedSandboxPermissions}
use yj_sandbox.Allow.{compute_allow_paths_for_permissions}
use yj_sandbox.SshConfig.{Files}
use yj_sandbox.Setup.{
  setup_version, offline_username, online_username, windows_platform_default_read_roots,
  SandboxSetupRequest, SetupRootOverrides,
}
use yj_sandbox.Setup.Roots.{
  Directories, canonical_existing, gather_helper_read_roots, gather_write_roots_for_permissions,
  expand_user_profile_root, filter_user_profile_root, filter_user_profile_root_exclusions,
  filter_ssh_config_dependency_roots, filter_sensitive_write_roots, gather_read_roots,
}
use yj_sandbox.Setup.Ports.{OfflineProxySettings, offline_proxy_settings_for_request}

pub data SetupMode : Type 0 where
  full interactive_provision provision_only : SetupMode

pub record ElevationPayload : Type 0 where
  pub version : ℕ
  pub offline_username : Text
  pub online_username : Text
  pub codex_home : FilePath
  pub command_cwd : FilePath
  pub read_roots : List FilePath
  pub write_roots : List FilePath
  pub deny_read_paths : List FilePath
  pub deny_write_paths : List FilePath
  pub proxy_ports : List ℕ
  pub allow_local_binding : Bool
  pub real_user : Text
  pub mode : SetupMode
  pub refresh_only : Bool

module _ (h : Host) (f : Files) (d : Directories) where
  -- the roots to write before the profile is looked at
  unfoldable pub wanted_write_roots :
      ResolvedSandboxPermissions → FilePath → EnvMap → Option (List FilePath) → List FilePath
  wanted_write_roots permissions command_cwd env_map roots_override = elim roots_override [
    | none ↦ gather_write_roots_for_permissions h permissions command_cwd env_map
    | some roots ↦ canonical_existing h roots
  ]

  unfoldable pub effective_write_roots_for_permissions :
      ResolvedSandboxPermissions
      → FilePath
      → EnvMap
      → FilePath
      → Option (List FilePath)
      → List FilePath
  effective_write_roots_for_permissions permissions command_cwd env_map codex_home roots_override =
      filter_sensitive_write_roots h
        (filter_ssh_config_dependency_roots h f (
          filter_user_profile_root_exclusions h (
            filter_user_profile_root h (
              expand_user_profile_root h d
                (wanted_write_roots permissions command_cwd env_map roots_override)))))
        codex_home

  -- the roots to read before the profile is looked at
  unfoldable pub wanted_read_roots : SandboxSetupRequest → SetupRootOverrides → List FilePath
  wanted_read_roots request overrides = elim overrides.read_roots [
    | none ↦
        gather_read_roots h d request.command_cwd request.permissions request.env_map
          request.codex_home
    | some roots ↦ canonical_existing h (
        gather_helper_read_roots h request.codex_home
        ++ ((if overrides.read_roots_include_platform_defaults
              then windows_platform_default_read_roots
              else [])
            ++ roots))
  ]

  -- the closure of `read_roots.retain`
  unfoldable pub retains_read_root : List FilePath → List Text → FilePath → Bool
  retains_read_root write_roots deny_read_keys root =
      if any (λ w. path_eq h w root) write_roots
      then false
      else if is_empty deny_read_keys
      then true
      else not
          (any (λ denied. path_starts_with h (canonical_path_key h root) denied) deny_read_keys)

  unfoldable pub build_payload_roots :
      SandboxSetupRequest → SetupRootOverrides → List FilePath × List FilePath
  build_payload_roots request overrides =
      let write_roots =
        effective_write_roots_for_permissions request.permissions request.command_cwd
          request.env_map request.codex_home overrides.write_roots in
      let read_roots = filter_ssh_config_dependency_roots h f (
        filter_user_profile_root_exclusions h (
          filter_user_profile_root h
            (expand_user_profile_root h d (wanted_read_roots request overrides)))) in
      let deny_read_keys = map (canonical_path_key h) (or_else overrides.deny_read_paths []) in
      (keep (retains_read_root write_roots deny_read_keys) read_roots, write_roots)

  unfoldable pub build_payload_deny_write_paths :
      SandboxSetupRequest → Option (List FilePath) → List FilePath
  build_payload_deny_write_paths request explicit_deny_write_paths =
      map (canonicalize_path h) (or_else explicit_deny_write_paths [])
      ++ (compute_allow_paths_for_permissions h request.permissions request.command_cwd
          request.env_map).deny

  abbrev pub real_user : Text
  real_user = or_else (h.env_var (codes "USERNAME")) (codes "Administrators")

  -- the payload of `run_setup_refresh_inner`; what it is refused for, permissions that cannot be
  -- enforced, never holds
  unfoldable pub refresh_payload :
      SandboxSetupRequest → SetupRootOverrides → Option OfflineProxySettings → ElevationPayload
  unfolding build_payload_roots build_payload_deny_write_paths
  refresh_payload request overrides settings_override =
      let roots = build_payload_roots request overrides in
      let settings = offline_proxy_settings_for_request request settings_override in
      record {
        version = setup_version;
        offline_username = offline_username;
        online_username = online_username;
        codex_home = request.codex_home;
        command_cwd = request.command_cwd;
        read_roots = roots.0;
        write_roots = roots.1;
        deny_read_paths = or_else overrides.deny_read_paths [];
        deny_write_paths = build_payload_deny_write_paths request overrides.deny_write_paths;
        proxy_ports = settings.proxy_ports;
        allow_local_binding = settings.allow_local_binding;
        real_user = real_user;
        mode = full;
        refresh_only = true;
      }

-- A payload with no roots, which only makes the accounts and their files.
unfoldable pub provisioning_payload :
    FilePath → OfflineProxySettings → Text → SetupMode → ElevationPayload
provisioning_payload codex_home settings user mode = record {
  version = setup_version;
  offline_username = offline_username;
  online_username = online_username;
  codex_home = codex_home;
  command_cwd = codex_home;
  read_roots = [];
  write_roots = [];
  deny_read_paths = [];
  deny_write_paths = [];
  proxy_ports = settings.proxy_ports;
  allow_local_binding = settings.allow_local_binding;
  real_user = user;
  mode = mode;
  refresh_only = false;
}

unfoldable pub elevated_provisioning_payload :
    Host → SandboxSetupRequest → Option OfflineProxySettings → ElevationPayload
unfolding provisioning_payload
elevated_provisioning_payload h request settings_override =
    provisioning_payload request.codex_home
      (offline_proxy_settings_for_request request settings_override)
      (or_else (h.env_var (codes "USERNAME")) (codes "Administrators")) interactive_provision
