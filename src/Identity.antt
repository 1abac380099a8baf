-- ===== src/Identity.antt =====
-- The account that a command runs under, and when the setup has to run again before: src/identity.rs.
pub mod Chosen
pub mod Complete
pub mod Logon
pub mod Preserved
use yj_sandbox.Base.{
  ℕ, ◌/◌, ◌%◌, Bool, true, false, ◌&&◌, ◌||◌, not, List, [], ◌∷◌, Option, none, some, any, ◌==◌,
  if◌then◌else◌,
}
use yj_sandbox.Base.Outcome.{Result, ok, err, ok_or}
use yj_sandbox.Base.Text.{Text}
use yj_sandbox.Base.Host.{Host, FilePath}
use yj_sandbox.Paths.{or_else}
use yj_sandbox.Permissions.{EnvMap, ResolvedSandboxPermissions}
use yj_sandbox.SshConfig.{Files}
use yj_sandbox.Setup.{
  SandboxSetupRequest, SetupRootOverrides, offline_username, online_username, sandbox_users_path,
}
use yj_sandbox.Setup.Roots.{Directories, gather_read_roots, gather_write_roots_for_permissions}
use yj_sandbox.Setup.Ports.{
  OfflineProxySettings, SandboxNetworkIdentity, offline, online, uses_offline_identity,
  from_permissions, offline_proxy_settings_from_env,
}
use yj_sandbox.Setup.Launch.{
  Launcher, LaunchError, SetupMarker, SandboxUserRecord, SandboxUsersFile, marker_matches,
  users_match, load_marker, load_users, run_elevated_setup_inner, run_setup_refresh_inner,
}

abbrev pub Bytes : Type 0
Bytes = List ℕ

pub data Removal : Type 0 where
  removed not_found not_removed : Removal

-- What this file calls besides the setup.
pub record Accounts (l : Launcher) : Type 1 where
  -- the flags of a local user, if there is one; `err` if they cannot be had
  pub local_user_flags : l.World → Text → Result (Unit {0}) (Option ℕ)
  pub base64_decode : Text → Option Bytes
  pub unprotect : Bytes → Option Bytes
  pub from_utf8 : Bytes → Option Text
  pub remove_file : FilePath → l.World → Removal × l.World

pub data ProxySettingsMode : Type 0 where
  reconcile preserve : ProxySettingsMode

-- `SandboxIdentity`, and `SandboxCreds`, which it becomes
pub record SandboxCreds : Type 0 where
  pub username : Text
  pub password : Text

pub data IdentityError : Type 0 where
  setup_failed : LaunchError → IdentityError
  bad_password cannot_remove out_of_date : IdentityError

-- `a == b` of two lists of ports
abbrev pub ports_eq : List ℕ → List ℕ → Bool
ports_eq [] [] = true
ports_eq [] (q ∷ qs) = false
ports_eq (p ∷ ps) [] = false
ports_eq (p ∷ ps) (q ∷ qs) = p == q && ports_eq ps qs

abbrev pub bool_eq : Bool → Bool → Bool
bool_eq true b = b
bool_eq false b = not b

-- `request_mismatch_reason(…).is_some()`
unfoldable pub request_mismatches :
    SetupMarker → SandboxNetworkIdentity → OfflineProxySettings → Bool
request_mismatches marker network_identity settings =
    if not (uses_offline_identity network_identity)
    then false
    else if bool_eq marker.allow_local_binding settings.allow_local_binding
        && (marker.allow_local_binding || ports_eq marker.proxy_ports settings.proxy_ports)
    then false
    else true

unfoldable pub desired_offline_proxy_settings :
    Option SetupMarker → ProxySettingsMode → EnvMap → SandboxNetworkIdentity → OfflineProxySettings
desired_offline_proxy_settings (some marker) preserve env_map network_identity =
    if marker_matches marker
    then record {
      proxy_ports = marker.proxy_ports;
      allow_local_binding = marker.allow_local_binding;
    }
    else offline_proxy_settings_from_env env_map network_identity
desired_offline_proxy_settings (some marker) reconcile env_map network_identity =
    offline_proxy_settings_from_env env_map network_identity
desired_offline_proxy_settings none mode env_map network_identity =
    offline_proxy_settings_from_env env_map network_identity

abbrev pub chosen_record : SandboxNetworkIdentity → SandboxUsersFile → SandboxUserRecord
chosen_record offline users = users.offline
chosen_record online users = users.online

-- The arguments of `require_logon_sandbox_creds`.
pub record LogonRequest : Type 0 where
  pub permissions : ResolvedSandboxPermissions
  pub command_cwd : FilePath
  pub env_map : EnvMap
  pub codex_home : FilePath
  pub read_roots_override : Option (List FilePath)
  pub read_roots_include_platform_defaults : Bool
  pub write_roots_override : Option (List FilePath)
  pub deny_read_paths_override : List FilePath
  pub deny_write_paths_override : List FilePath
  pub proxy_enforced : Bool
  pub proxy_settings_mode : ProxySettingsMode

abbrev pub setup_request : LogonRequest → SandboxSetupRequest
setup_request r = record {
  permissions = r.permissions;
  command_cwd = r.command_cwd;
  env_map = r.env_map;
  codex_home = r.codex_home;
  proxy_enforced = r.proxy_enforced;
}

abbrev pub network_identity_of : LogonRequest → SandboxNetworkIdentity
network_identity_of r = from_permissions r.permissions r.proxy_enforced

module _ (l : Launcher) (a : Accounts l) where
  unfoldable pub decode_password : SandboxUserRecord → Result IdentityError Text
  decode_password user = elim (a.base64_decode user.password) [
    | none ↦ err bad_password
    | some blob ↦ elim (a.unprotect blob) [
      | none ↦ err bad_password
      | some decrypted ↦ ok_or (a.from_utf8 decrypted) bad_password
    ]
  ]

  abbrev pub with_password :
      SandboxUserRecord → Result IdentityError Text → Result IdentityError (Option SandboxCreds)
  with_password user (err why) = err why
  with_password user (ok password) =
      ok (some (record { username = user.username; password = password }))

  -- whether an account has to be made again: it is missing, or disabled (`UF_ACCOUNTDISABLE` is 2)
  abbrev pub needs_repair : Result (Unit {0}) (Option ℕ) → Bool
  needs_repair (err why) = false
  needs_repair (ok none) = true
  needs_repair (ok (some flags)) = not ((flags / 2) % 2 == 0)

  unfoldable pub accounts_need_repair : l.World → Bool
  accounts_need_repair w =
      any (λ username. needs_repair (a.local_user_flags w username))
        (offline_username ∷ online_username ∷ [])

  module _ (h : Host) where
    unfoldable pub select_identity :
        SandboxNetworkIdentity → FilePath → l.World → Result IdentityError (Option SandboxCreds)
    unfolding decode_password
    select_identity network_identity codex_home w = elim (load_marker h l w codex_home) [
      | none ↦ ok none
      | some marker ↦
          if marker_matches marker
          then (elim (load_users h l w codex_home) [
            | none ↦ ok none
            | some users ↦
                if users_match users
                then with_password (chosen_record network_identity users)
                    (decode_password (chosen_record network_identity users))
                else ok none
          ])
          else ok none
    ]

    unfoldable pub desired_settings : LogonRequest → l.World → OfflineProxySettings
    desired_settings r w =
        desired_offline_proxy_settings (load_marker h l w r.codex_home) r.proxy_settings_mode
          r.env_map (network_identity_of r)

    -- the identity before a setup: the two `match`es and the look at the accounts
    unfoldable pub ready_identity :
        LogonRequest → l.World → Result IdentityError (Option SandboxCreds)
    ready_identity r w = elim (load_marker h l w r.codex_home) [
      | none ↦ ok none
      | some marker ↦
          if marker_matches marker
            && not (request_mismatches marker (network_identity_of r) (desired_settings r w))
          then (elim (select_identity (network_identity_of r) r.codex_home w) [
            | err why ↦ err why
            | ok none ↦ ok none
            | ok (some identity) ↦ if accounts_need_repair w then ok none else ok (some identity)
          ])
          else ok none
    ]

    abbrev pub after_setup :
        LogonRequest
        → Result LaunchError (Unit {0}) × l.World
        → Result IdentityError (Option SandboxCreds) × l.World
    after_setup r (err why, w) = (err (setup_failed why), w)
    after_setup r (ok done, w) = (select_identity (network_identity_of r) r.codex_home w, w)

    unfoldable pub identity_for :
        LogonRequest → l.World → Result IdentityError (Option SandboxCreds) × l.World
    identity_for r w = elim (ready_identity r w) [
      | err why ↦ (err why, w)
      | ok (some identity) ↦ (ok (some identity), w)
      | ok none ↦
          after_setup r
            (run_elevated_setup_inner h l (setup_request r) (some (desired_settings r w)) w)
    ]

    abbrev pub creds_of :
        Option SandboxCreds
        → Result LaunchError (Unit {0}) × l.World
        → Result IdentityError SandboxCreds × l.World
    creds_of identity (err why, w) = (err (setup_failed why), w)
    creds_of identity (ok done, w) = (ok_or identity out_of_date, w)

    module _ (f : Files) (d : Directories) where
      unfoldable pub root_overrides : LogonRequest → SetupRootOverrides
      root_overrides r = record {
        read_roots = some (
            or_else r.read_roots_override
              (gather_read_roots h d r.command_cwd r.permissions r.env_map r.codex_home));
        read_roots_include_platform_defaults = r.read_roots_include_platform_defaults;
        write_roots = some (
            or_else r.write_roots_override
              (gather_write_roots_for_permissions h r.permissions r.command_cwd r.env_map));
        deny_read_paths = some r.deny_read_paths_override;
        deny_write_paths = some r.deny_write_paths_override;
      }

      abbrev pub refreshed :
          LogonRequest
          → OfflineProxySettings
          → Result IdentityError (Option SandboxCreds) × l.World
          → Result IdentityError SandboxCreds × l.World
      refreshed r settings (err why, w) = (err why, w)
      refreshed r settings (ok identity, w) =
          creds_of identity
            (run_setup_refresh_inner h l f d (setup_request r) (root_overrides r) (some settings) w)

      unfoldable pub require_logon_sandbox_creds :
          LogonRequest → l.World → Result IdentityError SandboxCreds × l.World
      require_logon_sandbox_creds r w = refreshed r (desired_settings r w) (identity_for r w)

      unfoldable pub refresh_logon_sandbox_creds :
          LogonRequest → l.World → Result IdentityError SandboxCreds × l.World
      refresh_logon_sandbox_creds r w =
          let (removal, v) = a.remove_file (sandbox_users_path h r.codex_home) w in
          elim removal [
            | not_removed ↦ (err cannot_remove, v)
            | removed ↦ require_logon_sandbox_creds r v
            | not_found ↦ require_logon_sandbox_creds r v
          ]
