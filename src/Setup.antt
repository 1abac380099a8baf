-- ===== src/Setup.antt =====
-- The setup that gives the sandbox users their access: src/setup.rs. Here are its directories and
-- what a request says; the children have the roots, the proxy ports and the helper's runs.
pub mod Roots
pub mod Ports
pub mod Payload
pub mod Flights
pub mod Launch
pub mod Provision
use yj_sandbox.Base.{ℕ, Bool, List, [], ◌∷◌, Option, none, some}
use yj_sandbox.Base.Text.{Text, codes}
use yj_sandbox.Base.Host.{Host, FilePath}
use yj_sandbox.Permissions.{EnvMap, ResolvedSandboxPermissions}

abbrev pub setup_version : ℕ
setup_version = 5

abbrev pub offline_username : Text
offline_username = codes "CodexSandboxOffline"

abbrev pub online_username : Text
online_username = codes "CodexSandboxOnline"

abbrev pub userprofile_root_exclusions : List Text
userprofile_root_exclusions =
    codes ".ssh"
    ∷ codes ".tsh"
    ∷ codes ".brev"
    ∷ codes ".gnupg"
    ∷ codes ".aws"
    ∷ codes ".azure"
    ∷ codes ".kube"
    ∷ codes ".docker"
    ∷ codes ".config"
    ∷ codes ".npm"
    ∷ codes ".pki"
    ∷ codes ".terraform.d"
    ∷ []

abbrev pub windows_platform_default_read_roots : List FilePath
windows_platform_default_read_roots =
    codes "C:\\Windows"
    ∷ codes "C:\\Program Files"
    ∷ codes "C:\\Program Files (x86)"
    ∷ codes "C:\\ProgramData"
    ∷ []

module _ (h : Host) where
  unfoldable pub sandbox_dir : FilePath → FilePath
  sandbox_dir codex_home = h.join codex_home (codes ".sandbox")

  -- also `helper_bin_dir` of src/helper_materialization.rs
  unfoldable pub sandbox_bin_dir : FilePath → FilePath
  sandbox_bin_dir codex_home = h.join codex_home (codes ".sandbox-bin")

  unfoldable pub sandbox_secrets_dir : FilePath → FilePath
  sandbox_secrets_dir codex_home = h.join codex_home (codes ".sandbox-secrets")

  unfoldable pub setup_marker_path : FilePath → FilePath
  unfolding sandbox_dir
  setup_marker_path codex_home = h.join (sandbox_dir codex_home) (codes "setup_marker.json")

  unfoldable pub sandbox_users_path : FilePath → FilePath
  unfolding sandbox_secrets_dir
  sandbox_users_path codex_home =
      h.join (sandbox_secrets_dir codex_home) (codes "sandbox_users.json")

pub record SandboxSetupRequest : Type 0 where
  pub permissions : ResolvedSandboxPermissions
  pub command_cwd : FilePath
  pub env_map : EnvMap
  pub codex_home : FilePath
  pub proxy_enforced : Bool

pub record SetupRootOverrides : Type 0 where
  pub read_roots : Option (List FilePath)
  pub read_roots_include_platform_defaults : Bool
  pub write_roots : Option (List FilePath)
  pub deny_read_paths : Option (List FilePath)
  pub deny_write_paths : Option (List FilePath)
