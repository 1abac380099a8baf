-- ===== src/Cli.antt =====
-- The command line's choices: src/bin/yj-sandbox-run/main.rs. Messages are error values that carry
-- what the text interpolates; printing is left out.
pub mod State
pub mod Level
use yj_sandbox.Base.{
  ℕ, Bool, true, false, ◌&&◌, ◌||◌, not, List, [], ◌∷◌, ◌++◌, Option, none, some, all, any,
  is_empty, ◌==◌, if◌then◌else◌,
}
use yj_sandbox.Base.Outcome.{Result, ok, err}
use yj_sandbox.Base.Text.{Text, codes, text_eq, is_ascii_alphanumeric}
use yj_sandbox.Base.Host.{Host, FilePath, path_eq}
use yj_sandbox.Paths.{or_else}
use yj_sandbox.Permissions.{ResolvedSandboxPermissions, read_only, workspace_write}

pub data CliError : Type 0 where
  no_current_dir missing_codex_home codex_home_missing codex_home_not_a_directory : CliError
  invalid_profile_name unsupported_profile : Text → CliError
  full_access_is_no_sandbox : CliError

-- What `WindowsCommand` holds once clap has read the arguments.
pub record WindowsCommand : Type 0 where
  pub permissions_profile : Option Text
  pub config_profile : Option Text
  pub add_dir : List FilePath
  pub config_overrides : List Text

unfoldable pub profile_name : Text → Result CliError Text
unfolding is_ascii_alphanumeric
profile_name raw =
    if not (is_empty raw) && all (λ b. is_ascii_alphanumeric b || b == b'_' || b == b'-') raw
    then ok raw
    else err (invalid_profile_name raw)

module _ (h : Host) where
  -- `absolute_path`, the parser of the path options
  unfoldable pub absolute_path : Text → Result CliError FilePath
  absolute_path raw =
      if h.is_absolute raw
      then ok raw
      else elim h.current_dir [ none ↦ err no_current_dir | some dir ↦ ok (h.join dir raw) ]

  unfoldable pub push_add_dirs : FilePath → List FilePath → List FilePath → List FilePath
  push_add_dirs cwd resolved [] = resolved
  push_add_dirs cwd resolved (path ∷ paths) =
      let absolute = if h.is_absolute path then path else h.join cwd path in
      let found = or_else (h.canonicalize absolute) absolute in
      push_add_dirs cwd
        (if any (λ p. path_eq h p found) resolved then resolved else resolved ++ found ∷ []) paths

  unfoldable pub resolve_add_dirs : List FilePath → FilePath → List FilePath
  unfolding push_add_dirs
  resolve_add_dirs add_dirs cwd = push_add_dirs cwd [] add_dirs

  unfoldable pub resolve_permissions :
      WindowsCommand → FilePath → Result CliError ResolvedSandboxPermissions
  resolve_permissions command cwd =
      let profile = or_else command.permissions_profile (codes ":workspace") in
      let block_network = true in
      if text_eq profile (codes ":read-only")
      then ok (read_only block_network)
      else if text_eq profile (codes ":workspace")
      then ok (workspace_write (cwd ∷ []) (resolve_add_dirs command.add_dir cwd) true block_network)
      else if text_eq profile (codes ":danger-full-access")
      then err full_access_is_no_sandbox
      else err (unsupported_profile profile)
