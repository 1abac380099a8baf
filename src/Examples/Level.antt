-- ===== src/Examples/Level.antt =====
-- The choice of the backend in src/bin/yj-sandbox-run/main.rs.
use yj_sandbox.Base.{◌≡◌, refl, List, [], ◌∷◌, none, some, if◌then◌else◌}
use yj_sandbox.Base.Outcome.{ok}
use yj_sandbox.Base.Text.{Text, codes, text_eq, split_once, trim, trim_matches}
use yj_sandbox.Base.Host.{Host, FilePath}
use yj_sandbox.Base.Unix.{unix_with_files, unix_join}
use yj_sandbox.Cli.{WindowsCommand}
use yj_sandbox.Cli.Level.{
  elevated, restricted_token, ConfigFile, not_found, sandbox_value, parse_sandbox_override,
  level_of, apply_overrides, config_sandbox_value, layered_value, resolve_windows_sandbox_level,
}

unfoldable host : Host
unfolding unix_with_files
host = unix_with_files []

levels : Unit {0}
unfolding text_eq split_once trim trim_matches unix_join parse_sandbox_override level_of
    apply_overrides config_sandbox_value layered_value resolve_windows_sandbox_level
levels = tt

-- The profile `ci` asks for the elevated backend, and there is no base file.
unfoldable config : FilePath → ConfigFile
config path =
    if text_eq path (codes "/home/ci.config.toml")
    then sandbox_value (codes "elevated")
    else not_found

abbrev command : List Text → WindowsCommand
command overrides = record {
  permissions_profile = none;
  config_profile = some (codes "ci");
  add_dir = [];
  config_overrides = overrides;
}

abbrev overrides : List Text
overrides = codes "windows.sandbox=gemini" ∷ codes "windows.sandbox = 'unelevated'" ∷ []

level_files_test :
    resolve_windows_sandbox_level host config (command []) (codes "/home") ≡ ok elevated
unfolding levels host config
level_files_test = refl

level_overrides_test :
    resolve_windows_sandbox_level host config (command overrides) (codes "/home")
    ≡ ok restricted_token
unfolding levels host config
level_overrides_test = refl
