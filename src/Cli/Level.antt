-- ===== src/Cli/Level.antt =====
-- The backend that the configuration selects: src/bin/yj-sandbox-run/main.rs.
pub mod Precedence
use yj_sandbox.Base.{ℕ, Bool, ◌||◌, List, [], ◌∷◌, ◌++◌, Option, none, some, ◌==◌, if◌then◌else◌}
use yj_sandbox.Base.Outcome.{Result, ok, err, ◌>>=◌}
use yj_sandbox.Base.Text.{Text, codes, text_eq, split_once, trim, trim_matches}
use yj_sandbox.Base.Host.{Host, FilePath}
use yj_sandbox.Paths.{or_else, or_other}
use yj_sandbox.Cli.{WindowsCommand}

pub data WindowsSandboxLevel : Type 0 where
  restricted_token gemini elevated : WindowsSandboxLevel

pub data ConfigError : Type 0 where
  failed_to_read failed_to_parse value_not_a_string : FilePath → ConfigError
  not_key_value unsupported_override invalid_value : Text → ConfigError

-- What reading a file and toml_edit's parse of it give.
pub data ConfigFile : Type 0 where
  not_found unreadable unparsable without_value not_a_string : ConfigFile
  sandbox_value : Text → ConfigFile

unfoldable pub parse_sandbox_override : Text → Result ConfigError (Option Text)
parse_sandbox_override raw = elim (split_once b'=' raw) [
  | none ↦ err (not_key_value raw)
  | some (key, value) ↦
      if text_eq (trim key) (codes "windows.sandbox")
      then ok (some (trim_matches (λ c. c == 39 || c == 34) (trim value)))
      else err (unsupported_override (trim key))
]

-- the match at the end of `resolve_windows_sandbox_level`
unfoldable pub level_of : Text → Result ConfigError WindowsSandboxLevel
level_of value =
    if text_eq value (codes "unelevated")
    then ok restricted_token
    else if text_eq value (codes "gemini")
    then ok gemini
    else if text_eq value (codes "elevated")
    then ok elevated
    else err (invalid_value value)

-- the loop over the overrides
unfoldable pub apply_overrides : Option Text → List Text → Result ConfigError (Option Text)
apply_overrides value [] = ok value
apply_overrides value (raw ∷ rest) = do
  parsed ← parse_sandbox_override raw
  apply_overrides (or_other parsed value) rest

module _ (h : Host) (config : FilePath → ConfigFile) where
  unfoldable pub config_sandbox_value : FilePath → Result ConfigError (Option Text)
  config_sandbox_value path = elim (config path) [
    | not_found ↦ ok none
    | unreadable ↦ err (failed_to_read path)
    | unparsable ↦ err (failed_to_parse path)
    | without_value ↦ ok none
    | not_a_string ↦ err (value_not_a_string path)
    | sandbox_value value ↦ ok (some value)
  ]

  -- the value of the profile's file over that of the base file
  unfoldable pub layered_value : Option Text → FilePath → Result ConfigError (Option Text)
  layered_value profile home = do
    base ← config_sandbox_value (h.join home (codes "config.toml"))
    elim profile [
      | none ↦ ok base
      | some name ↦ do
        own ← config_sandbox_value (h.join home (name ++ codes ".config.toml"))
        ok (or_other own base)
    ]

  unfoldable pub resolve_windows_sandbox_level :
      WindowsCommand → FilePath → Result ConfigError WindowsSandboxLevel
  resolve_windows_sandbox_level command home = do
    layered ← layered_value command.config_profile home
    value ← apply_overrides layered command.config_overrides
    level_of (or_else value (codes "gemini"))
