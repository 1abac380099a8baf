-- ===== src/Cli/Level/Precedence.antt =====
-- Which of the configured values selects the backend.
use yj_sandbox.Base.{◌≡◌, refl, List, [], ◌∷◌, ◌++◌, Option, none, some, arith, All}
use yj_sandbox.Base.Outcome.{ok, ok_of_bind}
use yj_sandbox.Base.Text.{Text, codes}
use yj_sandbox.Base.Host.{Host, FilePath}
use yj_sandbox.Paths.{or_else, or_other}
use yj_sandbox.Cli.{WindowsCommand}
use yj_sandbox.Cli.Level.{
  WindowsSandboxLevel, ConfigFile, sandbox_value, parse_sandbox_override, level_of, apply_overrides,
  config_sandbox_value, layered_value, resolve_windows_sandbox_level,
}

-- The value that an override gives.
abbrev pub Overrides : Text → Text → Type 0
Overrides raw value = parse_sandbox_override raw ≡ ok (some value)

Overrides_of_ok :
    (raw : Text) (o : Option Text)
    → parse_sandbox_override raw ≡ ok o
    → (value : Text) × (o ≡ some value)
unfolding parse_sandbox_override
Overrides_of_ok raw (some value) e = (value, refl)
Overrides_of_ok raw none e = ground arith

last_override :
    (value : Option Text) (xs : List Text) (raw : Text) (v : Option Text)
    → apply_overrides value (xs ++ raw ∷ []) ≡ ok v
    → (last : Text) × Overrides raw last × (v ≡ some last)
unfolding apply_overrides
last_override value [] raw v e =
    let (o, parsed, rest) = ok_of_bind (parse_sandbox_override raw) _ e in
    let (last, is_last) = Overrides_of_ok raw o parsed in (last, ground arith, ground arith)
last_override value (x ∷ xs) raw v e =
    let (o, parsed, rest) = ok_of_bind (parse_sandbox_override x) _ e in
    last_override (or_other o value) xs raw v rest

each_parsed :
    (value : Option Text) (xs : List Text) (v : Option Text)
    → apply_overrides value xs ≡ ok v
    → All (λ raw. (o : Text) × Overrides raw o) xs
unfolding apply_overrides
each_parsed value [] v e = tt
each_parsed value (x ∷ xs) v e =
    let (o, parsed, rest) = ok_of_bind (parse_sandbox_override x) _ e in
    let (own, is_own) = Overrides_of_ok x o parsed in
    ((own, ground arith), each_parsed (or_other o value) xs v rest)

no_overrides :
    (value : Option Text) (xs : List Text) (v : Option Text)
    → xs ≡ []
    → apply_overrides value xs ≡ ok v
    → value ≡ v
unfolding apply_overrides
no_overrides value [] v same e = ground arith
no_overrides value (x ∷ xs) v same e = cc

-- The value that a file contributes, where it does not stop the run.
abbrev pub file_value : ConfigFile → Option Text
file_value (sandbox_value value) = some value
file_value _ = none

-- The value of the files: the profile's own, else that of the base file.
abbrev pub files_value : (FilePath → ConfigFile) → Host → Option Text → FilePath → Option Text
files_value config h none home = file_value (config (h.join home (codes "config.toml")))
files_value config h (some name) home =
    or_other (file_value (config (h.join home (name ++ codes ".config.toml"))))
      (file_value (config (h.join home (codes "config.toml"))))

module _ (h : Host) (config : FilePath → ConfigFile) where
  config_value :
      (path : FilePath) (v : Option Text)
      → config_sandbox_value h config path ≡ ok v
      → v ≡ file_value (config path)
  unfolding config_sandbox_value
  config_value path v e = ground arith

  layered_value_lem :
      (profile : Option Text) (home : FilePath) (v : Option Text)
      → layered_value h config profile home ≡ ok v
      → v ≡ files_value config h profile home
  unfolding layered_value
  layered_value_lem none home v e =
      let (base, is_base, rest) =
        ok_of_bind (config_sandbox_value h config (h.join home (codes "config.toml"))) _ e in
      ground (arith, config_value (h.join home (codes "config.toml")) base is_base)
  layered_value_lem (some name) home v e =
      let (base, is_base, rest) =
        ok_of_bind (config_sandbox_value h config (h.join home (codes "config.toml"))) _ e in
      let (own, is_own, last) =
        ok_of_bind (config_sandbox_value h config (h.join home (name ++ codes ".config.toml"))) _
          rest in
      ground (
        arith,
        config_value (h.join home (codes "config.toml")) base is_base,
        config_value (h.join home (name ++ codes ".config.toml")) own is_own,
      )

  -- If a level is chosen and there are overrides, the last of them gives its name, whatever the
  -- files and the other overrides say.
  level-last_override :
      (command : WindowsCommand) (home : FilePath) (xs : List Text) (raw : Text)
      (level : WindowsSandboxLevel)
      → command.config_overrides ≡ xs ++ raw ∷ []
      → resolve_windows_sandbox_level h config command home ≡ ok level
      → (last : Text) × Overrides raw last × (level_of last ≡ ok level)
  unfolding resolve_windows_sandbox_level
  level-last_override command home xs raw level same e =
      let (layered, _, rest) =
        ok_of_bind (layered_value h config command.config_profile home) _ e in
      let (value, given, named) =
        ok_of_bind (apply_overrides layered command.config_overrides) _ rest in
      let (last, is_last, chosen) = last_override layered xs raw value (rw (← same) given) in
      (last, is_last, ground arith)

  -- If a level is chosen and there are no overrides, the profile's file names it, else the base
  -- file, else it is `gemini`.
  level-files :
      (command : WindowsCommand) (home : FilePath) (level : WindowsSandboxLevel)
      → command.config_overrides ≡ []
      → resolve_windows_sandbox_level h config command home ≡ ok level
      → level_of (or_else (files_value config h command.config_profile home) (codes "gemini"))
        ≡ ok level
  unfolding resolve_windows_sandbox_level
  level-files command home level same e =
      let (layered, files, rest) =
        ok_of_bind (layered_value h config command.config_profile home) _ e in
      let (value, given, named) =
        ok_of_bind (apply_overrides layered command.config_overrides) _ rest in
      let unchanged = no_overrides layered command.config_overrides value same given in
      cc (layered_value_lem command.config_profile home layered files, unchanged, named)

  -- No level is chosen unless every override is well formed, those that a later one replaces too.
  level-each_parsed :
      (command : WindowsCommand) (home : FilePath) (level : WindowsSandboxLevel)
      → resolve_windows_sandbox_level h config command home ≡ ok level
      → All (λ raw. (o : Text) × Overrides raw o) command.config_overrides
  unfolding resolve_windows_sandbox_level
  level-each_parsed command home level e =
      let (layered, files, rest) =
        ok_of_bind (layered_value h config command.config_profile home) _ e in
      let (value, given, named) =
        ok_of_bind (apply_overrides layered command.config_overrides) _ rest in
      each_parsed layered command.config_overrides value given
