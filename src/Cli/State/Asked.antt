-- ===== src/Cli/State/Asked.antt =====
-- What an entry of the JSON state of src/bin/yj-sandbox-run/main.rs asks for, in the words of its text.
use yj_sandbox.Base.{true, ◌≡◌, ◌⊎◌, List, [], ◌∷◌, Option, none, some}
use yj_sandbox.Base.Text.{Text, codes}
use yj_sandbox.Base.Host.{Host, FilePath}
use yj_sandbox.Cli.State.{
  Libraries, Rule, read_path, write_path, deny_path, read_everything, write_workspace, write_temp,
  read_platform_defaults, ignored,
}
use yj_sandbox.Cli.State.Entries.{and_then}

abbrev pub IsDenied : Text → Type 0
IsDenied access = (access ≡ codes "deny") ⊎ (access ≡ codes "none")

abbrev pub IsProject : Text → Type 0
IsProject kind = (kind ≡ codes "project_roots") ⊎ (kind ≡ codes "current_working_directory")

abbrev pub IsTemp : Text → Type 0
IsTemp kind = (kind ≡ codes "tmpdir") ⊎ (kind ≡ codes "slash_tmp")

module _ (l : Libraries) (h : Host) (cwd : FilePath) where
  open l use {Value, Object, get, member, as_str, as_object, url_scheme, url_file_path}

  abbrev pub HasAccess : Value → Text → Type 0
  HasAccess entry access = and_then (get entry (codes "access")) as_str ≡ some access

  -- an absolute path, or a URL of a file
  abbrev pub IsNative : Text → FilePath → Type 0
  IsNative raw path =
      ((h.is_absolute raw ≡ true) × (path ≡ raw))
      ⊎ ((url_scheme raw ≡ some (codes "file")) × (url_file_path raw ≡ some path))

  abbrev pub HasPath : Value → Text → Object → Type 0
  HasPath entry type path =
      (and_then (get entry (codes "path")) as_object ≡ some path)
      × (and_then (member path (codes "type")) as_str ≡ some type)

  abbrev pub NamesPath : Value → FilePath → Type 0
  NamesPath entry p =
      (path : Object) × (raw : Text) × HasPath entry (codes "path") path
      × (and_then (member path (codes "path")) as_str ≡ some raw)
      × IsNative raw p

  abbrev pub HasSubpath : Object → Option Text → Type 0
  HasSubpath value none = member value (codes "subpath") ≡ none
  HasSubpath value (some subpath) =
      (v : Value) × (member value (codes "subpath") ≡ some v) × (as_str v ≡ some subpath)

  abbrev pub NamesSpecial : Value → Text → Option Text → Type 0
  NamesSpecial entry kind subpath =
      (path value : Object) × HasPath entry (codes "special") path
      × (and_then (member path (codes "value")) as_object ≡ some value)
      × (and_then (member value (codes "kind")) as_str ≡ some kind)
      × HasSubpath value subpath

  -- the directory of the project, and a path below it
  abbrev pub NamesProject : Value → Type 0
  NamesProject entry = (kind : Text) × IsProject kind × NamesSpecial entry kind none

  abbrev pub NamesInProject : Value → FilePath → Type 0
  NamesInProject entry p =
      (kind subpath : Text) × IsProject kind
      × NamesSpecial entry kind (some subpath)
      × (p ≡ h.join cwd subpath)

  abbrev pub NamesAny : Value → FilePath → Type 0
  NamesAny entry p = NamesPath entry p ⊎ (NamesProject entry × (p ≡ cwd)) ⊎ NamesInProject entry p

  -- The entry asks for what the rule says.
  abbrev pub Asks : Value → Rule → Type 0
  Asks entry (read_path p) = HasAccess entry (codes "read") × NamesAny entry p
  Asks entry (write_path p) =
      HasAccess entry (codes "write") × (NamesPath entry p ⊎ NamesInProject entry p)
  Asks entry (deny_path p) =
      ((access : Text) × IsDenied access × HasAccess entry access) × NamesAny entry p
  Asks entry read_everything =
      HasAccess entry (codes "read")
      × ((subpath : Option Text) × NamesSpecial entry (codes "root") subpath)
  Asks entry write_workspace = HasAccess entry (codes "write") × NamesProject entry
  Asks entry write_temp =
      HasAccess entry (codes "write")
      × ((kind : Text) × (subpath : Option Text) × IsTemp kind × NamesSpecial entry kind subpath)
  Asks entry read_platform_defaults =
      HasAccess entry (codes "read")
      × ((subpath : Option Text) × NamesSpecial entry (codes "minimal") subpath)
  Asks entry ignored = (subpath : Option Text) × NamesSpecial entry (codes "unknown") subpath

  -- The rules are what the entries ask for, one by one.
  abbrev pub AllAsk : List Value → List Rule → Type 0
  AllAsk [] [] = Unit
  AllAsk (entry ∷ entries) (rule ∷ rules) = Asks entry rule × AllAsk entries rules
  AllAsk _ _ = ⊥
