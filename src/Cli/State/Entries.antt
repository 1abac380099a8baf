-- ===== src/Cli/State/Entries.antt =====
-- The entries of a restricted file system: the loop of `resolve_sandbox_state` in
-- src/bin/yj-sandbox-run/main.rs.
use yj_sandbox.Base.{ℕ, ◌+◌, List, [], ◌∷◌, Option, none, some, if◌then◌else◌}
use yj_sandbox.Base.Outcome.{Result, ok, err, ◌>>=◌, ok_or}
use yj_sandbox.Base.Text.{Text, codes, text_eq}
use yj_sandbox.Base.Host.{Host, FilePath}
use yj_sandbox.Cli.State.{
  Libraries, StateError, not_native, not_absolute, entry_missing_access, entry_missing_path,
  path_missing_path, special_missing_value, subpath_not_string, special_missing_kind,
  path_missing_type, unsupported_special, unsupported_path_type, glob_not_supported, unrestricted,
  Access, read, write, deny, Rule, read_path, write_path, deny_path, read_everything,
  write_workspace, write_temp, read_platform_defaults, ignored, Grants, access_of, on_path,
  apply_rule, is_project, is_temp,
}

abbrev pub and_then : {A B : Type 0} → Option A → (A → Option B) → Option B
and_then none f = none
and_then (some a) f = f a

-- the arms for a kind that no arm before names
abbrev pub other_kind : ℕ → Text → Result StateError Rule
other_kind index kind =
    if text_eq kind (codes "unknown") then ok ignored else err (unsupported_special index kind)

module _ (l : Libraries) (h : Host) where
  open l use {Value, Object, get, member, as_str, as_object, url_scheme, url_file_path}

  unfoldable pub native_path : Text → Result StateError FilePath
  native_path raw = if h.is_absolute raw then ok raw else elim (url_scheme raw) [
    | none ↦ err (not_absolute raw)
    | some scheme ↦
        if text_eq scheme (codes "file")
        then ok_or (url_file_path raw) (not_native raw)
        else err (not_native raw)
  ]

  -- `subpath.map_or_else(|| cwd.clone(), |subpath| cwd.join(subpath))`
  abbrev pub project_path : FilePath → Option Text → FilePath
  project_path cwd none = cwd
  project_path cwd (some subpath) = h.join cwd subpath

  unfoldable pub special_rule :
      ℕ → FilePath → Option Text → Access → Option Text → Result StateError Rule
  special_rule index cwd none access subpath = err (special_missing_kind index)
  special_rule index cwd (some kind) read subpath =
      if text_eq kind (codes "root")
      then ok read_everything
      else if is_project kind
      then ok (read_path (project_path cwd subpath))
      else if text_eq kind (codes "minimal")
      then ok read_platform_defaults
      else other_kind index kind
  special_rule index cwd (some kind) write subpath =
      if is_project kind
      then ok (elim subpath [ none ↦ write_workspace | some s ↦ write_path (h.join cwd s) ])
      else if is_temp kind
      then ok write_temp
      else if text_eq kind (codes "root")
      then err unrestricted
      else other_kind index kind
  special_rule index cwd (some kind) deny subpath =
      if is_project kind then ok (deny_path (project_path cwd subpath)) else other_kind index kind

  unfoldable pub special_subpath : ℕ → Option Value → Result StateError (Option Text)
  special_subpath index none = ok none
  special_subpath index (some value) = do
    subpath ← ok_or (as_str value) (subpath_not_string index)
    ok (some subpath)

  unfoldable pub special_entry : ℕ → FilePath → Access → Object → Result StateError Rule
  unfolding special_subpath
  special_entry index cwd access path = do
    value ← ok_or (and_then (member path (codes "value")) as_object) (special_missing_value index)
    subpath ← special_subpath index (member value (codes "subpath"))
    special_rule index cwd (and_then (member value (codes "kind")) as_str) access subpath

  unfoldable pub path_entry : ℕ → Access → Object → Result StateError Rule
  path_entry index access path = do
    raw ← ok_or (and_then (member path (codes "path")) as_str) (path_missing_path index)
    native ← native_path raw
    ok (on_path access native)

  unfoldable pub typed_entry : ℕ → FilePath → Access → Object → Text → Result StateError Rule
  typed_entry index cwd access path kind =
      if text_eq kind (codes "path")
      then path_entry index access path
      else if text_eq kind (codes "special")
      then special_entry index cwd access path
      else if text_eq kind (codes "glob_pattern")
      then err glob_not_supported
      else err (unsupported_path_type index kind)

  -- One entry's validation, and the arm that it reaches.
  unfoldable pub entry_rule : ℕ → FilePath → Value → Result StateError Rule
  entry_rule index cwd entry = do
    raw ← ok_or (and_then (get entry (codes "access")) as_str) (entry_missing_access index)
    access ← access_of index raw
    path ← ok_or (and_then (get entry (codes "path")) as_object) (entry_missing_path index)
    kind ← ok_or (and_then (member path (codes "type")) as_str) (path_missing_type index)
    typed_entry index cwd access path kind

  unfoldable pub resolve_entries : ℕ → FilePath → Grants → List Value → Result StateError Grants
  resolve_entries index cwd grants [] = ok grants
  resolve_entries index cwd grants (entry ∷ entries) = do
    rule ← entry_rule index cwd entry
    resolve_entries (index + 1) cwd (apply_rule rule grants) entries
