-- ===== src/Examples/Cli.antt =====
-- The choices of src/bin/yj-sandbox-run/main.rs, over a small JSON value and a small file system.
use yj_sandbox.Base.{
  true, false, ◌≡◌, ◌≢◌, refl, List, [], ◌∷◌, Option, none, some, if◌then◌else◌, arith,
}
use yj_sandbox.Base.Outcome.{ok}
use yj_sandbox.Base.Text.{Text, codes, text_eq, split, texts_eq, texts_start_with, contains_text}
use yj_sandbox.Base.Host.{Host, path_eq, path_starts_with}
use yj_sandbox.Base.Unix.{unix_with_files, unix_join, unix_components}
use yj_sandbox.Permissions.{
  restricted, workspace_write, read_only, writable_roots_for_cwd, push_workspace_roots,
  push_extra_roots, push_temp_roots, push_root, protected_subpaths, windows_temp_env_roots,
}
use yj_sandbox.Paths.{canonicalize_path}
use yj_sandbox.Cli.{resolve_add_dirs, push_add_dirs}
use yj_sandbox.Cli.State.{Libraries, ResolvedCommandState, access_of, apply_rule}
use yj_sandbox.Cli.State.Entries.{
  native_path, special_rule, special_entry, path_entry, typed_entry, entry_rule, resolve_entries,
}
use yj_sandbox.Cli.State.Resolve.{
  network_enabled, check_file_system_type, external_state, extend_roots, grants_permissions,
  external_profile, managed_profile, typed_profile, resolve_sandbox_state,
}
use yj_sandbox.Cli.State.Exact.{FromJson, resolve_sandbox_state-FromJson}
use yj_sandbox.Cli.State.Writes.{IsWriting, writes_need_rule}

mutual
  data Json : Type 0 where
    string : Text → Json
    object : Fields → Json
    array : Items → Json

  data Fields : Type 0 where
    no_fields : Fields
    field : Text → Json → Fields → Fields

  data Items : Type 0 where
    no_items : Items
    item : Json → Items → Items

abbrev lookup_field : Fields → Text → Option Json
lookup_field no_fields key = none
lookup_field (field k v fs) key = if text_eq k key then some v else lookup_field fs key

abbrev get_member : Json → Text → Option Json
get_member (object fs) key = lookup_field fs key
get_member _ key = none

abbrev string_of : Json → Option Text
string_of (string t) = some t
string_of _ = none

abbrev fields_of : Json → Option Fields
fields_of (object fs) = some fs
fields_of _ = none

abbrev items : Items → List Json
items no_items = []
items (item x xs) = x ∷ items xs

abbrev items_of : Json → Option (List Json)
items_of (array xs) = some (items xs)
items_of _ = none

abbrev entry : Text → Fields → Json
entry access path =
    object (field (codes "access") (string access) (field (codes "path") (object path) no_fields))

abbrev at_path : Text → Fields
at_path path =
    field (codes "type") (string (codes "path")) (field (codes "path") (string path) no_fields)

abbrev profile : Fields
profile = field (codes "type") (string (codes "managed")) (
    field (codes "network") (string (codes "restricted")) (
      field (codes "file_system")
        (object (
          field (codes "type") (string (codes "restricted")) (
            field (codes "entries")
              (array (
                item (entry (codes "write") (at_path (codes "/data")))
                  (item (entry (codes "deny") (at_path (codes "/data/key"))) no_items)))
              no_fields)))
        no_fields))

abbrev document : Json
document = object (
    field (codes "sandboxCwd") (string (codes "/work"))
      (field (codes "permissionProfile") (object profile) no_fields))

-- One text is understood, whatever it is.
abbrev libraries : Libraries
libraries = record {
  Value = Json;
  Object = Fields;
  from_str = λ _. some document;
  get = get_member;
  member = lookup_field;
  as_str = string_of;
  as_object = fields_of;
  as_array = items_of;
  url_scheme = λ _. none;
  url_file_path = λ _. none;
}

unfoldable host : Host
unfolding unix_with_files
host = unix_with_files (codes "/data" ∷ codes "/work" ∷ [])

resolving : Unit {0}
unfolding text_eq texts_eq texts_start_with contains_text unix_join unix_components split path_eq
    path_starts_with canonicalize_path native_path special_rule special_entry path_entry typed_entry
    entry_rule access_of apply_rule resolve_entries network_enabled check_file_system_type
    external_state extend_roots grants_permissions external_profile managed_profile typed_profile
    resolve_sandbox_state push_add_dirs resolve_add_dirs restricted workspace_write read_only
    writable_roots_for_cwd push_workspace_roots push_extra_roots push_temp_roots push_root
    protected_subpaths windows_temp_env_roots
resolving = tt

abbrev state : ResolvedCommandState
unfolding resolving host
state = record {
  cwd = codes "/work";
  permissions = restricted [] [] (codes "/data" ∷ codes "/work/more" ∷ []) false true false;
  deny_read_paths = codes "/data/key" ∷ [];
  deny_write_paths = codes "/data/key" ∷ [];
}

resolve_sandbox_state_test :
    resolve_sandbox_state host libraries (codes "{}") [] false (codes "more" ∷ []) ≡ ok state
unfolding resolving host
resolve_sandbox_state_test = refl

resolve_sandbox_state-FromJson_example :
    FromJson host libraries (codes "{}") [] false (codes "more" ∷ []) state
resolve_sandbox_state-FromJson_example =
    resolve_sandbox_state-FromJson host libraries (codes "{}") [] false (codes "more" ∷ []) state
      resolve_sandbox_state_test

state_writes : writable_roots_for_cwd host state.permissions (codes "/work") [] ≢ []
unfolding resolving host
state_writes e = ground arith

writes_need_rule_example : IsWriting host libraries [] false (codes "more" ∷ []) state (codes "{}")
writes_need_rule_example =
    writes_need_rule host libraries [] false (codes "more" ∷ []) state (codes "{}") (codes "/work")
      [] resolve_sandbox_state_test state_writes
