-- ===== src/Env.antt =====
-- The environment of a child: src/env.rs. The files in the directory of stubs are part of the state;
-- the variables of the process and the home directory come from the host.
pub mod Proxies
pub mod Stubs
pub mod Extensions
use yj_sandbox.Base.{
  Bool, true, false, ◌&&◌, ◌||◌, not, List, [], ◌∷◌, ◌++◌, Option, none, some, any, is_empty, keep,
  if◌then◌else◌,
}
use yj_sandbox.Base.Outcome.{Result, ok, err}
use yj_sandbox.Base.Text.{
  Text, codes, text_eq, contains_text, to_ascii_lowercase, to_ascii_uppercase, eq_ignore_ascii_case,
  trim, split, join_with,
}
use yj_sandbox.Base.Maps.{TextMap, map_get, map_insert, map_insert_missing}
use yj_sandbox.Base.Host.{Host, FilePath}
use yj_sandbox.Paths.{or_else, or_other}

abbrev pub EnvMap : Type 0
EnvMap = TextMap Text

-- What the literal `"\\\\\\\\dev\\\\\\\\null"` denotes: four backslashes twice.
abbrev pub doubled_null : Text
doubled_null = 92 ∷ 92 ∷ 92 ∷ 92 ∷ (codes "dev" ++ 92 ∷ 92 ∷ 92 ∷ 92 ∷ codes "null")

abbrev pub is_null_device : Text → Bool
is_null_device v =
    let t = to_ascii_lowercase (trim v) in text_eq t (codes "/dev/null") || text_eq t doubled_null

-- each entry on its own, since the values change and the keys do not
unfoldable pub normalize_null_device_env : EnvMap → EnvMap
normalize_null_device_env [] = []
normalize_null_device_env ((k, v) ∷ env) =
    (k, if is_null_device v then codes "NUL" else v) ∷ normalize_null_device_env env

unfoldable pub ensure_non_interactive_pager : EnvMap → EnvMap
ensure_non_interactive_pager env = map_insert_missing (codes "LESS") [] (
    map_insert_missing (codes "PAGER") (codes "more.com")
      (map_insert_missing (codes "GIT_PAGER") (codes "more.com") env))

-- The variables that `apply_no_network_to_env` sets unless they are set.
abbrev pub offline_defaults : EnvMap
offline_defaults =
    (codes "HTTP_PROXY", codes "http://127.0.0.1:9")
    ∷ (codes "HTTPS_PROXY", codes "http://127.0.0.1:9")
    ∷ (codes "ALL_PROXY", codes "http://127.0.0.1:9")
    ∷ (codes "NO_PROXY", codes "localhost,127.0.0.1,::1")
    ∷ (codes "PIP_NO_INDEX", codes "1")
    ∷ (codes "PIP_DISABLE_PIP_VERSION_CHECK", codes "1")
    ∷ (codes "NPM_CONFIG_OFFLINE", codes "true")
    ∷ (codes "CARGO_NET_OFFLINE", codes "true")
    ∷ (codes "GIT_HTTP_PROXY", codes "http://127.0.0.1:9")
    ∷ (codes "GIT_HTTPS_PROXY", codes "http://127.0.0.1:9")
    ∷ (codes "GIT_SSH_COMMAND", codes "cmd /c exit 1")
    ∷ (codes "GIT_ALLOW_PROTOCOLS", [])
    ∷ []

unfoldable pub insert_defaults : EnvMap → EnvMap → EnvMap
insert_defaults [] env = env
insert_defaults ((k, v) ∷ defaults) env = insert_defaults defaults (map_insert_missing k v env)

-- the lines of `apply_no_network_to_env` before the stubs
unfoldable pub set_offline : EnvMap → EnvMap
unfolding insert_defaults
set_offline env =
    insert_defaults offline_defaults (map_insert (codes "SBX_NONET_ACTIVE") (codes "1") env)

abbrev pub first_is : (Text → Bool) → List Text → Bool
first_is p [] = false
first_is p (w ∷ ws) = p w

-- The first extension that is the wanted one in capitals.
abbrev pub find_upper : Text → List Text → List Text
find_upper w [] = []
find_upper w (e ∷ exts) = if text_eq (to_ascii_uppercase e) w then e ∷ [] else find_upper w exts

abbrev pub is_stub : Text → Bool
is_stub e =
    text_eq (to_ascii_uppercase e) (codes ".BAT") || text_eq (to_ascii_uppercase e) (codes ".CMD")

unfoldable pub reorder_extensions : List Text → List Text
reorder_extensions exts =
    find_upper (codes ".BAT") exts
    ++ (find_upper (codes ".CMD") exts ++ keep (λ e. not (is_stub e)) exts)

pub data EnvError : Type 0 where
  no_home_dir : EnvError
  cannot_create : FilePath → EnvError

-- The directory of stubs.
pub record DenyBin : Type 0 where
  pub files : List FilePath
  pub is_writable : Bool

module _ (h : Host) where
  abbrev pub inherited : Text → EnvMap → EnvMap
  inherited name env = elim (map_get env name) [
    | some _ ↦ env
    | none ↦ elim (h.env_var name) [ none ↦ env | some value ↦ map_insert name value env ]
  ]

  unfoldable pub inherit_path_env : EnvMap → EnvMap
  inherit_path_env env = inherited (codes "PATHEXT") (inherited (codes "PATH") env)

  unfoldable pub prepend_path : Text → EnvMap → EnvMap
  prepend_path prefix env =
      let existing =
        or_else (or_other (map_get env (codes "PATH")) (h.env_var (codes "PATH"))) [] in
      if first_is (λ p. eq_ignore_ascii_case p prefix) (split b';' existing)
      then env
      else map_insert (codes "PATH")
          (if is_empty existing then prefix else prefix ++ codes ";" ++ existing) env

  unfoldable pub reorder_pathext_for_stubs : EnvMap → EnvMap
  unfolding reorder_extensions
  reorder_pathext_for_stubs env =
      let default =
        or_else (or_other (map_get env (codes "PATHEXT")) (h.env_var (codes "PATHEXT")))
          (codes ".COM;.EXE;.BAT;.CMD") in
      let exts = keep (λ e. not (is_empty e)) (split b';' default) in
      map_insert (codes "PATHEXT") (join_with (codes ";") (reorder_extensions exts)) env

  -- the inner loop's body
  unfoldable pub ensure_stub : FilePath → DenyBin → Result EnvError Unit × DenyBin
  ensure_stub path d =
      if contains_text d.files path
      then (ok tt, d)
      else if d.is_writable
      then (ok tt, record d { files = path ∷ d.files })
      else (err (cannot_create path), d)

  unfoldable pub ensure_stubs : List FilePath → DenyBin → Result EnvError Unit × DenyBin
  ensure_stubs [] d = (ok tt, d)
  ensure_stubs (path ∷ paths) d =
      let (result, e) = ensure_stub path d in
      elim result [ err why ↦ (err why, e) | ok _ ↦ ensure_stubs paths e ]

  -- `base.join(format!("{tool}{ext}"))` for the tools and the two extensions
  abbrev pub stub_paths : FilePath → List Text → List FilePath
  stub_paths base [] = []
  stub_paths base (tool ∷ tools) =
      h.join base (tool ++ codes ".bat")
      ∷ h.join base (tool ++ codes ".cmd")
      ∷ stub_paths base tools

  -- `ensure_denybin`, with the result of `home_dir`; a directory that cannot be created is one that
  -- cannot be written
  unfoldable pub ensure_denybin :
      List Text → Option FilePath → Option FilePath → DenyBin → Result EnvError FilePath × DenyBin
  unfolding ensure_stubs
  ensure_denybin tools denybin_dir home d =
      let base =
        or_other denybin_dir
          (elim home [ none ↦ none | some x ↦ some (h.join x (codes ".sbx-denybin")) ]) in
      elim base [
        | none ↦ (err no_home_dir, d)
        | some b ↦
            let (result, e) = ensure_stubs (stub_paths b tools) d in
            elim result [ err why ↦ (err why, e) | ok _ ↦ (ok b, e) ]
      ]

  abbrev pub remove_files : List FilePath → DenyBin → DenyBin
  remove_files paths d = record d { files = keep (λ f. not (contains_text paths f)) d.files }

  unfoldable pub apply_no_network_to_env :
      Option FilePath → EnvMap → DenyBin → Result EnvError Unit × EnvMap × DenyBin
  apply_no_network_to_env home env d =
      let offline = set_offline env in
      let (result, e) = ensure_denybin (codes "ssh" ∷ codes "scp" ∷ []) none home d in
      elim result [
        | err why ↦ (err why, offline, e)
        | ok base ↦ (
          ok tt,
          reorder_pathext_for_stubs (prepend_path base offline),
          remove_files (stub_paths base (codes "curl" ∷ codes "wget" ∷ [])) e,
        )
      ]
