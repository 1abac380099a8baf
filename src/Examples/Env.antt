-- ===== src/Examples/Env.antt =====
-- A child's environment: src/env.rs.
use yj_sandbox.Base.{true, ◌≡◌, refl, List, [], ◌∷◌, ◌++◌, some, if◌then◌else◌}
use yj_sandbox.Base.Text.{
  Text, codes, text_eq, eq_ignore_ascii_case, to_ascii_lowercase, to_ascii_uppercase, contains_text,
  split, join_with, trim, trim_matches, trim_start_while, trim_end_while, is_whitespace,
}
use yj_sandbox.Base.Maps.{map_get, map_insert, map_insert_missing}
use yj_sandbox.Base.Host.{Host}
use yj_sandbox.Base.Unix.{unix_with_files, unix_join}
use yj_sandbox.Paths.{or_other}
use yj_sandbox.Env.{
  EnvMap, normalize_null_device_env, offline_defaults, insert_defaults, set_offline,
  reorder_extensions, prepend_path, reorder_pathext_for_stubs, ensure_stub, ensure_stubs,
  ensure_denybin, apply_no_network_to_env,
}
use yj_sandbox.Env.Proxies.{set_offline-get}

setting : Unit {0}
unfolding text_eq eq_ignore_ascii_case to_ascii_lowercase to_ascii_uppercase contains_text split
    join_with trim trim_matches trim_start_while trim_end_while is_whitespace map_get map_insert
    map_insert_missing unix_with_files unix_join normalize_null_device_env insert_defaults
    set_offline reorder_extensions prepend_path reorder_pathext_for_stubs ensure_stub ensure_stubs
    ensure_denybin apply_no_network_to_env
setting = tt

unfoldable host : Host
unfolding unix_with_files
host = unix_with_files []

abbrev env : EnvMap
env = (codes "PATH", codes "/bin") ∷ (codes "PAGER", codes " /Dev/Null") ∷ []

normalize_test : map_get (normalize_null_device_env env) (codes "PAGER") ≡ some (codes "NUL")
unfolding setting
normalize_test = refl

-- A value with the path of the null device, `\\dev\null` behind two single backslashes, is left.
single_backslashes_test :
    normalize_null_device_env ((codes "X", 92 ∷ 92 ∷ (codes "dev" ++ 92 ∷ codes "null")) ∷ [])
    ≡ (codes "X", 92 ∷ 92 ∷ (codes "dev" ++ 92 ∷ codes "null")) ∷ []
unfolding setting
single_backslashes_test = refl

path_test :
    map_get
      (apply_no_network_to_env host
        (some (codes "/u"))
        env
        (record { files = []; is_writable = true })).1
      (codes "PATH")
    ≡ some (codes "/u/.sbx-denybin;/bin")
unfolding setting host
path_test = refl

set_offline-get_example : map_get (set_offline env) (codes "HTTP_PROXY") ≡ (
    if text_eq (codes "SBX_NONET_ACTIVE") (codes "HTTP_PROXY")
    then some (codes "1")
    else or_other
        (map_get env (codes "HTTP_PROXY"))
        (map_get offline_defaults (codes "HTTP_PROXY")))
set_offline-get_example = set_offline-get env (codes "HTTP_PROXY")

abbrev extensions : List Text
extensions = codes ".EXE" ∷ codes ".cmd" ∷ codes ".BAT" ∷ []

reorder_extensions_test :
    reorder_extensions extensions ≡ codes ".BAT" ∷ codes ".cmd" ∷ codes ".EXE" ∷ []
unfolding setting
reorder_extensions_test = refl
