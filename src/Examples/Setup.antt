-- ===== src/Examples/Setup.antt =====
-- The roots and the ports of the setup of src/setup.rs.
use Prim.Native.Nat.{ℕ}
use yj_sandbox.Base.{
  true, false, ◌≡◌, ◌≢◌, refl, ◌↔◌, ◌⊎◌, List, [], ◌∷◌, Option, none, some, Bool, Member, any,
  arith, ◌≤◌, ◌<◌, ◌*◌, suc, zero,
}
use yj_sandbox.Base.Text.{Text, codes}
use yj_sandbox.Base.Ordered.{IsIncreasing}
use yj_sandbox.Base.Sorting.{IsStrict}
use yj_sandbox.Base.Maps.{map_get}
use yj_sandbox.Base.Host.{Host, FilePath, path_eq}
use yj_sandbox.Base.Unix.{unix_with_files}
use yj_sandbox.Paths.{canonical_path_key, or_else}
use yj_sandbox.Permissions.{EnvMap, ResolvedSandboxPermissions, workspace_write}
use yj_sandbox.SshConfig.{Files}
use yj_sandbox.Setup.{SandboxSetupRequest, SetupRootOverrides}
use yj_sandbox.Setup.Roots.{DirEntry, Directories, expand_user_profile_root_for, profile_read_roots}
use yj_sandbox.Setup.Roots.Profile.{IsExpanded, expand_user_profile_root-IsExpanded}
use yj_sandbox.Setup.Roots.Children.{IsOpen, IsHarmless}
use yj_sandbox.Setup.Ports.{proxy_ports_from_env}
use yj_sandbox.Setup.Ports.Parsed.{IsPort}
use yj_sandbox.Setup.Ports.Listed.{IsConfigured, proxy_ports-IsConfigured}
use yj_sandbox.Setup.Payload.{
  wanted_write_roots, effective_write_roots_for_permissions, wanted_read_roots, build_payload_roots,
}
use yj_sandbox.Setup.Payload.Written.{IsAsked, write_roots-IsHarmless}
use yj_sandbox.Setup.Payload.Readable.{IsDenied, read_roots-IsOpen}

abbrev profile : FilePath
profile = codes "/u"

host : Host
unfolding unix_with_files
host =
    record (unix_with_files (
      codes "/u"
      ∷ codes "/u/.ssh"
      ∷ codes "/u/src"
      ∷ codes "/h"
      ∷ codes "/h/.sandbox"
      ∷ codes "/w"
      ∷ [])) { env_var = λ _. some profile }

abbrev files : Files
files = record { read_to_string = λ _. none; glob = λ _. none }

abbrev directories : Directories
directories = record {
  read_dir = λ _. some (
      record { file_name = codes "src"; path = codes "/u/src" }
      ∷ record { file_name = codes ".ssh"; path = codes "/u/.ssh" }
      ∷ []);
  parent = λ _. none;
}

abbrev permissions : ResolvedSandboxPermissions
unfolding workspace_write
permissions = workspace_write (codes "/w" ∷ codes "/u" ∷ []) [] false true

abbrev env : EnvMap
env =
    (codes "HTTP_PROXY", codes "http://user@localhost:8080/x")
    ∷ (codes "all_proxy", codes "socks5://[::1]:1080")
    ∷ (codes "CODEX_WINDOWS_SANDBOX_PROXY_PORTS", codes "9, 0,70000,443")
    ∷ []

abbrev roots : Option (List FilePath)
roots = some (codes "/u" ∷ codes "/h/.sandbox" ∷ codes "/w" ∷ codes "/gone" ∷ [])

abbrev request : SandboxSetupRequest
request = record {
  permissions = permissions;
  command_cwd = codes "/w";
  env_map = env;
  codex_home = codes "/h";
  proxy_enforced = false;
}

abbrev overrides : SetupRootOverrides
overrides = record {
  read_roots = roots;
  read_roots_include_platform_defaults = false;
  write_roots = some (codes "/w" ∷ []);
  deny_read_paths = some (codes "/h/.sandbox" ∷ []);
  deny_write_paths = none;
}

roots_run : Unit {0}
unfolding yj_sandbox.Base.Sorting.sort_insert yj_sandbox.Base.Host.path_eq
    yj_sandbox.Base.Host.path_starts_with yj_sandbox.Base.Ordered.text_ltb
    yj_sandbox.Base.Sorting.dedup_after yj_sandbox.Base.Sorting.sort_onto
    yj_sandbox.Base.Sorting.dedup_by_key yj_sandbox.Base.Sorting.sort_by_key
    yj_sandbox.Base.Text.contains_text yj_sandbox.Base.Text.is_whitespace yj_sandbox.Base.Text.lines
    yj_sandbox.Base.Text.lines_from yj_sandbox.Base.Text.split yj_sandbox.Base.Text.split_once
    yj_sandbox.Base.Text.starts_with yj_sandbox.Base.Text.strip_prefix yj_sandbox.Base.Text.text_eq
    yj_sandbox.Base.Text.texts_eq yj_sandbox.Base.Text.texts_start_with
    yj_sandbox.Base.Text.to_lower yj_sandbox.Base.Text.to_ascii_lowercase
    yj_sandbox.Base.Text.replace_char yj_sandbox.Base.Text.eq_ignore_ascii_case
    yj_sandbox.Base.Text.trim_end_while yj_sandbox.Base.Text.trim_start_while
    yj_sandbox.Base.Unix.unix_components yj_sandbox.Base.Unix.unix_join
    yj_sandbox.Base.Unix.unix_with_files yj_sandbox.Paths.canonicalize_path
    yj_sandbox.Paths.canonical_path_key yj_sandbox.Permissions.workspace_write
    yj_sandbox.Permissions.find_ignoring_case yj_sandbox.Permissions.protected_subpaths
    yj_sandbox.Permissions.push_extra_roots yj_sandbox.Permissions.push_root
    yj_sandbox.Permissions.push_temp_roots yj_sandbox.Permissions.push_workspace_roots
    yj_sandbox.Permissions.readable_roots_for_cwd yj_sandbox.Permissions.windows_temp_env_roots
    yj_sandbox.Permissions.writable_roots_for_cwd yj_sandbox.Setup.Payload.retains_read_root
    yj_sandbox.Setup.Payload.wanted_write_roots yj_sandbox.Setup.Payload.wanted_read_roots
    yj_sandbox.Setup.Payload.effective_write_roots_for_permissions
    yj_sandbox.Setup.Payload.build_payload_roots yj_sandbox.Setup.Roots.canonical_existing
    yj_sandbox.Setup.Roots.gather_helper_read_roots yj_sandbox.Setup.Roots.profile_read_roots
    yj_sandbox.Setup.Roots.with_profile_entries yj_sandbox.Setup.Roots.expand_user_profile_root_for
    yj_sandbox.Setup.Roots.expand_user_profile_root yj_sandbox.Setup.Roots.filter_user_profile_root
    yj_sandbox.Setup.Roots.filter_user_profile_root_exclusions
    yj_sandbox.Setup.Roots.filter_ssh_config_dependency_roots yj_sandbox.Setup.Roots.child_prefix
    yj_sandbox.Setup.Roots.distinct_roots yj_sandbox.Setup.Roots.filter_sensitive_write_roots
    yj_sandbox.Setup.Roots.gather_full_read_roots_for_permissions
    yj_sandbox.Setup.Roots.gather_read_roots
    yj_sandbox.Setup.Roots.gather_write_roots_for_permissions
    yj_sandbox.Setup.Roots.is_ssh_config_dependency_root
    yj_sandbox.Setup.Roots.is_user_profile_root_exclusion
    yj_sandbox.Setup.Roots.user_profile_child_name yj_sandbox.Setup.sandbox_bin_dir
    yj_sandbox.Setup.sandbox_dir yj_sandbox.Setup.sandbox_secrets_dir
    yj_sandbox.SshConfig.add_arguments yj_sandbox.SshConfig.directive
    yj_sandbox.SshConfig.escape_step yj_sandbox.SshConfig.include_arguments
    yj_sandbox.SshConfig.include_paths yj_sandbox.SshConfig.profile_path_arg
    yj_sandbox.SshConfig.ssh_config_dependency_paths yj_sandbox.SshConfig.visit_config
    yj_sandbox.SshConfig.visit_directive yj_sandbox.SshConfig.visit_directives
    yj_sandbox.SshConfig.visit_file yj_sandbox.SshConfig.visit_includes
    yj_sandbox.SshConfig.word_step yj_sandbox.SshConfig.words yj_sandbox.SshConfig.words_loop
roots_run = tt

ports_run : Unit {0}
unfolding yj_sandbox.Base.Maps.map_get yj_sandbox.Base.Text.text_eq yj_sandbox.Base.Text.split
    yj_sandbox.Setup.Ports.parse_u16 yj_sandbox.Base.Text.trim
    yj_sandbox.Setup.Ports.value_of_digits yj_sandbox.Base.Ordered.insert_port
    yj_sandbox.Setup.Ports.loopback_proxy_port_from_url yj_sandbox.Setup.Ports.after_first
    yj_sandbox.Base.Text.strip_prefix yj_sandbox.Setup.Ports.rsplit_once
    yj_sandbox.Setup.Ports.bracketed_port yj_sandbox.Base.Text.split_once
    yj_sandbox.Setup.Ports.named_port yj_sandbox.Base.Text.eq_ignore_ascii_case
    yj_sandbox.Setup.Ports.proxy_ports_from_env
ports_run = tt

ports_test : proxy_ports_from_env env ≡ 9 ∷ 443 ∷ 1080 ∷ 8080 ∷ []
unfolding ports_run
ports_test = refl

write_roots_test :
    effective_write_roots_for_permissions host files directories permissions
      (codes "/w")
      env
      (codes "/h")
      roots
    ≡ codes "/u/src" ∷ codes "/w" ∷ []
unfolding roots_run host permissions
write_roots_test = refl

roots_test :
    build_payload_roots host files directories request overrides
    ≡ (codes "/u/src" ∷ [], codes "/w" ∷ [])
unfolding roots_run host permissions
roots_test = refl

proxy_ports-IsConfigured_example :
    IsIncreasing (proxy_ports_from_env env)
    × ((q : ℕ) → Member q (proxy_ports_from_env env) → IsPort q)
    × ((q : ℕ) → Member q (proxy_ports_from_env env) ↔ IsConfigured env q)
proxy_ports-IsConfigured_example = proxy_ports-IsConfigured env

expand_user_profile_root-IsExpanded_example :
    IsStrict
      (canonical_path_key host)
      (expand_user_profile_root_for host directories (profile ∷ codes "/w" ∷ []) profile)
    × ((r : FilePath)
        → Member r
            (expand_user_profile_root_for host directories (profile ∷ codes "/w" ∷ []) profile)
        → IsExpanded host directories profile (profile ∷ codes "/w" ∷ []) r)
    × ((r : FilePath)
        → IsExpanded host directories profile (profile ∷ codes "/w" ∷ []) r
        → (s : FilePath) × Member s
            (expand_user_profile_root_for host directories (profile ∷ codes "/w" ∷ []) profile)
          × (canonical_path_key host r ≡ canonical_path_key host s))
expand_user_profile_root-IsExpanded_example =
    expand_user_profile_root-IsExpanded host directories profile (profile ∷ codes "/w" ∷ [])

write_roots-IsHarmless_example :
    ((r : FilePath)
      → Member r (
          effective_write_roots_for_permissions host files directories permissions
            (codes "/w")
            env
            (codes "/h")
            roots)
      → IsAsked host files directories
          (wanted_write_roots host files directories permissions (codes "/w") env roots)
          r
        × IsOpen host files (canonical_path_key host r)
        × IsHarmless host (codes "/h") (canonical_path_key host r))
    × ((r : FilePath)
        → IsAsked host files directories
            (wanted_write_roots host files directories permissions (codes "/w") env roots)
            r
        → IsOpen host files (canonical_path_key host r)
        → IsHarmless host (codes "/h") (canonical_path_key host r)
        → (s : FilePath) × Member s (
            effective_write_roots_for_permissions host files directories permissions
              (codes "/w")
              env
              (codes "/h")
              roots)
          × (canonical_path_key host r ≡ canonical_path_key host s))
write_roots-IsHarmless_example =
    write_roots-IsHarmless host files directories permissions (codes "/w") env (codes "/h") roots

read_roots-IsOpen_example :
    ((r : FilePath)
      → Member r (build_payload_roots host files directories request overrides).0
      → IsAsked host files directories
          (wanted_read_roots host files directories request overrides)
          r
        × IsOpen host files (canonical_path_key host r)
        × (any
              (λ w. path_eq host w r)
              (build_payload_roots host files directories request overrides).1
            ≡ false)
        × ¬ IsDenied host (or_else overrides.deny_read_paths []) r)
    × ((r : FilePath)
        → IsAsked host files directories
            (wanted_read_roots host files directories request overrides)
            r
        → IsOpen host files (canonical_path_key host r)
        → ¬ IsDenied host (or_else overrides.deny_read_paths []) r
        → (s : FilePath) × (canonical_path_key host r ≡ canonical_path_key host s)
          × (Member s (build_payload_roots host files directories request overrides).0
              ⊎ (any
                    (λ w. path_eq host w s)
                    (build_payload_roots host files directories request overrides).1
                  ≡ true)))
read_roots-IsOpen_example = read_roots-IsOpen host files directories request overrides
