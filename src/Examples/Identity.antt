-- ===== src/Examples/Identity.antt =====
-- The accounts of src/identity.rs, over a setup that is there and one that is made.
use yj_sandbox.Base.{
  Bool, true, false, ◌≡◌, ◌≢◌, ◌↔◌, refl, [], ◌∷◌, Option, none, some, if◌then◌else◌,
}
use yj_sandbox.Base.Outcome.{ok, err}
use yj_sandbox.Base.Text.{codes}
use yj_sandbox.Base.Host.{Host, FilePath}
use yj_sandbox.Base.Unix.{unix_with_files}
use yj_sandbox.Permissions.{workspace_write}
use yj_sandbox.SshConfig.{Files}
use yj_sandbox.Setup.{offline_username, online_username, sandbox_dir}
use yj_sandbox.Setup.Roots.{Directories}
use yj_sandbox.Setup.Ports.{offline, OfflineProxySettings}
use yj_sandbox.Setup.Provision.{run_elevated_provisioning_setup, provisioning-IsComplete}
use yj_sandbox.Identity.Complete.{
  sandbox_setup_is_complete_with_settings, HasSamePorts, complete_with_settings_iff,
}
use yj_sandbox.SetupError.{SetupFailure, orchestrator_helper_incomplete}
use yj_sandbox.Setup.Launch.{
  Launcher, LaunchError, SetupMarker, SandboxUsersFile, HelperRun, exited, reported, load_marker,
  load_users, sandbox_setup_is_complete, run_setup_exe_payload,
}
use yj_sandbox.Setup.Launch.Outcomes.{IsLauncher, IsFailure, run_setup_exe_payload-IsTold}
use yj_sandbox.Identity.{
  Accounts, not_found, preserve, reconcile, SandboxCreds, IdentityError, out_of_date, LogonRequest,
  request_mismatches, desired_offline_proxy_settings, require_logon_sandbox_creds,
}
use yj_sandbox.Identity.Logon.{IsCurrent, require_logon-IsCurrent, require_logon-ne-out_of_date}

abbrev host : Host
unfolding unix_with_files
host = unix_with_files []

abbrev marker : SetupMarker
marker = record {
  version = 5;
  offline_username = offline_username;
  online_username = online_username;
  created_at = none;
  proxy_ports = 8080 ∷ [];
  allow_local_binding = false;
}

abbrev users : SandboxUsersFile
users = record {
  version = 5;
  offline = record { username = offline_username; password = codes "p" };
  online = record { username = online_username; password = codes "q" };
}

-- The world is whether the setup was made; the helper makes it.
abbrev launcher : Launcher
launcher = record {
  World = Bool;
  read_to_string = λ made path. if made then some path else none;
  marker_from_str = λ _. some marker;
  users_from_str = λ _. some users;
  encode = λ _. some (codes "payload");
  create_dir_all = λ _ w. (true, w);
  is_elevated = λ _. some false;
  clear_report = λ _ w. (true, w);
  read_report = λ _ _. ok none;
  run_helper = λ _ w. (exited (some 0), w);
  run_elevated = λ _ _. (exited (some 0), true);
}

laws : IsLauncher host launcher
laws = record { keeps_marker = λ home w. refl; keeps_users = λ home w. refl }

abbrev accounts : Accounts launcher
accounts = record {
  local_user_flags = λ _ _. ok (some 1);
  base64_decode = λ t. some t;
  unprotect = λ t. some t;
  from_utf8 = λ t. some t;
  remove_file = λ _ w. (not_found, w);
}

abbrev files : Files
files = record { read_to_string = λ _. none; glob = λ _. none }

abbrev directories : Directories
directories = record { read_dir = λ _. none; parent = λ _. none }

abbrev request : LogonRequest
unfolding workspace_write
request = record {
  permissions = workspace_write [] [] false true;
  command_cwd = codes "/w";
  env_map = [];
  codex_home = codes "/h";
  read_roots_override = none;
  read_roots_include_platform_defaults = true;
  write_roots_override = none;
  deny_read_paths_override = [];
  deny_write_paths_override = [];
  proxy_enforced = false;
  proxy_settings_mode = preserve;
}

abbrev creds : SandboxCreds
creds = record { username = offline_username; password = codes "p" }

from_scratch :
    (require_logon_sandbox_creds launcher accounts host files directories request false).0
    ≡ ok creds
unfolding require_logon_sandbox_creds yj_sandbox.Identity.identity_for
    yj_sandbox.Identity.ready_identity yj_sandbox.Setup.Launch.load_marker
    yj_sandbox.Setup.Launch.run_elevated_setup_inner yj_sandbox.Setup.Launch.end_setup
    yj_sandbox.Setup.Launch.sandbox_setup_is_complete yj_sandbox.Setup.Launch.load_users
    yj_sandbox.Identity.select_identity yj_sandbox.Setup.Launch.run_setup_refresh_inner
    yj_sandbox.Setup.Ports.from_permissions request
from_scratch = refl

require_logon-IsCurrent_example :
    IsCurrent host launcher accounts files directories request false creds
require_logon-IsCurrent_example =
    require_logon-IsCurrent host launcher accounts files directories laws request false creds
      from_scratch

require_logon-ne-out_of_date_example :
    (require_logon_sandbox_creds launcher accounts host files directories request false).0
    ≢ err out_of_date
require_logon-ne-out_of_date_example =
    require_logon-ne-out_of_date host launcher accounts files directories laws request false

-- The world is the report; the helper exits with 3 and leaves one.
abbrev report : SetupFailure
report = record { code = orchestrator_helper_incomplete; message = codes "no rights" }

abbrev refusing : Launcher
refusing = record {
  World = Option SetupFailure;
  read_to_string = λ _ _. none;
  marker_from_str = λ _. some marker;
  users_from_str = λ _. some users;
  encode = λ _. some (codes "payload");
  create_dir_all = λ _ w. (true, w);
  is_elevated = λ _. some false;
  clear_report = λ _ _. (true, none);
  read_report = λ w _. ok w;
  run_helper = λ _ w. (exited (some 0), w);
  run_elevated = λ _ _. (exited (some 3), some report);
}

abbrev old_report : SetupFailure
old_report = record report { message = codes "old" }

run_setup_exe_payload-IsTold_example :
    IsFailure host refusing
      (codes "/h")
      true
      none
      (run_setup_exe_payload host refusing (codes "payload") true (codes "/h") (some old_report))
run_setup_exe_payload-IsTold_example =
    run_setup_exe_payload-IsTold host refusing
      (record { keeps_marker = λ home w. refl; keeps_users = λ home w. refl })
      (record { clears = λ home w cleared. refl }) (codes "payload") true (codes "/h")
      (some old_report)

reported_test :
    (run_setup_exe_payload host refusing (codes "payload") true (codes "/h") (some old_report)).0
    ≡ err (reported report)
unfolding run_setup_exe_payload yj_sandbox.Setup.Launch.report_helper_failure
reported_test = refl

-- A marker with two ports, which the settings have in another order.
abbrev two_ports : Launcher
two_ports = record launcher {
  marker_from_str = λ _. some (record marker { proxy_ports = 8080 ∷ 3128 ∷ [] });
}

abbrev settings : OfflineProxySettings
settings = record { proxy_ports = 3128 ∷ 8080 ∷ []; allow_local_binding = false }

complete_with_settings_iff_example :
    (sandbox_setup_is_complete_with_settings host two_ports true (codes "/h") settings ≡ true) ↔ (
      (marker : SetupMarker) × (users : SandboxUsersFile) × (load_marker host two_ports true
          (codes "/h")
        ≡ some marker)
      × (load_users host two_ports true (codes "/h") ≡ some users)
      × (marker.version ≡ 5)
      × (users.version ≡ 5)
      × HasSamePorts marker.proxy_ports settings.proxy_ports
      × (marker.allow_local_binding ≡ settings.allow_local_binding))
complete_with_settings_iff_example =
    complete_with_settings_iff host two_ports true (codes "/h") settings

other_order_test :
    sandbox_setup_is_complete_with_settings host two_ports true (codes "/h") settings ≡ true
unfolding sandbox_setup_is_complete_with_settings yj_sandbox.Identity.Complete.agrees
    yj_sandbox.Identity.Complete.sort_ports load_marker load_users
other_order_test = refl

-- The service is elevated, and its helper makes the setup.
abbrev service : Launcher
service = record launcher {
  is_elevated = λ _. some true;
  run_helper = λ _ _. (exited (some 0), true);
}

service_laws : IsLauncher host service
service_laws = record { keeps_marker = λ home w. refl; keeps_users = λ home w. refl }

abbrev is_local : FilePath → Bool
is_local path = true

provisioned_test :
    (run_elevated_provisioning_setup host service is_local
      (codes "/h")
      (codes "me")
      settings
      false).0
    ≡ ok tt
unfolding run_elevated_provisioning_setup yj_sandbox.Setup.Launch.run_setup_exe
    run_setup_exe_payload yj_sandbox.Setup.Launch.end_setup sandbox_setup_is_complete load_marker
    load_users host
provisioned_test = refl

provisioning-IsComplete_example :
    (host.is_absolute (codes "/h") ≡ true)
    × (is_local (codes "/h") ≡ true)
    × (service.is_elevated (service.create_dir_all (sandbox_dir host (codes "/h")) false).1
        ≡ some true)
    × (sandbox_setup_is_complete host service
          (run_elevated_provisioning_setup host service is_local
            (codes "/h")
            (codes "me")
            settings
            false).1
          (codes "/h")
        ≡ true)
provisioning-IsComplete_example =
    provisioning-IsComplete host service is_local service_laws (codes "/h") (codes "me") settings
      false provisioned_test
