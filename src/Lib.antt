-- ===== src/Lib.antt =====
-- A sandbox runner that starts commands on Windows, and on macOS, with the file and network
-- access that its command line or a JSON text asks for. This library models the part of it that
-- decides: what a command may touch, how it is described to the system, and what is kept between
-- runs.
--
-- The parts, in the order in which a run meets them:
--   Cli            the choices of the command line, src/bin/yj-sandbox-run/main.rs: the permissions of
--                  a named profile (`resolve_permissions`), the backend from files and overrides
--                  (Cli/Level, `resolve_windows_sandbox_level`), and the state that a JSON text asks for
--                  (Cli/State, `resolve_sandbox_state`): Cli/State/Entries turns one entry into a rule,
--                  Cli/State/Resolve runs the rules over the loop's variables, the record `Grants`;
--                  Cli/State/Asked says in the words of the text what an entry asks for.
--   Permissions    the resolved permissions and the writable roots that they mean on Windows,
--                  src/resolved_permissions.rs.
--   Allow          the sets of paths that a run allows and denies, src/allow.rs.
--   Macos          the same on macOS, and the paths that the policy for the Seatbelt generator lets be
--                  written, src/resolved_permissions.rs and src/macos_permissions.rs.
--   Seatbelt       the network rules of a Seatbelt policy, src/seatbelt.rs.
--   Paths          canonical and absolute paths, src/path_normalization.rs and src/absolute_path.rs.
--   Cap            the capability SIDs of roots, src/cap.rs, over a state that is the file of a
--                  `codex_home` and the stream of random numbers.
--   DenyRead       deny-read entries, src/deny_read_acl.rs, and those kept between runs,
--                  src/deny_read_state.rs.
--   Env            the environment of a child, src/env.rs.
--   SshConfig      the files that an SSH configuration needs, src/ssh_config_dependencies.rs.
--   Winutil        an argument vector as one command line, src/winutil.rs; Winutil/Crt has the rules by
--                  which the C runtime takes it apart again.
--   FramedIo       frames on a pipe to the elevated runner, src/framed_io.rs.
--   Elevated       the messages of an elevated run, src/elevated/ipc_framed.rs. Elevated/Client is the
--                  parent's side of a start (`send_spawn_request`, `read_spawn_ready`) and the second
--                  start (`retry_runner_spawn_once`), src/elevated/runner_client.rs; Elevated/Runner is
--                  the runner, src/bin/command_runner/win.rs: `start`, the loop over its parent's
--                  messages (`input_loop`) and the frames it writes; Elevated/Capture collects the
--                  output, the loop of src/elevated_impl.rs.
--   Logging        the preview of a command in the log, src/logging.rs.
--   Setup          the elevated setup, src/setup.rs. Setup/Roots has the roots that a command may read
--                  and write, Setup/Ports the loopback ports of its proxies, Setup/Payload what the
--                  helper is told (`build_payload_roots`), Setup/Launch how it is run and what is made
--                  of its exit (`run_setup_exe_payload`), Setup/Provision the same for a service
--                  that is elevated already (`run_elevated_provisioning_setup`), and Setup/Flights
--                  the callers that share one run (`run_setup_singleflight`), a step relation on the
--                  table of flights, their results and where each caller stands.
--   Identity       the account that a command runs under, and when the setup runs before,
--                  src/identity.rs.
--   SetupError     failures of the elevated setup and their metrics, src/setup_error.rs.
-- Each part's file has its types and functions under the names of the source; its children have what
-- is proved of them. Examples has the tests, and each result at an input of its own. Base has texts as
-- lists of code points, `Result`, maps, lists, and the host.
--
-- What the code calls and does not contain is a parameter. The record `Host` (Base/Host) has the
-- platform's path operations, `canonicalize`, the variables and the directory of the process;
-- Base/Unix is one for the tests. `Libraries` has serde_json and url for the JSON state;
-- `CapLibraries` has serde_json and the random numbers for SIDs, with the law that serde_json
-- reads what it writes (`IsSerde`); `Files` has the file system and the crate glob for SSH; a
-- function from texts to `ParsedUrl` is the crate url for proxies; `Acl` has the file system and
-- the calls of src/acl.rs, with laws on the entries they add, find and revoke (`IsAcl`). For the
-- setup, `Directories` has what is in a directory and which paths exist, `Launcher` the files,
-- the encoding of a payload and the runs of the helper over a state of the system (`IsLauncher`:
-- clearing a report leaves the files that are read; `IsClearing`: a report that was cleared is
-- not there), and `Accounts` the local users and the decryption of a password. `Codec` has
-- serde_json for the messages and base64 (`IsCodec`), and `Win32` the answers of the calls that
-- the runner's loop makes (`IsWriting`).
--
-- Bounds. `visit_config` recurses on the levels that are left of the 32 of the source, so its
-- recursion is the source's. The wait for a frame recurses on fuel: time may pass between a look
-- at the pipe and the reading of the clock, and each round that goes on sleeps at least a
-- nanosecond, so one round more than the time left is enough. The decimal form of a `u32` has
-- ten digits of fuel. A length prefix is four bytes, and a frame is at most the source's 8 MiB.
-- Any number of callers shares flights, and each takes at most four steps. The loops over frames
-- recurse on fuel; each frame takes bytes from the stream, so fuel for one more than the bytes
-- is enough, and writing a text to the child recurses on the number of its bytes.
--
-- Not modelled: the calls of Win32 themselves (tokens, processes, desktops, access control lists,
-- the firewall, the Windows Filtering Platform), the helper program src/bin/setup_main, the file
-- rules of src/seatbelt.rs, the named pipes of src/elevated, and printing. An error is the value
-- of a data type with what its message interpolates. A write to a file that fails leaves the file
-- as it was.
mod Base
pub mod Cli
pub mod FramedIo
pub mod Paths
pub mod Permissions
pub mod Winutil
pub mod SshConfig
pub mod Cap
pub mod DenyRead
pub mod SetupError
pub mod Env
pub mod Macos
pub mod Seatbelt
pub mod Allow
pub mod Logging
pub mod Setup
pub mod Identity
pub mod Elevated
pub mod Examples
