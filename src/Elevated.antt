-- ===== src/Elevated.antt =====
-- The messages of the elevated run, src/elevated/ipc_framed.rs: a parent starts the command runner as
-- a sandbox user and talks to it over a pair of pipes. The children have the parent's side
-- (Elevated/Client), the runner's (Elevated/Runner) and the capture of its output (Elevated/Capture).
pub mod Client
pub mod Runner
pub mod Capture
pub mod Handshake
pub mod Captured
pub mod Input
pub mod Forwarded
pub mod Retried
use yj_sandbox.Base.{ℕ, Bool, List, Option, none, some, ◌≡◌}
use yj_sandbox.Base.Text.{Text}
use yj_sandbox.Base.Host.{FilePath}
use yj_sandbox.Permissions.{EnvMap, ResolvedSandboxPermissions}
use yj_sandbox.FramedIo.{Bytes}

abbrev pub ipc_protocol_version : ℕ
ipc_protocol_version = 5

pub record SpawnRequest : Type 0 where
  pub command : List Text
  pub cwd : FilePath
  pub env : EnvMap
  pub permissions : ResolvedSandboxPermissions
  pub codex_home : FilePath
  pub real_codex_home : FilePath
  pub cap_sids : List Text
  pub network_proxy_restricting_sid : Option Text
  pub timeout_ms : Option ℕ
  pub tty : Bool
  pub stdin_open : Bool
  pub use_private_desktop : Bool

pub record SpawnReady : Type 0 where
  pub process_id : ℕ

pub data OutputStream : Type 0 where
  stdout stderr : OutputStream

pub record OutputPayload : Type 0 where
  pub data_b64 : Text
  pub stream : OutputStream

pub record StdinPayload : Type 0 where
  pub data_b64 : Text

pub record ResizePayload : Type 0 where
  pub rows : ℕ
  pub cols : ℕ

-- An exit code is the 32 bits that the runner and its parent read as an `i32`.
pub record ExitPayload : Type 0 where
  pub exit_code : ℕ
  pub timed_out : Bool

pub data ErrorStage : Type 0 where
  read_spawn_request spawn_child write_spawn_ready : ErrorStage

pub record ErrorPayload : Type 0 where
  pub message : Text
  pub stage : ErrorStage
  pub windows_error_code : Option ℕ

pub data Message : Type 0 where
  spawn_request : SpawnRequest → Message
  spawn_ready : SpawnReady → Message
  output : OutputPayload → Message
  stdin : StdinPayload → Message
  close_stdin : Message
  resize : ResizePayload → Message
  exit : ExitPayload → Message
  error : ErrorPayload → Message
  terminate : Message

pub record FramedMessage : Type 0 where
  pub version : ℕ
  pub message : Message

-- serde_json at the type of the messages, and the standard alphabet of the crate base64.
pub record Codec : Type 0 where
  pub to_vec : FramedMessage → Option Bytes
  pub from_slice : Bytes → Option FramedMessage
  pub encode : Bytes → Text
  pub decode : Text → Option Bytes

-- base64 decodes what it has encoded.
pub record IsCodec (c : Codec) : Type 0 where
  pub decodes : (bytes : Bytes) → c.decode (c.encode bytes) ≡ some bytes
