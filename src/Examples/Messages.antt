-- ===== src/Examples/Messages.antt =====
-- A request for a runner, and an encoding of its messages as a few numbers each.
use yj_sandbox.Base.{zero, suc, refl, true, false, Option, none, some, [], ◌∷◌, if◌then◌else◌, ◌==◌}
use yj_sandbox.Base.Text.{codes}
use yj_sandbox.Permissions.{read_only}
use yj_sandbox.FramedIo.{Bytes}
use yj_sandbox.Elevated.{
  SpawnRequest, stdout, stderr, spawn_child, Message, spawn_request, spawn_ready, output, stdin,
  close_stdin, resize, exit, error, terminate, FramedMessage, Codec, IsCodec,
}

abbrev pub request : SpawnRequest
request = record {
  command = codes "C:\\tool.exe" ∷ [];
  cwd = codes "C:\\work";
  env = [];
  permissions = read_only true;
  codex_home = codes "C:\\home\\.sandbox";
  real_codex_home = codes "C:\\home";
  cap_sids = codes "S-1-5-21-1-2-3-4" ∷ [];
  network_proxy_restricting_sid = none;
  timeout_ms = none;
  tty = false;
  stdin_open = true;
  use_private_desktop = false;
}

abbrev pub coded : Message → Bytes
coded (spawn_request p) = 0 ∷ []
coded (spawn_ready p) = 1 ∷ p.process_id ∷ []
coded (output p) = 2 ∷ elim p.stream [ stdout ↦ 0 | stderr ↦ 1 ] ∷ p.data_b64
coded (stdin p) = 3 ∷ p.data_b64
coded close_stdin = 4 ∷ []
coded (exit p) = 5 ∷ p.exit_code ∷ (if p.timed_out then 1 else 0) ∷ []
coded (error p) = 6 ∷ elim p.windows_error_code [ none ↦ 0 | some code ↦ suc code ] ∷ p.message
coded terminate = 7 ∷ []
coded (resize p) = 8 ∷ p.rows ∷ p.cols ∷ []

abbrev pub output_of : Bytes → Option Message
output_of [] = none
output_of (stream ∷ text) =
    some (output (record { data_b64 = text; stream = if stream == 0 then stdout else stderr }))

abbrev pub ready_of : Bytes → Option Message
ready_of [] = none
ready_of (process_id ∷ _) = some (spawn_ready (record { process_id = process_id }))

abbrev pub exit_of : Bytes → Option Message
exit_of (code ∷ stopped ∷ []) = some (exit (record { exit_code = code; timed_out = stopped == 1 }))
exit_of _ = none

abbrev pub error_of : Bytes → Option Message
error_of [] = none
error_of (zero ∷ text) =
    some (error (record { message = text; stage = spawn_child; windows_error_code = none }))
error_of (suc code ∷ text) =
    some (error (record { message = text; stage = spawn_child; windows_error_code = some code }))

abbrev pub message_of : Bytes → Option Message
message_of [] = none
message_of (tag ∷ bytes) =
    if tag == 0
    then some (spawn_request request)
    else if tag == 1
    then ready_of bytes
    else if tag == 2
    then output_of bytes
    else if tag == 3
    then some (stdin (record { data_b64 = bytes }))
    else if tag == 4
    then some close_stdin
    else if tag == 5
    then exit_of bytes
    else if tag == 6
    then error_of bytes
    else none

abbrev pub from_bytes : Bytes → Option FramedMessage
from_bytes [] = none
from_bytes (version ∷ bytes) = elim (message_of bytes) [
  | none ↦ none
  | some message ↦ some (record { version = version; message = message })
]

abbrev pub codec : Codec
codec = record {
  to_vec = λ m. some (m.version ∷ coded m.message);
  from_slice = from_bytes;
  encode = λ bytes. bytes;
  decode = λ text. some text;
}

pub codec-IsCodec : IsCodec codec
codec-IsCodec = record { decodes = λ bytes. refl }
