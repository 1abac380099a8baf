-- ===== src/Logging.antt =====
-- The preview of a command in the log: src/logging.rs.
pub mod Preview
use mathlib.Core.Option
use yj_sandbox.Base.{ℕ, ◌+◌, ◌-◌, ◌==◌, leb, ltb, if◌then◌else◌, Option, none, some, List, [], ◌∷◌}
use yj_sandbox.Base.Text.{Text, join_with}

abbrev pub log_command_preview_limit : ℕ
log_command_preview_limit = 200

-- The bytes of a code point in UTF-8, and of a text: `str::len`.
unfoldable pub len_utf8 : ℕ → ℕ
len_utf8 ch = if ltb ch 128 then 1 else (if ltb ch 2048 then 2 else (if ltb ch 65536 then 3 else 4))

unfoldable pub byte_len : Text → ℕ
byte_len [] = 0
byte_len (ch ∷ chs) = len_utf8 ch + byte_len chs

-- `char_indices().take_while(…).map(…).last().unwrap_or(end)` over the characters from `index` on
unfoldable pub last_end : ℕ → ℕ → ℕ → Text → ℕ
last_end max_bytes end index [] = end
last_end max_bytes end index (ch ∷ chs) =
    let rest = last_end max_bytes (index + len_utf8 ch) (index + len_utf8 ch) chs in
    if leb (index + len_utf8 ch) max_bytes then rest else end

-- `&value[..end]`, with `none` for the panic on an end inside a character or past the text
unfoldable pub slice_to : ℕ → Text → Option Text
slice_to end [] = if end == 0 then some [] else none
slice_to end (ch ∷ chs) =
    if end == 0
    then some []
    else (if leb (len_utf8 ch) end
        then Option.map (λ t. ch ∷ t) (slice_to (end - len_utf8 ch) chs)
        else none)

unfoldable pub take_bytes_at_char_boundary : Text → ℕ → Option Text
take_bytes_at_char_boundary value max_bytes =
    if leb (byte_len value) max_bytes
    then some value
    else slice_to (last_end max_bytes 0 0 value) value

unfoldable pub preview : List Text → Option Text
preview command =
    let joined = join_with (32 ∷ []) command in
    if leb (byte_len joined) log_command_preview_limit
    then some joined
    else take_bytes_at_char_boundary joined log_command_preview_limit
