-- ===== src/Examples/Logging.antt =====
-- Previews of src/logging.rs.
use yj_sandbox.Base.{◌≡◌, refl, ◌≤◌, some, [], ◌∷◌, List}
use yj_sandbox.Base.Text.{Text, codes, join_with}
use yj_sandbox.Logging.{
  log_command_preview_limit, len_utf8, byte_len, last_end, slice_to, take_bytes_at_char_boundary,
  preview,
}
use yj_sandbox.Logging.Preview.{IsCut, preview-IsCut}

abbrev command : List Text
command = codes "git" ∷ codes "log" ∷ []

preview_test : preview command ≡ some (codes "git log")
unfolding preview byte_len len_utf8 join_with
preview_test = refl

-- Five bytes end inside the second of two characters of four bytes.
cut_test : take_bytes_at_char_boundary (128512 ∷ 128512 ∷ []) 5 ≡ some (128512 ∷ [])
unfolding take_bytes_at_char_boundary byte_len len_utf8 last_end slice_to
cut_test = refl

preview-IsCut_example :
    (cut : Text) × (preview command ≡ some cut)
    × IsCut log_command_preview_limit (join_with (32 ∷ []) command) cut
    × (byte_len (join_with (32 ∷ []) command) ≤ log_command_preview_limit
        → cut ≡ join_with (32 ∷ []) command)
preview-IsCut_example = preview-IsCut command
