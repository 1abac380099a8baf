-- ===== src/Winutil.antt =====
-- Command lines for CreateProcess: src/winutil.rs.
pub mod Crt
mod Quoted
pub mod RoundTrip
use yj_sandbox.Base.{
  ℕ, ◌+◌, ◌*◌, Bool, ◌||◌, List, [], ◌∷◌, ◌++◌, map, is_empty, any, replicate, ltb, ◌==◌,
  if◌then◌else◌,
}
use yj_sandbox.Base.Text.{Text, codes, join_with}

abbrev pub backslash : ℕ
backslash = 92

abbrev pub double_quote : ℕ
double_quote = 34

abbrev pub backslashes : ℕ → Text
backslashes n = replicate n backslash

-- The test that `any` is given.
abbrev pub is_special : ℕ → Bool
is_special c = c == 32 || c == 9 || c == 10 || c == 13 || c == double_quote

-- The variables `quoted` and `backslashes` of the loop.
pub record Quoting : Type 0 where
  pub quoted : Text
  pub pending : ℕ

-- One round of the loop over the characters.
unfoldable pub quote_step : Quoting → ℕ → Quoting
quote_step q ch =
    if ch == backslash
    then record q { pending = q.pending + 1 }
    else if ch == double_quote
    then record {
      quoted = (q.quoted ++ backslashes (q.pending * 2 + 1)) ++ double_quote ∷ [];
      pending = 0;
    }
    else record {
      quoted = (if ltb 0 q.pending then q.quoted ++ backslashes q.pending else q.quoted) ++ ch ∷ [];
      pending = 0;
    }

unfoldable pub quote_loop : Quoting → Text → Quoting
unfolding quote_step
quote_loop q [] = q
quote_loop q (ch ∷ chars) = quote_loop (quote_step q ch) chars

abbrev pub needs_quotes : Text → Bool
needs_quotes arg = is_empty arg || any is_special arg

unfoldable pub quote_windows_arg : Text → Text
unfolding quote_loop
quote_windows_arg arg =
    if needs_quotes arg
    then (let q = quote_loop (record { quoted = double_quote ∷ []; pending = 0 }) arg in
        (if ltb 0 q.pending then q.quoted ++ backslashes (q.pending * 2) else q.quoted)
        ++ double_quote ∷ [])
    else arg

unfoldable pub argv_to_command_line : List Text → Text
unfolding quote_windows_arg join_with
argv_to_command_line argv = join_with (codes " ") (map quote_windows_arg argv)
