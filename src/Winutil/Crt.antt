-- ===== src/Winutil/Crt.antt =====
-- The rules by which CommandLineToArgvW and the C runtime take a command line apart, after the
-- program's name: the specification that src/winutil.rs quotes for.
use yj_sandbox.Base.{
  ℕ, ◌+◌, ◌/◌, ◌%◌, Bool, true, false, ◌||◌, List, [], ◌∷◌, ◌++◌, ◌==◌, if◌then◌else◌,
}
use yj_sandbox.Base.Text.{Text}
use yj_sandbox.Winutil.{backslash, double_quote, backslashes}

-- `inside q n arg`: in an argument, in a quoted part of it if `q`, behind `n` backslashes.
-- `closing arg`: behind a quote in a quoted part, which closes it or is the first of two.
pub data Mode : Type 0 where
  between : Mode
  inside : Bool → ℕ → Text → Mode
  closing : Text → Mode

abbrev pub is_blank : ℕ → Bool
is_blank c = c == 32 || c == 9

-- Behind `n` backslashes: a pair stands for one, and an odd one makes the quote a character.
abbrev on_quote : Bool → ℕ → Text → Mode
on_quote quoted n arg =
    if n % 2 == 1
    then inside quoted 0 ((arg ++ backslashes (n / 2)) ++ double_quote ∷ [])
    else if quoted
    then closing (arg ++ backslashes (n / 2))
    else inside true 0 (arg ++ backslashes (n / 2))

-- The next mode, and the argument that the character ends.
abbrev on_char : Bool → ℕ → Text → ℕ → Mode × List Text
on_char quoted n arg c =
    if c == backslash
    then (inside quoted (n + 1) arg, [])
    else if c == double_quote
    then (on_quote quoted n arg, [])
    else if is_blank c
    then (if quoted
        then (inside true 0 ((arg ++ backslashes n) ++ c ∷ []), [])
        else (between, (arg ++ backslashes n) ∷ []))
    else (inside quoted 0 ((arg ++ backslashes n) ++ c ∷ []), [])

unfoldable pub crt_step : Mode → ℕ → Mode × List Text
crt_step between c = if is_blank c then (between, []) else on_char false 0 [] c
crt_step (inside quoted n arg) c = on_char quoted n arg c
crt_step (closing arg) c =
    if c == double_quote
    then (inside true 0 (arg ++ double_quote ∷ []), [])
    else on_char false 0 arg c

abbrev pub crt_end : Mode → List Text
crt_end between = []
crt_end (inside quoted n arg) = (arg ++ backslashes n) ∷ []
crt_end (closing arg) = arg ∷ []

unfoldable pub crt_parse : Mode → Text → List Text
crt_parse m [] = crt_end m
crt_parse m (c ∷ s) = let (m', done) = crt_step m c in done ++ crt_parse m' s

unfoldable pub command_line_to_argv : Text → List Text
unfolding crt_parse crt_step
command_line_to_argv = crt_parse between
