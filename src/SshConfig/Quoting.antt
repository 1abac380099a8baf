-- ===== src/SshConfig/Quoting.antt =====
-- Words quoted for an SSH configuration are the words that src/ssh_config_dependencies.rs reads.
use mathlib.Core.List.{append_assoc, append-nil}
use yj_sandbox.Base.{
  ℕ, true, false, ◌||◌, ◌≡◌, refl, sym, ap, ◌∙◌, List, [], ◌∷◌, ◌++◌, none, some, is_empty, All,
  ◌==◌, if◌then◌else◌, arith, Bool-cases, inl, inr,
}
use yj_sandbox.Base.Text.{Text, is_whitespace}
use yj_sandbox.SshConfig.{
  Scanned, go_on, skip_one, is_quote, escape_step, word_step, words_loop, words,
}

-- A word with a backslash before its quotes and backslashes.
unfoldable pub escaped : Text → Text
escaped [] = []
escaped (c ∷ w) = if is_quote c || c == 92 then 92 ∷ c ∷ escaped w else c ∷ escaped w

-- The words between double quotes, each with a blank behind it.
unfoldable pub print_words : List Text → Text
print_words [] = []
print_words (w ∷ ws) = 34 ∷ (escaped w ++ (34 ∷ 32 ∷ print_words ws))

abbrev inside : Text → List Text → Scanned
inside word out = record { quote = some 34; word = word; out = out }

abbrev outside : Text → List Text → Scanned
outside word out = record { quote = none; word = word; out = out }

inside-escape :
    (word : Text) (out : List Text) (c : ℕ) (rest : List ℕ)
    → (is_quote c || c == 92) ≡ true
    → word_step (inside word out) 92 (c ∷ rest) ≡ skip_one (inside (word ++ c ∷ []) out)
unfolding word_step escape_step is_whitespace
inside-escape word out c rest special = ground arith

inside-plain :
    (word : Text) (out : List Text) (c : ℕ) (rest : List ℕ)
    → (is_quote c || c == 92) ≡ false
    → word_step (inside word out) c rest ≡ go_on (inside (word ++ c ∷ []) out)
unfolding word_step
inside-plain word out c rest plain = ground arith

escape_loop :
    (word : Text) (out : List Text) (c : ℕ) (rest : List ℕ)
    → (is_quote c || c == 92) ≡ true
    → words_loop false (inside word out) (92 ∷ c ∷ rest)
      ≡ words_loop false (inside (word ++ c ∷ []) out) rest
unfolding words_loop
escape_loop word out c rest special = rw (inside-escape word out c rest special, words_loop) refl

plain_loop :
    (word : Text) (out : List Text) (c : ℕ) (rest : List ℕ)
    → (is_quote c || c == 92) ≡ false
    → words_loop false (inside word out) (c ∷ rest)
      ≡ words_loop false (inside (word ++ c ∷ []) out) rest
unfolding words_loop
plain_loop word out c rest plain = rw (inside-plain word out c rest plain, words_loop) refl

inside_loop :
    (w word : Text) (out : List Text) (rest : List ℕ)
    → words_loop false (inside word out) (escaped w ++ rest)
      ≡ words_loop false (inside (word ++ w) out) rest
unfolding escaped
inside_loop [] word out rest =
    ap (λ x. words_loop false (inside x out) rest) (sym (append-nil word))
inside_loop (c ∷ w) word out rest =
    let further =
      inside_loop w (word ++ c ∷ []) out rest
      ∙ ap (λ x. words_loop false (inside x out) rest) (append_assoc word (c ∷ []) w) in
    elim (Bool-cases (is_quote c || c == 92)) [
      | inl special ↦ rw special (escape_loop word out c (escaped w ++ rest) special ∙ further)
      | inr plain ↦ rw plain (plain_loop word out c (escaped w ++ rest) plain ∙ further)
    ]

print_loop :
    (ws out : List Text)
    → All (λ w. is_empty w ≡ false) ws
    → words_loop false (outside [] out) (print_words ws) ≡ out ++ ws
unfolding print_words words_loop word_step escape_step is_whitespace
print_loop [] out full = sym (append-nil out)
print_loop (w ∷ ws) out (some_w, full) =
    inside_loop w [] out (34 ∷ 32 ∷ print_words ws)
    ∙ ap (λ e. words_loop false (outside [] (if e then out else out ++ w ∷ [])) (print_words ws))
        some_w
    ∙ print_loop ws (out ++ w ∷ []) full
    ∙ append_assoc out (w ∷ []) ws

-- Words that are not empty, each between double quotes with its quotes and backslashes escaped, are
-- read back as they are, whatever characters they hold.
pub words-round_trip :
    (ws : List Text) → All (λ w. is_empty w ≡ false) ws → words (print_words ws) ≡ ws
unfolding words
words-round_trip ws full = print_loop ws [] full
