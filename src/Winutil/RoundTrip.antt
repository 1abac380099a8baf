-- ===== src/Winutil/RoundTrip.antt =====
-- Quoting src/winutil.rs against the rules by which the callee takes the command line apart.
use yj_sandbox.Base.{
  ℕ, zero, suc, ◌+◌, ◌*◌, ◌/◌, ◌%◌, ◌≡◌, refl, sym, ap, ◌∙◌, Bool, true, false, List, [], ◌∷◌, ◌++◌,
  arith, Bool-cases, inl, inr, any, ==_iff, ◌==◌, if◌then◌else◌,
}
use mathlib.Core.List.{append_assoc, append-nil}
use yj_sandbox.Base.Text.{Text}
use yj_sandbox.Winutil.{
  backslash, double_quote, backslashes, is_special, needs_quotes, quote_windows_arg,
  argv_to_command_line,
}
use yj_sandbox.Winutil.Crt.{
  Mode, between, inside, closing, is_blank, crt_step, crt_parse, command_line_to_argv,
}
use yj_sandbox.Winutil.Quoted.{backslashes-shift, quote_tail, finish, finish-quote_loop}

crt_parse-cons :
    (m : Mode) (c : ℕ) (r : Text) (m' : Mode) (done : List Text)
    → crt_step m c ≡ (m', done)
    → crt_parse m (c ∷ r) ≡ done ++ crt_parse m' r
unfolding crt_parse
crt_parse-cons m c r m' done e = rw e

crt_parse-backslashes :
    (quoted : Bool) (k n : ℕ) (arg r : Text)
    → crt_parse (inside quoted k arg) (backslashes n ++ r) ≡ crt_parse (inside quoted (k + n) arg) r
crt_parse-backslashes quoted k zero arg r =
    ap (λ (m : ℕ). crt_parse (inside quoted m arg) r) (omega arith)
crt_parse-backslashes quoted k (suc n) arg r =
    crt_parse-cons (inside quoted k arg) backslash (backslashes n ++ r) (inside quoted (k + 1) arg)
      [] (unfold crt_step in refl)
    ∙ crt_parse-backslashes quoted (k + 1) n arg r
    ∙ ap (λ (m : ℕ). crt_parse (inside quoted m arg) r) (omega arith)

-- A run of backslashes and the character that ends it.
crt_parse-run :
    (quoted : Bool) (n : ℕ) (arg : Text) (c : ℕ) (r : Text) (m : Mode) (done : List Text)
    → crt_step (inside quoted n arg) c ≡ (m, done)
    → crt_parse (inside quoted 0 arg) (backslashes n ++ c ∷ r) ≡ done ++ crt_parse m r
crt_parse-run quoted n arg c r m done e =
    crt_parse-backslashes quoted 0 n arg (c ∷ r)
    ∙ ap (λ (k : ℕ). crt_parse (inside quoted k arg) (c ∷ r)) (omega arith)
    ∙ crt_parse-cons (inside quoted n arg) c r m done e

same : {A : Type 0} {a : A} (b : Bool) → (if b then a else a) ≡ a
same true = refl
same false = refl

module _ (n : ℕ) (arg : Text) where
  -- An even run of backslashes leaves the quote to close the part.
  crt_step_closing :
      crt_step (inside true (n * 2) arg) double_quote ≡ (closing (arg ++ backslashes n), [])
  unfolding crt_step
  crt_step_closing =
      let even : (n * 2) % 2 ≡ 0 = omega arith in
      let half : n * 2 / 2 ≡ n = omega arith in rw (even, half)

  -- An odd one makes it a character.
  crt_step_escaped :
      crt_step (inside true (n * 2 + 1) arg) double_quote
      ≡ (inside true 0 ((arg ++ backslashes n) ++ double_quote ∷ []), [])
  unfolding crt_step
  crt_step_escaped =
      let odd : (n * 2 + 1) % 2 ≡ 1 = omega arith in
      let half : (n * 2 + 1) / 2 ≡ n = omega arith in rw (odd, half)

  crt_step_quoted :
      (c : ℕ)
      → (c == backslash) ≡ false
      → (c == double_quote) ≡ false
      → crt_step (inside true n arg) c ≡ (inside true 0 ((arg ++ backslashes n) ++ c ∷ []), [])
  unfolding crt_step
  crt_step_quoted c nb nd = rw (nb, nd) (same (is_blank c))

-- Behind the opening quote the parser takes up the argument and closes the quoted part.
crt_parse-quote_tail :
    (n : ℕ) (s arg r : Text)
    → crt_parse (inside true 0 arg) (quote_tail n s ++ r)
      ≡ crt_parse (closing (arg ++ (backslashes n ++ s))) r
unfolding quote_tail
crt_parse-quote_tail n [] arg r =
    ap (crt_parse (inside true 0 arg)) (append_assoc (backslashes (n * 2)) _ r)
    ∙ crt_parse-run true (n * 2) arg double_quote r _ _ (crt_step_closing n arg)
    ∙ simp append-nil
crt_parse-quote_tail n (c ∷ s) arg r = elim (Bool-cases (c == backslash)) [
  | inl b ↦ rw b (
      crt_parse-quote_tail (n + 1) s arg r
      ∙ ap (λ t. crt_parse (closing (arg ++ t)) r) (backslashes-shift n c s b))
  | inr nb ↦ elim (Bool-cases (c == double_quote)) [
    | inl d ↦
        rw (nb, d)
          (ap (crt_parse (inside true 0 arg)) (append_assoc (backslashes (n * 2 + 1)) _ r)
            ∙ crt_parse-run true (n * 2 + 1) arg double_quote (quote_tail 0 s ++ r) _ _
                (crt_step_escaped n arg)
            ∙ crt_parse-quote_tail 0 s ((arg ++ backslashes n) ++ double_quote ∷ []) r
            ∙ rw ((==_iff c double_quote).0 d) (simp append_assoc))
    | inr nd ↦
        rw (nb, nd)
          (ap (crt_parse (inside true 0 arg)) (append_assoc (backslashes n) _ r)
            ∙ crt_parse-run true n arg c (quote_tail 0 s ++ r) _ _ (crt_step_quoted n arg c nb nd)
            ∙ crt_parse-quote_tail 0 s ((arg ++ backslashes n) ++ c ∷ []) r
            ∙ simp append_assoc)
  ]
]

-- What follows an argument ends it: `tail` are the arguments behind it.
abbrev Ends : Text → List Text → Type 0
Ends r tail =
    ((n : ℕ) (arg : Text) → crt_parse (inside false n arg) r ≡ (arg ++ backslashes n) ∷ tail)
    × ((arg : Text) → crt_parse (closing arg) r ≡ arg ∷ tail)

crt_parse-plain :
    (s : Text) (n : ℕ) (arg r : Text) (tail : List Text)
    → any is_special s ≡ false
    → Ends r tail
    → crt_parse (inside false n arg) (s ++ r) ≡ (arg ++ (backslashes n ++ s)) ∷ tail
crt_parse-plain [] n arg r tail h e = e.0 n arg ∙ simp append-nil
crt_parse-plain (c ∷ s) n arg r tail h e = elim (Bool-cases (c == backslash)) [
  | inl b ↦
      crt_parse-cons (inside false n arg) c (s ++ r) (inside false (n + 1) arg) []
        (unfold crt_step in rw b)
      ∙ crt_parse-plain s (n + 1) arg r tail (ground arith) e
      ∙ ap (λ t. (arg ++ t) ∷ tail) (backslashes-shift n c s b)
  | inr nb ↦
      crt_parse-cons (inside false n arg) c (s ++ r)
        (inside false 0 ((arg ++ backslashes n) ++ c ∷ [])) [] (unfold crt_step in ground arith)
      ∙ crt_parse-plain s 0 ((arg ++ backslashes n) ++ c ∷ []) r tail (ground arith) e
      ∙ simp append_assoc
]

crt_parse-bare :
    (c : ℕ) (r : Text)
    → is_special c ≡ false
    → crt_parse between (c ∷ r) ≡ crt_parse (inside false 0 []) (c ∷ r)
unfolding crt_parse crt_step
crt_parse-bare c r h = let b : is_blank c ≡ false = ground arith in rw b

quote_windows_arg-quoted :
    (arg : Text) → needs_quotes arg ≡ true → quote_windows_arg arg ≡ double_quote ∷ quote_tail 0 arg
unfolding quote_windows_arg
quote_windows_arg-quoted arg h =
    rw h
      (unfold finish in finish-quote_loop (record { quoted = double_quote ∷ []; pending = 0 }) arg)

quote_windows_arg-bare : (arg : Text) → needs_quotes arg ≡ false → quote_windows_arg arg ≡ arg
unfolding quote_windows_arg
quote_windows_arg-bare arg h = rw h

crt_parse-quote_windows_arg :
    (arg r : Text) (tail : List Text)
    → Ends r tail
    → crt_parse between (quote_windows_arg arg ++ r) ≡ arg ∷ tail
crt_parse-quote_windows_arg [] r tail e = rw (quote_windows_arg-quoted [] refl) (
    crt_parse-cons between double_quote (quote_tail 0 [] ++ r) (inside true 0 []) []
      (unfold crt_step in refl)
    ∙ crt_parse-quote_tail 0 [] [] r
    ∙ e.1 [])
crt_parse-quote_windows_arg (c ∷ s) r tail e = elim (Bool-cases (needs_quotes (c ∷ s))) [
  | inl quoted ↦ rw (quote_windows_arg-quoted (c ∷ s) quoted) (
      crt_parse-cons between double_quote (quote_tail 0 (c ∷ s) ++ r) (inside true 0 []) []
        (unfold crt_step in refl)
      ∙ crt_parse-quote_tail 0 (c ∷ s) [] r
      ∙ e.1 (c ∷ s))
  | inr bare ↦
      ap (λ a. crt_parse between (a ++ r)) (quote_windows_arg-bare (c ∷ s) bare)
      ∙ crt_parse-bare c (s ++ r) (ground arith)
      ∙ crt_parse-plain (c ∷ s) 0 [] r tail bare e
]

Ends-nil : Ends [] []
unfolding crt_parse
Ends-nil = (λ n arg. refl, λ arg. refl)

Ends-blank : (r : Text) → Ends (32 ∷ r) (crt_parse between r)
unfolding crt_parse crt_step
Ends-blank r = (λ n arg. refl, λ arg. rw append-nil)

-- Whatever the arguments, with spaces, quotes, backslashes or nothing in them: the rules by which
-- the callee takes its command line apart give back the arguments that it was built from.
pub argv-round_trip : (argv : List Text) → command_line_to_argv (argv_to_command_line argv) ≡ argv
unfolding command_line_to_argv argv_to_command_line
argv-round_trip [] = refl
argv-round_trip (w ∷ []) =
    ap (crt_parse between) (sym (append-nil (quote_windows_arg w)))
    ∙ crt_parse-quote_windows_arg w [] [] Ends-nil
argv-round_trip (w ∷ v ∷ argv) =
    crt_parse-quote_windows_arg w _ _ (Ends-blank (argv_to_command_line (v ∷ argv)))
    ∙ ap (λ l. w ∷ l) (argv-round_trip (v ∷ argv))
