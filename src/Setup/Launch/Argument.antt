-- ===== src/Setup/Launch/Argument.antt =====
-- The argument of an elevated helper is quoted in src/setup.rs as src/winutil.rs quotes one.
use yj_sandbox.Base.{ℕ, ◌≡◌, refl, [], ◌∷◌, arith}
use yj_sandbox.Base.Text.{Text}
use yj_sandbox.Winutil.{Quoting, quote_step, quote_loop, quote_windows_arg}
use yj_sandbox.Setup.Launch.{Quoted, quote_char, quote_chars, quote_arg}

-- The variables of the two loops.
abbrev IsSame : Quoted → Quoting → Type 0
IsSame q r = (q.out ≡ r.quoted) × (q.bs ≡ r.pending)

quote_char-IsSame :
    (q : Quoted) (r : Quoting) (c : ℕ) → IsSame q r → IsSame (quote_char q c) (quote_step r c)
unfolding quote_step
quote_char-IsSame q r c (e, f) = ground arith

quote_chars-IsSame :
    (q : Quoted) (r : Quoting) (s : Text) → IsSame q r → IsSame (quote_chars q s) (quote_loop r s)
unfolding quote_chars quote_loop
quote_chars-IsSame q r [] same = same
quote_chars-IsSame q r (c ∷ s) same =
    quote_chars-IsSame (quote_char q c) (quote_step r c) s (quote_char-IsSame q r c same)

-- For every argument the two functions give the same text.
pub quote_arg-quote_windows_arg : (arg : Text) → quote_arg arg ≡ quote_windows_arg arg
unfolding quote_arg quote_windows_arg
quote_arg-quote_windows_arg arg = ground (
  arith,
  quote_chars-IsSame (record { out = 34 ∷ []; bs = 0 }) (record { quoted = 34 ∷ []; pending = 0 })
      arg (refl, refl),
)
