-- ===== src/Winutil/Quoted.antt =====
-- A quoted argument read from its front: `quote_windows_arg` of src/winutil.rs.
use yj_sandbox.Base.{
  ℕ, zero, suc, ◌+◌, ◌*◌, ◌≡◌, refl, sym, ap, ◌∙◌, true, false, [], ◌∷◌, ◌++◌, arith, Bool-cases,
  inl, inr, ltb, lt→ltb, ==_iff, ◌==◌, if◌then◌else◌,
}
use mathlib.Core.List.{append_assoc, append-nil}
use yj_sandbox.Base.Text.{Text}
use yj_sandbox.Winutil.{backslash, double_quote, backslashes, Quoting, quote_step, quote_loop}

backslashes-add : (m n : ℕ) → backslashes (m + n) ≡ backslashes m ++ backslashes n
backslashes-add zero n = ap backslashes (omega arith)
backslashes-add (suc m) n =
    ap backslashes (let e : suc m + n ≡ suc (m + n) = omega arith in e)
    ∙ ap (λ l. backslash ∷ l) (backslashes-add m n)

pub backslashes-shift :
    (n c : ℕ) (s : Text)
    → (c == backslash) ≡ true
    → backslashes (n + 1) ++ s ≡ backslashes n ++ c ∷ s
backslashes-shift n c s b =
    simp (backslashes-add, append_assoc)
      (ap (λ k. backslashes n ++ k ∷ s) (sym ((==_iff c backslash).0 b)))

-- What the loop appends to `quoted` from here on, the closing quote included.
unfoldable pub quote_tail : ℕ → Text → Text
quote_tail n [] = backslashes (n * 2) ++ double_quote ∷ []
quote_tail n (c ∷ s) =
    if c == backslash
    then quote_tail (n + 1) s
    else if c == double_quote
    then backslashes (n * 2 + 1) ++ double_quote ∷ quote_tail 0 s
    else backslashes n ++ c ∷ quote_tail 0 s

unfoldable pub finish : Quoting → Text
finish q =
    (if ltb 0 q.pending then q.quoted ++ backslashes (q.pending * 2) else q.quoted)
    ++ double_quote ∷ []

if-pending :
    (n m : ℕ) (t : Text)
    → (n ≡ 0 → m ≡ 0)
    → (if ltb 0 n then t ++ backslashes m else t) ≡ t ++ backslashes m
if-pending zero m t h = rw (h refl) (sym (append-nil t))
if-pending (suc n) m t h = rw (lt→ltb 0 (suc n) (omega arith))

module _ (q : Quoting) (c : ℕ) where
  quote_step-backslash :
      (c == backslash) ≡ true → quote_step q c ≡ record q { pending = q.pending + 1 }
  unfolding quote_step
  quote_step-backslash b = rw b

  quote_step-double_quote :
      (c == backslash) ≡ false
      → (c == double_quote) ≡ true
      → quote_step q c ≡ record {
        quoted = (q.quoted ++ backslashes (q.pending * 2 + 1)) ++ double_quote ∷ [];
        pending = 0;
      }
  unfolding quote_step
  quote_step-double_quote nb d = rw (nb, d)

  quote_step_other :
      (c == backslash) ≡ false
      → (c == double_quote) ≡ false
      → quote_step q c
        ≡ record { quoted = (q.quoted ++ backslashes q.pending) ++ c ∷ []; pending = 0 }
  unfolding quote_step
  quote_step_other nb nd = rw (nb, nd) (rw (if-pending q.pending q.pending q.quoted (λ e. e)))

pub finish-quote_loop :
    (q : Quoting) (s : Text) → finish (quote_loop q s) ≡ q.quoted ++ quote_tail q.pending s
unfolding finish quote_tail quote_loop
finish-quote_loop q [] =
    rw (if-pending q.pending (q.pending * 2) q.quoted (λ e. omega arith))
      (append_assoc q.quoted _ _)
finish-quote_loop q (c ∷ s) = elim (Bool-cases (c == backslash)) [
  | inl b ↦ rw b (
      ap (λ r. finish (quote_loop r s)) (quote_step-backslash q c b)
      ∙ finish-quote_loop (record q { pending = q.pending + 1 }) s)
  | inr nb ↦ elim (Bool-cases (c == double_quote)) [
    | inl d ↦
        rw (nb, d)
          (ap (λ r. finish (quote_loop r s)) (quote_step-double_quote q c nb d)
            ∙ finish-quote_loop
                (record {
                  quoted = (q.quoted ++ backslashes (q.pending * 2 + 1)) ++ double_quote ∷ [];
                  pending = 0;
                })
                s
            ∙ simp append_assoc)
    | inr nd ↦
        rw (nb, nd)
          (ap (λ r. finish (quote_loop r s)) (quote_step_other q c nb nd)
            ∙ finish-quote_loop
                (record { quoted = (q.quoted ++ backslashes q.pending) ++ c ∷ []; pending = 0 }) s
            ∙ simp append_assoc)
  ]
]
