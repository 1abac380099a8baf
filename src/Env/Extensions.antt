-- ===== src/Env/Extensions.antt =====
-- The extensions of executable files, those of the stubs first: `reorder_pathext_for_stubs` of
-- src/env.rs.
use mathlib.Core.List.{append_assoc}
use yj_sandbox.Base.{
  true, false, not, ◌≡◌, refl, sym, ◌∙◌, ap, subst, List, [], ◌∷◌, ◌++◌, keep, All, All-append,
  Member, Member-keep, Member-append, ◌⊎◌, arith, Bool-cases, inl, inr,
}
use yj_sandbox.Base.Text.{Text, codes, text_eq, to_ascii_uppercase}
use yj_sandbox.Base.Text.Laws.{text_eq_refl, text_eq_iff}
use yj_sandbox.Env.{find_upper, is_stub, reorder_extensions}

abbrev pub SameExtension : Text → Text → Type 0
SameExtension d e = to_ascii_uppercase d ≡ to_ascii_uppercase e

-- The extensions with those of the stubs in front.
pub record IsReordered (exts out : List Text) : Type 0 where
  pub is_from : (e : Text) → Member e out → Member e exts
  pub is_complete : (e : Text) → Member e exts → (d : Text) × Member d out × SameExtension d e
  pub front : List Text
  pub rest : List Text
  pub is_split : out ≡ front ++ rest
  pub are_stubs : All (λ e. is_stub e ≡ true) front
  pub are_others : All (λ e. is_stub e ≡ false) rest

find_upper-from :
    (w : Text) (exts : List Text) (e : Text) → Member e (find_upper w exts) → Member e exts
find_upper-from w [] e m = m
find_upper-from w (x ∷ exts) e m = elim (Bool-cases (text_eq (to_ascii_uppercase x) w)) [
  | inl hit ↦ inl (ground arith)
  | inr miss ↦ inr (find_upper-from w exts e (ground arith))
]

find_upper-hits :
    (w : Text) (exts : List Text)
    → All (λ e. text_eq (to_ascii_uppercase e) w ≡ true) (find_upper w exts)
find_upper-hits w [] = tt
find_upper-hits w (x ∷ exts) = elim (Bool-cases (text_eq (to_ascii_uppercase x) w)) [
  | inl hit ↦ rw hit (hit, tt)
  | inr miss ↦ rw miss (find_upper-hits w exts)
]

find_upper_complete :
    (w : Text) (exts : List Text) (e : Text)
    → Member e exts
    → to_ascii_uppercase e ≡ w
    → (d : Text) × Member d (find_upper w exts) × SameExtension d e
find_upper_complete w [] e m same = absurd m
find_upper_complete w (x ∷ exts) e m same = elim (Bool-cases (text_eq (to_ascii_uppercase x) w)) [
  | inl hit ↦ (x, rw hit (inl refl), (text_eq_iff (to_ascii_uppercase x) w).0 hit ∙ sym same)
  | inr miss ↦ elim m [
    | inl here ↦ absurd (
        cc (
          miss,
          subst (λ u. text_eq u w ≡ true) (sym same ∙ ap to_ascii_uppercase here) (text_eq_refl w),
        ))
    | inr later ↦
        let (d, n, alike) = find_upper_complete w exts e later same in (d, rw miss n, alike)
  ]
]

keep-others : (exts : List Text) → All (λ e. is_stub e ≡ false) (keep (λ e. not (is_stub e)) exts)
keep-others [] = tt
keep-others (x ∷ exts) = elim (Bool-cases (is_stub x)) [
  | inl stub ↦ rw stub (keep-others exts)
  | inr other ↦ rw other (other, keep-others exts)
]

module _ (w : Text) (is_one : (w ≡ codes ".BAT") ⊎ (w ≡ codes ".CMD")) where
  hit-is_stub : (e : Text) → text_eq (to_ascii_uppercase e) w ≡ true → is_stub e ≡ true
  hit-is_stub e hit = elim is_one [
    | inl bat ↦ ground (arith, subst (λ x. text_eq (to_ascii_uppercase e) x ≡ true) bat hit)
    | inr cmd ↦ ground (arith, subst (λ x. text_eq (to_ascii_uppercase e) x ≡ true) cmd hit)
  ]

  hits-are_stubs :
      (l : List Text)
      → All (λ e. text_eq (to_ascii_uppercase e) w ≡ true) l
      → All (λ e. is_stub e ≡ true) l
  hits-are_stubs [] h = tt
  hits-are_stubs (e ∷ l) h = (hit-is_stub e h.0, hits-are_stubs l h.1)

stub-cases :
    (e : Text)
    → is_stub e ≡ true
    → (to_ascii_uppercase e ≡ codes ".BAT") ⊎ (to_ascii_uppercase e ≡ codes ".CMD")
stub-cases e stub = elim (Bool-cases (text_eq (to_ascii_uppercase e) (codes ".BAT"))) [
  | inl bat ↦ inl ((text_eq_iff (to_ascii_uppercase e) (codes ".BAT")).0 bat)
  | inr not_bat ↦ inr ((text_eq_iff (to_ascii_uppercase e) (codes ".CMD")).0 (ground arith))
]

module _ (exts : List Text) where
  abbrev bats : List Text
  bats = find_upper (codes ".BAT") exts

  abbrev cmds : List Text
  cmds = find_upper (codes ".CMD") exts

  abbrev others : List Text
  others = keep (λ e. not (is_stub e)) exts

  found_again :
      (e : Text)
      → Member e exts
      → (d : Text) × Member d (bats ++ (cmds ++ others)) × SameExtension d e
  found_again e m = elim (Bool-cases (is_stub e)) [
    | inr other ↦ (
      e,
      (Member-append e bats (cmds ++ others)).1 (
          inr (
            (Member-append e cmds others).1
              (inr ((Member-keep (λ x. not (is_stub x)) exts e).1 (m, ground arith))))),
      refl,
    )
    | inl stub ↦ elim (stub-cases e stub) [
      | inl bat ↦
          let (d, n, same) = find_upper_complete (codes ".BAT") exts e m bat in
          (d, (Member-append d bats (cmds ++ others)).1 (inl n), same)
      | inr cmd ↦
          let (d, n, same) = find_upper_complete (codes ".CMD") exts e m cmd in
          (
            d,
            (Member-append d bats (cmds ++ others)).1
                (inr ((Member-append d cmds others).1 (inl n))),
            same,
          )
    ]
  ]

  taken_from : (e : Text) → Member e (bats ++ (cmds ++ others)) → Member e exts
  taken_from e m = elim ((Member-append e bats (cmds ++ others)).0 m) [
    | inl bat ↦ find_upper-from (codes ".BAT") exts e bat
    | inr later ↦ elim ((Member-append e cmds others).0 later) [
      | inl cmd ↦ find_upper-from (codes ".CMD") exts e cmd
      | inr other ↦ ((Member-keep (λ x. not (is_stub x)) exts e).0 other).0
    ]
  ]

  -- The new extensions are among the old, each old one is there in some spelling, and those of the
  -- stubs, which are `.bat` and `.cmd` in any spelling, come before all others.
  reorder_extensions-IsReordered : IsReordered exts (reorder_extensions exts)
  unfolding reorder_extensions
  reorder_extensions-IsReordered = record {
    is_from = taken_from;
    is_complete = found_again;
    front = bats ++ cmds;
    rest = others;
    is_split = sym (append_assoc bats cmds others);
    are_stubs =
        All-append (λ e. is_stub e ≡ true) bats cmds
          (hits-are_stubs (codes ".BAT") (inl refl) bats (find_upper-hits (codes ".BAT") exts))
          (hits-are_stubs (codes ".CMD") (inr refl) cmds (find_upper-hits (codes ".CMD") exts));
    are_others = keep-others exts;
  }
