-- ===== src/DenyRead/Keys.antt =====
-- Paths kept by their lexical keys: `push_planned_path` of src/deny_read_acl.rs.
use yj_sandbox.Base.{
  Bool, true, false, ◌≡◌, refl, sym, ap, ◌∙◌, subst, ◌⊎◌, inl, inr, List, [], ◌∷◌, ◌++◌, any,
  Member, Member-append_left, Member-append_right, Member-append-cases, arith, Bool-cases,
}
use mathlib.Core.List.{map-append}
use yj_sandbox.Base.Distinct.{Distinct, Distinct-append}
use yj_sandbox.Base.Text.{Text, text_eq, contains_text}
use yj_sandbox.Base.Text.Laws.{text_eq_iff, contains_text_iff}
use yj_sandbox.Base.Host.{FilePath}
use yj_sandbox.DenyRead.{lexical_path_key, Planned, push_planned_path, keys_of}

abbrev pub same_key : FilePath → FilePath → Bool
same_key p q = text_eq (lexical_path_key p) (lexical_path_key q)

-- The keys seen are those of the planned paths.
abbrev pub IsTracked : Planned → Type 0
IsTracked p = p.seen ≡ keys_of p.planned

any-same_key :
    (paths : List FilePath) (path : FilePath)
    → contains_text (keys_of paths) (lexical_path_key path) ≡ false
    → any (λ q. same_key q path) paths ≡ false
unfolding contains_text
any-same_key [] path e = refl
any-same_key (q ∷ paths) path e = ground (
  arith,
  any-same_key paths path,
  text_eq_iff (lexical_path_key path) (lexical_path_key q),
  text_eq_iff (lexical_path_key q) (lexical_path_key path),
)

module _ (p : Planned) (path : FilePath) where
  push_planned_path-old :
      contains_text p.seen (lexical_path_key path) ≡ true → push_planned_path p path ≡ p
  unfolding push_planned_path
  push_planned_path-old old = rw old refl

  push_planned_path-new :
      contains_text p.seen (lexical_path_key path) ≡ false
      → push_planned_path p path
        ≡ record { planned = p.planned ++ path ∷ []; seen = p.seen ++ lexical_path_key path ∷ [] }
  unfolding push_planned_path
  push_planned_path-new new = rw new refl

  pub push_planned_path-IsTracked : IsTracked p → IsTracked (push_planned_path p path)
  push_planned_path-IsTracked t = elim (Bool-cases (contains_text p.seen (lexical_path_key path))) [
    | inl old ↦ subst IsTracked (sym (push_planned_path-old old)) t
    | inr new ↦ subst IsTracked (sym (push_planned_path-new new)) (
        ap (λ l. l ++ lexical_path_key path ∷ []) t
        ∙ sym (map-append lexical_path_key p.planned (path ∷ [])))
  ]

  pub push_planned_path-Distinct :
      IsTracked p
      → Distinct same_key p.planned
      → Distinct same_key (push_planned_path p path).planned
  push_planned_path-Distinct t d =
      elim (Bool-cases (contains_text p.seen (lexical_path_key path))) [
        | inl old ↦
            subst (λ (q : Planned). Distinct same_key q.planned) (sym (push_planned_path-old old)) d
        | inr new ↦
            subst (λ (q : Planned). Distinct same_key q.planned) (sym (push_planned_path-new new))
              (Distinct-append same_key p.planned path
                (any-same_key p.planned path
                  (subst (λ seen. contains_text seen (lexical_path_key path) ≡ false) t new))
                d)
      ]

  pub Member-push_planned_path :
      (q : FilePath) → Member q (push_planned_path p path).planned → Member q p.planned ⊎ (q ≡ path)
  Member-push_planned_path q m = elim (Bool-cases (contains_text p.seen (lexical_path_key path))) [
    | inl old ↦ inl (subst (λ (s : Planned). Member q s.planned) (push_planned_path-old old) m)
    | inr new ↦
        elim (Member-append-cases q p.planned (path ∷ [])
          (subst (λ (s : Planned). Member q s.planned) (push_planned_path-new new) m)) [
            | inl before ↦ inl before
            | inr (inl last) ↦ inr last
            | inr (inr none) ↦ absurd none
          ]
  ]

  pub push_planned_path-seen :
      contains_text (push_planned_path p path).seen (lexical_path_key path) ≡ true
  push_planned_path-seen = elim (Bool-cases (contains_text p.seen (lexical_path_key path))) [
    | inl old ↦
        subst (λ (s : Planned). contains_text s.seen (lexical_path_key path) ≡ true)
          (sym (push_planned_path-old old)) old
    | inr new ↦
        subst (λ (s : Planned). contains_text s.seen (lexical_path_key path) ≡ true)
          (sym (push_planned_path-new new))
          ((contains_text_iff (p.seen ++ lexical_path_key path ∷ []) (lexical_path_key path)).1 (
            Member-append_right (lexical_path_key path) p.seen (lexical_path_key path ∷ [])
              (inl refl)))
  ]

  pub push_planned_path-keeps :
      (key : Text)
      → contains_text p.seen key ≡ true
      → contains_text (push_planned_path p path).seen key ≡ true
  push_planned_path-keeps key seen =
      elim (Bool-cases (contains_text p.seen (lexical_path_key path))) [
        | inl old ↦
            subst (λ (s : Planned). contains_text s.seen key ≡ true)
              (sym (push_planned_path-old old)) seen
        | inr new ↦
            subst (λ (s : Planned). contains_text s.seen key ≡ true)
              (sym (push_planned_path-new new))
              ((contains_text_iff (p.seen ++ lexical_path_key path ∷ []) key).1 (
                Member-append_left key p.seen (lexical_path_key path ∷ [])
                  ((contains_text_iff p.seen key).0 seen)))
      ]
