-- ===== src/Base/Text/Prefixes.antt =====
-- What `strip_prefix`, `starts_with` and the first part of a `split` say of a text.
use Prim.Native.Nat.{ℕ}
use mathlib.Core.Path.{◌≡◌, refl, sym, ap, ◌∙◌}
use mathlib.Core.Logic.{◌⊎◌, ◌↔◌, inl, inr}
use mathlib.Core.Bool.{true}
use mathlib.Core.Option.{none, some}
use mathlib.Core.List.{List, [], ◌∷◌, ◌++◌}
use native.Mathlib.Omega.{arith}
use yj_sandbox.Base.Tests.{◌==◌, ==_iff, if◌then◌else◌, Bool-cases}
use yj_sandbox.Base.Lists.{All}
use yj_sandbox.Base.Text.{Text, strip_prefix, starts_with, split, cons_to_head}

pub strip_prefix_iff : (p s rest : Text) → (strip_prefix p s ≡ some rest) ↔ (s ≡ p ++ rest)
unfolding strip_prefix
strip_prefix_iff [] s rest = (λ e. cc e, λ e. cc e)
strip_prefix_iff (c ∷ p) [] rest = (λ e. cc e, λ e. cc e)
strip_prefix_iff (c ∷ p) (x ∷ s) rest = ground (arith, strip_prefix_iff p s rest, ==_iff c x)

pub strip_prefix-none : (p s : Text) → strip_prefix p s ≡ none → (rest : Text) → ¬ (s ≡ p ++ rest)
strip_prefix-none p s e rest same = ground (arith, e, (strip_prefix_iff p s rest).1 same)

pub starts_with_iff : (s p : Text) → (starts_with s p ≡ true) ↔ ((rest : Text) × (s ≡ p ++ rest))
unfolding starts_with
starts_with_iff s [] = (λ e. (s, refl), λ _. refl)
starts_with_iff [] (c ∷ p) = (λ e. cc e, λ (rest, e). cc e)
starts_with_iff (x ∷ s) (c ∷ p) = (
  λ e.
      let (rest, same) = (starts_with_iff s p).0 (ground (arith, e)) in
      (rest, ground (arith, e, same, ==_iff x c)),
  λ (rest, e). ground (arith, (starts_with_iff s p).1 (rest, cc e), e),
)

module _ (sep : ℕ) where
  before : Text → Text
  before [] = []
  before (c ∷ s) = if c == sep then [] else c ∷ before s

  abbrev pub HasNo : Text → Type 0
  HasNo s = All (λ c. ¬ (c ≡ sep)) s

  before-HasNo : (s : Text) → HasNo (before s)
  unfolding before
  before-HasNo [] = tt
  before-HasNo (c ∷ s) = elim (Bool-cases (c == sep)) [
    | inl here ↦ rw here tt
    | inr other ↦ rw other ((λ e. ground (arith, other, e)), before-HasNo s)
  ]

  before_cases : (s : Text) → (s ≡ before s) ⊎ ((rest : Text) × (s ≡ before s ++ (sep ∷ rest)))
  unfolding before
  before_cases [] = inl refl
  before_cases (c ∷ s) = elim (Bool-cases (c == sep)) [
    | inl here ↦ inr (s, ground (arith, here))
    | inr other ↦ elim (before_cases s) [
      | inl all ↦ inl (ground (arith, other, all))
      | inr (rest, e) ↦ inr (rest, ground (arith, other, e))
    ]
  ]

  before_whole : (s : Text) → HasNo s → before s ≡ s
  unfolding before
  before_whole [] h = refl
  before_whole (c ∷ s) h = ground (arith, before_whole s h.1, h.0)

  before_part : (s rest : Text) → HasNo s → before (s ++ (sep ∷ rest)) ≡ s
  unfolding before
  before_part [] rest h = ground arith
  before_part (c ∷ s) rest h = ground (arith, before_part s rest h.1, h.0)

  split-before : (s : Text) → (more : List Text) × (split sep s ≡ before s ∷ more)
  unfolding split before
  split-before [] = ([], refl)
  split-before (c ∷ s) =
      let (more, e) = split-before s in
      elim (Bool-cases (c == sep)) [
        | inl here ↦ (split sep s, rw here refl)
        | inr other ↦ (more, rw other (ap (cons_to_head c) e))
      ]

  -- The part of the text before the separator, or all of it where there is none.
  abbrev pub IsFirstPart : Text → Text → Type 0
  IsFirstPart part s = HasNo part × ((s ≡ part) ⊎ ((rest : Text) × (s ≡ part ++ (sep ∷ rest))))

  pub split-IsFirstPart :
      (s : Text)
      → (part : Text) × ((more : List Text) × (split sep s ≡ part ∷ more)) × IsFirstPart part s
  split-IsFirstPart s = (before s, split-before s, (before-HasNo s, before_cases s))

  before_of : (s a : Text) → IsFirstPart a s → before s ≡ a
  before_of s a (has, inl e) = ap before e ∙ before_whole a has
  before_of s a (has, inr (rest, e)) = ap before e ∙ before_part a rest has

  pub IsFirstPart-unique : (s a b : Text) → IsFirstPart a s → IsFirstPart b s → a ≡ b
  IsFirstPart-unique s a b p q = sym (before_of s a p) ∙ before_of s b q
