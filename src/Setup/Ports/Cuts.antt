-- ===== src/Setup/Ports/Cuts.antt =====
-- Where the parser of URLs in src/setup.rs cuts a text.
use yj_sandbox.Base.{
  ℕ, ◌≤◌, ◌≡◌, ◌⊎◌, ◌↔◌, refl, sym, ap, ◌∙◌, subst, true, inl, inr, [], ◌∷◌, ◌++◌, some, none,
  length, ◌==◌, ==_iff, arith, Option-cases, Bool-cases,
}
use yj_sandbox.Base.Text.{Text, strip_prefix, split_once}
use yj_sandbox.Base.Text.Prefixes.{HasNo, strip_prefix_iff, strip_prefix-none}
use yj_sandbox.Setup.Ports.{rsplit_once, after_first}

module _ (sep : ℕ) where
  pub rsplit_once-none : (s : Text) → rsplit_once sep s ≡ none → HasNo sep s
  unfolding rsplit_once
  rsplit_once-none [] e = tt
  rsplit_once-none (c ∷ s) e = elim (Option-cases (rsplit_once sep s)) [
    | inr (parts, found) ↦ ground (arith, found, e)
    | inl no_more ↦
        ((λ same. ground (arith, no_more, e, ==_iff c sep, same)), rsplit_once-none s no_more)
  ]

  pub HasNo-rsplit_once : (s : Text) → HasNo sep s → rsplit_once sep s ≡ none
  unfolding rsplit_once
  HasNo-rsplit_once [] has = refl
  HasNo-rsplit_once (c ∷ s) has =
      let rest = HasNo-rsplit_once s has.1 in
      elim (Bool-cases (c == sep)) [
        | inl same ↦ absurd (has.0 ((==_iff c sep).0 same))
        | inr apart ↦ rw (rest, apart) refl
      ]

  pub rsplit_once-some :
      (s a b : Text) → rsplit_once sep s ≡ some (a, b) → (s ≡ a ++ (sep ∷ b)) × HasNo sep b
  unfolding rsplit_once
  rsplit_once-some [] a b e = cc e
  rsplit_once-some (c ∷ s) a b e = elim (Option-cases (rsplit_once sep s)) [
    | inr ((a', b'), found) ↦
        let (same, has) = rsplit_once-some s a' b' found in
        (ground (arith, found, e, same), subst (HasNo sep) (ground (arith, found, e)) has)
    | inl no_more ↦ elim (Bool-cases (c == sep)) [
      | inl here ↦ (
        ground (arith, no_more, here, e, ==_iff c sep),
        subst (HasNo sep) (ground (arith, no_more, here, e)) (rsplit_once-none s no_more),
      )
      | inr apart ↦ ground (arith, no_more, apart, e)
    ]
  ]

  pub rsplit_once-last : (a b : Text) → HasNo sep b → rsplit_once sep (a ++ (sep ∷ b)) ≡ some (a, b)
  unfolding rsplit_once
  rsplit_once-last [] b has =
      let here : (sep == sep) ≡ true = (==_iff sep sep).1 refl in
      rw (HasNo-rsplit_once b has, here) refl
  rsplit_once-last (c ∷ a) b has = rw (rsplit_once-last a b has) refl

  -- What stands after the last separator, or all where there is none.
  abbrev pub IsLastPart : Text → Text → Type 0
  IsLastPart part s =
      HasNo sep part × ((s ≡ part) ⊎ ((before : Text) × (s ≡ before ++ (sep ∷ part))))

-- What stands after the first occurrence.
abbrev pub IsAfterFirst : Text → Text → Text → Type 0
IsAfterFirst part s rest =
    (before : Text) × (s ≡ before ++ (part ++ rest))
    × ((b r : Text) → s ≡ b ++ (part ++ r) → length before ≤ length b)

-- An occurrence in a longer text, where none starts at its first character.
later_first :
    (part : Text) (c : ℕ) (s before b r : Text)
    → strip_prefix part (c ∷ s) ≡ none
    → c ∷ s ≡ b ++ (part ++ r)
    → ((b' r' : Text) → s ≡ b' ++ (part ++ r') → length before ≤ length b')
    → length (c ∷ before) ≤ length b
later_first part c s before [] r later e first = absurd (strip_prefix-none part (c ∷ s) later r e)
later_first part c s before (d ∷ b) r later e first = let least = first b r (cc e) in omega arith

pub after_first-some :
    (part s rest : Text) → after_first part s ≡ some rest → IsAfterFirst part s rest
unfolding after_first
after_first-some part [] rest e = cc e
after_first-some part (c ∷ s) rest e = elim (Option-cases (strip_prefix part (c ∷ s))) [
  | inr (r, here) ↦ (
    [],
    (strip_prefix_iff part (c ∷ s) rest).0 (ground (arith, here, e)),
    λ b r' same. omega arith,
  )
  | inl later ↦
      let (before, same, first) = after_first-some part s rest (ground (arith, later, e)) in
      (c ∷ before, ap (λ t. c ∷ t) same, λ b r' e'. later_first part c s before b r' later e' first)
]

-- The other way: the first occurrence is found.
after_first-of :
    (p : ℕ) (ps before rest : Text)
    → ((b r : Text)
        → before ++ ((p ∷ ps) ++ rest) ≡ b ++ ((p ∷ ps) ++ r)
        → length before ≤ length b)
    → after_first (p ∷ ps) (before ++ ((p ∷ ps) ++ rest)) ≡ some rest
unfolding after_first
after_first-of p ps [] rest first =
    let here = (strip_prefix_iff (p ∷ ps) ((p ∷ ps) ++ rest) rest).1 refl in ground (arith, here)
after_first-of p ps (c ∷ before) rest first =
    let s = before ++ ((p ∷ ps) ++ rest) in
    elim (Option-cases (strip_prefix (p ∷ ps) (c ∷ s))) [
      | inr (r, here) ↦
          let least = first [] r ((strip_prefix_iff (p ∷ ps) (c ∷ s) r).0 here) in
          absurd (ground (arith, least))
      | inl later ↦
          let rest_found =
            after_first-of p ps before rest
              (λ b r e. let least = first (c ∷ b) r (ap (λ t. c ∷ t) e) in omega arith) in
          ground (arith, later, rest_found)
    ]

pub after_first_iff :
    (p : ℕ) (ps s rest : Text) → (after_first (p ∷ ps) s ≡ some rest) ↔ IsAfterFirst (p ∷ ps) s rest
after_first_iff p ps s rest = (
  after_first-some (p ∷ ps) s rest,
  λ (before, same, first).
      subst (λ t. after_first (p ∷ ps) t ≡ some rest) (sym same)
        (after_first-of p ps before rest (λ b r e. first b r (same ∙ e))),
)

pub split_once-some : (sep : ℕ) (s a b : Text) → split_once sep s ≡ some (a, b) → s ≡ a ++ (sep ∷ b)
unfolding split_once
split_once-some sep [] a b e = cc e
split_once-some sep (c ∷ s) a b e = elim (Bool-cases (c == sep)) [
  | inl here ↦ ground (arith, here, e, ==_iff c sep)
  | inr apart ↦ elim (Option-cases (split_once sep s)) [
    | inl missing ↦ ground (arith, apart, missing, e)
    | inr ((a', b'), found) ↦
        let same = split_once-some sep s a' b' found in ground (arith, apart, found, e, same)
  ]
]
