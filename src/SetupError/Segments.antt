-- ===== src/SetupError/Segments.antt =====
-- Splitting a text at its separators and joining it again, as src/setup_error.rs does.
use mathlib.Core.List.{append_assoc, append-nil}
use yj_sandbox.Base.{
  ℕ, suc, true, false, ◌≡◌, refl, sym, ap, ◌∙◌, subst, List, [], ◌∷◌, ◌++◌, All, All-append, keep,
  length, arith, Bool-cases, inl, inr,
}
use yj_sandbox.Base.Text.{Text}
use yj_sandbox.SetupError.{is_separator, split_segments, join_segments}

-- The segments of a text whose first one begins with what is read already.
unfoldable pub segments_from : Text → Text → List Text
segments_from current [] = current ∷ []
segments_from current (c ∷ value) = elim (is_separator c) [
  | true ↦ current ∷ segments_from [] value
  | false ↦ segments_from (current ++ c ∷ []) value
]

abbrev pub segments_of : Text → List Text
segments_of value = segments_from [] value

abbrev pub separators_of : Text → List ℕ
separators_of value = keep is_separator value

pub split_segments_lem :
    (value current : Text) (segments : List Text) (separators : List ℕ)
    → split_segments current segments separators value
      ≡ (segments ++ segments_from current value, separators ++ separators_of value)
unfolding split_segments segments_from
split_segments_lem [] current segments separators =
    ap (λ l. (segments ++ current ∷ [], l)) (sym (append-nil separators))
split_segments_lem (c ∷ value) current segments separators = elim (Bool-cases (is_separator c)) [
  | inl sep ↦
      rw (sep, segments_from, split_segments)
        (split_segments_lem value [] (segments ++ current ∷ []) (separators ++ c ∷ [])
          ∙ rw
              (
                append_assoc segments (current ∷ []) (segments_from [] value),
                append_assoc separators (c ∷ []) (separators_of value),
              )
              refl)
  | inr plain ↦
      rw (plain, segments_from, split_segments)
        (split_segments_lem value (current ++ c ∷ []) segments separators)
]

-- A segment holds no separator.
abbrev pub IsSegment : Text → Type 0
IsSegment s = All (λ c. is_separator c ≡ false) s

module _ (c : ℕ) (value current : Text) where
  segments_from-separator :
      is_separator c ≡ true → segments_from current (c ∷ value) ≡ current ∷ segments_from [] value
  unfolding segments_from
  segments_from-separator sep = rw (sep, segments_from) refl

  segments_from-plain :
      is_separator c ≡ false
      → segments_from current (c ∷ value) ≡ segments_from (current ++ c ∷ []) value
  unfolding segments_from
  segments_from-plain plain = rw (plain, segments_from) refl

pub segments_from-IsSegment :
    (value current : Text) → IsSegment current → All IsSegment (segments_from current value)
unfolding segments_from
segments_from-IsSegment [] current h = (h, tt)
segments_from-IsSegment (c ∷ value) current h = elim (Bool-cases (is_separator c)) [
  | inl sep ↦
      subst (All IsSegment) (sym (segments_from-separator c value current sep))
        (h, segments_from-IsSegment value [] tt)
  | inr plain ↦ subst (All IsSegment) (sym (segments_from-plain c value current plain)) (
      segments_from-IsSegment value (current ++ c ∷ [])
        (All-append (λ x. is_separator x ≡ false) current (c ∷ []) h (plain, tt)))
]

segments_from-append :
    (s current rest : Text)
    → IsSegment s
    → segments_from current (s ++ rest) ≡ segments_from (current ++ s) rest
unfolding segments_from
segments_from-append [] current rest h = ap (λ x. segments_from x rest) (sym (append-nil current))
segments_from-append (c ∷ s) current rest (plain, h) =
    rw (plain, segments_from)
      (segments_from-append s (current ++ c ∷ []) rest h
        ∙ ap (λ x. segments_from x rest) (append_assoc current (c ∷ []) s))

keep_separator :
    (c : ℕ) (value : Text)
    → is_separator c ≡ true
    → separators_of (c ∷ value) ≡ c ∷ separators_of value
keep_separator c value sep = rw sep refl

skip_plain :
    (c : ℕ) (value : Text)
    → is_separator c ≡ false
    → separators_of (c ∷ value) ≡ separators_of value
skip_plain c value plain = rw plain refl

pub segments_from-length :
    (value current : Text)
    → length (segments_from current value) ≡ suc (length (separators_of value))
unfolding segments_from
segments_from-length [] current = omega arith
segments_from-length (c ∷ value) current = elim (Bool-cases (is_separator c)) [
  | inl sep ↦
      rw (segments_from-separator c value current sep, keep_separator c value sep)
        (ap suc (segments_from-length value []))
  | inr plain ↦
      rw (segments_from-plain c value current plain, skip_plain c value plain)
        (segments_from-length value (current ++ c ∷ []))
]

pub separators-are : (value : Text) → All (λ c. is_separator c ≡ true) (separators_of value)
separators-are [] = tt
separators-are (c ∷ value) = elim (Bool-cases (is_separator c)) [
  | inl sep ↦
      subst (All (λ c. is_separator c ≡ true)) (sym (keep_separator c value sep))
        (sep, separators-are value)
  | inr plain ↦
      subst (All (λ c. is_separator c ≡ true)) (sym (skip_plain c value plain))
        (separators-are value)
]

pub join-segments_from :
    (value current : Text)
    → join_segments (segments_from current value) (separators_of value) ≡ current ++ value
unfolding segments_from join_segments
join-segments_from [] current = ap (λ l. current ++ l) refl
join-segments_from (c ∷ value) current = elim (Bool-cases (is_separator c)) [
  | inl sep ↦
      rw (segments_from-separator c value current sep, keep_separator c value sep)
        (ap (λ l. current ++ c ∷ l) (join-segments_from value []))
  | inr plain ↦
      rw (segments_from-plain c value current plain, skip_plain c value plain)
        (join-segments_from value (current ++ c ∷ []) ∙ append_assoc current (c ∷ []) value)
]

pub segments_of-join :
    (segments : List Text) (separators : List ℕ)
    → length segments ≡ suc (length separators)
    → All (λ c. is_separator c ≡ true) separators
    → All IsSegment segments
    → segments_of (join_segments segments separators) ≡ segments
unfolding join_segments segments_from
segments_of-join [] separators e seps segs = absurd (ground arith)
segments_of-join (s ∷ []) [] e seps segs = segments_from-append s [] [] segs.0
segments_of-join (s ∷ []) (c ∷ separators) e seps segs = absurd (omega arith)
segments_of-join (s ∷ t ∷ segments) [] e seps segs = absurd (omega arith)
segments_of-join (s ∷ t ∷ segments) (c ∷ separators) e seps segs =
    let rest = join_segments (t ∷ segments) separators in
    segments_from-append s [] (c ∷ rest) segs.0
    ∙ segments_from-separator c rest s seps.0
    ∙ ap (λ l. s ∷ l) (segments_of-join (t ∷ segments) separators (omega arith) seps.1 segs.1)
