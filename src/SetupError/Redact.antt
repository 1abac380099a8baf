-- ===== src/SetupError/Redact.antt =====
-- The names that a redacted text no longer has: `redact_username_segments` of src/setup_error.rs.
use yj_sandbox.Base.{
  suc, Bool, false, ◌≡◌, refl, sym, ap, ◌∙◌, subst, List, [], ◌∷◌, any, All, is_empty, map, length,
  arith, Bool-cases, inl, inr,
}
use yj_sandbox.Base.Text.{Text, codes}
use yj_sandbox.SetupError.{join_segments, matches_name, redact_segment, redact_username_segments}
use yj_sandbox.SetupError.Segments.{
  segments_of, separators_of, split_segments_lem, IsSegment, segments_from-IsSegment,
  segments_from-length, separators-are, join-segments_from, segments_of-join,
}

module _ (windows : Bool) (usernames : List Text) where
  user-IsSegment : IsSegment (codes "<user>")
  user-IsSegment = (refl, (refl, (refl, (refl, (refl, (refl, tt))))))

  redact_segment-IsSegment :
      (s : Text) → IsSegment s → IsSegment (redact_segment windows usernames s)
  unfolding redact_segment
  redact_segment-IsSegment s h = elim (Bool-cases (any (matches_name windows s) usernames)) [
    | inl hit ↦ rw hit user-IsSegment
    | inr miss ↦ rw miss h
  ]

  map-IsSegment :
      (segments : List Text)
      → All IsSegment segments
      → All IsSegment (map (redact_segment windows usernames) segments)
  map-IsSegment [] h = tt
  map-IsSegment (s ∷ segments) h = (redact_segment-IsSegment s h.0, map-IsSegment segments h.1)

  map-length :
      (segments : List Text)
      → length (map (redact_segment windows usernames) segments) ≡ length segments
  map-length [] = refl
  map-length (s ∷ segments) = ap suc (map-length segments)

  redact_segment-unmatched :
      (s : Text)
      → any (matches_name windows s) usernames ≡ false
      → redact_segment windows usernames s ≡ s
  unfolding redact_segment
  redact_segment-unmatched s miss = rw miss refl

  no_names : (s : Text) → usernames ≡ [] → any (matches_name windows s) usernames ≡ false
  no_names s e = rw e refl

  map-no_names :
      (segments : List Text)
      → usernames ≡ []
      → segments ≡ map (redact_segment windows usernames) segments
  map-no_names [] e = refl
  map-no_names (s ∷ segments) e =
      cc (redact_segment-unmatched s (no_names s e), map-no_names segments e)

  redacted-join :
      (value : Text)
      → redact_username_segments windows value usernames
        ≡ join_segments
            (map (redact_segment windows usernames) (segments_of value))
            (separators_of value)
  unfolding redact_username_segments
  redacted-join value = elim (Bool-cases (is_empty usernames)) [
    | inl empty ↦ rw empty (
        sym (join-segments_from value [])
        ∙ ap (λ segments. join_segments segments (separators_of value))
            (map-no_names (segments_of value) (ground arith)))
    | inr some_name ↦ rw (some_name, split_segments_lem value [] [] []) refl
  ]

  -- The redacted text is the segments of the text, each that matches a name replaced and every other
  -- as it is, with the same separators between them; and these are its segments.
  redact-segments :
      (value : Text)
      → (redact_username_segments windows value usernames
          ≡ join_segments
              (map (redact_segment windows usernames) (segments_of value))
              (separators_of value))
        × (segments_of (redact_username_segments windows value usernames)
            ≡ map (redact_segment windows usernames) (segments_of value))
  redact-segments value = (
    redacted-join value,
    ap segments_of (redacted-join value)
        ∙ segments_of-join (map (redact_segment windows usernames) (segments_of value))
            (separators_of value) (map-length (segments_of value) ∙ segments_from-length value [])
            (separators-are value)
            (map-IsSegment (segments_of value) (segments_from-IsSegment value [] tt)),
  )

  redact_segment-clean :
      any (matches_name windows (codes "<user>")) usernames ≡ false
      → (s : Text)
      → any (matches_name windows (redact_segment windows usernames s)) usernames ≡ false
  unfolding redact_segment
  redact_segment-clean user s = elim (Bool-cases (any (matches_name windows s) usernames)) [
    | inl hit ↦ rw hit user
    | inr miss ↦ rw miss miss
  ]

  map-clean :
      any (matches_name windows (codes "<user>")) usernames ≡ false
      → (segments : List Text)
      → All
          (λ s. any (matches_name windows s) usernames ≡ false)
          (map (redact_segment windows usernames) segments)
  map-clean user [] = tt
  map-clean user (s ∷ segments) = (redact_segment-clean user s, map-clean user segments)

  -- No segment of the redacted text is a name, unless `<user>` is one.
  pub redact-clean :
      (value : Text)
      → any (matches_name windows (codes "<user>")) usernames ≡ false
      → All
          (λ s. any (matches_name windows s) usernames ≡ false)
          (segments_of (redact_username_segments windows value usernames))
  redact-clean value user =
      subst (All (λ s. any (matches_name windows s) usernames ≡ false))
        (sym (redact-segments value).1) (map-clean user (segments_of value))
