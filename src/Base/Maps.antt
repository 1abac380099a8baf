-- ===== src/Base/Maps.antt =====
-- `HashMap` and `BTreeMap` with texts as keys: a list of entries, of which the first with a key
-- counts.
use mathlib.Core.Path.{◌≡◌, refl, subst}
use mathlib.Core.Logic.{◌≢◌, inl, inr}
use mathlib.Core.Option.{Option, none, some}
use mathlib.Core.List.{List, [], ◌∷◌}
use native.Mathlib.Omega.{arith}
use yj_sandbox.Base.Tests.{if◌then◌else◌, Bool-cases, Option-cases}
use yj_sandbox.Base.Text.{Text, text_eq}
use yj_sandbox.Base.Text.Laws.{text_eq_iff, text_eq_refl}

abbrev pub TextMap : Type 0 → Type 0
TextMap V = List (Text × V)

module _ {V : Type 0} where
  unfoldable pub map_get : TextMap V → Text → Option V
  map_get [] key = none
  map_get ((k, v) ∷ m) key = if text_eq k key then some v else map_get m key

  unfoldable pub map_insert : Text → V → TextMap V → TextMap V
  map_insert key value [] = (key, value) ∷ []
  map_insert key value ((k, v) ∷ m) =
      let rest = map_insert key value m in if text_eq k key then (k, value) ∷ m else (k, v) ∷ rest

  unfoldable pub map_remove : Text → TextMap V → TextMap V
  map_remove key [] = []
  map_remove key ((k, v) ∷ m) =
      let rest = map_remove key m in if text_eq k key then rest else (k, v) ∷ rest

  -- `entry(key).or_insert_with(…)`
  unfoldable pub map_insert_missing : Text → V → TextMap V → TextMap V
  map_insert_missing key value m = elim (map_get m key) [
    | some _ ↦ m
    | none ↦ map_insert key value m
  ]

module _ {V : Type 0} where
  pub map_get-insert :
      (m : TextMap V) (key : Text) (v : V) → map_get (map_insert key v m) key ≡ some v
  unfolding map_get map_insert
  map_get-insert [] key v = rw (text_eq_refl key) refl
  map_get-insert ((k, u) ∷ m) key v = elim (Bool-cases (text_eq k key)) [
    | inl same ↦ rw same (rw same refl)
    | inr other ↦ rw other (rw other (map_get-insert m key v))
  ]

  pub map_get-insert_other :
      (m : TextMap V) (key : Text) (v : V) (other : Text)
      → key ≢ other
      → map_get (map_insert key v m) other ≡ map_get m other
  unfolding map_get map_insert
  map_get-insert_other [] key v other apart = ground (arith, text_eq_iff key other)
  map_get-insert_other ((k, u) ∷ m) key v other apart =
      ground
        (arith, text_eq_iff k key, text_eq_iff k other, map_get-insert_other m key v other apart)

  pub map_get-remove : (m : TextMap V) (key : Text) → map_get (map_remove key m) key ≡ none
  unfolding map_get map_remove
  map_get-remove [] key = refl
  map_get-remove ((k, u) ∷ m) key = elim (Bool-cases (text_eq k key)) [
    | inl same ↦ rw same (map_get-remove m key)
    | inr other ↦ rw other (rw other (map_get-remove m key))
  ]

  pub map_get-remove_other :
      (m : TextMap V) (key other : Text)
      → key ≢ other
      → map_get (map_remove key m) other ≡ map_get m other
  unfolding map_get map_remove
  map_get-remove_other [] key other apart = refl
  map_get-remove_other ((k, u) ∷ m) key other apart =
      ground (arith, text_eq_iff k key, text_eq_iff k other, map_get-remove_other m key other apart)

  pub map_get-insert_at :
      (m : TextMap V) (key : Text) (v : V) (other : Text)
      → map_get (map_insert key v m) other ≡ (if text_eq key other then some v else map_get m other)
  map_get-insert_at m key v other = elim (Bool-cases (text_eq key other)) [
    | inl same ↦
        let e = (text_eq_iff key other).0 same in
        rw same (subst (λ o. map_get (map_insert key v m) o ≡ some v) e (map_get-insert m key v))
    | inr apart ↦
        rw apart (map_get-insert_other m key v other (λ e. ground (arith, text_eq_iff key other)))
  ]

  pub map_get-insert_missing :
      (m : TextMap V) (key : Text) (v : V) (other : Text)
      → map_get (map_insert_missing key v m) other ≡ (elim (map_get m other) [
        | some u ↦ some u
        | none ↦ if text_eq key other then some v else none
      ])
  unfolding map_insert_missing
  map_get-insert_missing m key v other = elim (Option-cases (map_get m key)) [
    | inl missing ↦ ground (arith, map_get-insert_at m key v other, text_eq_iff key other)
    | inr (u, there) ↦ ground (arith, text_eq_iff key other)
  ]
