-- ===== src/Base/Sorting.antt =====
-- `sort_by_key` with a text as the key, and `dedup_by` on equal keys.
use mathlib.Core.Path.{◌≡◌, refl, ap, ◌∙◌}
use mathlib.Core.Logic.{◌⊎◌, ◌↔◌, inl, inr}
use mathlib.Core.Bool.{true, false}
use mathlib.Core.List.{List, [], ◌∷◌}
use native.Mathlib.Omega.{arith}
use yj_sandbox.Base.Tests.{if◌then◌else◌, Bool-cases}
use yj_sandbox.Base.Lists.{Member, All}
use yj_sandbox.Base.Text.{Text, text_eq}
use yj_sandbox.Base.Text.Laws.{text_eq_iff}
use yj_sandbox.Base.Ordered.{text_ltb, text_ltb_total, text_ltb_asym, text_ltb_trans}

module _ {A : Type 0} (key : A → Text) where
  -- After the items whose keys are equal: the sort is stable.
  unfoldable pub sort_insert : A → List A → List A
  sort_insert a [] = a ∷ []
  sort_insert a (x ∷ xs) =
      let rest = sort_insert a xs in if text_ltb (key a) (key x) then a ∷ x ∷ xs else x ∷ rest

  unfoldable pub sort_onto : List A → List A → List A
  sort_onto sorted [] = sorted
  sort_onto sorted (a ∷ more) = sort_onto (sort_insert a sorted) more

  unfoldable pub sort_by_key : List A → List A
  unfolding sort_onto
  sort_by_key xs = sort_onto [] xs

  -- what follows an item that is kept
  unfoldable pub dedup_after : A → List A → List A
  dedup_after last [] = []
  dedup_after last (x ∷ xs) =
      let skipped = dedup_after last xs in
      let kept = x ∷ dedup_after x xs in if text_eq (key x) (key last) then skipped else kept

  unfoldable pub dedup_by_key : List A → List A
  unfolding dedup_after
  dedup_by_key [] = []
  dedup_by_key (x ∷ xs) = x ∷ dedup_after x xs

  -- No item's key is less than one before it; each item's key is greater than those before it.
  abbrev pub IsSorted : List A → Type 0
  IsSorted [] = Unit
  IsSorted (x ∷ xs) = All (λ y. text_ltb (key y) (key x) ≡ false) xs × IsSorted xs

  abbrev pub IsStrict : List A → Type 0
  IsStrict [] = Unit
  IsStrict (x ∷ xs) = All (λ y. text_ltb (key x) (key y) ≡ true) xs × IsStrict xs

module _ {A : Type 0} (key : A → Text) where
  sort_insert-All :
      (P : A → Type 0) (a : A) (xs : List A) → P a → All P xs → All P (sort_insert key a xs)
  unfolding sort_insert
  sort_insert-All P a [] p all = (p, tt)
  sort_insert-All P a (x ∷ xs) p all = elim (Bool-cases (text_ltb (key a) (key x))) [
    | inl before ↦ rw before (p, all)
    | inr after ↦ rw after (all.0, sort_insert-All P a xs p all.1)
  ]

  later :
      (a x : A) (xs : List A)
      → text_ltb (key a) (key x) ≡ true
      → All (λ y. text_ltb (key y) (key x) ≡ false) xs
      → All (λ y. text_ltb (key y) (key a) ≡ false) xs
  later a x [] less all = tt
  later a x (y ∷ ys) less all = (
    text_ltb_asym (key a) (key y) (text_ltb_trans (key a) (key x) (key y) less all.0),
    later a x ys less all.1,
  )

  sort_insert-IsSorted :
      (a : A) (xs : List A) → IsSorted key xs → IsSorted key (sort_insert key a xs)
  unfolding sort_insert
  sort_insert-IsSorted a [] up = (tt, tt)
  sort_insert-IsSorted a (x ∷ xs) up = elim (Bool-cases (text_ltb (key a) (key x))) [
    | inl before ↦ rw before ((text_ltb_asym (key a) (key x) before, later a x xs before up.0), up)
    | inr after ↦ rw after (
      sort_insert-All (λ y. text_ltb (key y) (key x) ≡ false) a xs after up.0,
      sort_insert-IsSorted a xs up.1,
    )
  ]

  sort_onto-IsSorted :
      (sorted xs : List A) → IsSorted key sorted → IsSorted key (sort_onto key sorted xs)
  unfolding sort_onto
  sort_onto-IsSorted sorted [] up = up
  sort_onto-IsSorted sorted (a ∷ xs) up =
      sort_onto-IsSorted (sort_insert key a sorted) xs (sort_insert-IsSorted a sorted up)

  Member-sort_insert :
      (a : A) (xs : List A) (y : A) → Member y (sort_insert key a xs) ↔ ((y ≡ a) ⊎ Member y xs)
  unfolding sort_insert
  Member-sort_insert a [] y = ground arith
  Member-sort_insert a (x ∷ xs) y = ground (arith, Member-sort_insert a xs y)

  Member-sort_onto :
      (sorted xs : List A) (y : A)
      → Member y (sort_onto key sorted xs) ↔ (Member y sorted ⊎ Member y xs)
  unfolding sort_onto
  Member-sort_onto sorted [] y = ground arith
  Member-sort_onto sorted (a ∷ xs) y =
      ground
        (arith, Member-sort_onto (sort_insert key a sorted) xs y, Member-sort_insert a sorted y)

  dedup_after-All :
      (P : A → Type 0) (last : A) (xs : List A) → All P xs → All P (dedup_after key last xs)
  unfolding dedup_after
  dedup_after-All P last [] all = tt
  dedup_after-All P last (x ∷ xs) all = elim (Bool-cases (text_eq (key x) (key last))) [
    | inl same ↦ rw same (dedup_after-All P last xs all.1)
    | inr apart ↦ rw apart (all.0, dedup_after-All P x xs all.1)
  ]

  above :
      (last x : A) (xs : List A)
      → text_ltb (key last) (key x) ≡ true
      → All (λ y. text_ltb (key y) (key x) ≡ false) xs
      → All (λ y. text_ltb (key last) (key y) ≡ true) xs
  above last x [] less all = tt
  above last x (y ∷ ys) less all =
      (text_ltb_trans (key last) (key x) (key y) less all.0, above last x ys less all.1)

  -- In a sorted list whose items do not come before `last`, all that are kept come after it.
  dedup_after-IsStrict :
      (last : A) (xs : List A)
      → All (λ y. text_ltb (key y) (key last) ≡ false) xs
      → IsSorted key xs
      → All (λ y. text_ltb (key last) (key y) ≡ true) (dedup_after key last xs)
        × IsStrict key (dedup_after key last xs)
  unfolding dedup_after
  dedup_after-IsStrict last [] low up = (tt, tt)
  dedup_after-IsStrict last (x ∷ xs) low up = elim (Bool-cases (text_eq (key x) (key last))) [
    | inl same ↦ rw same (dedup_after-IsStrict last xs low.1 up.1)
    | inr apart ↦
        let less = text_ltb_total (key last) (key x) apart low.0 in
        rw apart (
          (
            less,
            dedup_after-All (λ y. text_ltb (key last) (key y) ≡ true) x xs
                (above last x xs less up.0),
          ),
          dedup_after-IsStrict x xs up.0 up.1,
        )
  ]

  Member-dedup_after :
      (last : A) (xs : List A) (y : A) → Member y (dedup_after key last xs) → Member y xs
  unfolding dedup_after
  Member-dedup_after last [] y m = m
  Member-dedup_after last (x ∷ xs) y m =
      ground (arith, Member-dedup_after last xs y, Member-dedup_after x xs y)

  -- Every item has one with its key among those kept.
  dedup_after_cover :
      (last : A) (xs : List A) (y : A)
      → Member y xs
      → (z : A) × ((z ≡ last) ⊎ Member z (dedup_after key last xs)) × (key y ≡ key z)
  unfolding dedup_after
  dedup_after_cover last [] y m = absurd m
  dedup_after_cover last (x ∷ xs) y (inl here) = elim (Bool-cases (text_eq (key x) (key last))) [
    | inl same ↦ (last, inl refl, ap key here ∙ (text_eq_iff (key x) (key last)).0 same)
    | inr apart ↦ (x, rw apart (inr (inl refl)), cc here)
  ]
  dedup_after_cover last (x ∷ xs) y (inr m) = elim (Bool-cases (text_eq (key x) (key last))) [
    | inl same ↦ rw same (dedup_after_cover last xs y m)
    | inr apart ↦ let (z, place, e) = dedup_after_cover x xs y m in (z, rw apart (inr place), e)
  ]

  Member-dedup_by_key : (xs : List A) (y : A) → Member y (dedup_by_key key xs) → Member y xs
  unfolding dedup_by_key
  Member-dedup_by_key [] y m = m
  Member-dedup_by_key (x ∷ xs) y (inl e) = inl e
  Member-dedup_by_key (x ∷ xs) y (inr m) = inr (Member-dedup_after x xs y m)

  dedup_by_key_cover :
      (xs : List A) (y : A)
      → Member y xs
      → (z : A) × Member z (dedup_by_key key xs) × (key y ≡ key z)
  unfolding dedup_by_key
  dedup_by_key_cover [] y m = absurd m
  dedup_by_key_cover (x ∷ xs) y (inl e) = (x, inl refl, ap key e)
  dedup_by_key_cover (x ∷ xs) y (inr m) = dedup_after_cover x xs y m

  dedup_by_key-IsStrict : (xs : List A) → IsSorted key xs → IsStrict key (dedup_by_key key xs)
  unfolding dedup_by_key
  dedup_by_key-IsStrict [] up = tt
  dedup_by_key-IsStrict (x ∷ xs) up = dedup_after-IsStrict x xs up.0 up.1

  -- The list that is sorted and freed of items with equal keys.
  pub dedup-sort-IsStrict : (xs : List A) → IsStrict key (dedup_by_key key (sort_by_key key xs))
  unfolding sort_by_key
  dedup-sort-IsStrict xs = dedup_by_key-IsStrict (sort_onto key [] xs) (sort_onto-IsSorted [] xs tt)

  pub Member-dedup-sort :
      (xs : List A) (y : A) → Member y (dedup_by_key key (sort_by_key key xs)) → Member y xs
  unfolding sort_by_key
  Member-dedup-sort xs y m =
      ground (arith, Member-sort_onto [] xs y, Member-dedup_by_key (sort_onto key [] xs) y m)

  pub dedup-sort_cover :
      (xs : List A) (y : A)
      → Member y xs
      → (z : A) × Member z (dedup_by_key key (sort_by_key key xs)) × (key y ≡ key z)
  unfolding sort_by_key
  dedup-sort_cover xs y m =
      dedup_by_key_cover (sort_onto key [] xs) y ((Member-sort_onto [] xs y).1 (inr m))
