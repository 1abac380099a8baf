-- ===== src/Base/Distinct.antt =====
-- Lists no two items of which a Boolean test makes equal, as they grow at their end.
use mathlib.Core.Path.{◌≡◌}
use mathlib.Core.Bool.{Bool, false}
use mathlib.Core.List.{List, [], ◌∷◌, ◌++◌}
use native.Mathlib.Omega.{arith}
use yj_sandbox.Base.Lists.{any, All, All-append}

module _ {A : Type 0} (eq : A → A → Bool) where
  abbrev pub Distinct : List A → Type 0
  Distinct [] = Unit
  Distinct (x ∷ xs) = All (λ y. eq x y ≡ false) xs × Distinct xs

  pub Distinct-append :
      (xs : List A) (k : A) → any (λ x. eq x k) xs ≡ false → Distinct xs → Distinct (xs ++ k ∷ [])
  Distinct-append [] k new d = (tt, tt)
  Distinct-append (x ∷ xs) k new (apart, d) = (
    All-append (λ y. eq x y ≡ false) xs (k ∷ []) apart (ground arith, tt),
    Distinct-append xs k (ground arith) d,
  )
