-- ===== src/Base/Text/Laws.antt =====
-- What the other modules use of texts' equality.
use yj_sandbox.Base.Text.{Text, text_eq, texts_eq, texts_start_with, contains_text}
use mathlib.Core.Path.{◌≡◌, refl}
use mathlib.Core.Logic.{◌↔◌}
use mathlib.Core.Bool.{true}
use yj_sandbox.Base.Lists.{Member}
use mathlib.Core.List.{List, [], ◌∷◌}
use native.Mathlib.Omega.{arith}

pub text_eq_refl : (a : Text) → text_eq a a ≡ true
unfolding text_eq
text_eq_refl [] = refl
text_eq_refl (x ∷ xs) = ground (arith, text_eq_refl xs)

pub text_eq_iff : (a b : Text) → (text_eq a b ≡ true) ↔ (a ≡ b)
unfolding text_eq
text_eq_iff [] [] = ground arith
text_eq_iff [] (y ∷ ys) = ground arith
text_eq_iff (x ∷ xs) [] = ground arith
text_eq_iff (x ∷ xs) (y ∷ ys) = ground (arith, text_eq_iff xs ys)

pub texts_eq_refl : (a : List Text) → texts_eq a a ≡ true
unfolding texts_eq
texts_eq_refl [] = refl
texts_eq_refl (x ∷ xs) = ground (arith, text_eq_refl x, texts_eq_refl xs)

pub texts_eq_iff : (a b : List Text) → (texts_eq a b ≡ true) ↔ (a ≡ b)
unfolding texts_eq
texts_eq_iff [] [] = ground arith
texts_eq_iff [] (y ∷ ys) = ground arith
texts_eq_iff (x ∷ xs) [] = ground arith
texts_eq_iff (x ∷ xs) (y ∷ ys) = ground (arith, text_eq_iff x y, texts_eq_iff xs ys)

pub texts_start_with_refl : (a : List Text) → texts_start_with a a ≡ true
unfolding texts_start_with
texts_start_with_refl [] = refl
texts_start_with_refl (x ∷ xs) = ground (arith, text_eq_refl x, texts_start_with_refl xs)

pub texts_start_with_trans :
    (a b c : List Text)
    → texts_start_with a b ≡ true
    → texts_start_with b c ≡ true
    → texts_start_with a c ≡ true
unfolding texts_start_with
texts_start_with_trans a b [] h k = refl
texts_start_with_trans a [] (z ∷ zs) h k = ground arith
texts_start_with_trans [] (y ∷ ys) (z ∷ zs) h k = ground arith
texts_start_with_trans (x ∷ xs) (y ∷ ys) (z ∷ zs) h k =
    ground
      (arith, text_eq_iff x y, text_eq_iff y z, text_eq_iff x z, texts_start_with_trans xs ys zs)

pub contains_text_iff : (xs : List Text) (t : Text) → (contains_text xs t ≡ true) ↔ Member t xs
unfolding contains_text
contains_text_iff [] t = ground arith
contains_text_iff (x ∷ xs) t = ground (arith, text_eq_iff t x, contains_text_iff xs t)
