-- ===== src/Base/Host.antt =====
-- What the code asks of the operating system and of `std::path`. A path is its text; whether it is
-- absolute, its components and its join are those of the platform (Base/Unix.antt has one).
use mathlib.Core.Path.{◌≡◌}
use mathlib.Core.Bool.{Bool, true}
use mathlib.Core.Option.{Option}
use mathlib.Core.List.{List}
use native.Mathlib.Omega.{arith}
use yj_sandbox.Base.Text.{Text, texts_eq, texts_start_with}
use yj_sandbox.Base.Text.Laws.{
  texts_eq_refl, texts_eq_iff, texts_start_with_refl, texts_start_with_trans,
}

abbrev pub FilePath : Type 0
FilePath = Text

pub record Host : Type 0 where
  pub is_absolute : FilePath → Bool
  pub join : FilePath → FilePath → FilePath
  pub components : FilePath → List Text
  -- `canonicalize`, with `none` for an error
  pub canonicalize : FilePath → Option FilePath
  pub exists : FilePath → Bool
  -- the variables of the process, and its directory
  pub env_var : Text → Option Text
  pub current_dir : Option FilePath

module _ (h : Host) where
  -- `==` on paths compares their components.
  unfoldable pub path_eq : FilePath → FilePath → Bool
  path_eq p q = texts_eq (h.components p) (h.components q)

  -- `Path::starts_with`
  unfoldable pub path_starts_with : FilePath → FilePath → Bool
  path_starts_with p q = texts_start_with (h.components p) (h.components q)

  pub path_eq_refl : (p : FilePath) → path_eq p p ≡ true
  unfolding path_eq
  path_eq_refl p = texts_eq_refl (h.components p)

  pub path_eq_sym : (p q : FilePath) → path_eq p q ≡ true → path_eq q p ≡ true
  unfolding path_eq
  path_eq_sym p q e = ground (
    arith,
    texts_eq_iff (h.components p) (h.components q),
    texts_eq_iff (h.components q) (h.components p),
  )

  pub path_eq_trans :
      (p q r : FilePath) → path_eq p q ≡ true → path_eq q r ≡ true → path_eq p r ≡ true
  unfolding path_eq
  path_eq_trans p q r e f = ground (
    arith,
    texts_eq_iff (h.components p) (h.components q),
    texts_eq_iff (h.components q) (h.components r),
    texts_eq_iff (h.components p) (h.components r),
  )

  pub path_starts_with_refl : (p : FilePath) → path_starts_with p p ≡ true
  unfolding path_starts_with
  path_starts_with_refl p = texts_start_with_refl (h.components p)

  pub path_starts_with_trans :
      (p q r : FilePath)
      → path_starts_with p q ≡ true
      → path_starts_with q r ≡ true
      → path_starts_with p r ≡ true
  unfolding path_starts_with
  path_starts_with_trans p q r =
      texts_start_with_trans (h.components p) (h.components q) (h.components r)
