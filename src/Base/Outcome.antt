-- ===== src/Base/Outcome.antt =====
-- Rust's `Result`, with its `?` as a bind.
use mathlib.Core.Path.{◌≡◌, refl}
use mathlib.Core.Logic.{◌⊎◌, inl, inr}
use mathlib.Core.Option.{Option, none, some}

pub data Result (E T : Type 0) : Type 0 where
  err : E → Result E T
  ok : T → Result E T

infixl 5 ◌>>=◌
module _ {E T U : Type 0} where
  abbrev pub ◌>>=◌ : Result E T → (T → Result E U) → Result E U
  ◌>>=◌ (err why) rest = err why
  ◌>>=◌ (ok value) rest = rest value

  -- A chain that succeeds has succeeded in its first step.
  pub ok_of_bind :
      (first : Result E T) (rest : T → Result E U) {result : U}
      → ◌>>=◌ first rest ≡ ok result
      → (value : T) × (first ≡ ok value) × (rest value ≡ ok result)
  ok_of_bind (err why) rest e = cc
  ok_of_bind (ok value) rest e = (value, refl, e)

-- `ok_or`
abbrev pub ok_or : {E T : Type 0} → Option T → E → Result E T
ok_or none why = err why
ok_or (some value) why = ok value

module _ {E T U : Type 0} where
  pub some_of_bind :
      (first : Option T) (why : E) (rest : T → Result E U) {result : U}
      → ◌>>=◌ (ok_or first why) rest ≡ ok result
      → (value : T) × (first ≡ some value) × (rest value ≡ ok result)
  some_of_bind none why rest e = cc
  some_of_bind (some value) why rest e = (value, refl, e)

pub ok-injective : {E T : Type 0} {a b : T} → ◌≡◌ {A = Result E T} (ok a) (ok b) → a ≡ b
ok-injective e = cc

pub Result-cases :
    {E T : Type 0} (r : Result E T) → ((why : E) × (r ≡ err why)) ⊎ ((t : T) × (r ≡ ok t))
Result-cases (err why) = inl (why, refl)
Result-cases (ok t) = inr (t, refl)
