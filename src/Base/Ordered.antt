-- ===== src/Base/Ordered.antt =====
-- Numbers and texts in their order: a `BTreeSet` of ports, and `sort_by_key` with `dedup_by` on the keys.
use Prim.Native.Nat.{ℕ, ◌<◌}
use mathlib.Core.Path.{◌≡◌, refl}
use mathlib.Core.Logic.{◌↔◌, ◌⊎◌, inl, inr}
use mathlib.Core.Bool.{Bool, true, false, ◌&&◌, ◌||◌}
use mathlib.Core.List.{List, [], ◌∷◌}
use native.Mathlib.Omega.{arith}
use yj_sandbox.Base.Tests.{ltb, ltb→lt, ◌==◌, ==_iff, if◌then◌else◌, Bool-cases}
use yj_sandbox.Base.Lists.{Member, All}
use yj_sandbox.Base.Text.{Text, text_eq}

-- `BTreeSet::insert`
unfoldable pub insert_port : ℕ → List ℕ → List ℕ
insert_port port [] = port ∷ []
insert_port port (p ∷ ports) =
    let rest = insert_port port ports in
    if ltb port p then port ∷ p ∷ ports else if port == p then p ∷ ports else p ∷ rest

pub insert_port-Member :
    (port : ℕ) (ports : List ℕ) (q : ℕ)
    → Member q (insert_port port ports) ↔ ((q ≡ port) ⊎ Member q ports)
unfolding insert_port
insert_port-Member port [] q = ground arith
insert_port-Member port (p ∷ ports) q =
    ground (arith, insert_port-Member port ports q, ==_iff port p)

-- Each port is greater than the ones before it.
abbrev pub IsIncreasing : List ℕ → Type 0
IsIncreasing [] = Unit
IsIncreasing (p ∷ ports) = All (λ q. p < q) ports × IsIncreasing ports

insert_port-All :
    (low port : ℕ) (ports : List ℕ)
    → low < port
    → All (λ q. low < q) ports
    → All (λ q. low < q) (insert_port port ports)
unfolding insert_port
insert_port-All low port [] less all = (less, tt)
insert_port-All low port (p ∷ ports) less all = elim (Bool-cases (ltb port p)) [
  | inl before ↦ rw before (less, all)
  | inr after ↦ elim (Bool-cases (port == p)) [
    | inl same ↦ rw (after, same) all
    | inr apart ↦ rw (after, apart) (all.0, insert_port-All low port ports less all.1)
  ]
]

above : (low p : ℕ) (ports : List ℕ) → low < p → All (λ q. p < q) ports → All (λ q. low < q) ports
above low p [] less all = tt
above low p (q ∷ ports) less all = (omega arith, above low p ports less all.1)

pub insert_port-IsIncreasing :
    (port : ℕ) (ports : List ℕ) → IsIncreasing ports → IsIncreasing (insert_port port ports)
unfolding insert_port
insert_port-IsIncreasing port [] up = (tt, tt)
insert_port-IsIncreasing port (p ∷ ports) up = elim (Bool-cases (ltb port p)) [
  | inl before ↦
      let less = ltb→lt port p before in rw before ((less, above port p ports less up.0), up)
  | inr after ↦ elim (Bool-cases (port == p)) [
    | inl same ↦ rw (after, same) up
    | inr apart ↦
        rw (after, apart)
          (
            insert_port-All p port ports (ground arith) up.0,
            insert_port-IsIncreasing port ports up.1,
          )
  ]
]

-- `Ord` of `String`: by code points
unfoldable pub text_ltb : Text → Text → Bool
text_ltb [] [] = false
text_ltb [] (y ∷ ys) = true
text_ltb (x ∷ xs) [] = false
text_ltb (x ∷ xs) (y ∷ ys) = ltb x y || (x == y && text_ltb xs ys)

pub text_ltb_total : (a b : Text) → text_eq b a ≡ false → text_ltb b a ≡ false → text_ltb a b ≡ true
unfolding text_ltb text_eq
text_ltb_total [] [] e f = cc
text_ltb_total [] (y ∷ ys) e f = refl
text_ltb_total (x ∷ xs) [] e f = cc
text_ltb_total (x ∷ xs) (y ∷ ys) e f = ground (arith, text_ltb_total xs ys)

pub text_ltb_asym : (a b : Text) → text_ltb a b ≡ true → text_ltb b a ≡ false
unfolding text_ltb
text_ltb_asym [] [] e = cc
text_ltb_asym [] (y ∷ ys) e = refl
text_ltb_asym (x ∷ xs) [] e = cc
text_ltb_asym (x ∷ xs) (y ∷ ys) e = ground (arith, text_ltb_asym xs ys)

pub text_ltb_trans :
    (a b c : Text) → text_ltb a b ≡ true → text_ltb c b ≡ false → text_ltb a c ≡ true
unfolding text_ltb
text_ltb_trans [] [] c e f = cc
text_ltb_trans [] (y ∷ ys) [] e f = cc
text_ltb_trans [] (y ∷ ys) (z ∷ zs) e f = refl
text_ltb_trans (x ∷ xs) [] c e f = cc
text_ltb_trans (x ∷ xs) (y ∷ ys) [] e f = cc
text_ltb_trans (x ∷ xs) (y ∷ ys) (z ∷ zs) e f = ground (arith, text_ltb_trans xs ys zs)
