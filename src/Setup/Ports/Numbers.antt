-- ===== src/Setup/Ports/Numbers.antt =====
-- The texts that `parse::<u16>` of src/setup.rs takes for a port.
use yj_sandbox.Base.{
  ℕ, ◌+◌, ◌*◌, ◌-◌, ◌<◌, ◌≤◌, ◌≡◌, ◌≢◌, ◌⊎◌, ◌↔◌, refl, sym, subst, ◌&&◌, leb, ltb, inl, inr, [],
  ◌∷◌, some, All, ◌==◌, ==_iff, arith, Option-cases, Bool-cases,
}
use yj_sandbox.Base.Text.{Text}
use yj_sandbox.Base.Text.Prefixes.{HasNo}
use yj_sandbox.Setup.Ports.{value_of_digits, parse_u16, nonzero}

abbrev pub IsDigit : ℕ → Type 0
IsDigit c = (b'0' ≤ c) × (c ≤ b'9')

-- The decimal number that the digits continue.
abbrev pub number : ℕ → Text → ℕ
number value [] = value
number value (c ∷ cs) = number (value * 10 + (c - b'0')) cs

-- Digits for a number from 1 to 65535, which may follow a plus.
abbrev pub IsNumber : Text → ℕ → Type 0
IsNumber s q =
    (digits : Text) × ((s ≡ digits) ⊎ (s ≡ b'+' ∷ digits))
    × (digits ≢ [])
    × All IsDigit digits
    × (number 0 digits ≡ q)
    × (0 < q)
    × (q < 65536)

number_grows : (value : ℕ) (s : Text) → value ≤ number value s
number_grows value [] = omega arith
number_grows value (c ∷ cs) = let later = number_grows (value * 10 + (c - b'0')) cs in omega arith

value_of_digits-some :
    (value : ℕ) (s : Text) (q : ℕ)
    → value < 65536
    → value_of_digits value s ≡ some q
    → All IsDigit s × (number value s ≡ q) × (q < 65536)
unfolding value_of_digits
value_of_digits-some value [] q low e = (tt, ground arith, ground arith)
value_of_digits-some value (c ∷ cs) q low e =
    let next = value * 10 + (c - 48) in
    elim (Bool-cases (leb b'0' c && leb c b'9' && ltb next 65536)) [
      | inl fine ↦
          let (digits, same, bound) =
            value_of_digits-some next cs q (ground (arith, fine)) (ground (arith, e, fine)) in
          ((ground (arith, fine), digits), same, bound)
      | inr wrong ↦ ground (arith, e, wrong)
    ]

value_of_digits_of :
    (value : ℕ) (s : Text)
    → All IsDigit s
    → number value s < 65536
    → value_of_digits value s ≡ some (number value s)
unfolding value_of_digits
value_of_digits_of value [] digits low = refl
value_of_digits_of value (c ∷ cs) digits low =
    let next = value * 10 + (c - 48) in
    let later = value_of_digits_of next cs digits.1 low in
    let grows = number_grows next cs in
    let (from, to) = digits.0 in ground (arith, later, grows, from, to, low)

parse_u16-some :
    (s : Text) (q : ℕ)
    → parse_u16 s ≡ some q
    → (digits : Text) × ((s ≡ digits) ⊎ (s ≡ b'+' ∷ digits))
      × (digits ≢ [])
      × All IsDigit digits
      × (number 0 digits ≡ q)
      × (q < 65536)
unfolding parse_u16
parse_u16-some [] q e = cc e
parse_u16-some (c ∷ []) q e = elim (Bool-cases (c == b'+')) [
  | inl plus ↦ ground (arith, e, plus)
  | inr digit ↦
      let (digits, value, bound) =
        value_of_digits-some 0 (c ∷ []) q (omega arith) (ground (arith, e, digit)) in
      (c ∷ [], inl refl, λ empty. cc empty, digits, value, bound)
]
parse_u16-some (c ∷ d ∷ cs) q e = elim (Bool-cases (c == b'+')) [
  | inl plus ↦
      let (digits, value, bound) =
        value_of_digits-some 0 (d ∷ cs) q (omega arith) (ground (arith, e, plus)) in
      (d ∷ cs, inr (ground (arith, ==_iff c b'+', plus)), λ empty. cc empty, digits, value, bound)
  | inr digit ↦
      let (digits, value, bound) =
        value_of_digits-some 0 (c ∷ d ∷ cs) q (omega arith) (ground (arith, e, digit)) in
      (c ∷ d ∷ cs, inl refl, λ empty. cc empty, digits, value, bound)
]

parse_u16_plain :
    (digits : Text) → digits ≢ [] → All IsDigit digits → parse_u16 digits ≡ value_of_digits 0 digits
unfolding parse_u16
parse_u16_plain [] filled digits = absurd (filled refl)
parse_u16_plain (c ∷ []) filled digits =
    let (from, to) = digits.0 in ground (arith, ==_iff c b'+', from, to)
parse_u16_plain (c ∷ d ∷ cs) filled digits =
    let (from, to) = digits.0 in ground (arith, ==_iff c b'+', from, to)

parse_u16_plus :
    (digits : Text) → digits ≢ [] → parse_u16 (b'+' ∷ digits) ≡ value_of_digits 0 digits
unfolding parse_u16
parse_u16_plus [] filled = absurd (filled refl)
parse_u16_plus (d ∷ cs) filled = refl

pub IsNumber-iff : (s : Text) (q : ℕ) → (nonzero (parse_u16 s) ≡ some q) ↔ IsNumber s q
IsNumber-iff s q = (
  λ e. elim (Option-cases (parse_u16 s)) [
    | inl wrong ↦ ground (arith, wrong, e)
    | inr (n, parsed) ↦
        let same : n ≡ q = ground (arith, parsed, e) in
        let positive : 0 < q = ground (arith, parsed, e) in
        let (digits, form, filled, all, value, bound) = parse_u16-some s n parsed in
        (
          digits,
          form,
          filled,
          all,
          ground (arith, value, same),
          positive,
          ground (arith, bound, same),
        )
  ],
  λ (digits, form, filled, all, value, positive, bound).
      let parsed = value_of_digits_of 0 digits all (ground (arith, value, bound)) in
      elim form [
        | inl plain ↦
            ground (arith, plain, parse_u16_plain digits filled all, parsed, value, positive)
        | inr plus ↦ ground (arith, plus, parse_u16_plus digits filled, parsed, value, positive)
      ],
)

HasNo-digits : (sep : ℕ) (digits : Text) → b'9' < sep → All IsDigit digits → HasNo sep digits
HasNo-digits sep [] above all = tt
HasNo-digits sep (c ∷ cs) above all =
    let (from, to) = all.0 in ((λ e. ground (arith, e, to, above)), HasNo-digits sep cs above all.1)

-- A number has no character after `9`.
pub IsNumber-HasNo : (sep : ℕ) (s : Text) (q : ℕ) → b'9' < sep → IsNumber s q → HasNo sep s
IsNumber-HasNo sep s q above (digits, inl plain, filled, all, value, positive, bound) =
    subst (HasNo sep) (sym plain) (HasNo-digits sep digits above all)
IsNumber-HasNo sep s q above (digits, inr plus, filled, all, value, positive, bound) =
    subst (HasNo sep) (sym plus)
      ((λ e. ground (arith, e, above)), HasNo-digits sep digits above all)
