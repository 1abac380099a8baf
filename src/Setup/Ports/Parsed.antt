-- ===== src/Setup/Ports/Parsed.antt =====
-- The ports that the parsers of src/setup.rs give can be reached.
use yj_sandbox.Base.{
  ℕ, ◌+◌, ◌*◌, ◌-◌, ◌<◌, ◌≡◌, inl, inr, [], ◌∷◌, some, ◌==◌, if◌then◌else◌, arith, Option-cases,
}
use yj_sandbox.Base.Text.{Text, codes, split, split_once, strip_prefix, trim}
use yj_sandbox.Setup.Ports.{
  rsplit_once, after_first, first_part, host_port_of, value_of_digits, parse_u16, nonzero,
  bracketed_port, named_port, loopback_proxy_port_from_url,
}

value_of_digits_bound :
    (value : ℕ) (s : Text) (n : ℕ) → value < 65536 → value_of_digits value s ≡ some n → n < 65536
unfolding value_of_digits
value_of_digits_bound value [] n low e = ground arith
value_of_digits_bound value (c ∷ cs) n low e =
    ground (arith, value_of_digits_bound (value * 10 + (c - 48)) cs n)

parse_u16_bound : (s : Text) (n : ℕ) → parse_u16 s ≡ some n → n < 65536
unfolding parse_u16
parse_u16_bound [] n e = cc
parse_u16_bound (c ∷ []) n e = ground (arith, value_of_digits_bound 0 (c ∷ []) n)
parse_u16_bound (c ∷ d ∷ cs) n e =
    value_of_digits_bound 0 (if c == b'+' then d ∷ cs else c ∷ d ∷ cs) n (omega arith) e

-- A port that can be reached.
abbrev pub IsPort : ℕ → Type 0
IsPort n = (0 < n) × (n < 65536)

pub nonzero-IsPort : (s : Text) (n : ℕ) → nonzero (parse_u16 s) ≡ some n → IsPort n
nonzero-IsPort s n e = elim (Option-cases (parse_u16 s)) [
  | inl missing ↦ ground (arith, missing)
  | inr (m, found) ↦ ground (arith, found, parse_u16_bound s m)
]

module _ (s : Text) where
  bracketed_port-IsPort : (n : ℕ) → bracketed_port s ≡ some n → IsPort n
  unfolding bracketed_port
  bracketed_port-IsPort n e = elim (Option-cases (split_once b']' s)) [
    | inl missing ↦ ground (arith, missing)
    | inr ((address, rest), found) ↦ elim (Option-cases (strip_prefix (codes ":") rest)) [
      | inl bare ↦ ground (arith, found, bare)
      | inr (port, after) ↦ ground (arith, found, after, nonzero-IsPort port n)
    ]
  ]

  named_port-IsPort : (n : ℕ) → named_port s ≡ some n → IsPort n
  unfolding named_port
  named_port-IsPort n e = elim (Option-cases (rsplit_once b':' s)) [
    | inl missing ↦ ground (arith, missing)
    | inr ((host, port), found) ↦ ground (arith, found, nonzero-IsPort port n)
  ]

pub loopback_proxy_port_from_url-IsPort :
    (url : Text) (n : ℕ) → loopback_proxy_port_from_url url ≡ some n → IsPort n
unfolding loopback_proxy_port_from_url
loopback_proxy_port_from_url-IsPort url n e =
    elim (Option-cases (after_first (codes "://") (trim url))) [
      | inl missing ↦ ground (arith, missing)
      | inr (rest, found) ↦
          let host_port = host_port_of (first_part (split b'/' rest)) in
          elim (Option-cases (strip_prefix (codes "[") host_port)) [
            | inl bare ↦ ground (arith, found, bare, named_port-IsPort host_port n)
            | inr (host, after) ↦ ground (arith, found, after, bracketed_port-IsPort host n)
          ]
    ]
