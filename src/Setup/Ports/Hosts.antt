-- ===== src/Setup/Ports/Hosts.antt =====
-- The texts that src/setup.rs takes for the URL of a proxy on the loopback.
use yj_sandbox.Base.{
  ℕ, ◌≡◌, ◌⊎◌, ◌↔◌, refl, sym, ap, ◌∙◌, subst, true, ◌||◌, inl, inr, [], ◌∷◌, ◌++◌, Option, some,
  none, ◌==◌, ==_iff, arith, Option-cases, Bool-cases,
}
use yj_sandbox.Base.Text.{
  Text, codes, text_eq, strip_prefix, split, split_once, trim, eq_ignore_ascii_case,
  to_ascii_lowercase, to_lower,
}
use yj_sandbox.Base.Text.Laws.{text_eq_iff}
use yj_sandbox.Base.Text.Prefixes.{
  HasNo, IsFirstPart, split-IsFirstPart, IsFirstPart-unique, strip_prefix_iff,
}
use yj_sandbox.Setup.Ports.{
  rsplit_once, after_first, first_part, host_port_of, bracketed_port, named_port,
  loopback_proxy_port_from_url,
}
use yj_sandbox.Setup.Ports.Cuts.{
  rsplit_once-none, HasNo-rsplit_once, rsplit_once-some, rsplit_once-last, IsLastPart, IsAfterFirst,
  after_first-some, after_first_iff, split_once-some,
}
use yj_sandbox.Setup.Ports.Numbers.{IsNumber, IsNumber-iff, IsNumber-HasNo}

-- The host is this one, whatever its case, or the address of the loopback.
abbrev pub IsLocal : Text → Type 0
IsLocal host = (eq_ignore_ascii_case host (codes "localhost") ≡ true) ⊎ (host ≡ codes "127.0.0.1")

-- The port of the loopback.
abbrev pub IsLoopback : Text → ℕ → Type 0
IsLoopback host_port q =
    ((port : Text) × (host_port ≡ codes "[::1]:" ++ port) × IsNumber port q)
    ⊎ ((host port : Text) × (host_port ≡ host ++ (b':' ∷ port)) × IsLocal host × IsNumber port q)

-- A URL of a proxy on the loopback: past the scheme, a host with a port, behind a user at most and
-- before a path at most.
abbrev pub IsLoopbackUrl : Text → ℕ → Type 0
IsLoopbackUrl url q =
    (rest authority host_port : Text) × IsAfterFirst (codes "://") (trim url) rest
    × IsFirstPart b'/' authority rest
    × IsLastPart b'@' host_port authority
    × IsLoopback host_port q

abbrev NamedLocal : Text → Type 0
NamedLocal host = eq_ignore_ascii_case host (codes "localhost") ≡ true

no_bracket : (cs : Text) → ¬ NamedLocal (b'[' ∷ cs)
unfolding eq_ignore_ascii_case to_ascii_lowercase to_lower text_eq
no_bracket cs e = cc e

IsLocal-strip_prefix :
    (host rest : Text) → IsLocal host → strip_prefix (codes "[") (host ++ rest) ≡ none
unfolding strip_prefix eq_ignore_ascii_case to_ascii_lowercase to_lower text_eq
IsLocal-strip_prefix host rest (inr address) =
    subst (λ t. strip_prefix (codes "[") (t ++ rest) ≡ none) (sym address) refl
IsLocal-strip_prefix [] rest (inl named) = cc named
IsLocal-strip_prefix (c ∷ cs) rest (inl named) = elim (Bool-cases (b'[' == c)) [
  | inl bracket ↦
      let same : b'[' ≡ c = (==_iff b'[' c).0 bracket in
      absurd (no_bracket cs (subst (λ x. NamedLocal (x ∷ cs)) (sym same) named))
  | inr apart ↦ rw apart refl
]

abbrev IsNamed : Text → ℕ → Type 0
IsNamed host_port q =
    (host port : Text) × (host_port ≡ host ++ (b':' ∷ port)) × IsLocal host × IsNumber port q

IsLocal-iff :
    (host : Text)
    → ((eq_ignore_ascii_case host (codes "localhost") || text_eq host (codes "127.0.0.1")) ≡ true)
      ↔ IsLocal host
IsLocal-iff host = (
  λ e. elim (Bool-cases (eq_ignore_ascii_case host (codes "localhost"))) [
    | inl named ↦ inl named
    | inr other ↦ inr ((text_eq_iff host (codes "127.0.0.1")).0 (ground (arith, e, other)))
  ],
  elim [
    | inl named ↦ ground (arith, named)
    | inr address ↦ ground (arith, (text_eq_iff host (codes "127.0.0.1")).1 address)
  ],
)

named_port-some : (s : Text) (q : ℕ) → named_port s ≡ some q → IsNamed s q
unfolding named_port
named_port-some s q e = elim (Option-cases (rsplit_once b':' s)) [
  | inl bare ↦ ground (arith, bare, e)
  | inr ((host, port), found) ↦
      let is_local =
        eq_ignore_ascii_case host (codes "localhost") || text_eq host (codes "127.0.0.1") in
      elim (Bool-cases is_local) [
        | inl here ↦ (
          host,
          port,
          (rsplit_once-some b':' s host port found).0,
          (IsLocal-iff host).0 here,
          (IsNumber-iff port q).0 (ground (arith, found, here, e)),
        )
        | inr away ↦ ground (arith, found, away, e)
      ]
]

IsNamed-named_port : (s : Text) (q : ℕ) → IsNamed s q → named_port s ≡ some q
unfolding named_port
IsNamed-named_port s q (host, port, same, here, is_number) =
    let found =
      rsplit_once-last b':' host port (IsNumber-HasNo b':' port q (omega arith) is_number) in
    let test = (IsLocal-iff host).1 here in
    subst (λ t. named_port t ≡ some q) (sym same)
      (ground (arith, found, test, (IsNumber-iff port q).1 is_number))

abbrev IsBracketed : Text → ℕ → Type 0
IsBracketed host q = (port : Text) × (host ≡ codes "::1]:" ++ port) × IsNumber port q

bracketed_port-some : (host : Text) (q : ℕ) → bracketed_port host ≡ some q → IsBracketed host q
unfolding bracketed_port
bracketed_port-some host q e = elim (Option-cases (split_once b']' host)) [
  | inl unclosed ↦ ground (arith, unclosed, e)
  | inr ((address, rest), found) ↦ elim (Bool-cases (text_eq address (codes "::1"))) [
    | inr away ↦ ground (arith, found, away, e)
    | inl here ↦ elim (Option-cases (strip_prefix (codes ":") rest)) [
      | inl bare ↦ ground (arith, found, here, bare, e)
      | inr (port, after) ↦
          let address_is = (text_eq_iff address (codes "::1")).0 here in
          let rest_is = (strip_prefix_iff (codes ":") rest port).0 after in
          (
            port,
            split_once-some b']' host address rest found ∙ cc (address_is, rest_is),
            (IsNumber-iff port q).0 (ground (arith, found, here, after, e)),
          )
    ]
  ]
]

IsBracketed-bracketed_port :
    (host : Text) (q : ℕ) → IsBracketed host q → bracketed_port host ≡ some q
unfolding bracketed_port split_once text_eq strip_prefix
IsBracketed-bracketed_port host q (port, same, is_number) =
    subst (λ t. bracketed_port t ≡ some q) (sym same) ((IsNumber-iff port q).1 is_number)

host_port-IsLastPart : (authority : Text) → IsLastPart b'@' (host_port_of authority) authority
host_port-IsLastPart authority = elim (Option-cases (rsplit_once b'@' authority)) [
  | inl whole ↦ rw (whole, host_port_of) (rsplit_once-none b'@' authority whole, inl refl)
  | inr ((user, host_port), found) ↦
      let (same, has) = rsplit_once-some b'@' authority user host_port found in
      rw (found, host_port_of) (has, inr (user, same))
]

host_port_of-IsLastPart :
    (authority host_port : Text)
    → IsLastPart b'@' host_port authority
    → host_port_of authority ≡ host_port
host_port_of-IsLastPart authority host_port (has, inl whole) =
    let plain : HasNo b'@' authority = subst (HasNo b'@') (sym whole) has in
    ground (arith, HasNo-rsplit_once b'@' authority plain, whole)
host_port_of-IsLastPart authority host_port (has, inr (user, same)) =
    ground (arith, rsplit_once-last b'@' user host_port has, same)

-- The arm for a host and port.
abbrev port_at : Text → Option ℕ
port_at host_port = elim (strip_prefix (codes "[") host_port) [
  | some host ↦ bracketed_port host
  | none ↦ named_port host_port
]

port_at-IsLoopback : (s : Text) (q : ℕ) → port_at s ≡ some q → IsLoopback s q
port_at-IsLoopback s q e = elim (Option-cases (strip_prefix (codes "[") s)) [
  | inl bare ↦ inr (named_port-some s q (ground (arith, bare, e)))
  | inr (host, after) ↦
      let (port, same, is_number) = bracketed_port-some host q (ground (arith, after, e)) in
      inl (port, (strip_prefix_iff (codes "[") s host).0 after ∙ ap (λ t. b'[' ∷ t) same, is_number)
]

IsLoopback-port_at : (s : Text) (q : ℕ) → IsLoopback s q → port_at s ≡ some q
IsLoopback-port_at s q (inl (port, same, is_number)) =
    let host = codes "::1]:" ++ port in
    let inside = (strip_prefix_iff (codes "[") s host).1 same in
    ground (arith, inside, IsBracketed-bracketed_port host q (port, refl, is_number))
IsLoopback-port_at s q (inr (host, port, same, here, is_number)) =
    let outside = IsLocal-strip_prefix host (b':' ∷ port) here in
    let bare : strip_prefix (codes "[") s ≡ none =
      subst (λ t. strip_prefix (codes "[") t ≡ none) (sym same) outside in
    ground (arith, bare, IsNamed-named_port s q (host, port, same, here, is_number))

first_part_unique :
    (rest authority : Text)
    → IsFirstPart b'/' authority rest
    → first_part (split b'/' rest) ≡ authority
first_part_unique rest authority is =
    let (part, (more, e), is_part) = split-IsFirstPart b'/' rest in
    ap first_part e ∙ IsFirstPart-unique b'/' rest part authority is_part is

first_part-IsFirstPart : (rest : Text) → IsFirstPart b'/' (first_part (split b'/' rest)) rest
first_part-IsFirstPart rest =
    let (part, (more, e), is_part) = split-IsFirstPart b'/' rest in
    subst (λ p. IsFirstPart b'/' p rest) (sym (ap first_part e)) is_part

-- A URL has a port exactly if it is one on the loopback with that port.
pub IsLoopbackUrl-iff :
    (url : Text) (q : ℕ) → (loopback_proxy_port_from_url url ≡ some q) ↔ IsLoopbackUrl url q
unfolding loopback_proxy_port_from_url
IsLoopbackUrl-iff url q = (
  λ e. elim (Option-cases (after_first (codes "://") (trim url))) [
    | inl bare ↦ ground (arith, bare, e)
    | inr (rest, found) ↦
        let authority = first_part (split b'/' rest) in
        (
          rest,
          authority,
          host_port_of authority,
          after_first-some (codes "://") (trim url) rest found,
          first_part-IsFirstPart rest,
          host_port-IsLastPart authority,
          port_at-IsLoopback (host_port_of authority) q (ground (arith, found, e)),
        )
  ],
  λ (rest, authority, host_port, after, first, last, here).
      let found = (after_first_iff b':' (codes "//") (trim url) rest).1 after in
      let path = first_part_unique rest authority first in
      let user = host_port_of-IsLastPart authority host_port last in
      ground (arith, found, path, user, IsLoopback-port_at host_port q here),
)
