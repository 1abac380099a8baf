-- ===== src/Seatbelt/Ports.antt =====
-- The ports of the proxies on the loopback: `proxy_loopback_ports_from_env` of src/seatbelt.rs.
use yj_sandbox.Base.{
  ℕ, ◌≡◌, refl, subst, ◌⊎◌, inl, inr, ◌↔◌, List, [], ◌∷◌, Option, none, some, Member, arith,
}
use yj_sandbox.Base.Text.{Text}
use yj_sandbox.Base.Ordered.{IsIncreasing, insert_port-Member, insert_port-IsIncreasing}
use yj_sandbox.Base.Maps.{TextMap}
use yj_sandbox.Seatbelt.{
  ParsedUrl, proxy_url_env_keys, port_of_key, add_port, ports_of_keys,
  proxy_loopback_ports_from_env,
}

module _ (parse : Text → Option ParsedUrl) (env : TextMap Text) where
  add_port-Member :
      (o : Option ℕ) (ports : List ℕ) (q : ℕ)
      → Member q (add_port parse o ports) ↔ ((o ≡ some q) ⊎ Member q ports)
  add_port-Member none ports q = ground arith
  add_port-Member (some port) ports q = ground (arith, insert_port-Member port ports q)

  ports_of_keys-Member :
      (keys : List Text) (ports : List ℕ) (q : ℕ)
      → Member q (ports_of_keys parse env keys ports)
      → ((key : Text) × Member key keys × (port_of_key parse env key ≡ some q)) ⊎ Member q ports
  unfolding ports_of_keys
  ports_of_keys-Member [] ports q m = inr m
  ports_of_keys-Member (key ∷ keys) ports q m =
      elim (ports_of_keys-Member keys (add_port parse (port_of_key parse env key) ports) q m) [
        | inl (k, there, found) ↦ inl (k, inr there, found)
        | inr early ↦ elim ((add_port-Member (port_of_key parse env key) ports q).0 early) [
          | inl own ↦ inl (key, inl refl, own)
          | inr before ↦ inr before
        ]
      ]

  Member-ports_of_keys :
      (keys : List Text) (ports : List ℕ) (q : ℕ)
      → (Member q ports) ⊎ ((key : Text) × Member key keys × (port_of_key parse env key ≡ some q))
      → Member q (ports_of_keys parse env keys ports)
  unfolding ports_of_keys
  Member-ports_of_keys [] ports q (inl m) = m
  Member-ports_of_keys [] ports q (inr (key, m, found)) = absurd m
  Member-ports_of_keys (k ∷ keys) ports q (inl m) =
      Member-ports_of_keys keys (add_port parse (port_of_key parse env k) ports) q
        (inl ((add_port-Member (port_of_key parse env k) ports q).1 (inr m)))
  Member-ports_of_keys (k ∷ keys) ports q (inr (key, inl same, found)) =
      Member-ports_of_keys keys (add_port parse (port_of_key parse env k) ports) q (
        inl (
          (add_port-Member (port_of_key parse env k) ports q).1
            (inl (subst (λ x. port_of_key parse env x ≡ some q) same found))))
  Member-ports_of_keys (k ∷ keys) ports q (inr (key, inr m, found)) =
      Member-ports_of_keys keys (add_port parse (port_of_key parse env k) ports) q
        (inr (key, m, found))

  add_port-IsIncreasing :
      (o : Option ℕ) (ports : List ℕ) → IsIncreasing ports → IsIncreasing (add_port parse o ports)
  add_port-IsIncreasing none ports up = up
  add_port-IsIncreasing (some port) ports up = insert_port-IsIncreasing port ports up

  ports_of_keys-IsIncreasing :
      (keys : List Text) (ports : List ℕ)
      → IsIncreasing ports
      → IsIncreasing (ports_of_keys parse env keys ports)
  unfolding ports_of_keys
  ports_of_keys-IsIncreasing [] ports up = up
  ports_of_keys-IsIncreasing (key ∷ keys) ports up =
      ports_of_keys-IsIncreasing keys (add_port parse (port_of_key parse env key) ports)
        (add_port-IsIncreasing (port_of_key parse env key) ports up)

  -- The ports are in increasing order, and they are exactly those of the proxy variables whose URL has
  -- a host on the loopback.
  proxy_loopback_ports-IsIncreasing :
      IsIncreasing (proxy_loopback_ports_from_env parse env)
      × ((q : ℕ)
          → Member q (proxy_loopback_ports_from_env parse env)
            ↔ ((key : Text) × Member key proxy_url_env_keys × (port_of_key parse env key ≡ some q)))
  unfolding proxy_loopback_ports_from_env
  proxy_loopback_ports-IsIncreasing = (
    ports_of_keys-IsIncreasing proxy_url_env_keys [] tt,
    λ q. (
      λ m. elim (ports_of_keys-Member proxy_url_env_keys [] q m) [
        | inl found ↦ found
        | inr nowhere ↦ absurd nowhere
      ],
      λ found. Member-ports_of_keys proxy_url_env_keys [] q (inr found),
    ),
  )
