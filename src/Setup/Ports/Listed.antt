-- ===== src/Setup/Ports/Listed.antt =====
-- Which ports src/setup.rs takes from the environment.
use yj_sandbox.Base.{
  ℕ, ◌≡◌, refl, sym, subst, ◌⊎◌, inl, inr, ◌↔◌, List, [], ◌∷◌, Option, none, some, Member, arith,
  Option-cases,
}
use yj_sandbox.Base.Text.{Text, split, trim}
use yj_sandbox.Base.Ordered.{IsIncreasing, insert_port-Member, insert_port-IsIncreasing}
use yj_sandbox.Base.Maps.{map_get}
use yj_sandbox.Permissions.{EnvMap}
use yj_sandbox.Setup.Ports.{
  proxy_env_keys, windows_sandbox_proxy_ports_env_key, parse_u16, nonzero, port_of, add_port,
  add_proxies, add_listed, proxy_ports_from_env,
}
use yj_sandbox.Setup.Ports.Numbers.{IsNumber, IsNumber-iff}
use yj_sandbox.Setup.Ports.Hosts.{IsLoopbackUrl, IsLoopbackUrl-iff}
use yj_sandbox.Setup.Ports.Parsed.{IsPort, nonzero-IsPort, loopback_proxy_port_from_url-IsPort}

add_port-Member :
    (o : Option ℕ) (ports : List ℕ) (q : ℕ)
    → Member q (add_port o ports) ↔ ((o ≡ some q) ⊎ Member q ports)
add_port-Member none ports q = ground arith
add_port-Member (some port) ports q = ground (arith, insert_port-Member port ports q)

add_port-IsIncreasing :
    (o : Option ℕ) (ports : List ℕ) → IsIncreasing ports → IsIncreasing (add_port o ports)
add_port-IsIncreasing none ports up = up
add_port-IsIncreasing (some port) ports up = insert_port-IsIncreasing port ports up

-- A loop that adds the port of each item that has one.
module _ (port : Text → Option ℕ) where
  unfoldable add_all : List Text → List ℕ → List ℕ
  add_all [] ports = ports
  add_all (x ∷ xs) ports = add_all xs (add_port (port x) ports)

  add_all-IsIncreasing :
      (xs : List Text) (ports : List ℕ) → IsIncreasing ports → IsIncreasing (add_all xs ports)
  unfolding add_all
  add_all-IsIncreasing [] ports up = up
  add_all-IsIncreasing (x ∷ xs) ports up =
      add_all-IsIncreasing xs (add_port (port x) ports) (add_port-IsIncreasing (port x) ports up)

  add_all-Member :
      (xs : List Text) (ports : List ℕ) (q : ℕ)
      → Member q (add_all xs ports)
        ↔ (((x : Text) × Member x xs × (port x ≡ some q)) ⊎ Member q ports)
  unfolding add_all
  add_all-Member [] ports q = (inr, elim [ inl (x, m, e) ↦ absurd m | inr m ↦ m ])
  add_all-Member (x ∷ xs) ports q = (
    λ m. elim ((add_all-Member xs (add_port (port x) ports) q).0 m) [
      | inl (y, there, e) ↦ inl (y, inr there, e)
      | inr early ↦ elim ((add_port-Member (port x) ports q).0 early) [
        | inl own ↦ inl (x, inl refl, own)
        | inr before ↦ inr before
      ]
    ],
    elim [
      | inl (y, inl same, e) ↦
          (add_all-Member xs (add_port (port x) ports) q).1
            (inr ((add_port-Member (port x) ports q).1 (inl (subst (λ z. port z ≡ some q) same e))))
      | inl (y, inr there, e) ↦
          (add_all-Member xs (add_port (port x) ports) q).1 (inl (y, there, e))
      | inr m ↦
          (add_all-Member xs (add_port (port x) ports) q).1
            (inr ((add_port-Member (port x) ports q).1 (inr m)))
    ],
  )

add_proxies_lem :
    (env_map : EnvMap) (keys : List Text) (ports : List ℕ)
    → add_proxies env_map keys ports ≡ add_all (λ key. port_of (map_get env_map key)) keys ports
unfolding add_proxies add_all
add_proxies_lem env_map [] ports = refl
add_proxies_lem env_map (key ∷ keys) ports =
    add_proxies_lem env_map keys (add_port (port_of (map_get env_map key)) ports)

add_listed_lem :
    (parts : List Text) (ports : List ℕ)
    → add_listed parts ports ≡ add_all (λ part. nonzero (parse_u16 (trim part))) parts ports
unfolding add_listed add_all
add_listed_lem [] ports = refl
add_listed_lem (part ∷ parts) ports =
    add_listed_lem parts (add_port (nonzero (parse_u16 (trim part))) ports)

same_value : {a b : Text} → ◌≡◌ {A = Option Text} (some a) (some b) → a ≡ b
same_value e = cc

-- As the code finds a port.
abbrev IsFound : EnvMap → ℕ → Type 0
IsFound env_map q =
    ((key : Text) × Member key proxy_env_keys × (port_of (map_get env_map key) ≡ some q))
    ⊎ ((value : Text) × (map_get env_map windows_sandbox_proxy_ports_env_key ≡ some value)
        × ((part : Text) × Member part (split b',' value)
            × (nonzero (parse_u16 (trim part)) ≡ some q)))

-- A proxy variable is a URL on the loopback with the port, or the variable for ports lists it.
abbrev pub IsConfigured : EnvMap → ℕ → Type 0
IsConfigured env_map q =
    ((key url : Text) × Member key proxy_env_keys
      × (map_get env_map key ≡ some url)
      × IsLoopbackUrl url q)
    ⊎ ((value : Text) × (map_get env_map windows_sandbox_proxy_ports_env_key ≡ some value)
        × ((part : Text) × Member part (split b',' value) × IsNumber (trim part) q))

port_of_iff :
    (o : Option Text) (q : ℕ)
    → (port_of o ≡ some q) ↔ ((url : Text) × (o ≡ some url) × IsLoopbackUrl url q)
port_of_iff none q = (λ e. cc e, λ (url, set, _). cc set)
port_of_iff (some value) q = (
  λ e. (value, refl, (IsLoopbackUrl-iff value q).0 e),
  λ (url, same, is).
      (IsLoopbackUrl-iff value q).1 (subst (λ v. IsLoopbackUrl v q) (sym (same_value same)) is),
)

IsConfigured-iff : (env_map : EnvMap) (q : ℕ) → IsFound env_map q ↔ IsConfigured env_map q
IsConfigured-iff env_map q = (
  elim [
    | inl (key, m, e) ↦
        let (url, set, is) = (port_of_iff (map_get env_map key) q).0 e in inl (key, url, m, set, is)
    | inr (value, set, (part, m, e)) ↦ inr (value, set, (part, m, (IsNumber-iff (trim part) q).0 e))
  ],
  elim [
    | inl (key, url, m, set, is) ↦
        inl (key, m, (port_of_iff (map_get env_map key) q).1 (url, set, is))
    | inr (value, set, (part, m, is)) ↦
        inr (value, set, (part, m, (IsNumber-iff (trim part) q).1 is))
  ],
)

-- The ports that the value of the variable adds.
abbrev listed_port : Text → Option ℕ
listed_port part = nonzero (parse_u16 (trim part))

abbrev listed_onto : List ℕ → Option Text → List ℕ
listed_onto ports none = ports
listed_onto ports (some value) = add_all listed_port (split b',' value) ports

proxy_ports_lem :
    (env_map : EnvMap)
    → proxy_ports_from_env env_map
      ≡ listed_onto
          (add_all (λ key. port_of (map_get env_map key)) proxy_env_keys [])
          (map_get env_map windows_sandbox_proxy_ports_env_key)
unfolding proxy_ports_from_env
proxy_ports_lem env_map =
    let first = add_proxies_lem env_map proxy_env_keys [] in
    elim (Option-cases (map_get env_map windows_sandbox_proxy_ports_env_key)) [
      | inl unset ↦ ground (arith, unset, first)
      | inr (value, set) ↦ ground (
        arith,
        set,
        first,
        add_listed_lem (split b',' value) (add_proxies env_map proxy_env_keys []),
      )
    ]

listed_onto-IsIncreasing :
    (ports : List ℕ) (o : Option Text) → IsIncreasing ports → IsIncreasing (listed_onto ports o)
listed_onto-IsIncreasing ports none up = up
listed_onto-IsIncreasing ports (some value) up =
    add_all-IsIncreasing listed_port (split b',' value) ports up

listed_onto-Member :
    (ports : List ℕ) (o : Option Text) (q : ℕ)
    → Member q (listed_onto ports o) ↔ (
        Member q ports
        ⊎ ((value : Text) × (o ≡ some value)
            × ((part : Text) × Member part (split b',' value) × (listed_port part ≡ some q))))
listed_onto-Member ports none q = (inl, elim [ inl m ↦ m | inr (value, set, _) ↦ cc set ])
listed_onto-Member ports (some value) q = (
  λ m. elim ((add_all-Member listed_port (split b',' value) ports q).0 m) [
    | inl found ↦ inr (value, refl, found)
    | inr before ↦ inl before
  ],
  elim [
    | inl before ↦ (add_all-Member listed_port (split b',' value) ports q).1 (inr before)
    | inr (other, set, (part, m, e)) ↦
        (add_all-Member listed_port (split b',' value) ports q).1
          (inl (part, subst (λ v. Member part (split b',' v)) (sym (same_value set)) m, e))
  ],
)

proxy_ports-Member :
    (env_map : EnvMap)
    → IsIncreasing (proxy_ports_from_env env_map)
      × ((q : ℕ) → Member q (proxy_ports_from_env env_map) ↔ IsFound env_map q)
proxy_ports-Member env_map =
    let proxy = λ (key : Text). port_of (map_get env_map key) in
    let first = add_all proxy proxy_env_keys [] in
    let o = map_get env_map windows_sandbox_proxy_ports_env_key in
    let members = add_all-Member proxy proxy_env_keys [] in
    let up = add_all-IsIncreasing proxy proxy_env_keys [] tt in
    rw (proxy_ports_lem env_map) (
      listed_onto-IsIncreasing first o up,
      λ q. (
        λ m. elim ((listed_onto-Member first o q).0 m) [
          | inl before ↦ elim ((members q).0 before) [
            | inl found ↦ inl found
            | inr none_yet ↦ absurd none_yet
          ]
          | inr later ↦ inr later
        ],
        elim [
          | inl found ↦ (listed_onto-Member first o q).1 (inl ((members q).1 (inl found)))
          | inr later ↦ (listed_onto-Member first o q).1 (inr later)
        ],
      ),
    )

IsFound-IsPort : (env_map : EnvMap) (q : ℕ) → IsFound env_map q → IsPort q
IsFound-IsPort env_map q (inl (key, m, e)) = elim (Option-cases (map_get env_map key)) [
  | inl unset ↦ ground (arith, unset)
  | inr (value, set) ↦ ground (arith, set, loopback_proxy_port_from_url-IsPort value q)
]
IsFound-IsPort env_map q (inr (value, set, (part, m, e))) = nonzero-IsPort (trim part) q e

-- The ports are in increasing order, each is from 1 to 65535, and they are exactly those that a proxy
-- variable has in a URL on the loopback or that the variable for ports lists, separated by commas. In a
-- URL, what stands between the first `://` and the next `/`, behind the last `@` if there is one, is
-- `[::1]`, `127.0.0.1` or `localhost` in any case, a colon and the port. A port is in decimal digits,
-- which may follow a plus.
pub proxy_ports-IsConfigured :
    (env_map : EnvMap)
    → IsIncreasing (proxy_ports_from_env env_map)
      × ((q : ℕ) → Member q (proxy_ports_from_env env_map) → IsPort q)
      × ((q : ℕ) → Member q (proxy_ports_from_env env_map) ↔ IsConfigured env_map q)
proxy_ports-IsConfigured env_map =
    let (up, found) = proxy_ports-Member env_map in
    (
      up,
      λ q m. IsFound-IsPort env_map q ((found q).0 m),
      λ q. (
        λ m. (IsConfigured-iff env_map q).0 ((found q).0 m),
        λ c. (found q).1 ((IsConfigured-iff env_map q).1 c),
      ),
    )
