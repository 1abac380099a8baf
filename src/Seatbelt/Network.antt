-- ===== src/Seatbelt/Network.antt =====
-- What the network part of a Seatbelt policy allows: `dynamic_network_policy_for_network` of
-- src/seatbelt.rs.
use yj_sandbox.Base.{
  ℕ, ◌+◌, ◌<◌, ◌≤◌, Bool, true, false, ◌&&◌, not, ◌≡◌, ◌⊎◌, refl, sym, subst, inl, inr, List, [],
  ◌∷◌, ◌++◌, map, is_empty, length, Member, All, All-append, arith, Bool-cases, if◌then◌else◌,
}
use yj_sandbox.Base.Host.{FilePath}
use yj_sandbox.Macos.{NetworkSandboxPolicy, is_enabled}
use yj_sandbox.Seatbelt.{
  ProxyPolicyInputs, UnixDomainSocketPolicy, allow_all, allowed_only, unix_socket_path_params,
  NetworkRule, local_comment, dns_comment, unix_comment, insert_paths, has_some_unix_socket_access,
  bind_any, inbound_localhost, outbound_localhost, outbound_dns, outbound_port, unix_sockets,
  bind_any_unix, outbound_any_unix, bind_unix, outbound_unix, outbound_everything,
  inbound_everything, macos_network_policy, socket_rules, unix_socket_policy, with_comment,
  should_use_restricted_network_policy, restricted_rules, dynamic_network_policy_for_network,
}

module _ (network_policy : NetworkSandboxPolicy) (enforce_managed_network : Bool)
    (proxy : ProxyPolicyInputs) where
  -- The network is open: it is enabled, not managed, and no proxy is configured.
  abbrev pub IsOpen : Type 0
  IsOpen =
      (is_enabled network_policy ≡ true)
      × (enforce_managed_network ≡ false)
      × (proxy.has_proxy_config ≡ false)
      × (is_empty proxy.ports ≡ true)

  -- Unix sockets may be used: all of them, or those of some path.
  abbrev pub HasSockets : Type 0
  HasSockets =
      (proxy.unix_domain_socket_policy ≡ allow_all)
      ⊎ ((path : FilePath) × (more : List FilePath) × (proxy.unix_domain_socket_policy
            ≡ allowed_only (path ∷ more)))

  -- There is a use of the network at all.
  abbrev pub IsUsed : Type 0
  IsUsed =
      (is_enabled network_policy ≡ true)
      ⊎ (is_empty proxy.ports ≡ false)
      ⊎ (proxy.has_proxy_config ≡ true)
      ⊎ (enforce_managed_network ≡ true)
      ⊎ HasSockets

  -- What must hold for a rule to stand in the policy.
  abbrev pub IsAllowed : NetworkRule → Type 0
  IsAllowed local_comment = proxy.allow_local_binding ≡ true
  IsAllowed bind_any = proxy.allow_local_binding ≡ true
  IsAllowed inbound_localhost = proxy.allow_local_binding ≡ true
  IsAllowed outbound_localhost = proxy.allow_local_binding ≡ true
  IsAllowed dns_comment = (proxy.allow_local_binding ≡ true) × (is_empty proxy.ports ≡ false)
  IsAllowed outbound_dns = (proxy.allow_local_binding ≡ true) × (is_empty proxy.ports ≡ false)
  IsAllowed (outbound_port port) = Member port proxy.ports
  IsAllowed unix_comment = HasSockets
  IsAllowed unix_sockets = HasSockets
  IsAllowed bind_any_unix = proxy.unix_domain_socket_policy ≡ allow_all
  IsAllowed outbound_any_unix = proxy.unix_domain_socket_policy ≡ allow_all
  IsAllowed (bind_unix index) =
      index < length (unix_socket_path_params proxy.unix_domain_socket_policy)
  IsAllowed (outbound_unix index) =
      index < length (unix_socket_path_params proxy.unix_domain_socket_policy)
  IsAllowed outbound_everything = IsOpen
  IsAllowed inbound_everything = IsOpen
  IsAllowed macos_network_policy = IsUsed

  ports-IsAllowed :
      (ports : List ℕ)
      → ((p : ℕ) → Member p ports → Member p proxy.ports)
      → All IsAllowed (map outbound_port ports)
  ports-IsAllowed [] known = tt
  ports-IsAllowed (p ∷ ports) known =
      (known p (inl refl), ports-IsAllowed ports (λ q m. known q (inr m)))

  socket_rules-IsAllowed :
      (paths : List FilePath) (index : ℕ)
      → index + length paths ≤ length (unix_socket_path_params proxy.unix_domain_socket_policy)
      → All IsAllowed (socket_rules index paths)
  unfolding socket_rules
  socket_rules-IsAllowed [] index bound = tt
  socket_rules-IsAllowed (p ∷ paths) index bound =
      (omega arith, (omega arith, socket_rules-IsAllowed paths (index + 1) (omega arith)))

  some_sockets-IsAllowed :
      (paths : List FilePath)
      → length paths ≤ length (unix_socket_path_params proxy.unix_domain_socket_policy)
      → (is_empty paths ≡ false → HasSockets)
      → All IsAllowed
          (with_comment (if is_empty paths then [] else unix_sockets ∷ socket_rules 0 paths))
  some_sockets-IsAllowed [] bound sockets = tt
  some_sockets-IsAllowed (p ∷ paths) bound sockets =
      (sockets refl, (sockets refl, socket_rules-IsAllowed (p ∷ paths) 0 (omega arith)))

  params-HasSockets :
      (allowed : List FilePath)
      → proxy.unix_domain_socket_policy ≡ allowed_only allowed
      → is_empty (unix_socket_path_params (allowed_only allowed)) ≡ false
      → HasSockets
  unfolding unix_socket_path_params insert_paths
  params-HasSockets [] same some_params = cc some_params
  params-HasSockets (path ∷ more) same some_params = inr (path, more, same)

  sockets-IsAllowed :
      (policy : UnixDomainSocketPolicy)
      → proxy.unix_domain_socket_policy ≡ policy
      → All IsAllowed (with_comment (unix_socket_policy policy))
  unfolding unix_socket_policy
  sockets-IsAllowed allow_all same = (inl same, (inl same, (same, (same, tt))))
  sockets-IsAllowed (allowed_only allowed) same =
      some_sockets-IsAllowed (unix_socket_path_params (allowed_only allowed))
        (subst
          (λ p.
            length (unix_socket_path_params (allowed_only allowed))
            ≤ length (unix_socket_path_params p))
          (sym same) (omega arith))
        (params-HasSockets allowed same)

  local-IsAllowed :
      (b : Bool)
      → (b ≡ true → proxy.allow_local_binding ≡ true)
      → All IsAllowed
          (if b then local_comment ∷ bind_any ∷ inbound_localhost ∷ outbound_localhost ∷ [] else [])
  local-IsAllowed true known = (known refl, (known refl, (known refl, (known refl, tt))))
  local-IsAllowed false known = tt

  dns-IsAllowed :
      (b : Bool)
      → (b ≡ true → (proxy.allow_local_binding ≡ true) × (is_empty proxy.ports ≡ false))
      → All IsAllowed (if b then dns_comment ∷ outbound_dns ∷ [] else [])
  dns-IsAllowed true known = (known refl, (known refl, tt))
  dns-IsAllowed false known = tt

  unix_rules : List NetworkRule
  unix_rules = with_comment (unix_socket_policy proxy.unix_domain_socket_policy)

  -- the rules that end both policies
  ending-IsAllowed : IsUsed → All IsAllowed (unix_rules ++ macos_network_policy ∷ [])
  unfolding unix_rules
  ending-IsAllowed used =
      All-append IsAllowed unix_rules (macos_network_policy ∷ [])
        (sockets-IsAllowed proxy.unix_domain_socket_policy refl) (used, tt)

  some_access-HasSockets :
      (policy : UnixDomainSocketPolicy)
      → proxy.unix_domain_socket_policy ≡ policy
      → has_some_unix_socket_access policy ≡ true
      → HasSockets
  some_access-HasSockets allow_all same access = inl same
  some_access-HasSockets (allowed_only []) same access = cc access
  some_access-HasSockets (allowed_only (path ∷ more)) same access = inr (path, more, same)

  restricted-IsUsed :
      should_use_restricted_network_policy network_policy enforce_managed_network proxy ≡ true
      → IsUsed
  unfolding should_use_restricted_network_policy
  restricted-IsUsed e = elim (Bool-cases (is_empty proxy.ports)) [
    | inr ports ↦ inr (inl ports)
    | inl no_port ↦ elim (Bool-cases proxy.has_proxy_config) [
      | inl config ↦ inr (inr (inl config))
      | inr no_config ↦ elim (Bool-cases enforce_managed_network) [
        | inl managed ↦ inr (inr (inr (inl managed)))
        | inr unmanaged ↦ inr (
            inr (
              inr (
                inr (
                  some_access-HasSockets proxy.unix_domain_socket_policy refl
                    (ground (arith, e, no_port, no_config, unmanaged))))))
      ]
    ]
  ]

  restricted_rules-IsAllowed : IsUsed → All IsAllowed (restricted_rules proxy)
  unfolding restricted_rules unix_rules
  restricted_rules-IsAllowed used =
      let end = unix_rules ++ macos_network_policy ∷ [] in
      let ports = map outbound_port proxy.ports ++ end in
      let local = proxy.allow_local_binding in
      let dns = local && not (is_empty proxy.ports) in
      All-append IsAllowed
        (if local
          then local_comment ∷ bind_any ∷ inbound_localhost ∷ outbound_localhost ∷ []
          else [])
        ((if dns then dns_comment ∷ outbound_dns ∷ [] else []) ++ ports)
        (local-IsAllowed local (λ e. e))
        (All-append IsAllowed (if dns then dns_comment ∷ outbound_dns ∷ [] else []) ports
          (dns-IsAllowed dns (λ e. (ground arith, ground arith)))
          (All-append IsAllowed (map outbound_port proxy.ports) end
            (ports-IsAllowed proxy.ports (λ q m. m)) (ending-IsAllowed used)))

  unrestricted_is_open :
      should_use_restricted_network_policy network_policy enforce_managed_network proxy ≡ false
      → is_enabled network_policy ≡ true
      → IsOpen
  unfolding should_use_restricted_network_policy
  unrestricted_is_open e on = (on, ground arith, ground arith, ground arith)

  abbrev open_rules : List NetworkRule
  unfolding unix_rules
  open_rules = outbound_everything ∷ inbound_everything ∷ (unix_rules ++ macos_network_policy ∷ [])

  unrestricted_rules :
      should_use_restricted_network_policy network_policy enforce_managed_network proxy ≡ false
      → dynamic_network_policy_for_network network_policy enforce_managed_network proxy
        ≡ (if is_enabled network_policy then open_rules else [])
  unfolding dynamic_network_policy_for_network should_use_restricted_network_policy unix_rules
  unrestricted_rules e = ground arith

  open_rules-IsAllowed :
      (b : Bool) → (b ≡ true → IsOpen) → All IsAllowed (if b then open_rules else [])
  unfolding unix_rules
  open_rules-IsAllowed true known =
      (known refl, (known refl, ending-IsAllowed (inl (known refl).0)))
  open_rules-IsAllowed false known = tt

  -- Each rule of the policy has its reason. Traffic to everywhere needs a network that is enabled and
  -- not managed and no proxy; a port on the loopback is a proxy's; name lookups and local traffic need
  -- local binding. The rule for sockets needs that some or all sockets are allowed, and a socket's rule
  -- its index. The common network policy needs a use of the network: it is enabled or managed, a proxy is
  -- configured, with a port on the loopback or without, or some or all sockets are allowed.
  pub dynamic_network_policy-IsAllowed :
      All IsAllowed
        (dynamic_network_policy_for_network network_policy enforce_managed_network proxy)
  unfolding dynamic_network_policy_for_network
  dynamic_network_policy-IsAllowed =
      elim (Bool-cases
        (should_use_restricted_network_policy network_policy enforce_managed_network proxy)) [
          | inl restricted ↦
              rw restricted (restricted_rules-IsAllowed (restricted-IsUsed restricted))
          | inr unrestricted ↦
              subst (All IsAllowed) (sym (unrestricted_rules unrestricted)) (
                open_rules-IsAllowed (is_enabled network_policy)
                  (unrestricted_is_open unrestricted))
        ]

  -- A network that is not enabled has no rule at all, if it is not managed and no proxy and no socket
  -- is allowed.
  dynamic_network_policy-closed :
      is_enabled network_policy ≡ false
      → enforce_managed_network ≡ false
      → proxy.has_proxy_config ≡ false
      → proxy.ports ≡ []
      → proxy.unix_domain_socket_policy ≡ allowed_only []
      → dynamic_network_policy_for_network network_policy enforce_managed_network proxy ≡ []
  unfolding dynamic_network_policy_for_network should_use_restricted_network_policy
  dynamic_network_policy-closed off unmanaged no_proxy no_ports no_sockets =
      rw (off, unmanaged, no_proxy, no_ports, no_sockets) refl
