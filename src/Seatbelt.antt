-- ===== src/Seatbelt.antt =====
-- The network part of a Seatbelt policy: src/seatbelt.rs. A policy is the list of its rules, each with
-- the lines that the source writes for it; parsing a URL is a parameter.
pub mod Network
pub mod Ports
use yj_sandbox.Base.{
  ℕ, zero, suc, ◌+◌, Bool, true, false, ◌&&◌, ◌||◌, not, List, [], ◌∷◌, ◌++◌, Option, none, some,
  any, is_empty, map, ltb, ◌==◌, if◌then◌else◌,
}
use yj_sandbox.Base.Outcome.{Result, ok, err}
use yj_sandbox.Base.Text.{
  Text, codes, text_eq, starts_with, eq_ignore_ascii_case, to_ascii_lowercase, trim, decimal_u32,
}
use yj_sandbox.Base.Ordered.{insert_port, text_ltb}
use yj_sandbox.Base.Maps.{TextMap, map_get}
use yj_sandbox.Base.Host.{Host, FilePath}
use yj_sandbox.Paths.{or_else}
use yj_sandbox.Macos.{NetworkSandboxPolicy, is_enabled}

-- What the crate url gives for a text that it parses.
pub record ParsedUrl : Type 0 where
  pub scheme : Text
  pub host_str : Option Text
  pub port : Option ℕ

abbrev pub proxy_url_env_keys : List Text
proxy_url_env_keys =
    codes "ALL_PROXY"
    ∷ codes "all_proxy"
    ∷ codes "HTTPS_PROXY"
    ∷ codes "https_proxy"
    ∷ codes "HTTP_PROXY"
    ∷ codes "http_proxy"
    ∷ []

abbrev pub is_set : Option Text → Bool
is_set none = false
is_set (some value) = not (is_empty (trim value))

unfoldable pub has_proxy_url_env_vars : TextMap Text → Bool
has_proxy_url_env_vars env = any (λ key. is_set (map_get env key)) proxy_url_env_keys

unfoldable pub is_loopback_host : Text → Bool
is_loopback_host host =
    eq_ignore_ascii_case host (codes "localhost")
    || text_eq host (codes "127.0.0.1")
    || text_eq host (codes "::1")

unfoldable pub proxy_scheme_default_port : Text → ℕ
proxy_scheme_default_port scheme =
    if text_eq scheme (codes "https")
    then 443
    else if text_eq scheme (codes "socks5")
        || text_eq scheme (codes "socks5h")
        || text_eq scheme (codes "socks4")
        || text_eq scheme (codes "socks4a")
    then 1080
    else 80

-- `contains` of a text
unfoldable pub contains_part : Text → Text → Bool
contains_part [] part = starts_with [] part
contains_part (c ∷ s) part = starts_with (c ∷ s) part || contains_part s part

abbrev pub candidate_url : Text → Text
candidate_url trimmed =
    if contains_part trimmed (codes "://") then trimmed else codes "http://" ++ trimmed

module _ (parse : Text → Option ParsedUrl) where
  -- the port of one proxy, if it is on the loopback
  unfoldable pub loopback_port : Text → Option ℕ
  loopback_port value =
      let trimmed = trim value in
      if is_empty trimmed then none else elim (parse (candidate_url trimmed)) [
        | none ↦ none
        | some parsed ↦ elim parsed.host_str [
          | none ↦ none
          | some host ↦
              if is_loopback_host host
              then some (
                  or_else parsed.port
                    (proxy_scheme_default_port (to_ascii_lowercase parsed.scheme)))
              else none
        ]
      ]

  abbrev pub port_of_key : TextMap Text → Text → Option ℕ
  port_of_key env key = elim (map_get env key) [ none ↦ none | some value ↦ loopback_port value ]

  abbrev pub add_port : Option ℕ → List ℕ → List ℕ
  add_port none ports = ports
  add_port (some port) ports = insert_port port ports

  unfoldable pub ports_of_keys : TextMap Text → List Text → List ℕ → List ℕ
  ports_of_keys env [] ports = ports
  ports_of_keys env (key ∷ keys) ports =
      ports_of_keys env keys (add_port (port_of_key env key) ports)

  unfoldable pub proxy_loopback_ports_from_env : TextMap Text → List ℕ
  unfolding ports_of_keys
  proxy_loopback_ports_from_env env = ports_of_keys env proxy_url_env_keys []

pub data UnixDomainSocketPolicy : Type 0 where
  allow_all : UnixDomainSocketPolicy
  allowed_only : List FilePath → UnixDomainSocketPolicy

pub record ProxyPolicyInputs : Type 0 where
  pub ports : List ℕ
  pub has_proxy_config : Bool
  pub allow_local_binding : Bool
  pub unix_domain_socket_policy : UnixDomainSocketPolicy

module _ (h : Host) where
  unfoldable pub normalize_path_for_sandbox : FilePath → Option FilePath
  normalize_path_for_sandbox path =
      if h.is_absolute path
      then elim (h.canonicalize path) [
        | none ↦ some path
        | some canonical ↦ some (if h.is_absolute canonical then canonical else path)
      ]
      else none

-- the keys of a `BTreeMap`, each path being its own value
unfoldable pub insert_path : FilePath → List FilePath → List FilePath
insert_path path [] = path ∷ []
insert_path path (p ∷ paths) =
    let rest = insert_path path paths in
    if text_ltb path p then path ∷ p ∷ paths else if text_eq path p then p ∷ paths else p ∷ rest

unfoldable pub insert_paths : List FilePath → List FilePath → List FilePath
insert_paths [] paths = paths
insert_paths (a ∷ allowed) paths = insert_paths allowed (insert_path a paths)

-- The sockets' paths in the order of their indices.
unfoldable pub unix_socket_path_params : UnixDomainSocketPolicy → List FilePath
unfolding insert_paths
unix_socket_path_params allow_all = []
unix_socket_path_params (allowed_only allowed) = insert_paths allowed []

-- The rules that the network part is made of, by the lines in the source.
pub data NetworkRule : Type 0 where
  local_comment dns_comment unix_comment : NetworkRule
  bind_any inbound_localhost outbound_localhost outbound_dns : NetworkRule
  outbound_port : ℕ → NetworkRule
  unix_sockets bind_any_unix outbound_any_unix : NetworkRule
  bind_unix outbound_unix : ℕ → NetworkRule
  outbound_everything inbound_everything macos_network_policy : NetworkRule

unfoldable pub socket_rules : ℕ → List FilePath → List NetworkRule
socket_rules index [] = []
socket_rules index (path ∷ paths) =
    bind_unix index ∷ outbound_unix index ∷ socket_rules (index + 1) paths

unfoldable pub unix_socket_policy : UnixDomainSocketPolicy → List NetworkRule
unfolding socket_rules unix_socket_path_params
unix_socket_policy allow_all = unix_sockets ∷ bind_any_unix ∷ outbound_any_unix ∷ []
unix_socket_policy (allowed_only allowed) =
    let paths = unix_socket_path_params (allowed_only allowed) in
    if is_empty paths then [] else unix_sockets ∷ socket_rules 0 paths

abbrev pub has_some_unix_socket_access : UnixDomainSocketPolicy → Bool
has_some_unix_socket_access allow_all = true
has_some_unix_socket_access (allowed_only allowed) = not (is_empty allowed)

abbrev pub with_comment : List NetworkRule → List NetworkRule
with_comment [] = []
with_comment (r ∷ rules) = unix_comment ∷ r ∷ rules

unfoldable pub should_use_restricted_network_policy :
    NetworkSandboxPolicy → Bool → ProxyPolicyInputs → Bool
should_use_restricted_network_policy network_policy enforce_managed_network proxy =
    not (is_empty proxy.ports)
    || proxy.has_proxy_config
    || enforce_managed_network
    || (not (is_enabled network_policy)
        && has_some_unix_socket_access proxy.unix_domain_socket_policy)

-- the first branch of `dynamic_network_policy_for_network`
unfoldable pub restricted_rules : ProxyPolicyInputs → List NetworkRule
restricted_rules proxy =
    (if proxy.allow_local_binding
      then local_comment ∷ bind_any ∷ inbound_localhost ∷ outbound_localhost ∷ []
      else [])
    ++ ((if proxy.allow_local_binding && not (is_empty proxy.ports)
          then dns_comment ∷ outbound_dns ∷ []
          else [])
        ++ (map outbound_port proxy.ports
            ++ (with_comment (unix_socket_policy proxy.unix_domain_socket_policy)
                ++ macos_network_policy ∷ [])))

unfoldable pub dynamic_network_policy_for_network :
    NetworkSandboxPolicy → Bool → ProxyPolicyInputs → List NetworkRule
dynamic_network_policy_for_network network_policy enforce_managed_network proxy =
    if should_use_restricted_network_policy network_policy enforce_managed_network proxy
    then restricted_rules proxy
    else if proxy.has_proxy_config
    then []
    else if enforce_managed_network
    then []
    else if is_enabled network_policy
    then outbound_everything
      ∷ inbound_everything
      ∷ (with_comment (unix_socket_policy proxy.unix_domain_socket_policy)
          ++ macos_network_policy ∷ [])
    else []

-- the lines of a rule; the last is the text of a file
abbrev pub rule_lines : Text → NetworkRule → Text
rule_lines policy local_comment = codes "; allow local binding and loopback traffic\n"
rule_lines policy dns_comment =
    codes "; allow DNS lookups while application traffic remains proxy-routed\n"
rule_lines policy unix_comment = codes "; allow unix domain sockets for local IPC\n"
rule_lines policy bind_any = codes "(allow network-bind (local ip \"*:*\"))\n"
rule_lines policy inbound_localhost = codes "(allow network-inbound (local ip \"localhost:*\"))\n"
rule_lines policy outbound_localhost =
    codes "(allow network-outbound (remote ip \"localhost:*\"))\n"
rule_lines policy outbound_dns = codes "(allow network-outbound (remote ip \"*:53\"))\n"
rule_lines policy (outbound_port port) =
    codes "(allow network-outbound (remote ip \"localhost:" ++ decimal_u32 port ++ codes "\"))\n"
rule_lines policy unix_sockets = codes "(allow system-socket (socket-domain AF_UNIX))\n"
rule_lines policy bind_any_unix = codes "(allow network-bind (local unix-socket))\n"
rule_lines policy outbound_any_unix = codes "(allow network-outbound (remote unix-socket))\n"
rule_lines policy (bind_unix index) =
    codes "(allow network-bind (local unix-socket (subpath (param \"UNIX_SOCKET_PATH_"
    ++ decimal_u32 index
    ++ codes "\"))))\n"
rule_lines policy (outbound_unix index) =
    codes "(allow network-outbound (remote unix-socket (subpath (param \"UNIX_SOCKET_PATH_"
    ++ decimal_u32 index
    ++ codes "\"))))\n"
rule_lines policy outbound_everything = codes "(allow network-outbound)\n"
rule_lines policy inbound_everything = codes "(allow network-inbound)\n"
rule_lines policy macos_network_policy = policy

abbrev pub policy_text : Text → List NetworkRule → Text
policy_text policy [] = []
policy_text policy (r ∷ rules) = rule_lines policy r ++ policy_text policy rules

module _ (h : Host) where
  abbrev pub normalized_paths : List FilePath → List FilePath
  normalized_paths [] = []
  normalized_paths (path ∷ paths) = elim (normalize_path_for_sandbox h path) [
    | none ↦ normalized_paths paths
    | some normalized ↦ normalized ∷ normalized_paths paths
  ]

  -- A `NetworkProxy` has no state: it adds nothing to the environment, lists no sockets, and does not
  -- allow local binding. The flag says whether there is one.
  unfoldable pub proxy_policy_inputs :
      (Text → Option ParsedUrl) → Bool → List FilePath → ProxyPolicyInputs
  proxy_policy_inputs parse network extra_allow_unix_sockets =
      let extra_allowed = normalized_paths extra_allow_unix_sockets in
      if network
      then record {
        ports = proxy_loopback_ports_from_env parse [];
        has_proxy_config = has_proxy_url_env_vars [];
        allow_local_binding = false;
        unix_domain_socket_policy = allowed_only ([] ++ extra_allowed);
      }
      else record {
        ports = [];
        has_proxy_config = false;
        allow_local_binding = false;
        unix_domain_socket_policy = allowed_only extra_allowed;
      }
