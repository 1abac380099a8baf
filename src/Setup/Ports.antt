-- ===== src/Setup/Ports.antt =====
-- The proxies that the offline identity may reach: `proxy_ports_from_env` and its parser of URLs,
-- src/setup.rs.
pub mod Parsed
pub mod Numbers
pub mod Cuts
pub mod Hosts
pub mod Listed
use yj_sandbox.Base.{
  ℕ, ◌+◌, ◌-◌, ◌*◌, Bool, true, false, ◌&&◌, ◌||◌, not, List, [], ◌∷◌, Option, none, some, ltb, leb,
  ◌==◌, if◌then◌else◌,
}
use yj_sandbox.Base.Text.{
  Text, codes, text_eq, strip_prefix, split, split_once, trim, eq_ignore_ascii_case,
}
use yj_sandbox.Base.Ordered.{insert_port}
use yj_sandbox.Base.Maps.{map_get}
use yj_sandbox.Paths.{or_else}
use yj_sandbox.Permissions.{EnvMap, ResolvedSandboxPermissions}
use yj_sandbox.Setup.{SandboxSetupRequest}

pub record OfflineProxySettings : Type 0 where
  pub proxy_ports : List ℕ
  pub allow_local_binding : Bool

pub data SandboxNetworkIdentity : Type 0 where
  offline online : SandboxNetworkIdentity

abbrev pub uses_offline_identity : SandboxNetworkIdentity → Bool
uses_offline_identity offline = true
uses_offline_identity online = false

unfoldable pub from_permissions : ResolvedSandboxPermissions → Bool → SandboxNetworkIdentity
from_permissions permissions proxy_enforced =
    if proxy_enforced || permissions.block_network then offline else online

abbrev pub proxy_env_keys : List Text
proxy_env_keys =
    codes "HTTP_PROXY"
    ∷ codes "HTTPS_PROXY"
    ∷ codes "ALL_PROXY"
    ∷ codes "WS_PROXY"
    ∷ codes "WSS_PROXY"
    ∷ codes "http_proxy"
    ∷ codes "https_proxy"
    ∷ codes "all_proxy"
    ∷ codes "ws_proxy"
    ∷ codes "wss_proxy"
    ∷ []

abbrev pub allow_local_binding_env_key : Text
allow_local_binding_env_key = codes "CODEX_NETWORK_ALLOW_LOCAL_BINDING"

abbrev pub windows_sandbox_proxy_ports_env_key : Text
windows_sandbox_proxy_ports_env_key = codes "CODEX_WINDOWS_SANDBOX_PROXY_PORTS"

-- `str::parse::<u16>`: an optional `+`, then digits whose number is below 2 ^ 16
unfoldable pub value_of_digits : ℕ → Text → Option ℕ
value_of_digits value [] = some value
value_of_digits value (c ∷ cs) =
    let next = value * 10 + (c - 48) in
    let rest = value_of_digits next cs in
    if leb b'0' c && leb c b'9' && ltb next 65536 then rest else none

unfoldable pub parse_u16 : Text → Option ℕ
parse_u16 [] = none
parse_u16 (c ∷ []) = if c == b'+' then none else value_of_digits 0 (c ∷ [])
parse_u16 (c ∷ d ∷ cs) = value_of_digits 0 (if c == b'+' then d ∷ cs else c ∷ d ∷ cs)

-- what stands before and after the last `sep`
unfoldable pub rsplit_once : ℕ → Text → Option (Text × Text)
rsplit_once sep [] = none
rsplit_once sep (c ∷ s) = elim (rsplit_once sep s) [
  | some (before, after) ↦ some (c ∷ before, after)
  | none ↦ if c == sep then some ([], s) else none
]

-- what stands after the first occurrence of the text
unfoldable pub after_first : Text → Text → Option Text
after_first part [] = none
after_first part (c ∷ s) =
    let later = after_first part s in
    elim (strip_prefix part (c ∷ s)) [ some rest ↦ some rest | none ↦ later ]

abbrev pub first_part : List Text → Text
first_part [] = []
first_part (part ∷ _) = part

abbrev pub nonzero : Option ℕ → Option ℕ
nonzero none = none
nonzero (some port) = if port == 0 then none else some port

-- the arm for an address in brackets
unfoldable pub bracketed_port : Text → Option ℕ
bracketed_port host = elim (split_once b']' host) [
  | none ↦ none
  | some (address, rest) ↦
      if text_eq address (codes "::1")
      then (elim (strip_prefix (codes ":") rest) [
        | none ↦ none
        | some port ↦ nonzero (parse_u16 port)
      ])
      else none
]

unfoldable pub named_port : Text → Option ℕ
named_port host_port = elim (rsplit_once b':' host_port) [
  | none ↦ none
  | some (host, port) ↦
      if eq_ignore_ascii_case host (codes "localhost") || text_eq host (codes "127.0.0.1")
      then nonzero (parse_u16 port)
      else none
]

abbrev pub host_port_of : Text → Text
host_port_of authority = elim (rsplit_once b'@' authority) [
  | none ↦ authority
  | some (_, host_port) ↦ host_port
]

unfoldable pub loopback_proxy_port_from_url : Text → Option ℕ
loopback_proxy_port_from_url url = elim (after_first (codes "://") (trim url)) [
  | none ↦ none
  | some rest ↦
      let host_port = host_port_of (first_part (split b'/' rest)) in
      elim (strip_prefix (codes "[") host_port) [
        | some host ↦ bracketed_port host
        | none ↦ named_port host_port
      ]
]

abbrev pub port_of : Option Text → Option ℕ
port_of none = none
port_of (some value) = loopback_proxy_port_from_url value

abbrev pub add_port : Option ℕ → List ℕ → List ℕ
add_port none ports = ports
add_port (some port) ports = insert_port port ports

unfoldable pub add_proxies : EnvMap → List Text → List ℕ → List ℕ
add_proxies env_map [] ports = ports
add_proxies env_map (key ∷ keys) ports =
    add_proxies env_map keys (add_port (port_of (map_get env_map key)) ports)

-- the ports of the list in a variable that are numbers other than 0
unfoldable pub add_listed : List Text → List ℕ → List ℕ
add_listed [] ports = ports
add_listed (port ∷ more) ports = add_listed more (add_port (nonzero (parse_u16 (trim port))) ports)

unfoldable pub proxy_ports_from_env : EnvMap → List ℕ
unfolding add_proxies add_listed
proxy_ports_from_env env_map =
    let ports = add_proxies env_map proxy_env_keys [] in
    elim (map_get env_map windows_sandbox_proxy_ports_env_key) [
      | none ↦ ports
      | some value ↦ add_listed (split b',' value) ports
    ]

abbrev pub is_one : Option Text → Bool
is_one none = false
is_one (some value) = text_eq value (codes "1")

unfoldable pub offline_proxy_settings_from_env :
    EnvMap → SandboxNetworkIdentity → OfflineProxySettings
offline_proxy_settings_from_env env_map network_identity =
    if not (uses_offline_identity network_identity)
    then record { proxy_ports = []; allow_local_binding = false }
    else record {
      proxy_ports = proxy_ports_from_env env_map;
      allow_local_binding = is_one (map_get env_map allow_local_binding_env_key);
    }

unfoldable pub offline_proxy_settings_for_request :
    SandboxSetupRequest → Option OfflineProxySettings → OfflineProxySettings
offline_proxy_settings_for_request request settings_override = or_else settings_override (
    offline_proxy_settings_from_env request.env_map
      (from_permissions request.permissions request.proxy_enforced))
