-- ===== src/Examples/Seatbelt.antt =====
-- The network rules of src/seatbelt.rs.
use yj_sandbox.Base.{true, false, ◌≡◌, refl, [], ◌∷◌, Option, none, some, All, if◌then◌else◌}
use yj_sandbox.Base.Text.{
  Text, codes, text_eq, starts_with, eq_ignore_ascii_case, to_ascii_lowercase, trim, trim_matches,
  trim_start_while, trim_end_while, is_whitespace, digits,
}
use yj_sandbox.Base.Ordered.{insert_port, text_ltb}
use yj_sandbox.Base.Maps.{TextMap, map_get}
use yj_sandbox.Base.Unix.{unix_with_files}
use yj_sandbox.Macos.{restricted, enabled}
use yj_sandbox.Seatbelt.{
  ParsedUrl, has_proxy_url_env_vars, is_loopback_host, proxy_scheme_default_port, contains_part,
  loopback_port, ports_of_keys, proxy_loopback_ports_from_env, allowed_only, ProxyPolicyInputs,
  normalize_path_for_sandbox, insert_path, insert_paths, unix_socket_path_params, outbound_port,
  unix_comment, unix_sockets, bind_unix, outbound_unix, macos_network_policy, socket_rules,
  unix_socket_policy, should_use_restricted_network_policy, restricted_rules,
  dynamic_network_policy_for_network, policy_text, proxy_policy_inputs,
}
use yj_sandbox.Seatbelt.Network.{IsAllowed, dynamic_network_policy-IsAllowed}

networking : Unit {0}
unfolding text_eq starts_with eq_ignore_ascii_case to_ascii_lowercase trim trim_matches
    trim_start_while trim_end_while is_whitespace digits map_get unix_with_files
    has_proxy_url_env_vars is_loopback_host proxy_scheme_default_port contains_part insert_port
    loopback_port ports_of_keys proxy_loopback_ports_from_env normalize_path_for_sandbox text_ltb
    insert_path insert_paths unix_socket_path_params socket_rules unix_socket_policy
    should_use_restricted_network_policy restricted_rules dynamic_network_policy_for_network
    proxy_policy_inputs
networking = tt

-- Two URLs are understood.
unfoldable parse : Text → Option ParsedUrl
unfolding text_eq
parse t =
    if text_eq t (codes "http://localhost:8080")
    then some
        (record { scheme = codes "http"; host_str = some (codes "localhost"); port = some 8080 })
    else if text_eq t (codes "socks5://LocalHost")
    then some (record { scheme = codes "SOCKS5"; host_str = some (codes "LocalHost"); port = none })
    else none

abbrev env : TextMap Text
env =
    (codes "HTTP_PROXY", codes " localhost:8080")
    ∷ (codes "ALL_PROXY", codes "socks5://LocalHost")
    ∷ []

ports_test : proxy_loopback_ports_from_env parse env ≡ 1080 ∷ 8080 ∷ []
unfolding networking parse
ports_test = refl

abbrev proxy : ProxyPolicyInputs
proxy = record {
  ports = 8080 ∷ [];
  has_proxy_config = true;
  allow_local_binding = false;
  unix_domain_socket_policy = allowed_only (codes "/b" ∷ codes "/a" ∷ codes "/b" ∷ []);
}

policy_test :
    dynamic_network_policy_for_network enabled false proxy
    ≡ outbound_port 8080
      ∷ unix_comment
      ∷ unix_sockets
      ∷ bind_unix 0
      ∷ outbound_unix 0
      ∷ bind_unix 1
      ∷ outbound_unix 1
      ∷ macos_network_policy
      ∷ []
unfolding networking
policy_test = refl

text_test :
    policy_text (codes "; end") (outbound_port 8080 ∷ macos_network_policy ∷ [])
    ≡ codes "(allow network-outbound (remote ip \"localhost:8080\"))\n; end"
unfolding networking
text_test = refl

-- A proxy configuration without any port on the loopback gets the common rules and is not left empty.
no_endpoint_test :
    dynamic_network_policy_for_network restricted false
      (record proxy { ports = []; unix_domain_socket_policy = allowed_only [] })
    ≡ macos_network_policy ∷ []
unfolding networking
no_endpoint_test = refl

dynamic_network_policy-IsAllowed_example :
    All (IsAllowed enabled false proxy) (dynamic_network_policy_for_network enabled false proxy)
dynamic_network_policy-IsAllowed_example = dynamic_network_policy-IsAllowed enabled false proxy

abbrev no_proxy : ProxyPolicyInputs
no_proxy = record {
  ports = [];
  has_proxy_config = false;
  allow_local_binding = true;
  unix_domain_socket_policy = allowed_only [];
}
