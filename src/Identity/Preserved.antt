-- ===== src/Identity/Preserved.antt =====
-- The settings that src/identity.rs preserves agree with the marker they come from.
use yj_sandbox.Base.{ℕ, Bool, true, false, ◌≡◌, refl, ◌∙◌, ap, List, [], ◌∷◌, some, arith}
use yj_sandbox.Base.Text.{Text}
use yj_sandbox.Setup.Ports.{SandboxNetworkIdentity, offline, online}
use yj_sandbox.Setup.Launch.{SetupMarker, marker_matches}
use yj_sandbox.Identity.{
  preserve, ports_eq, bool_eq, request_mismatches, desired_offline_proxy_settings,
}

bool_eq_refl : (b : Bool) → bool_eq b b ≡ true
bool_eq_refl true = refl
bool_eq_refl false = refl

ports_eq_refl : (ports : List ℕ) → ports_eq ports ports ≡ true
ports_eq_refl [] = refl
ports_eq_refl (p ∷ ports) = ground (arith, ports_eq_refl ports)

preserved :
    (marker : SetupMarker) (env : List (Text × Text)) (network_identity : SandboxNetworkIdentity)
    → marker_matches marker ≡ true
    → desired_offline_proxy_settings (some marker) preserve env network_identity ≡ record {
      proxy_ports = marker.proxy_ports;
      allow_local_binding = marker.allow_local_binding;
    }
unfolding desired_offline_proxy_settings
preserved marker env network_identity e = ground (arith, e)

own_settings :
    (marker : SetupMarker) (network_identity : SandboxNetworkIdentity)
    → request_mismatches marker network_identity (record {
      proxy_ports = marker.proxy_ports;
      allow_local_binding = marker.allow_local_binding;
    })
      ≡ false
unfolding request_mismatches
own_settings marker online = refl
own_settings marker offline =
    ground (arith, bool_eq_refl marker.allow_local_binding, ports_eq_refl marker.proxy_ports)

-- Under `preserve`, a marker of this version never differs from what is wanted of the proxies.
preserve_agrees :
    (marker : SetupMarker) (env : List (Text × Text)) (network_identity : SandboxNetworkIdentity)
    → marker_matches marker ≡ true
    → request_mismatches marker network_identity
        (desired_offline_proxy_settings (some marker) preserve env network_identity)
      ≡ false
preserve_agrees marker env network_identity e =
    ap (request_mismatches marker network_identity) (preserved marker env network_identity e)
    ∙ own_settings marker network_identity
