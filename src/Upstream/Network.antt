-- ===== src/Upstream/Network.antt =====
-- `ip_in_network` of tools/saiai-cli/src/upstream_proxy.rs.
pub mod Prefix
use Prim.Native.Nat.{bit_and}
use saiai_client.Prelude.{ℕ, ◌-◌, ◌*◌, ◌%◌, ◌^◌, Bool, true, false, ltb, ◌==◌, if◌then◌else◌}
use saiai_client.Upstream.Ip.{IpAddr, v4, v6}

-- `MAX.checked_shl(width - prefix).unwrap_or(0)` on `width` bits
unfoldable pub network_mask : ℕ → ℕ → ℕ
network_mask width prefix =
    if ltb (width - prefix) width then (2 ^ width - 1) * 2 ^ (width - prefix) % 2 ^ width else 0

unfoldable pub ip_in_network : IpAddr → IpAddr → ℕ → Bool
ip_in_network (v4 ip) (v4 network) prefix =
    bit_and ip (network_mask 32 prefix) == bit_and network (network_mask 32 prefix)
ip_in_network (v6 ip) (v6 network) prefix =
    bit_and ip (network_mask 128 prefix) == bit_and network (network_mask 128 prefix)
ip_in_network (v4 ip) (v6 network) prefix = false
ip_in_network (v6 ip) (v4 network) prefix = false
